-- ===== src/Multibyte/Encode.antt =====
-- `wcrtomb.c`, `wctomb.c`, `wctob.c` and `btowc.c`. The argument `single` is `MB_CUR_MAX == 1`, the
-- C locale; otherwise the locale is UTF-8.
use leblibc.Prelude.{
  ℕ, ◌+◌, ◌-◌, ◌/◌, ◌%◌, ◌^◌, List, [], ◌∷◌, Bool, ltb, ◌==◌, ◌||◌, ◌&&◌, not, if◌then◌else◌,
  bit_and, bit_or, Option, none, some,
}
use leblibc.Multibyte.{word_mod, codeunit, is_codeunit}

-- `wcrtomb` with a buffer: the bytes that it stores, as many as it returns, or -1 with EILSEQ.
unfoldable pub wcrtomb : Bool → ℕ → Option (List ℕ)
wcrtomb single wc =
    if ltb wc 0x80
    then some (wc ∷ [])
    else if single
    then (if is_codeunit wc then some (wc % 0x100 ∷ []) else none)
    else if ltb wc 0x800
    then some (bit_or 0xc0 (wc / 2 ^ 6) ∷ bit_or 0x80 (bit_and wc 0x3f) ∷ [])
    else if ltb wc 0xd800 || ltb ((wc + word_mod - 0xe000) % word_mod) 0x2000
    then some (
        bit_or 0xe0 (wc / 2 ^ 12)
        ∷ bit_or 0x80 (bit_and (wc / 2 ^ 6) 0x3f)
        ∷ bit_or 0x80 (bit_and wc 0x3f)
        ∷ [])
    else if ltb ((wc + word_mod - 0x10000) % word_mod) 0x100000
    then some (
        bit_or 0xf0 (wc / 2 ^ 18)
        ∷ bit_or 0x80 (bit_and (wc / 2 ^ 12) 0x3f)
        ∷ bit_or 0x80 (bit_and (wc / 2 ^ 6) 0x3f)
        ∷ bit_or 0x80 (bit_and wc 0x3f)
        ∷ [])
    else none

-- `none` is EOF; the argument is an unsigned `wint_t`.
unfoldable pub wctob : Bool → ℕ → Option ℕ
wctob single c =
    if ltb c 128 then some c else if single && is_codeunit c then some (c % 0x100) else none

-- `none` is WEOF. The argument is an `int`, as an unsigned word; EOF is -1.
unfoldable pub btowc : Bool → ℕ → Option ℕ
btowc single c =
    let b = c % 0x100 in
    if ltb b 128
    then some b
    else if single && not (c == word_mod - 1)
    then some (codeunit b)
    else none
