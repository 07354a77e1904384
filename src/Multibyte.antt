-- ===== src/Multibyte.antt =====
-- `src/multibyte`: UTF-8 as a restartable decoder and an encoder. `internal.h` and `internal.c`
-- are modelled here: the table of lead bytes with its packed state, and the test of the byte after
-- a lead byte. An `unsigned` is a number below 2 ^ 32 and wraps.
pub mod Table
pub mod Encode
pub mod Decode
pub mod Utf8
pub mod Whole
pub mod Utf16
pub mod RoundTrip
pub mod Restart
mod Examples
use leblibc.Prelude.{
  ℕ, ◌+◌, ◌-◌, ◌*◌, ◌/◌, ◌%◌, ◌^◌, List, [], ◌∷◌, ◌++◌, map, Bool, true, false, not, ltb, leb, ◌==◌,
  ◌&&◌, if◌then◌else◌, bit_and, bit_or, get_or, Option,
}

abbrev pub word_mod : ℕ
word_mod = 2 ^ 32

-- The first and last lead bytes.
abbrev pub sa : ℕ
sa = 0xc2

abbrev pub sb : ℕ
sb = 0xf4

-- `R(a,b)`: the range of the byte that may follow, negated and packed into the high bits.
abbrev pub range : ℕ → ℕ → ℕ
range a b = (if a == 0x80 then 0x40 + word_mod - b else word_mod - a) * 2 ^ 23 % word_mod

-- `C(x)`, `D(x)`, `E(x)` and `F(x)`: lead bytes 0xc0 + x, 0xd0 + x, 0xe0 + x and 0xf0 + x.
abbrev lead_c : ℕ → ℕ
lead_c x = if ltb x 2 then word_mod - 1 else bit_or (range 0x80 0xc0) x

abbrev lead_d : ℕ → ℕ
lead_d x = lead_c (x + 16)

abbrev lead_e : ℕ → ℕ
lead_e x =
    bit_or
      (bit_or
        (if x == 0
          then range 0xa0 0xc0
          else (if x == 0xd then range 0x80 0xa0 else range 0x80 0xc0))
        (range 0x80 0xc0 / 2 ^ 6))
      x

abbrev lead_f : ℕ → ℕ
lead_f x =
    bit_or
      (bit_or
        (bit_or
          (if leb 5 x
            then 0
            else (if x == 0
                then range 0x90 0xc0
                else (if x == 4 then range 0x80 0x90 else range 0x80 0xc0)))
          (range 0x80 0xc0 / 2 ^ 6))
        (range 0x80 0xc0 / 2 ^ 12))
      x

abbrev nibbles : List ℕ
nibbles = 0 ∷ 1 ∷ 2 ∷ 3 ∷ 4 ∷ 5 ∷ 6 ∷ 7 ∷ 8 ∷ 9 ∷ 10 ∷ 11 ∷ 12 ∷ 13 ∷ 14 ∷ 15 ∷ []

-- `bittab`, the start states for the lead bytes from 0xc2 to 0xf4.
unfoldable pub bittab : List ℕ
bittab =
    map lead_c (2 ∷ 3 ∷ 4 ∷ 5 ∷ 6 ∷ 7 ∷ 8 ∷ 9 ∷ 10 ∷ 11 ∷ 12 ∷ 13 ∷ 14 ∷ 15 ∷ [])
    ++ (map lead_d nibbles ++ (map lead_e nibbles ++ map lead_f (0 ∷ 1 ∷ 2 ∷ 3 ∷ 4 ∷ [])))

-- `(int32_t)(c)>>26` as an unsigned word: the sign is shifted in.
abbrev pub top_bits : ℕ → ℕ
top_bits t = if ltb t 32 then t else t + (word_mod - 64)

-- `OOB(c,b)` for a state whose six highest bits are `t`: is the byte `b` outside the range?
unfoldable pub oob_top : ℕ → ℕ → Bool
oob_top t b = not (
    bit_and (bit_or ((b / 8 + word_mod - 0x10) % word_mod) ((b / 8 + top_bits t) % word_mod))
      (word_mod - 8)
    == 0)

abbrev pub oob : ℕ → ℕ → Bool
oob c b = oob_top (c / 2 ^ 26) b

-- `*s-0x80u >= 0x40`.
abbrev pub not_continuation : ℕ → Bool
not_continuation b = leb 0x40 ((b + word_mod - 0x80) % word_mod)

-- `CODEUNIT(c)`, with the sign of the byte extended, and `IS_CODEUNIT(c)`.
abbrev pub codeunit : ℕ → ℕ
codeunit b = bit_and 0xdfff (if ltb b 0x80 then b else b + word_mod - 0x100)

abbrev pub is_codeunit : ℕ → Bool
is_codeunit c = ltb ((c + word_mod - 0xdf80) % word_mod) 0x80
