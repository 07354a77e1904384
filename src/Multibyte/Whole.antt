-- ===== src/Multibyte/Whole.antt =====
-- `mbtowc.c`: the decoder of a whole character, without a state and with its loop written out. A read
-- behind the `n` bytes is `none`, so that its absence is proved.
mod Steps
pub mod Agrees
mod Examples
use leblibc.Prelude.{
  ℕ, zero, suc, ◌+◌, ◌-◌, ◌*◌, ◌%◌, ◌^◌, List, [], ◌∷◌, Bool, not, ltb, ◌==◌, ◌&&◌, if◌then◌else◌,
  Option, none, some, get_or, length, ◌>>=◌,
}
use leblibc.Multibyte.{word_mod, sa, sb, bittab, oob, not_continuation, codeunit}
use leblibc.Multibyte.Decode.{Ret, length_of, ilseq, shift_in, complete}

-- What is stored, if anything, and what is returned.
abbrev pub Result : Type 0
Result = Option ℕ × Ret

-- At the label `ilseq`.
abbrev pub refused : Option Result
refused = some (none, ilseq)

abbrev pub done : ℕ → ℕ → Option Result
done n wc = some (some wc, length_of n)

-- `n<4 && ((c<<(6*n-6)) & (1U<<31))`.
abbrev pub too_short : ℕ → ℕ → Bool
too_short n c = ltb n 4 && not (complete (c * 2 ^ (6 * n - 6) % word_mod))

unfoldable pub fourth : ℕ → List ℕ → Option Result
fourth c [] = none
fourth c (b ∷ rest) = if not_continuation b then refused else done 4 (shift_in c b)

unfoldable pub third : ℕ → List ℕ → Option Result
unfolding fourth
third c [] = none
third c (b ∷ rest) =
    let c' = shift_in c b in
    if not_continuation b then refused else if complete c' then done 3 c' else fourth c' rest

unfoldable pub second : ℕ → List ℕ → Option Result
unfolding third
second c [] = none
second c (b ∷ rest) =
    let c' = shift_in c b in
    if oob c b then refused else if complete c' then done 2 c' else third c' rest

unfoldable pub after_lead : ℕ → List ℕ → Option Result
unfolding second
after_lead c rest = if too_short (suc (length rest)) c then refused else second c rest

-- `none` for `src` is a null pointer; the list has `n` bytes.
unfoldable pub mbtowc : Bool → Option (List ℕ) → Option Result
unfolding after_lead
mbtowc single none = some (none, length_of 0)
mbtowc single (some []) = refused
mbtowc single (some (b ∷ rest)) =
    if ltb b 0x80
    then done (if b == 0 then 0 else 1) b
    else if single
    then done 1 (codeunit b)
    else if ltb (sb - sa) ((b + word_mod - sa) % word_mod)
    then refused
    else after_lead (get_or bittab (b - sa) 0) rest

-- `mblen` stores no character.
unfoldable pub mblen : Bool → Option (List ℕ) → Option Result
unfolding mbtowc
mblen single src = mbtowc single src >>= λ (wc, ret). some (none, ret)
