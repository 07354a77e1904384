-- ===== src/Multibyte/Decode.antt =====
-- `mbrtowc.c`, `mbrlen.c` and `mbsinit.c`. The bytes that may be read are a list, `s` with `n` its
-- length; the state is the `unsigned` that `st` points to.
pub mod Loop
use leblibc.Prelude.{
  ℕ, zero, suc, ◌+◌, ◌-◌, ◌*◌, ◌/◌, ◌%◌, ◌^◌, List, [], ◌∷◌, Bool, true, false, ltb, ◌==◌, not,
  if◌then◌else◌, bit_and, bit_or, Option, none, some, get_or,
}
use leblibc.Multibyte.{word_mod, sa, sb, bittab, oob, not_continuation, codeunit}

-- What is returned: a length, -2, or -1 with EILSEQ.
pub data Ret : Type 0 where
  length_of : ℕ → Ret
  incomplete ilseq : Ret

-- What a call leaves: the state, the wide character stored, if any, and what it returns.
pub record Decoded : Type 0 where
  pub state : ℕ
  pub stored : Option ℕ
  pub ret : Ret

abbrev pub bad : Decoded
bad = record { state = 0; stored = none; ret = ilseq }

-- `c<<6 | *s++-0x80`.
abbrev pub shift_in : ℕ → ℕ → ℕ
shift_in c b = bit_or (c * 2 ^ 6 % word_mod) ((b + word_mod - 0x80) % word_mod)

-- `!(c&(1U<<31))`.
abbrev pub complete : ℕ → Bool
complete c = bit_and c (2 ^ 31) == 0

-- From the label `loop` on, with the byte `b` at hand; `used` bytes came before it.
unfoldable pub loop : ℕ → ℕ → ℕ → List ℕ → Decoded
loop used c b [] =
    let c' = shift_in c b in
    if complete c'
    then record { state = 0; stored = some c'; ret = length_of (suc used) }
    else record { state = c'; stored = none; ret = incomplete }
loop used c b (b' ∷ rest) =
    let c' = shift_in c b in
    if complete c'
    then record { state = 0; stored = some c'; ret = length_of (suc used) }
    else if not_continuation b'
    then bad
    else loop (suc used) c' b' rest

-- `if (n) { … }` and what follows, in the state `c` after `used` bytes.
unfoldable pub resume : ℕ → ℕ → List ℕ → Decoded
resume used c [] = record { state = c; stored = none; ret = incomplete }
resume used c (b ∷ rest) = if oob c b then bad else loop used c b rest

-- `none` for `s` is a null pointer.
unfoldable pub mbrtowc : Bool → ℕ → Option (List ℕ) → Decoded
mbrtowc single c none =
    if c == 0 then record { state = c; stored = none; ret = length_of 0 } else bad
mbrtowc single c (some []) = record { state = c; stored = none; ret = incomplete }
mbrtowc single c (some (b ∷ rest)) =
    if not (c == 0)
    then resume 0 c (b ∷ rest)
    else if ltb b 0x80
    then record { state = c; stored = some b; ret = length_of (if b == 0 then 0 else 1) }
    else if single
    then record { state = c; stored = some (codeunit b); ret = length_of 1 }
    else if ltb (sb - sa) ((b + word_mod - sa) % word_mod)
    then bad
    else resume 1 (get_or bittab (b - sa) 0) rest

-- `mbrlen` stores no character.
unfoldable pub mbrlen : ℕ → Option (List ℕ) → Bool → Decoded
mbrlen c s single = let d = mbrtowc single c s in record d { stored = none }

-- `none` is a null `st`.
unfoldable pub mbsinit : Option ℕ → Bool
mbsinit none = true
mbsinit (some c) = c == 0
