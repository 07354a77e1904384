-- ===== src/Multibyte/Whole/Steps.antt =====
-- The bytes of `mbtowc`, one by one, and when it takes a character for too short.
use leblibc.Prelude.{
  ℕ, zero, suc, ◌+◌, ◌-◌, ◌*◌, ◌/◌, ◌%◌, ◌^◌, ◌≤◌, ◌<◌, List, ◌∷◌, ◌≡◌, refl, sym, Bool, true,
  false, ltb, if◌then◌else◌, Option, some, length, arith, inl, inr, Bool-cases,
}
use leblibc.Multibyte.{word_mod, oob}
use leblibc.Multibyte.Table.{outside, oob_state, Allows, not_continuation-outside}
use leblibc.Multibyte.Decode.{Decoded, bad, Ret, length_of, incomplete, ilseq}
use leblibc.Multibyte.Decode.Loop.{
  IsContinuation, low6, shift_in_sum, complete_small, complete_marked, then_one, then_two, Last,
  OneMore, TwoMore, one_shifted, one_marked, two_shifted, two_marked,
}
use leblibc.Multibyte.Utf8.Agrees.{later_byte}
use leblibc.Multibyte.Whole.{Result, refused, done, too_short, second, third, fourth, after_lead}

-- A decoder without a state refuses a character that is not finished.
abbrev pub ended : Ret → Ret
ended incomplete = ilseq
ended (length_of n) = length_of n
ended ilseq = ilseq

abbrev pub whole : Decoded → Option Result
whole d = some (d.stored, ended d.ret)

pub marked : (n c : ℕ) → n < 4 → 2 ^ 31 ≤ c * 2 ^ (6 * n - 6) % word_mod → too_short n c ≡ true
marked n c lt h =
    let m = complete_marked (c * 2 ^ (6 * n - 6) % word_mod) h (omega arith) in
    let small : ltb n 4 ≡ true = ground arith in rw (small, m) refl

unmarked : (n c : ℕ) → c * 2 ^ (6 * n - 6) % word_mod < 2 ^ 31 → too_short n c ≡ false
unmarked n c h =
    let m = complete_small (c * 2 ^ (6 * n - 6) % word_mod) h in
    elim (Bool-cases (ltb n 4)) [ inl e ↦ rw (e, m) refl | inr e ↦ rw e refl ]

pub fourth-Last :
    (c v b : ℕ) (rest : List ℕ)
    → Last c v
    → b < 256
    → fourth c (b ∷ rest) ≡ (if outside 0x80 0xc0 b then refused else done 4 (v * 64 + low6 b))
unfolding fourth
fourth-Last c v b rest h lt = elim (Bool-cases (outside 0x80 0xc0 b)) [
  | inl out ↦ rw (not_continuation-outside b lt, out) refl
  | inr within ↦
      rw (not_continuation-outside b lt, within, shift_in_sum c v b h.0 (later_byte b within)) refl
]

pub third-Last :
    (c v b : ℕ) (rest : List ℕ)
    → Last c v
    → b < 256
    → third c (b ∷ rest) ≡ (if outside 0x80 0xc0 b then refused else done 3 (v * 64 + low6 b))
unfolding third
third-Last c v b rest h lt = elim (Bool-cases (outside 0x80 0xc0 b)) [
  | inl out ↦ rw (not_continuation-outside b lt, out) refl
  | inr within ↦
      rw
        (
          not_continuation-outside b lt,
          within,
          shift_in_sum c v b h.0 (later_byte b within),
          complete_small (v * 64 + low6 b) (omega arith),
        )
        refl
]

pub third-more :
    (c v b : ℕ) (rest : List ℕ)
    → OneMore c v
    → b < 256
    → third c (b ∷ rest)
      ≡ (if outside 0x80 0xc0 b then refused else fourth (then_one (v * 64 + low6 b)) rest)
unfolding third
third-more c v b rest h lt = elim (Bool-cases (outside 0x80 0xc0 b)) [
  | inl out ↦ rw (not_continuation-outside b lt, out) refl
  | inr within ↦
      let k = later_byte b within in
      rw (not_continuation-outside b lt, within, one_shifted c v b k h, one_marked c v b k h) refl
]

-- Four bytes are always enough.
pub long : (k c : ℕ) → too_short (suc (suc (suc (suc k)))) c ≡ false
long k c = ground arith

pub long-Last : (k c v : ℕ) → Last c v → too_short (suc (suc k)) c ≡ false
long-Last zero c v h = unmarked 2 c (omega (arith, h))
long-Last (suc zero) c v h = unmarked 3 c (omega (arith, h))
long-Last (suc (suc k)) c v h = long k c

pub long-OneMore : (k c v : ℕ) → OneMore c v → too_short (suc (suc (suc k))) c ≡ false
long-OneMore zero c v h = unmarked 3 c (omega (arith, h))
long-OneMore (suc k) c v h = long k c

-- The byte after the lead byte, in the range of the state.
module _ (c lo hi b : ℕ) (rest : List ℕ) (range : Allows (c / 2 ^ 26) lo hi) (lt : b < 256)
    (inside : outside lo hi b ≡ false → IsContinuation b) where
  second_range : oob c b ≡ outside lo hi b
  second_range = oob_state c lo hi b range lt

  pub second-Last :
      (v : ℕ)
      → Last c v
      → second c (b ∷ rest) ≡ (if outside lo hi b then refused else done 2 (v * 64 + low6 b))
  unfolding second
  second-Last v h = elim (Bool-cases (outside lo hi b)) [
    | inl out ↦ rw (second_range, out) refl
    | inr within ↦
        rw
          (
            second_range,
            within,
            shift_in_sum c v b h.0 (inside within),
            complete_small (v * 64 + low6 b) (omega arith),
          )
          refl
  ]

  pub second-one :
      (v : ℕ)
      → OneMore c v
      → second c (b ∷ rest)
        ≡ (if outside lo hi b then refused else third (then_one (v * 64 + low6 b)) rest)
  unfolding second
  second-one v h = elim (Bool-cases (outside lo hi b)) [
    | inl out ↦ rw (second_range, out) refl
    | inr within ↦
        let k = inside within in
        rw (second_range, within, one_shifted c v b k h, one_marked c v b k h) refl
  ]

  pub second-two :
      (v : ℕ)
      → TwoMore c v
      → second c (b ∷ rest)
        ≡ (if outside lo hi b then refused else third (then_two (v * 64 + low6 b)) rest)
  unfolding second
  second-two v h = elim (Bool-cases (outside lo hi b)) [
    | inl out ↦ rw (second_range, out) refl
    | inr within ↦
        let k = inside within in
        rw (second_range, within, two_shifted c v b k h, two_marked c v b k h) refl
  ]

-- Two decoders that refuse alike agree where they agree on what they accept.
pub whole-unless :
    (t : Bool) (x : Option Result) (y : Decoded)
    → (t ≡ false → x ≡ whole y)
    → (if t then refused else x) ≡ whole (if t then bad else y)
whole-unless true x y h = refl
whole-unless false x y h = h refl

pub after_lead-short :
    (c : ℕ) (s : List ℕ) → too_short (suc (length s)) c ≡ true → after_lead c s ≡ refused
unfolding after_lead
after_lead-short c s e = rw e refl

pub after_lead-long :
    (c : ℕ) (s : List ℕ) → too_short (suc (length s)) c ≡ false → after_lead c s ≡ second c s
unfolding after_lead
after_lead-long c s e = rw e refl

-- What is left of a refused character, where it is too short as well.
pub refused-unless :
    (t : Bool) (y : Decoded) → whole y ≡ refused → refused ≡ whole (if t then bad else y)
refused-unless true y h = refl
refused-unless false y h = sym h
