-- ===== src/Multibyte/Restart.antt =====
-- The decoder restarts: bytes that come in two calls are decoded as if they came in one.
use leblibc.Prelude.{
  ℕ, suc, ◌+◌, ◌-◌, ◌*◌, ◌/◌, ◌^◌, ◌≤◌, ◌<◌, List, [], ◌∷◌, ◌++◌, ◌≡◌, refl, Bool, true, false,
  ◌==◌, if◌then◌else◌, some, arith, inl, inr, ◌⊎◌, ◌∙◌, sym, length, ap, Bool-cases, ==_iff,
}
use native.Mathlib.Decide.{dec_lt}
use leblibc.Multibyte.{oob, not_continuation}
use leblibc.Multibyte.Table.{outside, start_state, Allows, oob_state, not_continuation-outside}
use leblibc.Multibyte.Decode.{
  Decoded, Ret, length_of, incomplete, ilseq, bad, loop, resume, mbrtowc, shift_in, complete,
}
use leblibc.Multibyte.Decode.Loop.{
  IsContinuation, low6, shift_in_sum, complete_small, Last, OneMore, TwoMore,
}
use leblibc.Multibyte.Utf8.Agrees.{
  IsBytes, lead_resumed, no_lead, two_start, three_start, four_start, three-Allows, four-Allows,
  second_byte, later_byte,
}
use leblibc.Multibyte.Utf8.{second_lo, second_hi}

-- A result, as it counts with `n` bytes read by earlier calls.
abbrev pub longer : ℕ → Ret → Ret
longer n (length_of k) = length_of (n + k)
longer n incomplete = incomplete
longer n ilseq = ilseq

abbrev pub after : ℕ → Decoded → Decoded
after n d = record d { ret = longer n d.ret }

loop-after : (n used c b : ℕ) (s : List ℕ) → loop (n + used) c b s ≡ after n (loop used c b s)
unfolding loop
loop-after n used c b [] = elim (Bool-cases (complete (shift_in c b))) [
  | inl e ↦ rw e (
      ap (λ k. record { state = 0; stored = some (shift_in c b); ret = length_of k }) (omega arith))
  | inr e ↦ rw e
]
loop-after n used c b (b' ∷ s) = elim (Bool-cases (complete (shift_in c b))) [
  | inl e ↦ rw e (
      ap (λ k. record { state = 0; stored = some (shift_in c b); ret = length_of k }) (omega arith))
  | inr e ↦ elim (Bool-cases (not_continuation b')) [
    | inl f ↦ rw (e, f)
    | inr f ↦
        let moved : suc (n + used) ≡ n + suc used = omega arith in
        rw (e, f, moved) (loop-after n (suc used) (shift_in c b) b' s)
  ]
]

-- How many bytes are to come after the next.
abbrev Kind : ℕ → Type 0
Kind c = (v : ℕ) × (Last c v ⊎ OneMore c v ⊎ TwoMore c v)

Kind-step :
    (c b : ℕ)
    → Kind c
    → IsContinuation b
    → complete (shift_in c b) ≡ false
    → Kind (shift_in c b) × (shift_in c b / 2 ^ 26 ≡ 48)
Kind-step c b (v, inl h) k m =
    let sum = shift_in_sum c v b h.0 k in absurd (still_marked (rw sum at m))
  where
    still_marked : complete (v * 64 + low6 b) ≡ false → ⊥
    still_marked q = let full = complete_small (v * 64 + low6 b) (omega arith) in cc
Kind-step c b (v, inr (inl h)) k m =
    rw (shift_in_sum c (0x0300_0000 + v) b h.0 k)
      ((v * 64 + low6 b, inl (omega arith)), omega arith)
Kind-step c b (v, inr (inr h)) k m =
    rw (shift_in_sum c (0x0300_0000 + 0x000c_0000 + v) b h.0 k)
      ((v * 64 + low6 b, inr (inl (omega arith))), omega arith)

unfinished_end :
    (used c b : ℕ) → (loop used c b []).ret ≡ incomplete → complete (shift_in c b) ≡ false
unfolding loop
unfinished_end used c b h = ground arith

unfinished_next :
    (used c b b' : ℕ) (s : List ℕ)
    → (loop used c b (b' ∷ s)).ret ≡ incomplete
    → (complete (shift_in c b) ≡ false) × (not_continuation b' ≡ false)
unfolding loop
unfinished_next used c b b' s h = ground arith

unless_bad-after :
    (n : ℕ) (u : Bool) (x y : Decoded)
    → x ≡ after n y
    → (if u then bad else x) ≡ after n (if u then bad else y)
unless_bad-after n true x y e = refl
unless_bad-after n false x y e = e

restarted : (used c b : ℕ) (t : List ℕ) → loop (suc used) c b t ≡ after (used + 1) (loop 0 c b t)
restarted used c b t =
    let moved : suc used ≡ used + 1 + 0 = omega arith in rw moved (loop-after (used + 1) 0 c b t)

continues : (b : ℕ) → b < 256 → not_continuation b ≡ false → IsContinuation b
continues b lt e = ground arith

-- The loop over bytes that end within a character, and over more bytes after them.
loop_restart :
    (used c b0 : ℕ) (s : List ℕ) (b : ℕ) (t : List ℕ)
    → Kind c
    → IsContinuation b0
    → IsBytes s
    → b < 256
    → (loop used c b0 s).ret ≡ incomplete
    → loop used c b0 (s ++ b ∷ t)
      ≡ after (used + suc (length s)) (resume 0 (loop used c b0 s).state (b ∷ t))
unfolding loop resume
loop_restart used c b0 [] b t kind k bytes lt h =
    let m = unfinished_end used c b0 h in
    let step = Kind-step c b0 kind k m in
    rw
      (
        m,
        not_continuation-outside b lt,
        oob_state (shift_in c b0) 0x80 0xc0 b (inl (step.1, refl, refl)) lt,
      )
      (unless_bad-after (used + 1) (outside 0x80 0xc0 b) _ _ (restarted used (shift_in c b0) b t))
loop_restart used c b0 (b1 ∷ s) b t kind k bytes lt h =
    let m = unfinished_next used c b0 b1 s h in
    let step = Kind-step c b0 kind k m.0 in
    let moved : used + suc (suc (length s)) ≡ suc used + suc (length s) = omega arith in
    rw (m.0, m.1, moved)
      (loop_restart (suc used) (shift_in c b0) b1 s b t step.0 (continues b1 bytes.0 m.1) bytes.1 lt
        (rw (m.0, m.1) at h))

-- A state that is kept is not the initial one.
kept_marked :
    (used c b : ℕ) (s : List ℕ)
    → (loop used c b s).ret ≡ incomplete
    → complete (loop used c b s).state ≡ false
unfolding loop
kept_marked used c b [] h = ground arith
kept_marked used c b (b' ∷ s) h =
    let m = unfinished_next used c b b' s h in
    rw (m.0, m.1) (kept_marked (suc used) (shift_in c b) b' s (rw (m.0, m.1) at h))

marked_nonzero : (c : ℕ) → complete c ≡ false → (c == 0) ≡ false
marked_nonzero c m = elim (Bool-cases (c == 0)) [
  | inl e ↦ absurd (zero_complete (rw ((==_iff c 0).0 e) at m))
  | inr e ↦ e
]
  where
    zero_complete : complete 0 ≡ false → ⊥
    zero_complete q = cc

-- A call in a state other than the initial one goes on with the character.
mbrtowc_goes_on :
    (c b : ℕ) (t : List ℕ) → (c == 0) ≡ false → mbrtowc false c (some (b ∷ t)) ≡ resume 0 c (b ∷ t)
unfolding mbrtowc
mbrtowc_goes_on c b t e = rw e

-- The state after a lead byte.
record IsLead (b0 : ℕ) : Type 0 where
  lo : ℕ
  hi : ℕ
  allows : Allows (start_state b0 / 2 ^ 26) lo hi
  inside : (b : ℕ) → outside lo hi b ≡ false → IsContinuation b
  kind : Kind (start_state b0)
  nonzero : (start_state b0 == 0) ≡ false

IsLead-start : (b0 : ℕ) → 0xc2 ≤ b0 → b0 ≤ 0xf4 → IsLead b0
IsLead-start b0 p q = elim (dec_lt b0 0xe0) [
  | yes h ↦ record {
    lo = 0x80;
    hi = 0xc0;
    allows = inl ((two_start b0 p h).1, refl, refl);
    inside = later_byte;
    kind = (b0 - 0xc0, inl (two_start b0 p h).0);
    nonzero = ground arith;
  }
  | no h ↦ elim (dec_lt b0 0xf0) [
    | yes k ↦ record {
      lo = second_lo b0;
      hi = second_hi b0;
      allows = three-Allows b0 (omega arith) k;
      inside = second_byte b0;
      kind = (b0 - 0xe0, inr (inl (three_start b0 (omega arith) k)));
      nonzero = ground arith;
    }
    | no k ↦ record {
      lo = second_lo b0;
      hi = second_hi b0;
      allows = four-Allows b0 (omega arith) (omega arith);
      inside = second_byte b0;
      kind = (b0 - 0xf0, inr (inr (four_start b0 (omega arith) (omega arith))));
      nonzero = ground arith;
    }
  ]
]

not_bad : (u : Bool) (x : Decoded) → (if u then bad else x).ret ≡ incomplete → u ≡ false
not_bad true x h = cc
not_bad false x h = refl

-- Only a lead byte leaves a character unfinished.
lead_range :
    (b0 : ℕ) (s : List ℕ)
    → b0 < 256
    → (mbrtowc false 0 (some (b0 ∷ s))).ret ≡ incomplete
    → (0xc2 ≤ b0) × (b0 ≤ 0xf4)
lead_range b0 s lt h = let other = no_lead b0 s lt in ground (arith, other.0, other.1, other.2)

lead_restart :
    (b0 : ℕ) (s : List ℕ) (b : ℕ) (t : List ℕ)
    → IsLead b0
    → IsBytes s
    → b < 256
    → (resume 1 (start_state b0) s).ret ≡ incomplete
    → resume 1 (start_state b0) (s ++ b ∷ t)
      ≡ after (suc (length s)) (mbrtowc false (resume 1 (start_state b0) s).state (some (b ∷ t)))
unfolding resume
lead_restart b0 [] b t l bytes lt h = rw (mbrtowc_goes_on (start_state b0) b t l.nonzero) (
    unfold resume in
    unless_bad-after 1 (oob (start_state b0) b) _ _ (loop-after 1 0 (start_state b0) b t))
lead_restart b0 (b1 ∷ s) b t l bytes lt h =
    let test = not_bad (oob (start_state b0) b1) (loop 1 (start_state b0) b1 s) h in
    let e = sym (oob_state (start_state b0) l.lo l.hi b1 l.allows bytes.0) ∙ test in
    let h' : (loop 1 (start_state b0) b1 s).ret ≡ incomplete = rw test at h in
    let marked = kept_marked 1 (start_state b0) b1 s h' in
    let count : suc (suc (length s)) ≡ 1 + suc (length s) = omega arith in
    rw
      (
        test,
        mbrtowc_goes_on (loop 1 (start_state b0) b1 s).state b t (marked_nonzero _ marked),
        count,
      )
      (loop_restart 1 (start_state b0) b1 s b t l.kind (l.inside b1 e) bytes.1 lt h')

-- Where mbrtowc, in the initial state, runs out of bytes within a character, a second call in the
-- state that the first one left does with the bytes that follow what one call does with all of
-- them; the length that one call returns counts the bytes of the first call too.
pub mbrtowc_restart :
    (b0 : ℕ) (s : List ℕ) (b : ℕ) (t : List ℕ)
    → IsBytes (b0 ∷ s)
    → b < 256
    → (mbrtowc false 0 (some (b0 ∷ s))).ret ≡ incomplete
    → mbrtowc false 0 (some (b0 ∷ (s ++ b ∷ t)))
      ≡ after
          (suc (length s))
          (mbrtowc false (mbrtowc false 0 (some (b0 ∷ s))).state (some (b ∷ t)))
mbrtowc_restart b0 s b t bytes lt h =
    let range = lead_range b0 s bytes.0 h in
    rw (lead_resumed b0 s range.0 range.1, lead_resumed b0 (s ++ b ∷ t) range.0 range.1)
      (lead_restart b0 s b t (IsLead-start b0 range.0 range.1) bytes.1 lt
        (rw (lead_resumed b0 s range.0 range.1) at h))
