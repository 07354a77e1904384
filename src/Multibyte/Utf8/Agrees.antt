-- ===== src/Multibyte/Utf8/Agrees.antt =====
-- `mbrtowc` from the initial state is the reference decoder.
use leblibc.Prelude.{
  ℕ, ◌+◌, ◌-◌, ◌*◌, ◌/◌, ◌^◌, ◌≤◌, ◌<◌, List, [], ◌∷◌, ◌≡◌, refl, Bool, true, false, ◌==◌,
  if◌then◌else◌, some, arith, Bool-cases, inl, inr, ◌∙◌, All,
}
use leblibc.Multibyte.Table.{outside, start_state, bittab_start, oob_state, Allows}
use leblibc.Multibyte.Decode.{Decoded, bad, loop, resume, mbrtowc}
use leblibc.Multibyte.Decode.Loop.{
  IsContinuation, low6, then_one, then_two, finished, loop-Last, loop_one_end, loop_one,
  loop_two_end, loop_two, one_Last, two_OneMore, outside-IsContinuation, Last, OneMore, TwoMore,
}
use leblibc.Multibyte.Utf8.{two_bytes, three_bytes, four_bytes, second_lo, second_hi, decode}

abbrev pub IsBytes : List ℕ → Type 0
IsBytes s = All (λ b. b < 256) s

-- The first byte after a lead byte is tested against the range of the state.
pub resume_start :
    (c lo hi b1 : ℕ) (rest : List ℕ)
    → Allows (c / 2 ^ 26) lo hi
    → b1 < 256
    → resume 1 c (b1 ∷ rest) ≡ (if outside lo hi b1 then bad else loop 1 c b1 rest)
unfolding resume
resume_start c lo hi b1 rest a lt = rw (oob_state c lo hi b1 a lt)

unless_bad :
    (t : Bool) (x y : Decoded)
    → (t ≡ false → x ≡ y)
    → (if t then bad else x) ≡ (if t then bad else y)
unless_bad true x y h = refl
unless_bad false x y h = h refl

pub two_start :
    (b : ℕ) → 0xc2 ≤ b → b < 0xe0 → Last (start_state b) (b - 0xc0) × (start_state b / 2 ^ 26 ≡ 48)
two_start b lo hi = ground arith

pub three_start : (b : ℕ) → 0xe0 ≤ b → b < 0xf0 → OneMore (start_state b) (b - 0xe0)
three_start b lo hi = ground arith

pub four_start : (b : ℕ) → 0xf0 ≤ b → b < 0xf5 → TwoMore (start_state b) (b - 0xf0)
four_start b lo hi = ground arith

pub three-Allows :
    (b : ℕ) → 0xe0 ≤ b → b < 0xf0 → Allows (start_state b / 2 ^ 26) (second_lo b) (second_hi b)
three-Allows b lo hi = elim (Bool-cases (b == 0xe0)) [
  | inl e ↦ inr (inl (ground arith, ground arith, ground arith))
  | inr e ↦ elim (Bool-cases (b == 0xed)) [
    | inl f ↦ inr (inr (inl (ground arith, ground arith, ground arith)))
    | inr f ↦ inl (ground arith, ground arith, ground arith)
  ]
]

pub four-Allows :
    (b : ℕ) → 0xf0 ≤ b → b < 0xf5 → Allows (start_state b / 2 ^ 26) (second_lo b) (second_hi b)
four-Allows b lo hi = elim (Bool-cases (b == 0xf0)) [
  | inl e ↦ inr (inr (inr (inl (ground arith, ground arith, ground arith))))
  | inr e ↦ elim (Bool-cases (b == 0xf4)) [
    | inl f ↦ inr (inr (inr (inr (ground arith, ground arith, ground arith))))
    | inr f ↦ inl (ground arith, ground arith, ground arith)
  ]
]

second_range : (b : ℕ) → (0x80 ≤ second_lo b) × (second_hi b ≤ 0xc0)
second_range b = ground arith

pub second_byte : (b b1 : ℕ) → outside (second_lo b) (second_hi b) b1 ≡ false → IsContinuation b1
second_byte b b1 e =
    outside-IsContinuation (second_lo b) (second_hi b) b1 (second_range b).0 (second_range b).1 e

pub later_byte : (b : ℕ) → outside 0x80 0xc0 b ≡ false → IsContinuation b
later_byte b e = ground arith

two_resumed :
    (b : ℕ) (s : List ℕ)
    → 0xc2 ≤ b
    → b < 0xe0
    → IsBytes s
    → resume 1 (start_state b) s ≡ two_bytes b s
two_resumed b [] lo hi bytes = unfold resume in refl
two_resumed b (b1 ∷ rest) lo hi bytes =
    resume_start (start_state b) 0x80 0xc0 b1 rest (inl ((two_start b lo hi).1, refl, refl)) bytes.0
    ∙ unless_bad (outside 0x80 0xc0 b1) _ _
        λ e. loop-Last 1 (start_state b) (b - 0xc0) b1 rest (two_start b lo hi).0 (later_byte b1 e)

three_resumed :
    (b : ℕ) (s : List ℕ)
    → 0xe0 ≤ b
    → b < 0xf0
    → IsBytes s
    → resume 1 (start_state b) s ≡ three_bytes (second_lo b) (second_hi b) b s
three_resumed b [] lo hi bytes = unfold resume in refl
three_resumed b (b1 ∷ []) lo hi bytes =
    resume_start (start_state b) (second_lo b) (second_hi b) b1 [] (three-Allows b lo hi) bytes.0
    ∙ unless_bad (outside (second_lo b) (second_hi b) b1) _ _
        λ e. loop_one_end (start_state b) (b - 0xe0) b1 (second_byte b b1 e) (three_start b lo hi) 1
three_resumed b (b1 ∷ b2 ∷ rest) lo hi bytes =
    resume_start (start_state b) (second_lo b) (second_hi b) b1 (b2 ∷ rest) (three-Allows b lo hi)
      bytes.0
    ∙ unless_bad (outside (second_lo b) (second_hi b) b1) _ _ λ e.
      let k = second_byte b b1 e in
      let v = (b - 0xe0) * 64 + low6 b1 in
      loop_one (start_state b) (b - 0xe0) b1 k (three_start b lo hi) 1 b2 rest bytes.1.0
      ∙ unless_bad (outside 0x80 0xc0 b2) _ _ λ e2.
        loop-Last 2 (then_one v) v b2 rest
          (one_Last (start_state b) (b - 0xe0) b1 k (three_start b lo hi)) (later_byte b2 e2)

four_resumed :
    (b : ℕ) (s : List ℕ)
    → 0xf0 ≤ b
    → b < 0xf5
    → IsBytes s
    → resume 1 (start_state b) s ≡ four_bytes (second_lo b) (second_hi b) b s
four_resumed b [] lo hi bytes = unfold resume in refl
four_resumed b (b1 ∷ []) lo hi bytes =
    resume_start (start_state b) (second_lo b) (second_hi b) b1 [] (four-Allows b lo hi) bytes.0
    ∙ unless_bad (outside (second_lo b) (second_hi b) b1) _ _
        λ e. loop_two_end (start_state b) (b - 0xf0) b1 (second_byte b b1 e) (four_start b lo hi) 1
four_resumed b (b1 ∷ b2 ∷ []) lo hi bytes =
    resume_start (start_state b) (second_lo b) (second_hi b) b1 (b2 ∷ []) (four-Allows b lo hi)
      bytes.0
    ∙ unless_bad (outside (second_lo b) (second_hi b) b1) _ _ λ e.
      let k = second_byte b b1 e in
      let v = (b - 0xf0) * 64 + low6 b1 in
      loop_two (start_state b) (b - 0xf0) b1 k (four_start b lo hi) 1 b2 [] bytes.1.0
      ∙ unless_bad (outside 0x80 0xc0 b2) _ _ λ e2.
        loop_one_end (then_two v) v b2 (later_byte b2 e2)
          (two_OneMore (start_state b) (b - 0xf0) b1 k (four_start b lo hi)) 2
four_resumed b (b1 ∷ b2 ∷ b3 ∷ rest) lo hi bytes =
    resume_start (start_state b) (second_lo b) (second_hi b) b1 (b2 ∷ b3 ∷ rest)
      (four-Allows b lo hi) bytes.0
    ∙ unless_bad (outside (second_lo b) (second_hi b) b1) _ _ λ e.
      let k = second_byte b b1 e in
      let v = (b - 0xf0) * 64 + low6 b1 in
      let w = v * 64 + low6 b2 in
      loop_two (start_state b) (b - 0xf0) b1 k (four_start b lo hi) 1 b2 (b3 ∷ rest) bytes.1.0
      ∙ unless_bad (outside 0x80 0xc0 b2) _ _ λ e2.
        let more = two_OneMore (start_state b) (b - 0xf0) b1 k (four_start b lo hi) in
        loop_one (then_two v) v b2 (later_byte b2 e2) more 2 b3 rest bytes.1.1.0
        ∙ unless_bad (outside 0x80 0xc0 b3) _ _ λ e3.
          loop-Last 3 (then_one w) w b3 rest (one_Last (then_two v) v b2 (later_byte b2 e2) more)
            (later_byte b3 e3)

pub lead_resumed :
    (b : ℕ) (rest : List ℕ)
    → 0xc2 ≤ b
    → b ≤ 0xf4
    → mbrtowc false 0 (some (b ∷ rest)) ≡ resume 1 (start_state b) rest
unfolding mbrtowc
lead_resumed b rest lo hi = ground (arith, bittab_start b lo hi)

pub no_lead :
    (b : ℕ) (rest : List ℕ)
    → b < 256
    → (b < 0x80 → mbrtowc false 0 (some (b ∷ rest)) ≡ finished (if b == 0 then 0 else 1) b)
      × (0x80 ≤ b → b < 0xc2 → mbrtowc false 0 (some (b ∷ rest)) ≡ bad)
      × (0xf4 < b → mbrtowc false 0 (some (b ∷ rest)) ≡ bad)
unfolding mbrtowc
no_lead b rest lt = (λ h. ground arith, λ h k. ground arith, λ h. ground arith)

-- From the initial state, in a UTF-8 locale, mbrtowc decodes every list of bytes as the table of
-- RFC 3629 says: the character and its length, the state of an unfinished one, or an error.
pub mbrtowc_utf8 : (s : List ℕ) → IsBytes s → mbrtowc false 0 (some s) ≡ decode s
unfolding decode
mbrtowc_utf8 [] bytes = unfold mbrtowc in refl
mbrtowc_utf8 (b ∷ rest) bytes = ground (
  arith,
  no_lead b rest,
  lead_resumed b rest,
  two_resumed b rest,
  three_resumed b rest,
  four_resumed b rest,
)
