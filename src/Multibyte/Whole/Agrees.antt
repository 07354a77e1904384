-- ===== src/Multibyte/Whole/Agrees.antt =====
-- `mbtowc` and `mbrtowc` decode alike.
use leblibc.Prelude.{
  ℕ, ◌+◌, ◌-◌, ◌*◌, ◌^◌, ◌≤◌, ◌<◌, List, [], ◌∷◌, ◌≡◌, refl, sym, ap, ◌∙◌, true, false, ltb, ◌==◌,
  if◌then◌else◌, some, length, arith, inl, inr, Bool-cases,
}
use leblibc.Multibyte.Table.{outside, start_state, bittab_start}
use leblibc.Multibyte.Decode.{mbrtowc}
use leblibc.Multibyte.Decode.Loop.{low6, then_one, then_two, one_Last, two_OneMore}
use leblibc.Multibyte.Utf8.{two_bytes, three_bytes, four_bytes, second_lo, second_hi, decode}
use leblibc.Multibyte.Utf8.Agrees.{
  IsBytes, two_start, three_start, four_start, three-Allows, four-Allows, second_byte, later_byte,
  mbrtowc_utf8,
}
use leblibc.Multibyte.Whole.{refused, done, after_lead, mbtowc}
use leblibc.Multibyte.Whole.Steps.{
  whole, marked, fourth-Last, third-Last, third-more, long, long-Last, long-OneMore, second-Last,
  second-one, second-two, whole-unless, after_lead-short, after_lead-long, refused-unless,
}

two_whole :
    (b : ℕ) (s : List ℕ)
    → 0xc2 ≤ b
    → b < 0xe0
    → IsBytes s
    → after_lead (start_state b) s ≡ whole (two_bytes b s)
two_whole b [] lo hi bytes =
    let state = two_start b lo hi in
    after_lead-short (start_state b) []
      (marked 1 (start_state b) (omega arith) (omega (arith, state)))
two_whole b (b1 ∷ rest) lo hi bytes =
    let (state, top) = two_start b lo hi in
    let c = start_state b in
    after_lead-long c (b1 ∷ rest) (long-Last (length rest) c (b - 0xc0) state)
    ∙ second-Last c 0x80 0xc0 b1 rest (inl (top, refl, refl)) bytes.0 (later_byte b1) (b - 0xc0)
        state
    ∙ whole-unless (outside 0x80 0xc0 b1) _ _ (λ e. refl)

start_marked : (b : ℕ) → 0xc2 ≤ b → b ≤ 0xf4 → (2 ^ 31 ≤ start_state b) × (start_state b < 2 ^ 32)
start_marked b lo hi = (ground arith, ground arith)

three_whole :
    (b : ℕ) (s : List ℕ)
    → 0xe0 ≤ b
    → b < 0xf0
    → IsBytes s
    → after_lead (start_state b) s ≡ whole (three_bytes (second_lo b) (second_hi b) b s)
three_whole b [] lo hi bytes =
    let top = start_marked b (omega arith) (omega arith) in
    after_lead-short (start_state b) []
      (marked 1 (start_state b) (omega arith) (omega (arith, top)))
three_whole b (b1 ∷ []) lo hi bytes =
    let state = three_start b lo hi in
    after_lead-short (start_state b) (b1 ∷ [])
      (marked 2 (start_state b) (omega arith) (omega (arith, state)))
    ∙ refused-unless (outside (second_lo b) (second_hi b) b1) _ refl
three_whole b (b1 ∷ b2 ∷ rest) lo hi bytes =
    let state = three_start b lo hi in
    let c = start_state b in
    after_lead-long c (b1 ∷ b2 ∷ rest) (long-OneMore (length rest) c (b - 0xe0) state)
    ∙ second-one c (second_lo b) (second_hi b) b1 (b2 ∷ rest) (three-Allows b lo hi) bytes.0
        (second_byte b b1) (b - 0xe0) state
    ∙ whole-unless (outside (second_lo b) (second_hi b) b1) _ _ λ e.
      let v = (b - 0xe0) * 64 + low6 b1 in
      third-Last (then_one v) v b2 rest (one_Last c (b - 0xe0) b1 (second_byte b b1 e) state)
        bytes.1.0
      ∙ whole-unless (outside 0x80 0xc0 b2) _ _ (λ e2. refl)

four_whole :
    (b : ℕ) (s : List ℕ)
    → 0xf0 ≤ b
    → b < 0xf5
    → IsBytes s
    → after_lead (start_state b) s ≡ whole (four_bytes (second_lo b) (second_hi b) b s)
four_whole b [] lo hi bytes =
    let top = start_marked b (omega arith) (omega arith) in
    after_lead-short (start_state b) []
      (marked 1 (start_state b) (omega arith) (omega (arith, top)))
four_whole b (b1 ∷ []) lo hi bytes =
    let state = four_start b lo hi in
    after_lead-short (start_state b) (b1 ∷ [])
      (marked 2 (start_state b) (omega arith) (omega (arith, state)))
    ∙ refused-unless (outside (second_lo b) (second_hi b) b1) _ refl
four_whole b (b1 ∷ b2 ∷ []) lo hi bytes =
    let state = four_start b lo hi in
    after_lead-short (start_state b) (b1 ∷ b2 ∷ [])
      (marked 3 (start_state b) (omega arith) (omega (arith, state)))
    ∙ refused-unless (outside (second_lo b) (second_hi b) b1) _
        (sym (refused-unless (outside 0x80 0xc0 b2) _ refl))
four_whole b (b1 ∷ b2 ∷ b3 ∷ rest) lo hi bytes =
    let state = four_start b lo hi in
    let c = start_state b in
    after_lead-long c (b1 ∷ b2 ∷ b3 ∷ rest) (long (length rest) c)
    ∙ second-two c (second_lo b) (second_hi b) b1 (b2 ∷ b3 ∷ rest) (four-Allows b lo hi) bytes.0
        (second_byte b b1) (b - 0xf0) state
    ∙ whole-unless (outside (second_lo b) (second_hi b) b1) _ _ λ e.
      let v = (b - 0xf0) * 64 + low6 b1 in
      let w = v * 64 + low6 b2 in
      let more = two_OneMore c (b - 0xf0) b1 (second_byte b b1 e) state in
      third-more (then_two v) v b2 (b3 ∷ rest) more bytes.1.0
      ∙ whole-unless (outside 0x80 0xc0 b2) _ _ λ e2.
        fourth-Last (then_one w) w b3 rest (one_Last (then_two v) v b2 (later_byte b2 e2) more)
          bytes.1.1.0
        ∙ whole-unless (outside 0x80 0xc0 b3) _ _ (λ e3. refl)

lead_whole :
    (b : ℕ) (rest : List ℕ)
    → 0xc2 ≤ b
    → b ≤ 0xf4
    → mbtowc false (some (b ∷ rest)) ≡ after_lead (start_state b) rest
unfolding mbtowc
lead_whole b rest lo hi = ground (arith, bittab_start b lo hi)

no_lead_whole :
    (b : ℕ) (rest : List ℕ)
    → b < 256
    → (b < 0x80 → mbtowc false (some (b ∷ rest)) ≡ done (if b == 0 then 0 else 1) b)
      × (0x80 ≤ b → b < 0xc2 → mbtowc false (some (b ∷ rest)) ≡ refused)
      × (0xf4 < b → mbtowc false (some (b ∷ rest)) ≡ refused)
unfolding mbtowc
no_lead_whole b rest lt = (λ h. ground arith, λ h k. ground arith, λ h. ground arith)

ltb_holds : (b n : ℕ) → ltb b n ≡ true → b < n
ltb_holds b n e = ground arith

ltb_fails : (b n : ℕ) → ltb b n ≡ false → n ≤ b
ltb_fails b n e = ground arith

decode-whole : (s : List ℕ) → IsBytes s → mbtowc false (some s) ≡ whole (decode s)
unfolding decode
decode-whole [] bytes = unfold mbtowc in refl
decode-whole (b ∷ rest) bytes = elim (Bool-cases (ltb b 0x80)) [
  | inl e ↦ rw e ((no_lead_whole b rest bytes.0).0 (ltb_holds b 0x80 e))
  | inr e ↦ elim (Bool-cases (ltb b 0xc2)) [
    | inl f ↦ rw (e, f) ((no_lead_whole b rest bytes.0).1 (ltb_fails b 0x80 e) (ltb_holds b 0xc2 f))
    | inr f ↦
        let lo = ltb_fails b 0xc2 f in
        elim (Bool-cases (ltb b 0xe0)) [
          | inl g ↦
              let hi = ltb_holds b 0xe0 g in
              rw (e, f, g) (lead_whole b rest lo (omega arith) ∙ two_whole b rest lo hi bytes.1)
          | inr g ↦ elim (Bool-cases (ltb b 0xf0)) [
            | inl h ↦
                let hi = ltb_holds b 0xf0 h in
                let lo3 = ltb_fails b 0xe0 g in
                rw (e, f, g, h)
                  (lead_whole b rest lo (omega arith) ∙ three_whole b rest lo3 hi bytes.1)
            | inr h ↦ elim (Bool-cases (ltb b 0xf5)) [
              | inl k ↦
                  let hi = ltb_holds b 0xf5 k in
                  let lo4 = ltb_fails b 0xf0 h in
                  rw (e, f, g, h, k)
                    (lead_whole b rest lo (omega arith) ∙ four_whole b rest lo4 hi bytes.1)
              | inr k ↦ rw (e, f, g, h, k) ((no_lead_whole b rest bytes.0).2 (ltb_fails b 0xf5 k))
            ]
          ]
        ]
  ]
]

-- In a UTF-8 locale, mbtowc never reads a byte behind the n that it may read; it stores and returns
-- what mbrtowc does from the initial state, except that a character that is not finished is refused.
pub mbtowc-mbrtowc :
    (s : List ℕ) → IsBytes s → mbtowc false (some s) ≡ whole (mbrtowc false 0 (some s))
mbtowc-mbrtowc s bytes = decode-whole s bytes ∙ ap whole (sym (mbrtowc_utf8 s bytes))
