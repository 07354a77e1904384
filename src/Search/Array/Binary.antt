-- ===== src/Search/Array/Binary.antt =====
-- `bsearch` in an array that the comparison with the key splits as POSIX asks.
use leblibc.Prelude.{
  ℕ, zero, suc, ◌+◌, ◌-◌, ◌/◌, ◌≤◌, ◌<◌, List, [], ◌∷◌, Option, none, some, ◌≡◌, ◌≢◌, refl, arith,
  ◌∙◌, sym, get_elem?, length, inl, inr, ◌⊎◌, ◌==◌, false,
}
use native.Mathlib.Decide.{dec_le}
use leblibc.Search.Order.{Sign, below, same, above, Comparison, Sign-cases}
use leblibc.Search.Array.{bsearch_loop, bsearch}

elem_in : {K : Type 0} → (xs : List K) (i : ℕ) → i < length xs → (x : K) × (get_elem? xs i ≡ some x)
elem_in [] i h = absurd (omega arith)
elem_in (x ∷ xs) zero h = (x, refl)
elem_in (x ∷ xs) (suc i) h = elem_in xs i (omega arith)

found-lt : {K : Type 0} → (xs : List K) (i : ℕ) (x : K) → get_elem? xs i ≡ some x → i < length xs
found-lt [] i x e = absurd (ground arith)
found-lt (y ∷ ys) zero x e = omega arith
found-lt (y ∷ ys) (suc i) x e = omega (arith, found-lt ys i x e)

below_ne_same : below ≢ same
below_ne_same e = ground arith

above_ne_same : above ≢ same
above_ne_same e = ground arith

module _ {K : Type 0} (o : Comparison K) (key : K) (xs : List K) where
  -- The element at an index compares with the key as the sign says.
  abbrev pub Compares : ℕ → Sign → Type 0
  Compares i s = (x : K) × (get_elem? xs i ≡ some x) × (o.cmp key x ≡ s)

  -- The elements below the key come first, then those that compare equal, then those above.
  pub record IsSplit : Type 0 where
    pub still_below : (i j : ℕ) → i ≤ j → j < length xs → Compares i below → Compares j below
    pub still_above : (i j : ℕ) → i ≤ j → Compares j above → Compares i above

  half_turn :
      (fuel base nel : ℕ)
      → 0 < nel
      → base + nel ≤ length xs
      → let try = base + nel / 2 in
        let loop = bsearch_loop o fuel key xs in
        let turn = bsearch_loop o (suc fuel) key xs base nel in
        (Compares try below × (turn ≡ loop base (nel / 2)))
        ⊎ (Compares try same × (turn ≡ some (some try)))
        ⊎ (Compares try above × (turn ≡ loop (try + 1) (nel - (nel / 2 + 1))))
  unfolding bsearch_loop
  half_turn fuel base nel some_left fits =
      let (x, e) = elem_in xs (base + nel / 2) (omega arith) in
      let going : (nel == 0) ≡ false = ground arith in
      elim (Sign-cases (o.cmp key x)) [
        | inl s ↦ inl ((x, e, s), rw (bsearch_loop, going, e, s) refl)
        | inr (inl s) ↦ inr (inl ((x, e, s), rw (bsearch_loop, going, e, s) refl))
        | inr (inr s) ↦ inr (inr ((x, e, s), rw (bsearch_loop, going, e, s) refl))
      ]

  loop_done : (fuel base nel : ℕ) → nel ≡ 0 → bsearch_loop o fuel key xs base nel ≡ some none
  unfolding bsearch_loop
  loop_done zero base nel e = rw (e, bsearch_loop) refl
  loop_done (suc fuel) base nel e = rw (e, bsearch_loop) refl

  -- The loop ended, and an element that it found compares equal.
  abbrev pub IsAnswer : Option (Option ℕ) → Type 0
  IsAnswer found = (found ≡ some none) ⊎ ((i : ℕ) × (found ≡ some (some i)) × Compares i same)

  loop_answers :
      (fuel base nel : ℕ)
      → nel ≤ fuel
      → base + nel ≤ length xs
      → IsAnswer (bsearch_loop o fuel key xs base nel)
  loop_answers zero base nel enough fits = inl (loop_done zero base nel (omega arith))
  loop_answers (suc fuel) base nel enough fits = elim (dec_le nel 0) [
    | yes e ↦ inl (loop_done (suc fuel) base nel (omega arith))
    | no some_left ↦ elim (half_turn fuel base nel (omega arith) fits) [
      | inl (s, e) ↦ rw e (loop_answers fuel base (nel / 2) (omega arith) (omega arith))
      | inr (inl (s, e)) ↦ inr (base + nel / 2, e, s)
      | inr (inr (s, e)) ↦
          rw e (
            loop_answers fuel (base + nel / 2 + 1) (nel - (nel / 2 + 1)) (omega arith)
              (omega arith))
    ]
  ]

  Compares-once : (i : ℕ) (s t : Sign) → Compares i s → Compares i t → s ≡ t
  Compares-once i s t (x, e, c) (y, f, d) = let h = sym e ∙ f in ground arith

  loop_finds :
      (fuel base nel i : ℕ)
      → IsSplit
      → nel ≤ fuel
      → base + nel ≤ length xs
      → base ≤ i
      → i < base + nel
      → Compares i same
      → (j : ℕ) × (bsearch_loop o fuel key xs base nel ≡ some (some j)) × Compares j same
  loop_finds zero base nel i sp enough fits lo hi c = absurd (omega arith)
  loop_finds (suc fuel) base nel i sp enough fits lo hi c =
      elim (half_turn fuel base nel (omega arith) fits) [
        | inl (s, e) ↦ elim (dec_le (base + nel / 2) i) [
          | yes past ↦ absurd (
              below_ne_same (
                Compares-once i below same (sp.still_below (base + nel / 2) i past (omega arith) s)
                  c))
          | no before ↦
              rw e
                (loop_finds fuel base (nel / 2) i sp (omega arith) (omega arith) lo (omega arith) c)
        ]
        | inr (inl (s, e)) ↦ (base + nel / 2, e, s)
        | inr (inr (s, e)) ↦ elim (dec_le i (base + nel / 2)) [
          | yes before ↦ absurd (
              above_ne_same
                (Compares-once i above same (sp.still_above i (base + nel / 2) before s) c))
          | no past ↦ rw e (
              loop_finds fuel (base + nel / 2 + 1) (nel - (nel / 2 + 1)) i sp (omega arith)
                (omega arith) (omega arith) (omega arith) c)
        ]
      ]

  -- bsearch ends, reads no element past the end of the array, and returns null or an element that
  -- compares equal to the key, in whatever order the elements are.
  pub bsearch_returns : IsAnswer (bsearch o key xs)
  unfolding bsearch
  bsearch_returns = loop_answers (length xs) 0 (length xs) (omega arith) (omega arith)

  -- In an array that is split as POSIX asks, bsearch finds an element that compares equal to the
  -- key, if there is one.
  pub bsearch_finds :
      (i : ℕ)
      → IsSplit
      → Compares i same
      → (j : ℕ) × (bsearch o key xs ≡ some (some j)) × Compares j same
  unfolding bsearch
  bsearch_finds i sp c =
      loop_finds (length xs) 0 (length xs) i sp (omega arith) (omega arith) (omega arith)
        (omega (arith, found-lt xs i c.0 c.1)) c
