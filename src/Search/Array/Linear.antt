-- ===== src/Search/Array/Linear.antt =====
-- `lfind` and `lsearch` find the first element that compares equal.
use leblibc.Prelude.{
  ℕ, suc, ◌+◌, ◌<◌, List, [], ◌∷◌, ◌++◌, Option, none, some, ◌≡◌, refl, arith, ◌∙◌, ap, sym, length,
  inl, inr, ◌⊎◌, length-append,
}
use leblibc.Search.Order.{below, same, above, Comparison, Sign-cases}
use leblibc.Search.Array.{linear_loop, lfind, lsearch}

Option-cases : (found : Option ℕ) → (found ≡ none) ⊎ ((i : ℕ) × (found ≡ some i))
Option-cases none = inl refl
Option-cases (some i) = inr (i, refl)

module _ {K : Type 0} (o : Comparison K) (key : K) where
  loop_same :
      (x : K) (xs : List K) (i : ℕ) → o.cmp key x ≡ same → linear_loop o key (x ∷ xs) i ≡ some i
  unfolding linear_loop
  loop_same x xs i e = rw (e, linear_loop) refl

  loop_other :
      (x : K) (xs : List K) (i : ℕ)
      → (o.cmp key x ≡ below) ⊎ (o.cmp key x ≡ above)
      → linear_loop o key (x ∷ xs) i ≡ linear_loop o key xs (suc i)
  unfolding linear_loop
  loop_other x xs i (inl e) = rw (e, linear_loop) refl
  loop_other x xs i (inr e) = rw (e, linear_loop) refl

  sign_split : (x : K) → (o.cmp key x ≡ same) ⊎ (o.cmp key x ≡ below) ⊎ (o.cmp key x ≡ above)
  sign_split x = elim (Sign-cases (o.cmp key x)) [
    | inl e ↦ inr (inl e)
    | inr (inl e) ↦ inl e
    | inr (inr e) ↦ inr (inr e)
  ]

  loop-append :
      (xs ys : List K) (i : ℕ)
      → linear_loop o key xs i ≡ none
      → linear_loop o key (xs ++ ys) i ≡ linear_loop o key ys (i + length xs)
  loop-append [] ys i h = ap (linear_loop o key ys) (omega arith)
  loop-append (x ∷ xs) ys i h = elim (sign_split x) [
    | inl e ↦ absurd (let g = sym (loop_same x xs i e) ∙ h in ground arith)
    | inr e ↦
        loop_other x (xs ++ ys) i e
        ∙ loop-append xs ys (suc i) (sym (loop_other x xs i e) ∙ h)
        ∙ ap (linear_loop o key ys) (omega arith)
  ]

  loop-lt : (xs : List K) (i j : ℕ) → linear_loop o key xs i ≡ some j → j < i + length xs
  unfolding linear_loop
  loop-lt [] i j h = absurd (ground arith)
  loop-lt (x ∷ xs) i j h = elim (sign_split x) [
    | inl e ↦ (let g = sym (loop_same x xs i e) ∙ h in ground arith)
    | inr e ↦ omega (arith, loop-lt xs (suc i) j (sym (loop_other x xs i e) ∙ h))
  ]

  lsearch_missing :
      (xs : List K) → linear_loop o key xs 0 ≡ none → lsearch o key xs ≡ (length xs, xs ++ key ∷ [])
  unfolding lsearch
  lsearch_missing xs e =
      ap
        (λ found. elim found as (λ x. ℕ × List K) [
          | none ↦ (length xs, xs ++ key ∷ [])
          | some i ↦ (i, xs)
        ])
        e

  lsearch_present :
      (xs : List K) (j : ℕ) → linear_loop o key xs 0 ≡ some j → lsearch o key xs ≡ (j, xs)
  unfolding lsearch
  lsearch_present xs j e =
      ap
        (λ found. elim found as (λ x. ℕ × List K) [
          | none ↦ (length xs, xs ++ key ∷ [])
          | some i ↦ (i, xs)
        ])
        e

module _ {K : Type 0} (o : Comparison K) where
  -- After lsearch, lfind finds the element that lsearch returned, old or appended; a second lsearch
  -- returns it too, and leaves the array as it is.
  pub lfind-lsearch :
      (key : K) (xs : List K)
      → let (i, ys) = lsearch o key xs in
        (lfind o key ys ≡ some i) × (lsearch o key ys ≡ (i, ys)) × (i < length ys)
  unfolding lfind
  lfind-lsearch key xs = elim (Option-cases (linear_loop o key xs 0)) [
    | inl e ↦
        let appended : linear_loop o key (xs ++ key ∷ []) 0 ≡ some (length xs) =
          loop-append o key xs (key ∷ []) 0 e
          ∙ loop_same o key key [] (0 + length xs) (o.cmp_self key)
          ∙ ap some (omega arith) in
        rw (lsearch_missing o key xs e) (
          appended,
          lsearch_present o key (xs ++ key ∷ []) (length xs) appended,
          omega (arith, length-append xs (key ∷ [])),
        )
    | inr (i, e) ↦
        rw (lsearch_present o key xs i e)
          (e, lsearch_present o key xs i e, omega (arith, loop-lt o key xs 0 i e))
  ]
