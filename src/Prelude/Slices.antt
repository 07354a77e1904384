-- ===== src/Prelude/Slices.antt =====
-- Parts of lists by native numbers: prefixes, suffixes, overwritten stretches.
use Prim.Native.Nat.{ℕ, zero, suc, ◌+◌, ◌-◌, ◌*◌, ◌≤◌}
use mathlib.Core.Path.{◌≡◌, refl, ap, ◌∙◌, sym}
use mathlib.Core.List.{List, [], ◌∷◌, ◌++◌, append_assoc}
use native.Mathlib.Omega.{arith}
use leblibc.Prelude.Lists.{length, length-append, All}

module _ {ℓ} {A : Type ℓ} where
  unfoldable pub take : ℕ → List A → List A
  take zero xs = []
  take (suc n) [] = []
  take (suc n) (x ∷ xs) = x ∷ take n xs

  unfoldable pub drop : ℕ → List A → List A
  drop zero xs = xs
  drop (suc n) [] = []
  drop (suc n) (x ∷ xs) = drop n xs

  unfoldable pub replicate : ℕ → A → List A
  replicate zero x = []
  replicate (suc n) x = x ∷ replicate n x

  -- The elements from index `i` on, overwritten by `ys`, as by `memcpy`.
  unfoldable pub write : List A → ℕ → List A → List A
  unfolding take drop
  write xs i ys = take i xs ++ (ys ++ drop (i + length ys) xs)

  unfoldable pub flatten : List (List A) → List A
  flatten [] = []
  flatten (xs ∷ xss) = xs ++ flatten xss

  pub take-append-drop : (n : ℕ) (xs : List A) → take n xs ++ drop n xs ≡ xs
  unfolding take drop
  take-append-drop zero xs = refl
  take-append-drop (suc n) [] = refl
  take-append-drop (suc n) (x ∷ xs) = ap (λ ys. x ∷ ys) (take-append-drop n xs)

  pub length-take : (n : ℕ) (xs : List A) → n ≤ length xs → length (take n xs) ≡ n
  unfolding take
  length-take zero xs h = refl
  length-take (suc n) [] h = absurd (omega arith)
  length-take (suc n) (x ∷ xs) h = omega (arith, length-take n xs)

  pub length-drop : (n : ℕ) (xs : List A) → length (drop n xs) ≡ length xs - n
  unfolding drop
  length-drop zero xs = omega arith
  length-drop (suc n) [] = omega arith
  length-drop (suc n) (x ∷ xs) = omega (arith, length-drop n xs)

  pub length-replicate : (n : ℕ) (x : A) → length (replicate n x) ≡ n
  unfolding replicate
  length-replicate zero x = refl
  length-replicate (suc n) x = omega (arith, length-replicate n x)

  pub take-append_self : (xs ys : List A) (n : ℕ) → n ≡ length xs → take n (xs ++ ys) ≡ xs
  unfolding take
  take-append_self [] ys zero e = refl
  take-append_self [] ys (suc n) e = absurd (omega arith)
  take-append_self (x ∷ xs) ys zero e = absurd (omega arith)
  take-append_self (x ∷ xs) ys (suc n) e =
      ap (λ zs. x ∷ zs) (take-append_self xs ys n (omega arith))

  pub drop-append_self : (xs ys : List A) (n : ℕ) → n ≡ length xs → drop n (xs ++ ys) ≡ ys
  unfolding drop
  drop-append_self [] ys zero e = refl
  drop-append_self [] ys (suc n) e = absurd (omega arith)
  drop-append_self (x ∷ xs) ys zero e = absurd (omega arith)
  drop-append_self (x ∷ xs) ys (suc n) e = drop-append_self xs ys n (omega arith)

  pub drop-append_past :
      (xs ys : List A) (n k : ℕ) → n ≡ length xs + k → drop n (xs ++ ys) ≡ drop k ys
  unfolding drop
  drop-append_past [] ys n k e = ap (λ i. drop i ys) (omega arith)
  drop-append_past (x ∷ xs) ys zero k e = absurd (omega arith)
  drop-append_past (x ∷ xs) ys (suc n) k e = drop-append_past xs ys n k (omega arith)

  pub drop_all : (xs : List A) (n : ℕ) → length xs ≤ n → drop n xs ≡ []
  unfolding drop
  drop_all [] zero h = refl
  drop_all [] (suc n) h = refl
  drop_all (x ∷ xs) zero h = absurd (omega arith)
  drop_all (x ∷ xs) (suc n) h = drop_all xs n (omega arith)

  -- Writing behind a prefix keeps the prefix.
  pub write-append :
      (xs ys zs : List A) (n : ℕ)
      → n ≡ length xs
      → write (xs ++ ys) n zs ≡ xs ++ (zs ++ drop (length zs) ys)
  unfolding write
  write-append xs ys zs n e =
      ap (λ front. front ++ (zs ++ drop (n + length zs) (xs ++ ys))) (take-append_self xs ys n e)
      ∙ ap (λ back. xs ++ (zs ++ back))
          (drop-append_past xs ys (n + length zs) (length zs) (omega arith))

  pub nil_of_length : (xs : List A) → length xs ≡ 0 → xs ≡ []
  nil_of_length [] h = refl
  nil_of_length (x ∷ xs) h = absurd (omega arith)

  pub flatten-append : (xss yss : List (List A)) → flatten (xss ++ yss) ≡ flatten xss ++ flatten yss
  unfolding flatten
  flatten-append [] yss = refl
  flatten-append (xs ∷ xss) yss =
      ap (λ zs. xs ++ zs) (flatten-append xss yss)
      ∙ sym (append_assoc xs (flatten xss) (flatten yss))

  -- Every piece has the same length.
  abbrev pub AreBlocks : ℕ → List (List A) → Type 0
  AreBlocks size xss = All (λ xs. length xs ≡ size) xss

  pub length-flatten :
      (size : ℕ) (xss : List (List A))
      → AreBlocks size xss
      → length (flatten xss) ≡ length xss * size
  unfolding flatten
  length-flatten size [] h = omega arith
  length-flatten size (xs ∷ xss) h =
      grind (arith, length-append xs (flatten xss), length-flatten size xss h.1)
