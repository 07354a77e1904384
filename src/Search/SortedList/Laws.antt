-- ===== src/Search/SortedList/Laws.antt =====
-- Finding, inserting and deleting in a sorted list that is split at one of its elements, and the
-- order that they keep.
use leblibc.Prelude.{◌≡◌, ◌≢◌, refl, arith, List, [], ◌∷◌, ◌++◌, none, some, All}
use mathlib.Core.Option
use leblibc.Search.Order.{below, same, above, Comparison}
use leblibc.Search.SortedList.{AllAbove, AllBelow, IsSorted, find, insert, delete}

module _ {K : Type 0} (o : Comparison K) where
  -- What a sorted list is like to the two sides of an element.
  pub record IsSplit (xs : List K) (k : K) (ys : List K) : Type 0 where
    pub front : IsSorted o xs
    pub back : IsSorted o ys
    pub before : AllBelow o k xs
    pub behind : AllAbove o k ys

  All-front {κ} : (P : K → Type κ) (xs ys : List K) → All P (xs ++ ys) → All P xs
  All-front P [] ys a = tt
  All-front P (x ∷ xs) ys a = (a.0, All-front P xs ys a.1)

  All-back {κ} : (P : K → Type κ) (xs ys : List K) → All P (xs ++ ys) → All P ys
  All-back P [] ys a = a
  All-back P (x ∷ xs) ys a = All-back P xs ys a.1

  pub IsSplit-sorted :
      (xs : List K) (k : K) (ys : List K) → IsSorted o (xs ++ k ∷ ys) → IsSplit xs k ys
  IsSplit-sorted [] k ys s = record { front = tt; back = s.1; before = tt; behind = s.0 }
  IsSplit-sorted (x ∷ xs) k ys s =
      let rest = IsSplit-sorted xs k ys s.1 in
      record {
        front = (All-front (λ y. o.cmp x y ≡ below) xs (k ∷ ys) s.0, rest.front);
        back = rest.back;
        before = ((All-back (λ y. o.cmp x y ≡ below) xs (k ∷ ys) s.0).0, rest.before);
        behind = rest.behind;
      }

  -- The key lies beyond every element.
  abbrev pub Beyond : K → List K → Type 0
  Beyond key xs = All (λ x. o.cmp key x ≡ above) xs

  abbrev pub Ahead : K → List K → Type 0
  Ahead key xs = All (λ x. o.cmp key x ≡ below) xs

  pub Beyond-above :
      (key k : K) (xs : List K) → o.cmp key k ≡ above → AllBelow o k xs → Beyond key xs
  Beyond-above key k [] e a = tt
  Beyond-above key k (x ∷ xs) e a = (
    o.above_of_below x key (o.below_trans x k key a.0 (o.below_of_above key k e)),
    Beyond-above key k xs e a.1,
  )

  pub Beyond-same : (key k : K) (xs : List K) → o.cmp key k ≡ same → AllBelow o k xs → Beyond key xs
  Beyond-same key k [] e a = tt
  Beyond-same key k (x ∷ xs) e a = (
    o.above_of_below x key (o.below_same x k key a.0 (o.same_of_same key k e)),
    Beyond-same key k xs e a.1,
  )

  pub Ahead-below : (key k : K) (ys : List K) → o.cmp key k ≡ below → AllAbove o k ys → Ahead key ys
  Ahead-below key k [] e a = tt
  Ahead-below key k (y ∷ ys) e a = (o.below_trans key k y e a.0, Ahead-below key k ys e a.1)

  same-Ahead : (key k : K) (ys : List K) → o.cmp key k ≡ same → AllAbove o k ys → Ahead key ys
  same-Ahead key k [] e a = tt
  same-Ahead key k (y ∷ ys) e a = (o.same_below key k y e a.0, same-Ahead key k ys e a.1)

  -- Two keys that compare equal to one element compare equal.
  same_both : (key j x : K) → o.cmp key x ≡ same → o.cmp j x ≡ same → o.cmp j key ≡ same
  same_both key j x e d =
      ground (arith, o.below_same j key x, o.below_of_above j key, o.below_same key j x)

  pub insert-Beyond :
      (key : K) (xs ys : List K) → Beyond key xs → insert o key (xs ++ ys) ≡ xs ++ insert o key ys
  unfolding insert
  insert-Beyond key [] ys b = refl
  insert-Beyond key (x ∷ xs) ys b = ground (arith, insert-Beyond key xs ys b.1)

  pub insert-below :
      (key : K) (xs : List K) (k : K) (ys : List K)
      → o.cmp key k ≡ below
      → insert o key (xs ++ k ∷ ys) ≡ insert o key xs ++ k ∷ ys
  unfolding insert
  insert-below key [] k ys e = ground arith
  insert-below key (x ∷ xs) k ys e = ground (arith, insert-below key xs k ys e)

  pub find-Beyond :
      (key : K) (xs ys : List K) → Beyond key xs → find o key (xs ++ ys) ≡ find o key ys
  unfolding find
  find-Beyond key [] ys b = refl
  find-Beyond key (x ∷ xs) ys b = ground (arith, find-Beyond key xs ys b.1)

  find-Ahead : (key : K) (ys : List K) → Ahead key ys → find o key ys ≡ none
  unfolding find
  find-Ahead key [] b = refl
  find-Ahead key (y ∷ ys) b = ground (arith, find-Ahead key ys b.1)

  pub find-below : (key : K) (xs ys : List K) → Ahead key ys → find o key (xs ++ ys) ≡ find o key xs
  unfolding find
  find-below key [] ys b = find-Ahead key ys b
  find-below key (x ∷ xs) ys b = ground (arith, find-below key xs ys b)

  pub delete-Beyond :
      (key : K) (xs ys : List K) → Beyond key xs → delete o key (xs ++ ys) ≡ xs ++ delete o key ys
  unfolding delete
  delete-Beyond key [] ys b = refl
  delete-Beyond key (x ∷ xs) ys b = ground (arith, delete-Beyond key xs ys b.1)

  delete-Ahead : (key : K) (ys : List K) → Ahead key ys → delete o key ys ≡ ys
  unfolding delete
  delete-Ahead key [] b = refl
  delete-Ahead key (y ∷ ys) b = ground (arith, delete-Ahead key ys b.1)

  pub delete-below :
      (key : K) (xs ys : List K) → Ahead key ys → delete o key (xs ++ ys) ≡ delete o key xs ++ ys
  unfolding delete
  delete-below key [] ys b = delete-Ahead key ys b
  delete-below key (x ∷ xs) ys b = ground (arith, delete-below key xs ys b)

  -- What is found under the key after it was inserted: the old element, or else the key.
  pub find-insert_self :
      (key : K) (xs : List K)
      → IsSorted o xs
      → find o key (insert o key xs) ≡ some (Option.get_or (find o key xs) key)
  unfolding find insert
  find-insert_self key [] s = ground (arith, o.cmp_self key)
  find-insert_self key (x ∷ xs) s =
      ground (
        arith,
        find-insert_self key xs s.1,
        o.cmp_self key,
        Ahead-below key x xs,
        find-Ahead key xs,
      )

  -- Keys that do not compare equal to the inserted one are found as before.
  pub find-insert_ne :
      (key j : K) (xs : List K) → o.cmp j key ≢ same → find o j (insert o key xs) ≡ find o j xs
  unfolding find insert
  find-insert_ne key j [] n = ground arith
  find-insert_ne key j (x ∷ xs) n = ground (arith, find-insert_ne key j xs n)

  pub find-delete_self :
      (key : K) (xs : List K) → IsSorted o xs → find o key (delete o key xs) ≡ none
  unfolding find delete
  find-delete_self key [] s = refl
  find-delete_self key (x ∷ xs) s =
      ground (arith, find-delete_self key xs s.1, find-Ahead key xs, same-Ahead key x xs)

  pub find-delete_ne :
      (key j : K) (xs : List K) → o.cmp j key ≢ same → find o j (delete o key xs) ≡ find o j xs
  unfolding find delete
  find-delete_ne key j [] n = refl
  find-delete_ne key j (x ∷ xs) n = ground (arith, find-delete_ne key j xs n, same_both key j x)

  All-insert : (P : K → Type 0) (key : K) (xs : List K) → P key → All P xs → All P (insert o key xs)
  unfolding insert
  All-insert P key [] p a = (p, tt)
  All-insert P key (x ∷ xs) p a = ground (arith, All-insert P key xs p a.1)

  All-delete : (P : K → Type 0) (key : K) (xs : List K) → All P xs → All P (delete o key xs)
  unfolding delete
  All-delete P key [] a = tt
  All-delete P key (x ∷ xs) a = ground (arith, All-delete P key xs a.1)

  pub insert-IsSorted : (key : K) (xs : List K) → IsSorted o xs → IsSorted o (insert o key xs)
  unfolding insert
  insert-IsSorted key [] s = (tt, tt)
  insert-IsSorted key (x ∷ xs) s = ground (
    arith,
    insert-IsSorted key xs s.1,
    All-insert (λ y. o.cmp x y ≡ below) key xs,
    Ahead-below key x xs,
    o.below_of_above key x,
  )

  pub delete-IsSorted : (key : K) (xs : List K) → IsSorted o xs → IsSorted o (delete o key xs)
  unfolding delete
  delete-IsSorted key [] s = tt
  delete-IsSorted key (x ∷ xs) s =
      ground (arith, delete-IsSorted key xs s.1, All-delete (λ y. o.cmp x y ≡ below) key xs s.0)
