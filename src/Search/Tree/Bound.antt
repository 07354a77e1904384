-- ===== src/Search/Tree/Bound.antt =====
-- How high an AVL tree can be. With fewer than 2 ^ 59 nodes (a node takes 32 bytes of a 64-bit
-- address space) the height is at most 84, below `MAXH`, which is 96 where a pointer has 8 bytes.
use leblibc.Prelude.{
  ℕ, zero, suc, ◌+◌, ◌-◌, ◌*◌, ◌/◌, inl, inr, ◌≤◌, ◌<◌, ◌^◌, max, List, [], ◌∷◌, ◌≡◌, refl, arith,
  length, length-append,
}
use native.Mathlib.Nat.{add-zero, add-suc}
use native.Mathlib.Decide.{dec_le}
use leblibc.Search.Order.{Comparison, Sign-cases}
use leblibc.Search.Tree.{Tree, leaf, node, left, right, height, Frame, frame, descend, rightmost}
use leblibc.Search.Tree.Balance.{IsAvl, to_list}

-- Fibonacci numbers, as pairs of neighbours.
fib_pair : ℕ → ℕ × ℕ
fib_pair zero = (0, 1)
fib_pair (suc n) = let (a, b) = fib_pair n in (b, a + b)

fib : ℕ → ℕ
fib n = (fib_pair n).0

fib-suc-suc : (n : ℕ) → fib (suc (suc n)) ≡ fib n + fib (suc n)
unfolding fib fib_pair
fib-suc-suc n = refl

fib_grows : (n d : ℕ) → fib (suc n) ≤ fib (suc (n + d))
fib_grows n zero = rw add-zero (omega arith)
fib_grows n (suc d) = rw add-suc (omega (arith, fib_grows n d, fib-suc-suc (n + d)))

fib_mono : (n m : ℕ) → n ≤ m → fib (suc n) ≤ fib (suc m)
fib_mono n m h = let e : n + (m - n) ≡ m = omega arith in rw e at (fib_grows n (m - n))

-- A node over sides of heights a and b.
fib_node :
    (h a b : ℕ)
    → h ≡ suc (max a b)
    → a ≤ suc b
    → b ≤ suc a
    → fib (suc (suc h)) ≤ fib (suc (suc a)) + fib (suc (suc b))
fib_node h a b e p q = elim (dec_le a b) [
  | yes c ↦
      let e' : h ≡ suc b = omega arith in rw (e', fib-suc-suc) (omega (arith, fib_mono b (suc a) q))
  | no c ↦
      let e' : h ≡ suc a = omega arith in rw (e', fib-suc-suc) (omega (arith, fib_mono a (suc b) p))
]

module _ {K : Type 0} where
  unfoldable pub size : Tree K → ℕ
  size leaf = 0
  size (node k h l r) = suc (size l + size r)

  pub length-to_list : (t : Tree K) → length (to_list t) ≡ size t
  unfolding size
  length-to_list leaf = refl
  length-to_list (node k h l r) =
      omega (arith, length-append (to_list l) (k ∷ to_list r), length-to_list l, length-to_list r)

  fib-le-size : (t : Tree K) → IsAvl t → fib (suc (suc (height t))) ≤ suc (size t)
  unfolding size height
  fib-le-size leaf a = unfold fib fib_pair in omega arith
  fib-le-size (node k h l r) a =
      omega
        (arith, fib_node h (height l) (height r) a.0 a.1 a.2, fib-le-size l a.3, fib-le-size r a.4)

fib_limit : 2 ^ 59 < fib 87
unfolding fib fib_pair
fib_limit = omega arith

module _ {K : Type 0} where
  pub height_bound : (t : Tree K) → IsAvl t → size t < 2 ^ 59 → height t ≤ 84
  height_bound t a s = elim (dec_le (height t) 84) [
    | yes h ↦ h
    | no h ↦
        absurd
          (omega (arith, fib_limit, fib-le-size t a, fib_mono 86 (suc (height t)) (omega arith)))
  ]

-- The elements of the array `a`: `MAXH` is `sizeof(void*)*8*3/2`.
abbrev pub max_height : ℕ
max_height = 8 * 8 * 3 / 2

module _ {K : Type 0} (o : Comparison K) where
  -- Where the descent from a tree with a path may end: at an AVL tree, so that path and height
  -- together have not grown.
  abbrev Ended : Tree K → List (Frame K) → Tree K × List (Frame K) → Type 0
  Ended t path p = (length p.1 + height p.0 ≤ length path + height t) × IsAvl p.0

  descend-Ended :
      (key : K) (t : Tree K) (path : List (Frame K)) → IsAvl t → Ended t path (descend o key t path)
  unfolding descend height
  descend-Ended key leaf path a = (omega arith, tt)
  descend-Ended key (node k h l r) path a =
      let in_left = descend-Ended key l (frame left k h r ∷ path) a.3 in
      let in_right = descend-Ended key r (frame right k h l ∷ path) a.4 in
      elim (Sign-cases (o.cmp key k)) [
        | inl e ↦ rw (e, descend) (omega (arith, in_left.0), in_left.1)
        | inr (inl e) ↦ rw (e, descend) (omega arith, a)
        | inr (inr e) ↦ rw (e, descend) (omega (arith, in_right.0), in_right.1)
      ]

  length-rightmost :
      (k : K) (h : ℕ) (l r : Tree K) (path : List (Frame K))
      → IsAvl (node k h l r)
      → length (rightmost k l r h path).2 < length path + h
  unfolding rightmost height
  length-rightmost k h l leaf path a = omega arith
  length-rightmost k h l (node rk rh rl rr) path a =
      omega (arith, length-rightmost rk rh rl rr (frame right k h l ∷ path) a.4)

  -- How many elements of `a` a call of `tsearch` fills: one for the root's link and one for each
  -- link on the way down.
  unfoldable pub tsearch_entries : K → Tree K → ℕ
  tsearch_entries key t = suc (length (descend o key t []).1)

  -- The same for `tdelete`, which stores the root's link twice and goes on to the predecessor.
  abbrev past_node : Tree K → ℕ
  past_node leaf = 0
  past_node (node k h leaf r) = 0
  past_node (node k h (node lk lh ll lr) r) = suc (length (rightmost lk ll lr lh []).2)

  unfoldable pub tdelete_entries : K → Tree K → ℕ
  tdelete_entries key t =
      let (found, path) = descend o key t [] in 2 + length path + past_node found

  past_node-lt : (t : Tree K) → IsAvl t → past_node t ≤ height t
  unfolding height
  past_node-lt leaf a = omega arith
  past_node-lt (node k h leaf r) a = omega arith
  past_node-lt (node k h (node lk lh ll lr) r) a =
      omega (arith, length-rightmost lk lh ll lr [] a.3)

  -- The path arrays are long enough: tsearch fills at most MAXH elements of its array, and tdelete
  -- at most MAXH + 1 of its own, in every AVL tree that the address space can hold.
  pub entries_fit :
      (key : K) (t : Tree K)
      → IsAvl t
      → size t < 2 ^ 59
      → (tsearch_entries key t ≤ max_height) × (tdelete_entries key t ≤ max_height + 1)
  unfolding tsearch_entries tdelete_entries
  entries_fit key t a s =
      let p = descend o key t [] in
      let ended = descend-Ended key t [] a in
      let past = past_node-lt p.0 ended.1 in
      let bound = height_bound t a s in (omega arith, omega arith)
