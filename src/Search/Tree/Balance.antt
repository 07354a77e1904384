-- ===== src/Search/Tree/Balance.antt =====
-- `rot` and `__tsearch_balance` on trees whose two sides differ in height by at most two.
use leblibc.Prelude.{
  ℕ, suc, ◌+◌, ◌^◌, ◌≤◌, ◌<◌, max, List, [], ◌∷◌, ◌++◌, some, ◌≡◌, refl, arith, tests, ltb, inl,
  inr, Bool-cases, append_assoc, ◌∙◌,
}
use native.Mathlib.Decide.{dec_le}
use leblibc.Prelude.Int.{sub_ℕ}
use leblibc.Search.Tree.{Tree, leaf, node, Dir, left, right, height, rot, balance}

module _ {K : Type 0} where
  -- Every stored height is right, and the two sides of each node differ by at most one.
  abbrev pub IsAvl : Tree K → Type 0
  IsAvl leaf = Unit
  IsAvl (node k h l r) =
      (h ≡ suc (max (height l) (height r)))
      × (height l ≤ suc (height r))
      × (height r ≤ suc (height l))
      × IsAvl l
      × IsAvl r

  -- The keys from left to right.
  abbrev pub to_list : Tree K → List K
  to_list leaf = []
  to_list (node k h l r) = to_list l ++ (k ∷ to_list r)

  abbrev pub Balanced : Tree K → ℕ → Tree K → Tree K → Type 0
  Balanced u m l r = IsAvl u × (m ≤ height u) × (height u ≤ suc m)

  -- What the balancing of a node over `l` and `r` gives: a tree one level above the higher side,
  -- or, where a rotation was due, perhaps as high as that side.
  pub record IsBalancedFrom (k : K) (h : ℕ) (l r : Tree K) : Type 0 where
    pub tree : Tree K
    pub returns : balance (node k h l r) ≡ some (tree, sub_ℕ (height tree) h)
    pub avl : IsAvl tree
    pub at_least : max (height l) (height r) ≤ height tree
    pub at_most : height tree ≤ suc (max (height l) (height r))
    pub level :
        height l ≤ suc (height r)
        → height r ≤ suc (height l)
        → height tree ≡ suc (max (height l) (height r))
    pub keys : to_list tree ≡ to_list l ++ (k ∷ to_list r)

  balance_near :
      (k : K) (h : ℕ) (l r : Tree K)
      → height l < 2 ^ 31
      → height r < 2 ^ 31
      → height l ≤ suc (height r)
      → height r ≤ suc (height l)
      → balance (node k h l r)
        ≡ some (
          node k (suc (max (height l) (height r))) l r,
          sub_ℕ (suc (max (height l) (height r))) h,
        )
  unfolding balance
  balance_near k h l r bl br p q = ground arith

  balance_left :
      (k : K) (h : ℕ) (l r : Tree K)
      → height l < 2 ^ 31
      → height l ≡ height r + 2
      → balance (node k h l r) ≡ rot left k h r l
  unfolding balance
  balance_left k h l r bl e = ground arith

  balance_right :
      (k : K) (h : ℕ) (l r : Tree K)
      → height r < 2 ^ 31
      → height r ≡ height l + 2
      → balance (node k h l r) ≡ rot right k h l r
  unfolding balance
  balance_right k h l r br e = ground arith

  -- The rotated tree.
  abbrev Rotated : Dir → K → ℕ → Tree K → Tree K → Tree K → Type 0
  Rotated dir k h o y u =
      (rot dir k h o y ≡ some (u, sub_ℕ (height u) h))
      × IsAvl u
      × (height y ≤ height u)
      × (height u ≤ suc (height y))

  rot_right :
      (k : K) (h : ℕ) (l r : Tree K)
      → IsAvl l
      → IsAvl r
      → height r ≡ height l + 2
      → (u : Tree K) × Rotated right k h l r u × (to_list u ≡ to_list l ++ (k ∷ to_list r))
  unfolding rot height
  rot_right k h l leaf al ar e = absurd (omega arith)
  rot_right k h l (node yk hy leaf y1) al ar e =
      (node yk 2 (node k 1 l leaf) y1, unfold height in ground arith, simp append_assoc)
  rot_right k h l (node yk hy (node zk hz z0 z1) y1) al ar e =
      elim (Bool-cases (ltb (height y1) hz)) [
        | inl up ↦ (
          node zk (hz + 1) (node k hz l z0) (node yk hz z1 y1),
          (
            rw up,
            (
              omega tests,
              omega tests,
              omega tests,
              (omega tests, omega tests, omega tests, al, ar.3.3),
              (omega tests, omega tests, omega tests, ar.3.4, ar.4),
            ),
            omega tests,
            omega tests,
          ),
          (simp append_assoc),
        )
        | inr down ↦ (
          node yk (hz + 2) (node k (hz + 1) l (node zk hz z0 z1)) y1,
          unfold height in ground arith,
          (simp append_assoc),
        )
      ]

  rot_left :
      (k : K) (h : ℕ) (l r : Tree K)
      → IsAvl l
      → IsAvl r
      → height l ≡ height r + 2
      → (u : Tree K) × Rotated left k h r l u × (to_list u ≡ to_list l ++ (k ∷ to_list r))
  unfolding rot height
  rot_left k h leaf r al ar e = absurd (omega arith)
  rot_left k h (node yk hy y0 leaf) r al ar e =
      (node yk 2 y0 (node k 1 leaf r), unfold height in ground arith, simp append_assoc)
  rot_left k h (node yk hy y0 (node zk hz z0 z1)) r al ar e =
      elim (Bool-cases (ltb (height y0) hz)) [
        | inl up ↦ (
          node zk (hz + 1) (node yk hz y0 z0) (node k hz z1 r),
          (
            rw up,
            (
              omega tests,
              omega tests,
              omega tests,
              (omega tests, omega tests, omega tests, al.3, al.4.3),
              (omega tests, omega tests, omega tests, al.4.4, ar),
            ),
            omega tests,
            omega tests,
          ),
          (simp append_assoc),
        )
        | inr down ↦ (
          node yk (hz + 2) y0 (node k (hz + 1) (node zk hz z0 z1) r),
          unfold height in ground arith,
          (simp append_assoc),
        )
      ]

  -- Balancing the node over two AVL trees that differ by at most two levels gives an AVL tree with
  -- the same keys in the same order, and returns how its height differs from the stored one.
  pub balance_lem :
      (k : K) (h : ℕ) (l r : Tree K)
      → IsAvl l
      → IsAvl r
      → height l < 2 ^ 31
      → height r < 2 ^ 31
      → height l ≤ height r + 2
      → height r ≤ height l + 2
      → IsBalancedFrom k h l r
  balance_lem k h l r al ar bl br p q = elim (dec_le (height l) (suc (height r))) [
    | yes near ↦ elim (dec_le (height r) (suc (height l))) [
      | yes near' ↦ record {
        tree = node k (suc (max (height l) (height r))) l r;
        returns = unfold height in balance_near k h l r bl br near near';
        avl = (refl, near, near', al, ar);
        at_least = unfold height in omega arith;
        at_most = unfold height in omega arith;
        level = λ _ _. unfold height in refl;
        keys = refl;
      }
      | no far ↦
          let (u, turned, same_keys) = rot_right k h l r al ar (omega arith) in
          record {
            tree = u;
            returns = balance_right k h l r br (omega arith) ∙ turned.0;
            avl = turned.1;
            at_least = omega (arith, turned.2);
            at_most = omega (arith, turned.3);
            level = λ _ c. absurd (omega arith);
            keys = same_keys;
          }
    ]
    | no far ↦
        let (u, turned, same_keys) = rot_left k h l r al ar (omega arith) in
        record {
          tree = u;
          returns = balance_left k h l r bl (omega arith) ∙ turned.0;
          avl = turned.1;
          at_least = omega (arith, turned.2);
          at_most = omega (arith, turned.3);
          level = λ c _. absurd (omega arith);
          keys = same_keys;
        }
  ]
