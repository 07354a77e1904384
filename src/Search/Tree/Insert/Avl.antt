-- ===== src/Search/Tree/Insert/Avl.antt =====
-- Insertion keeps the tree balanced and puts the key in its place.
use leblibc.Prelude.{
  ℕ, suc, ◌-◌, ◌≤◌, ◌<◌, ◌^◌, max, List, ◌∷◌, ◌++◌, some, ◌≡◌, refl, arith, Bool, true, false,
  if◌then◌else◌, ap, ◌⊎◌, inl, inr,
}
use native.Mathlib.Decide.{dec_le}
use leblibc.Prelude.Int.{sub_ℕ}
use leblibc.Search.Tree.{Tree, node, left, right, height, Frame, frame, plug, nonzero}
use leblibc.Search.Tree.Balance.{IsAvl, to_list, IsBalancedFrom, balance_lem}
use leblibc.Search.Tree.Insert.{Rebuilt, step}

height_change : (n h : ℕ) → h ≤ n → n ≤ suc h → n ≡ (if nonzero (sub_ℕ n h) then suc h else h)
height_change n h p q = ground arith

-- Where one side has grown by a level, the height of the balanced node stays or grows by one.
grown_height :
    (h a b a' b' n : ℕ)
    → h ≡ suc (max a b)
    → a ≤ suc b
    → b ≤ suc a
    → (a' ≡ suc a) × (b' ≡ b) ⊎ (a' ≡ a) × (b' ≡ suc b)
    → max a' b' ≤ n
    → n ≤ suc (max a' b')
    → (a' ≤ suc b' → b' ≤ suc a' → n ≡ suc (max a' b'))
    → n ≡ (if nonzero (sub_ℕ n h) then suc h else h)
grown_height h a b a' b' n e p q grew lo hi level = elim (dec_le a' (suc b')) [
  | yes c ↦ elim (dec_le b' (suc a')) [
    | yes d ↦ let exact = level c d in height_change n h (omega arith) (omega arith)
    | no d ↦ height_change n h (omega arith) (omega arith)
  ]
  | no c ↦ height_change n h (omega arith) (omega arith)
]

module _ {K : Type 0} where
  -- `m` rebuilds `t` into an AVL tree with the keys `xs`, higher by one level if the walk goes on
  -- and as high as before if it stops.
  pub record IsGrown (t : Tree K) (xs : List K) (m : Rebuilt K) : Type 0 where
    pub tree : Tree K
    pub goes_on : Bool
    pub returns : m ≡ some (tree, goes_on)
    pub avl : IsAvl tree
    pub grows : height tree ≡ (if goes_on then suc (height t) else height t)
    pub keys : to_list tree ≡ xs

  pub step_balanced :
      (f : Frame K) (t : Tree K) (k : K) (h : ℕ) (l r : Tree K)
      → plug t f ≡ node k h l r
      → (b : IsBalancedFrom k h l r)
      → step f (some (t, true)) ≡ some (b.tree, nonzero (sub_ℕ (height b.tree) h))
  unfolding step
  step_balanced f t k h l r e b = ground (arith, b.returns)

  -- A side of the node has grown by a level.
  abbrev OneGrew : Tree K → Tree K → Tree K → Tree K → Type 0
  OneGrew l r l' r' =
      (height l' ≡ suc (height l)) × (height r' ≡ height r)
      ⊎ (height l' ≡ height l) × (height r' ≡ suc (height r))

  IsGrown-node :
      (f : Frame K) (t : Tree K) (k : K) (h : ℕ) (l r l' r' : Tree K)
      → plug t f ≡ node k h l' r'
      → IsAvl (node k h l r)
      → h < 2 ^ 31 - 1
      → IsAvl l'
      → IsAvl r'
      → OneGrew l r l' r'
      → IsGrown (node k h l r) (to_list l' ++ k ∷ to_list r') (step f (some (t, true)))
  IsGrown-node f t k h l r l' r' e a bound al ar grew =
      let b = balance_lem k h l' r' al ar (omega arith) (omega arith) (omega arith) (omega arith) in
      record {
        tree = b.tree;
        goes_on = nonzero (sub_ℕ (height b.tree) h);
        returns = step_balanced f t k h l' r' e b;
        avl = b.avl;
        grows =
            unfold height in
            grown_height h (height l) (height r) (height l') (height r') (height b.tree) a.0 a.1 a.2
              grew b.at_least b.at_most b.level;
        keys = b.keys;
      }

  -- A side was rebuilt at its old height: the walk has stopped, and the link is stored back.
  kept_node :
      (f : Frame K) (t : Tree K) (k : K) (h : ℕ) (l r l' r' : Tree K)
      → plug t f ≡ node k h l' r'
      → IsAvl (node k h l r)
      → IsAvl l'
      → IsAvl r'
      → height l' ≡ height l
      → height r' ≡ height r
      → IsGrown (node k h l r) (to_list l' ++ k ∷ to_list r') (step f (some (t, false)))
  kept_node f t k h l r l' r' e a al ar el er = record {
    tree = node k h l' r';
    goes_on = false;
    returns = unfold step in ap (λ u. some (u, false)) e;
    avl = (rw (el, er) a.0, rw (el, er) a.1, rw (el, er) a.2, al, ar);
    grows = unfold height in refl;
    keys = refl;
  }

  -- `insert_rec` at a node whose left or right side was rebuilt.
  pub IsGrown-left :
      (k : K) (h : ℕ) (l r : Tree K) {xs : List K} (m : Rebuilt K)
      → IsAvl (node k h l r)
      → h < 2 ^ 31 - 1
      → IsGrown l xs m
      → IsGrown (node k h l r) (xs ++ k ∷ to_list r) (step (frame left k h r) m)
  IsGrown-left k h l r m a bound g = rw (g.returns, ← g.keys) (go g.goes_on g.grows)
    where
      go :
          (b : Bool)
          → height g.tree ≡ (if b then suc (height l) else height l)
          → IsGrown
              (node k h l r)
              (to_list g.tree ++ k ∷ to_list r)
              (step (frame left k h r) (some (g.tree, b)))
      go true e =
          IsGrown-node (frame left k h r) g.tree k h l r g.tree r refl a bound g.avl a.4
            (inl (e, refl))
      go false e = kept_node (frame left k h r) g.tree k h l r g.tree r refl a g.avl a.4 e refl

  pub IsGrown-right :
      (k : K) (h : ℕ) (l r : Tree K) {xs : List K} (m : Rebuilt K)
      → IsAvl (node k h l r)
      → h < 2 ^ 31 - 1
      → IsGrown r xs m
      → IsGrown (node k h l r) (to_list l ++ k ∷ xs) (step (frame right k h l) m)
  IsGrown-right k h l r m a bound g = rw (g.returns, ← g.keys) (go g.goes_on g.grows)
    where
      go :
          (b : Bool)
          → height g.tree ≡ (if b then suc (height r) else height r)
          → IsGrown
              (node k h l r)
              (to_list l ++ k ∷ to_list g.tree)
              (step (frame right k h l) (some (g.tree, b)))
      go true e =
          IsGrown-node (frame right k h l) g.tree k h l r l g.tree refl a bound a.3 g.avl
            (inr (refl, e))
      go false e = kept_node (frame right k h l) g.tree k h l r l g.tree refl a a.3 g.avl refl e
