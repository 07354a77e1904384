-- ===== src/Search/Tree/Delete/Avl.antt =====
-- Deletion keeps the tree balanced and takes the key out of its place.
use leblibc.Prelude.{
  ℕ, suc, ◌-◌, ◌≤◌, ◌<◌, ◌^◌, max, List, ◌∷◌, ◌++◌, some, ◌≡◌, refl, arith, Bool, true, false,
  if◌then◌else◌, ap, sym, ◌⊎◌, inl, inr, append_assoc,
}
use native.Mathlib.Decide.{dec_le}
use leblibc.Prelude.Int.{sub_ℕ}
use leblibc.Search.Tree.{Tree, leaf, node, left, right, height, Frame, frame, plug, nonzero}
use leblibc.Search.Tree.Balance.{IsAvl, to_list, balance_lem}
use leblibc.Search.Tree.Insert.{Rebuilt, step}
use leblibc.Search.Tree.Insert.Avl.{step_balanced}
use leblibc.Search.Tree.Delete.{take_last, unlink_rec}

shrink_change : (n h : ℕ) → n ≤ h → h ≤ suc n → h ≡ (if nonzero (sub_ℕ n h) then suc n else n)
shrink_change n h p q = ground arith

-- Where one side has lost a level, the height of the balanced node stays or falls by one.
shrunk_height :
    (h a b a' b' n : ℕ)
    → h ≡ suc (max a b)
    → a ≤ suc b
    → b ≤ suc a
    → (a ≡ suc a') × (b' ≡ b) ⊎ (a' ≡ a) × (b ≡ suc b')
    → max a' b' ≤ n
    → n ≤ suc (max a' b')
    → (a' ≤ suc b' → b' ≤ suc a' → n ≡ suc (max a' b'))
    → h ≡ (if nonzero (sub_ℕ n h) then suc n else n)
shrunk_height h a b a' b' n e p q shrank lo hi level = elim (dec_le a' (suc b')) [
  | yes c ↦ elim (dec_le b' (suc a')) [
    | yes d ↦ let exact = level c d in shrink_change n h (omega arith) (omega arith)
    | no d ↦ shrink_change n h (omega arith) (omega arith)
  ]
  | no c ↦ shrink_change n h (omega arith) (omega arith)
]

module _ {K : Type 0} where
  -- `m` rebuilds a tree of height `h` into an AVL tree with the keys `xs`, lower by one level if
  -- the walk goes on and as high as before if it stops.
  pub record IsShrunk (h : ℕ) (xs : List K) (m : Rebuilt K) : Type 0 where
    pub tree : Tree K
    pub goes_on : Bool
    pub returns : m ≡ some (tree, goes_on)
    pub avl : IsAvl tree
    pub shrinks : h ≡ (if goes_on then suc (height tree) else height tree)
    pub keys : to_list tree ≡ xs

  abbrev OneShrank : Tree K → Tree K → Tree K → Tree K → Type 0
  OneShrank l r l' r' =
      (height l ≡ suc (height l')) × (height r' ≡ height r)
      ⊎ (height l' ≡ height l) × (height r ≡ suc (height r'))

  IsShrunk-node :
      (f : Frame K) (t : Tree K) (k : K) (h : ℕ) (l r l' r' : Tree K)
      → plug t f ≡ node k h l' r'
      → IsAvl (node k h l r)
      → h < 2 ^ 31 - 1
      → IsAvl l'
      → IsAvl r'
      → OneShrank l r l' r'
      → IsShrunk h (to_list l' ++ k ∷ to_list r') (step f (some (t, true)))
  IsShrunk-node f t k h l r l' r' e a bound al ar shrank =
      let b = balance_lem k h l' r' al ar (omega arith) (omega arith) (omega arith) (omega arith) in
      record {
        tree = b.tree;
        goes_on = nonzero (sub_ℕ (height b.tree) h);
        returns = step_balanced f t k h l' r' e b;
        avl = b.avl;
        shrinks =
            shrunk_height h (height l) (height r) (height l') (height r') (height b.tree) a.0 a.1
              a.2 shrank b.at_least b.at_most b.level;
        keys = b.keys;
      }

  stored_node :
      (f : Frame K) (t : Tree K) (k : K) (h : ℕ) (l r l' r' : Tree K)
      → plug t f ≡ node k h l' r'
      → IsAvl (node k h l r)
      → IsAvl l'
      → IsAvl r'
      → height l' ≡ height l
      → height r' ≡ height r
      → IsShrunk h (to_list l' ++ k ∷ to_list r') (step f (some (t, false)))
  stored_node f t k h l r l' r' e a al ar el er = record {
    tree = node k h l' r';
    goes_on = false;
    returns = unfold step in ap (λ u. some (u, false)) e;
    avl = (rw (el, er) a.0, rw (el, er) a.1, rw (el, er) a.2, al, ar);
    shrinks = unfold height in refl;
    keys = refl;
  }

  pub IsShrunk-left :
      (k : K) (h : ℕ) (l r : Tree K) {xs : List K} (m : Rebuilt K)
      → IsAvl (node k h l r)
      → h < 2 ^ 31 - 1
      → IsShrunk (height l) xs m
      → IsShrunk h (xs ++ k ∷ to_list r) (step (frame left k h r) m)
  IsShrunk-left k h l r m a bound g = rw (g.returns, ← g.keys) (go g.goes_on g.shrinks)
    where
      go :
          (b : Bool)
          → height l ≡ (if b then suc (height g.tree) else height g.tree)
          → IsShrunk h
              (to_list g.tree ++ k ∷ to_list r)
              (step (frame left k h r) (some (g.tree, b)))
      go true e =
          IsShrunk-node (frame left k h r) g.tree k h l r g.tree r refl a bound g.avl a.4
            (inl (e, refl))
      go false e =
          stored_node (frame left k h r) g.tree k h l r g.tree r refl a g.avl a.4 (sym e) refl

  pub IsShrunk-right :
      (k : K) (h : ℕ) (l r : Tree K) {xs : List K} (m : Rebuilt K)
      → IsAvl (node k h l r)
      → h < 2 ^ 31 - 1
      → IsShrunk (height r) xs m
      → IsShrunk h (to_list l ++ k ∷ xs) (step (frame right k h l) m)
  IsShrunk-right k h l r m a bound g = rw (g.returns, ← g.keys) (go g.goes_on g.shrinks)
    where
      go :
          (b : Bool)
          → height r ≡ (if b then suc (height g.tree) else height g.tree)
          → IsShrunk h
              (to_list l ++ k ∷ to_list g.tree)
              (step (frame right k h l) (some (g.tree, b)))
      go true e =
          IsShrunk-node (frame right k h l) g.tree k h l r l g.tree refl a bound a.3 g.avl
            (inr (refl, e))
      go false e =
          stored_node (frame right k h l) g.tree k h l r l g.tree refl a a.3 g.avl refl (sym e)

  -- The keys without the last one.
  all_but_last : K → Tree K → Tree K → List K
  all_but_last k l leaf = to_list l
  all_but_last k l (node rk rh rl rr) = to_list l ++ k ∷ all_but_last rk rl rr

  take_last-IsShrunk :
      (k : K) (h : ℕ) (l r : Tree K)
      → IsAvl (node k h l r)
      → h < 2 ^ 31 - 1
      → IsShrunk h (all_but_last k l r) (take_last k h l r).1
  unfolding take_last all_but_last height
  take_last-IsShrunk k h l leaf a b = record {
    tree = l;
    goes_on = true;
    returns = refl;
    avl = a.3;
    shrinks = omega arith;
    keys = refl;
  }
  take_last-IsShrunk k h l (node rk rh rl rr) a b =
      IsShrunk-right k h l (node rk rh rl rr) (take_last rk rh rl rr).1 a b
        (take_last-IsShrunk rk rh rl rr a.4 (omega arith))

  all_but_last-append :
      (k : K) (h : ℕ) (l r : Tree K) (more : List K)
      → all_but_last k l r ++ (take_last k h l r).0 ∷ more ≡ to_list l ++ k ∷ (to_list r ++ more)
  unfolding take_last all_but_last
  all_but_last-append k h l leaf more = refl
  all_but_last-append k h l (node rk rh rl rr) more =
      simp (append_assoc, all_but_last-append rk rh rl rr more)

  pub unlink_rec-IsShrunk :
      (k : K) (h : ℕ) (l r : Tree K)
      → IsAvl (node k h l r)
      → h < 2 ^ 31 - 1
      → IsShrunk h (to_list l ++ to_list r) (unlink_rec k h l r)
  unfolding unlink_rec height
  unlink_rec-IsShrunk k h leaf r a b = record {
    tree = r;
    goes_on = true;
    returns = refl;
    avl = a.4;
    shrinks = omega arith;
    keys = refl;
  }
  unlink_rec-IsShrunk k h (node lk lh ll lr) r a b =
      rw
        (
          append_assoc (to_list ll) (lk ∷ to_list lr) (to_list r),
          ← all_but_last-append lk lh ll lr (to_list r),
        )
        (IsShrunk-left (take_last lk lh ll lr).0 h (node lk lh ll lr) r (take_last lk lh ll lr).1 a
          b (take_last-IsShrunk lk lh ll lr a.3 (omega arith)))
