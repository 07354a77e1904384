-- ===== src/Search/Tree/Insert.antt =====
-- `tsearch` against the recursive insertion: the walk back up the path array does what a recursion
-- that rebalances on the way out does.
pub mod Avl
pub mod Refine
use leblibc.Prelude.{
  ℕ, List, [], ◌∷◌, Option, none, some, ◌≡◌, refl, arith, Bool, true, false, if◌then◌else◌, ap,
}
use leblibc.Prelude.Int.{ℤ}
use leblibc.Search.Order.{Sign, below, same, above, Comparison}
use leblibc.Search.Tree.{
  Tree, leaf, node, Dir, left, right, balance, Frame, frame, plug, unwind, climb, nonzero, descend,
  find_node, insert_at, tsearch, Outcome,
}

-- A rebuilt subtree, and whether the walk goes on to balance the node above it.
abbrev pub Rebuilt : Type 0 → Type 0
Rebuilt K = Option (Tree K × Bool)

module _ {K : Type 0} where
  -- One turn of the loop, at the node of the frame.
  unfoldable pub step : Frame K → Rebuilt K → Rebuilt K
  step f none = none
  step f (some (t, false)) = some (plug t f, false)
  step f (some (t, true)) = elim (balance (plug t f)) [
    | none ↦ none
    | some (u, change) ↦ some (u, nonzero change)
  ]

  -- The rest of the loop.
  unfoldable pub resume : Rebuilt K → List (Frame K) → Option (Tree K)
  resume none fs = none
  resume (some (t, false)) fs = some (unwind t fs)
  resume (some (t, true)) fs = climb t fs

  pub resume-step :
      (m : Rebuilt K) (f : Frame K) (fs : List (Frame K)) → resume (step f m) fs ≡ resume m (f ∷ fs)
  unfolding resume step climb unwind
  resume-step none f fs = refl
  resume-step (some (t, false)) f fs = refl
  resume-step (some (t, true)) f fs = ground arith

module _ {K : Type 0} (o : Comparison K) where
  unfoldable pub insert_rec : K → Tree K → Rebuilt K
  insert_rec key leaf = some (node key 1 leaf leaf, true)
  insert_rec key (node k h l r) = elim (o.cmp key k) [
    | below ↦ step (frame left k h r) (insert_rec key l)
    | same ↦ some (node k h l r, false)
    | above ↦ step (frame right k h l) (insert_rec key r)
  ]

  abbrev pub key_of : Tree K → Option K
  key_of leaf = none
  key_of (node k h l r) = some k

  unfoldable pub after : K → Tree K × List (Frame K) → Option (Tree K)
  after key (leaf, path) = climb (node key 1 leaf leaf) path
  after key (node k h l r, path) = some (unwind (node k h l r) path)

  pub after-descend :
      (key : K) (t : Tree K) (path : List (Frame K))
      → after key (descend o key t path) ≡ resume (insert_rec key t) path
  unfolding after descend insert_rec resume
  after-descend key leaf path = refl
  after-descend key (node k h l r) path = ground (
    arith,
    after-descend key l (frame left k h r ∷ path),
    after-descend key r (frame right k h l ∷ path),
    resume-step (insert_rec key l) (frame left k h r) path,
    resume-step (insert_rec key r) (frame right k h l) path,
  )

  pub unwind-descend :
      (key : K) (t : Tree K) (path : List (Frame K))
      → unwind (descend o key t path).0 (descend o key t path).1 ≡ unwind t path
  unfolding descend unwind
  unwind-descend key leaf path = refl
  unwind-descend key (node k h l r) path = ground (
    arith,
    unwind-descend key l (frame left k h r ∷ path),
    unwind-descend key r (frame right k h l ∷ path),
  )

  pub find_node-descend :
      (key : K) (t : Tree K) (path : List (Frame K))
      → find_node o key t ≡ key_of (descend o key t path).0
  unfolding find_node descend
  find_node-descend key leaf path = refl
  find_node-descend key (node k h l r) path = ground (
    arith,
    find_node-descend key l (frame left k h r ∷ path),
    find_node-descend key r (frame right k h l ∷ path),
  )
