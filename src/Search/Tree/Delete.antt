-- ===== src/Search/Tree/Delete.antt =====
-- `tdelete` against the recursive deletion.
pub mod Avl
pub mod Refine
use leblibc.Prelude.{
  ℕ, List, [], ◌∷◌, ◌++◌, Option, none, some, ◌≡◌, refl, arith, true, false, append_assoc, ◌∙◌, ap,
  sym,
}
use leblibc.Search.Order.{below, same, above, Comparison}
use leblibc.Search.Tree.{
  Tree, leaf, node, left, right, Frame, frame, climb, unwind, descend, rightmost, unlink,
}
use leblibc.Search.Tree.Insert.{Rebuilt, step, resume, resume-step}

module _ {K : Type 0} where
  -- The rightmost node taken out of the tree with key `k`, height `h` and the sides `l` and `r`:
  -- its key, and the tree that is left.
  unfoldable pub take_last : K → ℕ → Tree K → Tree K → K × Rebuilt K
  take_last k h l leaf = (k, some (l, true))
  take_last k h l (node rk rh rl rr) =
      let (last, rest) = take_last rk rh rl rr in (last, step (frame right k h l) rest)

  unfoldable pub unlink_rec : K → ℕ → Tree K → Tree K → Rebuilt K
  unfolding take_last
  unlink_rec k h leaf r = some (r, true)
  unlink_rec k h (node lk lh ll lr) r =
      let (last, rest) = take_last lk lh ll lr in step (frame left last h r) rest

  rightmost-take_last :
      (k : K) (h : ℕ) (l r : Tree K) (path more : List (Frame K))
      → let (key, child, below_it) = rightmost k l r h path in
        (key ≡ (take_last k h l r).0)
        × (climb child (below_it ++ more) ≡ resume (take_last k h l r).1 (path ++ more))
  unfolding rightmost take_last
  rightmost-take_last k h l leaf path more = (refl, unfold resume in refl)
  rightmost-take_last k h l (node rk rh rl rr) path more =
      let ih = rightmost-take_last rk rh rl rr (frame right k h l ∷ path) more in
      (ih.0, ih.1 ∙ sym (resume-step (take_last rk rh rl rr).1 (frame right k h l) (path ++ more)))

  unlink-unlink_rec :
      (k : K) (h : ℕ) (l r : Tree K) (path : List (Frame K))
      → unlink k h l r path ≡ resume (unlink_rec k h l r) path
  unfolding unlink unlink_rec
  unlink-unlink_rec k h leaf r path = unfold resume in refl
  unlink-unlink_rec k h (node lk lh ll lr) r path =
      let key = (take_last lk lh ll lr).0 in
      let last = rightmost-take_last lk lh ll lr [] (frame left key h r ∷ path) in
      rw last.0 (last.1 ∙ sym (resume-step (take_last lk lh ll lr).1 (frame left key h r) path))

module _ {K : Type 0} (o : Comparison K) where
  -- `none` where the key is not in the tree.
  unfoldable pub delete_rec : K → Tree K → Rebuilt K
  delete_rec key leaf = some (leaf, false)
  delete_rec key (node k h l r) = elim (o.cmp key k) [
    | below ↦ step (frame left k h r) (delete_rec key l)
    | same ↦ unlink_rec k h l r
    | above ↦ step (frame right k h l) (delete_rec key r)
  ]

  unfoldable pub without : Tree K × List (Frame K) → Option (Tree K)
  without (leaf, path) = some (unwind leaf path)
  without (node k h l r, path) = unlink k h l r path

  pub without-descend :
      (key : K) (t : Tree K) (path : List (Frame K))
      → without (descend o key t path) ≡ resume (delete_rec key t) path
  unfolding without descend delete_rec
  without-descend key leaf path = unfold resume in refl
  without-descend key (node k h l r) path = ground (
    arith,
    without-descend key l (frame left k h r ∷ path),
    without-descend key r (frame right k h l ∷ path),
    resume-step (delete_rec key l) (frame left k h r) path,
    resume-step (delete_rec key r) (frame right k h l) path,
    unlink-unlink_rec k h l r path,
  )
