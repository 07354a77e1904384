-- ===== src/Search/Tree/Delete/Refine.antt =====
-- `delete_rec` refines the deletion from the sorted list of the keys.
use leblibc.Prelude.{ℕ, ◌-◌, ◌<◌, ◌^◌, ◌∷◌, ◌++◌, ◌≡◌, refl, arith, false}
use leblibc.Search.Order.{Sign, below, same, above, Comparison}
use leblibc.Search.SortedList.{IsSorted, delete}
use leblibc.Search.SortedList.Laws.{IsSplit-sorted, IsSplit}
use leblibc.Search.SortedList.Split.{delete_same, delete_above, delete_below}
use leblibc.Search.Tree.{Tree, leaf, node, height}
use leblibc.Search.Tree.Balance.{IsAvl, to_list}
use leblibc.Search.Tree.Delete.{delete_rec}
use leblibc.Search.Tree.Delete.Avl.{IsShrunk, IsShrunk-left, IsShrunk-right, unlink_rec-IsShrunk}

module _ {K : Type 0} (o : Comparison K) where
  delete_node :
      (key k : K) (h : ℕ) (l r : Tree K)
      → IsAvl (node k h l r)
      → h < 2 ^ 31 - 1
      → IsSplit o (to_list l) k (to_list r)
      → IsShrunk (height l) (delete o key (to_list l)) (delete_rec o key l)
      → IsShrunk (height r) (delete o key (to_list r)) (delete_rec o key r)
      → (c : Sign) → o.cmp key k ≡ c
      → IsShrunk h (delete o key (to_list l ++ k ∷ to_list r)) (delete_rec o key (node k h l r))
  unfolding delete_rec
  delete_node key k h l r a b p gl gr below e =
      rw (e, delete_rec, delete_below o key (to_list l) k (to_list r) p e)
        (IsShrunk-left k h l r (delete_rec o key l) a b gl)
  delete_node key k h l r a b p gl gr same e =
      rw (e, delete_rec, delete_same o key (to_list l) k (to_list r) p e)
        (unlink_rec-IsShrunk k h l r a b)
  delete_node key k h l r a b p gl gr above e =
      rw (e, delete_rec, delete_above o key (to_list l) k (to_list r) p e)
        (IsShrunk-right k h l r (delete_rec o key r) a b gr)

  pub delete_rec-IsShrunk :
      (key : K) (t : Tree K)
      → IsAvl t
      → height t < 2 ^ 31 - 1
      → IsSorted o (to_list t)
      → IsShrunk (height t) (delete o key (to_list t)) (delete_rec o key t)
  unfolding delete_rec height
  delete_rec-IsShrunk key leaf a b s = record {
    tree = leaf;
    goes_on = false;
    returns = refl;
    avl = tt;
    shrinks = refl;
    keys = unfold delete in refl;
  }
  delete_rec-IsShrunk key (node k h l r) a b s =
      let p = IsSplit-sorted o (to_list l) k (to_list r) s in
      delete_node key k h l r a b p (delete_rec-IsShrunk key l a.3 (omega arith) p.front)
        (delete_rec-IsShrunk key r a.4 (omega arith) p.back) (o.cmp key k) refl
