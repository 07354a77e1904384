-- ===== src/Search/Tree/Insert/Refine.antt =====
-- `tsearch` refines the insertion into the sorted list of the keys.
use leblibc.Prelude.{ℕ, ◌-◌, ◌<◌, ◌^◌, ◌∷◌, ◌++◌, ◌≡◌, refl, arith, true, false, sym}
use leblibc.Search.Order.{Sign, below, same, above, Comparison}
use leblibc.Search.SortedList.{IsSorted, insert, find}
use leblibc.Search.SortedList.Laws.{IsSplit-sorted, IsSplit, insert-below}
use leblibc.Search.SortedList.Split.{insert_same, insert_above, find_same, find_above, find_below}
use leblibc.Search.Tree.{Tree, leaf, node, height, find_node}
use leblibc.Search.Tree.Balance.{IsAvl, to_list}
use leblibc.Search.Tree.Insert.{insert_rec}
use leblibc.Search.Tree.Insert.Avl.{IsGrown, IsGrown-left, IsGrown-right}

module _ {K : Type 0} (o : Comparison K) where
  insert_node :
      (key k : K) (h : ℕ) (l r : Tree K)
      → IsAvl (node k h l r)
      → h < 2 ^ 31 - 1
      → IsSplit o (to_list l) k (to_list r)
      → IsGrown l (insert o key (to_list l)) (insert_rec o key l)
      → IsGrown r (insert o key (to_list r)) (insert_rec o key r)
      → (c : Sign) → o.cmp key k ≡ c
      → IsGrown
          (node k h l r)
          (insert o key (to_list l ++ k ∷ to_list r))
          (insert_rec o key (node k h l r))
  unfolding insert_rec
  insert_node key k h l r a b p gl gr below e =
      rw (e, insert_rec, insert-below o key (to_list l) k (to_list r) e)
        (IsGrown-left k h l r (insert_rec o key l) a b gl)
  insert_node key k h l r a b p gl gr same e = record {
    tree = node k h l r;
    goes_on = false;
    returns = rw (e, insert_rec);
    avl = a;
    grows = refl;
    keys = sym (insert_same o key (to_list l) k (to_list r) p e);
  }
  insert_node key k h l r a b p gl gr above e =
      rw (e, insert_rec, insert_above o key (to_list l) k (to_list r) p e)
        (IsGrown-right k h l r (insert_rec o key r) a b gr)

  pub insert_rec-IsGrown :
      (key : K) (t : Tree K)
      → IsAvl t
      → height t < 2 ^ 31 - 1
      → IsSorted o (to_list t)
      → IsGrown t (insert o key (to_list t)) (insert_rec o key t)
  unfolding insert_rec height
  insert_rec-IsGrown key leaf a b s = record {
    tree = node key 1 leaf leaf;
    goes_on = true;
    returns = refl;
    avl = (refl, omega arith, omega arith, tt, tt);
    grows = refl;
    keys = unfold insert in refl;
  }
  insert_rec-IsGrown key (node k h l r) a b s =
      let p = IsSplit-sorted o (to_list l) k (to_list r) s in
      insert_node key k h l r a b p (insert_rec-IsGrown key l a.3 (omega arith) p.front)
        (insert_rec-IsGrown key r a.4 (omega arith) p.back) (o.cmp key k) refl

  -- `find_node` and the list agree.
  pub find_node-eq-find :
      (key : K) (t : Tree K) → IsSorted o (to_list t) → find_node o key t ≡ find o key (to_list t)
  unfolding find_node
  find_node-eq-find key leaf s = unfold find in refl
  find_node-eq-find key (node k h l r) s =
      let p = IsSplit-sorted o (to_list l) k (to_list r) s in
      ground (
        arith,
        find_node-eq-find key l p.front,
        find_node-eq-find key r p.back,
        find_same o key (to_list l) k (to_list r) p,
        find_above o key (to_list l) k (to_list r) p,
        find_below o key (to_list l) k (to_list r) p,
      )
