-- ===== src/Search/Tree/Contract.antt =====
-- What `tfind`, `tsearch` and `tdelete` promise: they are the operations of a sorted list without
-- two keys that compare equal, and none of them follows a null link.
use leblibc.Prelude.{
  ◌<◌, ◌^◌, List, [], Option, none, some, ◌≡◌, ◌≢◌, ◌↔◌, refl, arith, Bool, true, false, ◌∙◌, ap,
  sym,
}
use mathlib.Core.Option
use leblibc.Search.Order.{same, Comparison}
use leblibc.Search.SortedList.{IsSorted, find, insert, delete}
use leblibc.Search.SortedList.Laws.{
  insert-IsSorted, delete-IsSorted, find-insert_self, find-insert_ne, find-delete_self,
  find-delete_ne,
}
use leblibc.Search.Tree.{
  Tree, leaf, node, tfind, tsearch, tdelete, Outcome, descend, insert_at, delete_at, unwind, climb,
  Frame, parent_of,
}
use leblibc.Search.Tree.Balance.{IsAvl, to_list}
use leblibc.Search.Tree.Bound.{size, height_bound}
use leblibc.Search.Tree.Insert.{
  insert_rec, resume, after, after-descend, key_of, unwind-descend, find_node-descend,
}
use leblibc.Search.Tree.Insert.Refine.{insert_rec-IsGrown, find_node-eq-find}
use leblibc.Search.Tree.Delete.{delete_rec, without, without-descend}
use leblibc.Search.Tree.Delete.Refine.{delete_rec-IsShrunk}

module _ {K : Type 0} (o : Comparison K) where
  -- The tree is balanced, and its keys ascend.
  pub record IsSearchTree (t : Tree K) : Type 0 where
    pub avl : IsAvl t
    pub ordered : IsSorted o (to_list t)

  -- A node takes 32 bytes of a 64-bit address space.
  abbrev pub Fits : Tree K → Type 0
  Fits t = size t < 2 ^ 59

  resume_all :
      (m : Option (Tree K × Bool)) (t : Tree K) (b : Bool) → m ≡ some (t, b) → resume m [] ≡ some t
  unfolding resume climb unwind
  resume_all m t true e = rw e
  resume_all m t false e = rw e

  -- tfind returns the node whose key compares equal, exactly when the sorted keys hold one.
  pub tfind_refines :
      (key : K) (t : Tree K) → IsSearchTree t → tfind o key (some t) ≡ find o key (to_list t)
  unfolding tfind
  tfind_refines key t v = find_node-eq-find o key t v.ordered

  unwound : (key : K) (t : Tree K) → unwind (descend o key t []).0 (descend o key t []).1 ≡ t
  unfolding unwind
  unwound key t = unwind-descend o key t []

  after_insert :
      (key : K) (root : Tree K) (p : Tree K × List (Frame K)) (t : Tree K)
      → unwind p.0 p.1 ≡ root
      → after o key p ≡ some t
      → insert_at o true key root p
        ≡ some (record { root = t; result = some (Option.get_or (key_of o p.0) key) })
  unfolding after insert_at
  after_insert key root (leaf, path) t w e = rw e
  after_insert key root (node k h l r, path) t w e = cc

  -- tsearch with memory at hand never follows a null link; it returns the node that compares equal
  -- to the key, new or old, and leaves a balanced search tree whose keys are the old ones with the
  -- key inserted at its place, or the old ones if an equal key was there.
  pub tsearch_refines :
      (key : K) (t : Tree K)
      → IsSearchTree t
      → Fits t
      → (out : Outcome K) × (tsearch o true key (some t) ≡ some out)
        × IsSearchTree out.root
        × (to_list out.root ≡ insert o key (to_list t))
        × (out.result ≡ some (Option.get_or (find o key (to_list t)) key))
  unfolding tsearch
  tsearch_refines key t v fits =
      let bound = height_bound t v.avl fits in
      let g = insert_rec-IsGrown o key t v.avl (omega arith) v.ordered in
      let rebuilt =
        after-descend o key t [] ∙ resume_all (insert_rec o key t) g.tree g.goes_on g.returns in
      let same_node = sym (find_node-descend o key t []) ∙ find_node-eq-find o key t v.ordered in
      (
        record { root = g.tree; result = some (Option.get_or (find o key (to_list t)) key) },
        rw same_node at (after_insert key t (descend o key t []) g.tree (unwound key t) rebuilt),
        record { avl = g.avl; ordered = rw g.keys (insert-IsSorted o key (to_list t) v.ordered) },
        g.keys,
        refl,
      )

  -- tsearch where malloc fails: the tree stays, and the result is the node that compares equal to
  -- the key, if there is one, and null otherwise.
  pub tsearch_no_memory :
      (key : K) (t : Tree K)
      → IsSearchTree t
      → tsearch o false key (some t) ≡ some (record { root = t; result = find o key (to_list t) })
  unfolding tsearch
  tsearch_no_memory key t v =
      let same_node = sym (find_node-descend o key t []) ∙ find_node-eq-find o key t v.ordered in
      rw same_node at (refused key t (descend o key t []))
    where
      refused :
          (key : K) (root : Tree K) (p : Tree K × List (Frame K))
          → insert_at o false key root p ≡ some (record { root = root; result = key_of o p.0 })
      refused key root (leaf, path) = unfold insert_at in refl
      refused key root (node k h l r, path) = unfold insert_at in refl

  -- What tdelete returns, by where the descent ended.
  parent_result : Tree K × List (Frame K) → Option K
  parent_result (leaf, path) = none
  parent_result (node k h l r, path) = some (parent_of k path)

  after_delete :
      (root : Tree K) (p : Tree K × List (Frame K)) (t : Tree K)
      → unwind p.0 p.1 ≡ root
      → without o p ≡ some t
      → delete_at root p ≡ some (record { root = t; result = parent_result p })
  unfolding without delete_at parent_result
  after_delete root (leaf, path) t w e = cc
  after_delete root (node k h l r, path) t w e = rw e

  parent_result_iff :
      (p : Tree K × List (Frame K)) → (parent_result p ≡ none) ↔ (key_of o p.0 ≡ none)
  unfolding parent_result
  parent_result_iff (leaf, path) = (λ _. refl, λ _. refl)
  parent_result_iff (node k h l r, path) = (λ e. cc, λ e. cc)

  -- tdelete never follows a null link; it leaves a balanced search tree whose keys are the old ones
  -- without the one that compares equal to the key, and returns null exactly when there is none.
  pub tdelete_refines :
      (key : K) (t : Tree K)
      → IsSearchTree t
      → Fits t
      → (out : Outcome K) × (tdelete o key (some t) ≡ some out)
        × IsSearchTree out.root
        × (to_list out.root ≡ delete o key (to_list t))
        × ((out.result ≡ none) ↔ (find o key (to_list t) ≡ none))
  unfolding tdelete
  tdelete_refines key t v fits =
      let bound = height_bound t v.avl fits in
      let g = delete_rec-IsShrunk o key t v.avl (omega arith) v.ordered in
      let p = descend o key t [] in
      let rebuilt =
        without-descend o key t [] ∙ resume_all (delete_rec o key t) g.tree g.goes_on g.returns in
      let same_node = sym (find_node-descend o key t []) ∙ find_node-eq-find o key t v.ordered in
      (
        record { root = g.tree; result = parent_result p },
        after_delete t p g.tree (unwound key t) rebuilt,
        record { avl = g.avl; ordered = rw g.keys (delete-IsSorted o key (to_list t) v.ordered) },
        g.keys,
        rw same_node at (parent_result_iff p),
      )

  -- After tsearch has stored a key, tfind returns the node that tsearch returned; a key that
  -- does not compare equal to it is found, or not, as before.
  pub tfind-tsearch :
      (key j : K) (t : Tree K)
      → IsSearchTree t
      → Fits t
      → o.cmp j key ≢ same
      → (out : Outcome K) × (tsearch o true key (some t) ≡ some out)
        × (tfind o key (some out.root) ≡ out.result)
        × (tfind o j (some out.root) ≡ tfind o j (some t))
  tfind-tsearch key j t v fits n =
      let (out, returns, valid, keys, result) = tsearch_refines key t v fits in
      (
        out,
        returns,
        tfind_refines key out.root valid
            ∙ ap (find o key) keys
            ∙ find-insert_self o key (to_list t) v.ordered
            ∙ sym result,
        tfind_refines j out.root valid
            ∙ ap (find o j) keys
            ∙ find-insert_ne o key j (to_list t) n
            ∙ sym (tfind_refines j t v),
      )

  -- After tdelete, tfind returns null for the key; a key that does not compare equal to it is
  -- found, or not, as before.
  pub tfind-tdelete :
      (key j : K) (t : Tree K)
      → IsSearchTree t
      → Fits t
      → o.cmp j key ≢ same
      → (out : Outcome K) × (tdelete o key (some t) ≡ some out)
        × (tfind o key (some out.root) ≡ none)
        × (tfind o j (some out.root) ≡ tfind o j (some t))
  tfind-tdelete key j t v fits n =
      let (out, returns, valid, keys, result) = tdelete_refines key t v fits in
      (
        out,
        returns,
        tfind_refines key out.root valid
            ∙ ap (find o key) keys
            ∙ find-delete_self o key (to_list t) v.ordered,
        tfind_refines j out.root valid
            ∙ ap (find o j) keys
            ∙ find-delete_ne o key j (to_list t) n
            ∙ sym (tfind_refines j t v),
      )
