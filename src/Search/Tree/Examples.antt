-- ===== src/Search/Tree/Examples.antt =====
-- Runs of the tree functions on small trees of numbers, and the theorems about them at such trees.
use leblibc.Prelude.{
  ℕ, ◌+◌, ◌≤◌, List, [], ◌∷◌, Option, none, some, ◌≡◌, ◌↔◌, refl, arith, Bool, true, false, ◌>>=◌,
}
use mathlib.Core.Option
use mathlib.Core.List.{Perm}
use leblibc.Search.Order.{number_order}
use leblibc.Search.SortedList.{find, insert, delete}
use leblibc.Search.Tree.{Tree, leaf, node, Outcome, height, balance, tsearch, tfind, tdelete}
use leblibc.Search.Tree.Balance.{IsAvl, to_list}
use leblibc.Search.Tree.Bound.{size, max_height, tsearch_entries, tdelete_entries, entries_fit}
use leblibc.Search.Tree.Contract.{
  IsSearchTree, Fits, tfind_refines, tsearch_refines, tsearch_no_memory, tdelete_refines,
}
use leblibc.Search.Tree.Walk.{twalk, tdestroy}
use leblibc.Search.Tree.Walk.Order.{
  in_order, in_order-twalk, freed_nodes, freed_keys, tdestroy_frees,
}

abbrev store_all : List ℕ → Tree ℕ → Option (Tree ℕ)
store_all [] t = some t
store_all (k ∷ ks) t = tsearch number_order true k (some t) >>= λ out. store_all ks (out.root)

-- The tree after 1, 2, …, 6 were stored in ascending order.
abbrev six : Tree ℕ
six =
    node 4 3 (node 2 2 (node 1 1 leaf leaf) (node 3 1 leaf leaf))
      (node 5 2 leaf (node 6 1 leaf leaf))

six_stored : store_all (1 ∷ 2 ∷ 3 ∷ 4 ∷ 5 ∷ 6 ∷ []) leaf ≡ some six
unfolding tsearch balance
six_stored = refl

-- The predecessor takes the place of the deleted root, and the tree stays as high.
root_deleted :
    tdelete number_order 4 (some six)
    ≡ some (record {
      root = node 3 3 (node 2 2 (node 1 1 leaf leaf) leaf) (node 5 2 leaf (node 6 1 leaf leaf));
      result = some 4;
    })
unfolding tdelete balance
root_deleted = refl

six_valid : IsSearchTree number_order six
unfolding height
six_valid = record { avl = omega arith; ordered = ground arith }

six-Fits : Fits number_order six
unfolding size
six-Fits = omega arith

-- A node whose left side is two levels higher.
abbrev tall : Tree ℕ
tall = node 2 2 (node 1 1 leaf leaf) leaf

tall-IsAvl : IsAvl tall
unfolding height
tall-IsAvl = omega arith

tfind_refines_example : tfind number_order 3 (some six) ≡ find number_order 3 (to_list six)
tfind_refines_example = tfind_refines number_order 3 six six_valid

tsearch_refines_example :
    (out : Outcome ℕ) × (tsearch number_order true 9 (some six) ≡ some out)
    × IsSearchTree number_order out.root
    × (to_list out.root ≡ insert number_order 9 (to_list six))
    × (out.result ≡ some (Option.get_or (find number_order 9 (to_list six)) 9))
tsearch_refines_example = tsearch_refines number_order 9 six six_valid six-Fits

tsearch_no_memory_example :
    tsearch number_order false 9 (some six)
    ≡ some (record { root = six; result = find number_order 9 (to_list six) })
tsearch_no_memory_example = tsearch_no_memory number_order 9 six six_valid

tdelete_refines_example :
    (out : Outcome ℕ) × (tdelete number_order 4 (some six) ≡ some out)
    × IsSearchTree number_order out.root
    × (to_list out.root ≡ delete number_order 4 (to_list six))
    × ((out.result ≡ none) ↔ (find number_order 4 (to_list six) ≡ none))
tdelete_refines_example = tdelete_refines number_order 4 six six_valid six-Fits

entries_fit_example :
    (tsearch_entries number_order 9 six ≤ max_height)
    × (tdelete_entries number_order 9 six ≤ max_height + 1)
entries_fit_example = entries_fit number_order 9 six six_valid.avl six-Fits

in_order-twalk_example : in_order (twalk six) ≡ to_list six
in_order-twalk_example = in_order-twalk six six_valid.avl

tdestroy_frees_example :
    ((b : Bool) → Perm (freed_nodes (tdestroy b six)) (to_list six))
    × (freed_keys (tdestroy true six) ≡ freed_nodes (tdestroy true six))
    × (freed_keys (tdestroy false six) ≡ [])
tdestroy_frees_example = tdestroy_frees six
