-- ===== src/Search/SortedList/Split.antt =====
-- Finding, inserting and deleting at one element of a sorted list, by how the key compares to it.
use leblibc.Prelude.{◌≡◌, arith, List, ◌∷◌, ◌++◌, some, ◌∙◌, ap}
use leblibc.Search.Order.{below, same, above, Comparison}
use leblibc.Search.SortedList.{find, insert, delete}
use leblibc.Search.SortedList.Laws.{
  IsSplit, Beyond-above, Beyond-same, Ahead-below, insert-Beyond, find-Beyond, find-below,
  delete-Beyond, delete-below,
}

module _ {K : Type 0} (o : Comparison K) (key : K) (xs : List K) (k : K) (ys : List K)
    (p : IsSplit o xs k ys) where
  head_same : o.cmp key k ≡ same → insert o key (k ∷ ys) ≡ k ∷ ys
  unfolding insert
  head_same e = ground arith

  head_above : o.cmp key k ≡ above → insert o key (k ∷ ys) ≡ k ∷ insert o key ys
  unfolding insert
  head_above e = ground arith

  pub insert_same : o.cmp key k ≡ same → insert o key (xs ++ k ∷ ys) ≡ xs ++ k ∷ ys
  insert_same e =
      insert-Beyond o key xs (k ∷ ys) (Beyond-same o key k xs e p.before)
      ∙ ap (λ zs. xs ++ zs) (head_same e)

  pub insert_above : o.cmp key k ≡ above → insert o key (xs ++ k ∷ ys) ≡ xs ++ k ∷ insert o key ys
  insert_above e =
      insert-Beyond o key xs (k ∷ ys) (Beyond-above o key k xs e p.before)
      ∙ ap (λ zs. xs ++ zs) (head_above e)

  found_head : o.cmp key k ≡ same → find o key (k ∷ ys) ≡ some k
  unfolding find
  found_head e = ground arith

  passed_head : o.cmp key k ≡ above → find o key (k ∷ ys) ≡ find o key ys
  unfolding find
  passed_head e = ground arith

  pub find_same : o.cmp key k ≡ same → find o key (xs ++ k ∷ ys) ≡ some k
  find_same e = find-Beyond o key xs (k ∷ ys) (Beyond-same o key k xs e p.before) ∙ found_head e

  pub find_above : o.cmp key k ≡ above → find o key (xs ++ k ∷ ys) ≡ find o key ys
  find_above e = find-Beyond o key xs (k ∷ ys) (Beyond-above o key k xs e p.before) ∙ passed_head e

  pub find_below : o.cmp key k ≡ below → find o key (xs ++ k ∷ ys) ≡ find o key xs
  find_below e = find-below o key xs (k ∷ ys) (e, Ahead-below o key k ys e p.behind)

  deleted_head : o.cmp key k ≡ same → delete o key (k ∷ ys) ≡ ys
  unfolding delete
  deleted_head e = ground arith

  kept_head : o.cmp key k ≡ above → delete o key (k ∷ ys) ≡ k ∷ delete o key ys
  unfolding delete
  kept_head e = ground arith

  pub delete_same : o.cmp key k ≡ same → delete o key (xs ++ k ∷ ys) ≡ xs ++ ys
  delete_same e =
      delete-Beyond o key xs (k ∷ ys) (Beyond-same o key k xs e p.before)
      ∙ ap (λ zs. xs ++ zs) (deleted_head e)

  pub delete_above : o.cmp key k ≡ above → delete o key (xs ++ k ∷ ys) ≡ xs ++ k ∷ delete o key ys
  delete_above e =
      delete-Beyond o key xs (k ∷ ys) (Beyond-above o key k xs e p.before)
      ∙ ap (λ zs. xs ++ zs) (kept_head e)

  pub delete_below : o.cmp key k ≡ below → delete o key (xs ++ k ∷ ys) ≡ delete o key xs ++ k ∷ ys
  delete_below e = delete-below o key xs (k ∷ ys) (e, Ahead-below o key k ys e p.behind)
