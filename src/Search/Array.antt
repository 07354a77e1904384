-- ===== src/Search/Array.antt =====
-- `src/stdlib/bsearch.c` and `src/search/lsearch.c`: searches in an array. An element is given by its
-- index; the outer `none` is a read past the end of the array, or that the fuel ran out.
pub mod Binary
pub mod Linear
mod Examples
use leblibc.Prelude.{
  ℕ, zero, suc, ◌+◌, ◌-◌, ◌/◌, List, [], ◌∷◌, ◌++◌, Option, none, some, Bool, true, false, ◌==◌,
  if◌then◌else◌, get_elem?, length,
}
use leblibc.Search.Order.{Sign, below, same, above, Comparison}

module _ {K : Type 0} (o : Comparison K) where
  -- The loop of `bsearch`, with `base` as an index; the fuel is a bound on the number of turns.
  unfoldable pub bsearch_loop : ℕ → K → List K → ℕ → ℕ → Option (Option ℕ)
  bsearch_loop zero key xs base nel = if nel == 0 then some none else none
  bsearch_loop (suc fuel) key xs base nel =
      let try = base + nel / 2 in
      let lower = bsearch_loop fuel key xs base (nel / 2) in
      let upper = bsearch_loop fuel key xs (try + 1) (nel - (nel / 2 + 1)) in
      if nel == 0 then some none else elim (get_elem? xs try) [
        | none ↦ none
        | some x ↦ elim (o.cmp key x) [ below ↦ lower | above ↦ upper | same ↦ some (some try) ]
      ]

  unfoldable pub bsearch : K → List K → Option (Option ℕ)
  unfolding bsearch_loop
  bsearch key xs = bsearch_loop (length xs) key xs 0 (length xs)

  -- The loop of `lfind` and `lsearch`, with the elements from index `i` on.
  unfoldable pub linear_loop : K → List K → ℕ → Option ℕ
  linear_loop key [] i = none
  linear_loop key (x ∷ xs) i = elim (o.cmp key x) [
    | below ↦ linear_loop key xs (suc i)
    | same ↦ some i
    | above ↦ linear_loop key xs (suc i)
  ]

  unfoldable pub lfind : K → List K → Option ℕ
  lfind key xs = linear_loop key xs 0

  -- `lsearch`: the index of the element returned, and the array with its new length `*nelp`.
  unfoldable pub lsearch : K → List K → ℕ × List K
  lsearch key xs = elim (linear_loop key xs 0) [
    | none ↦ (length xs, xs ++ key ∷ [])
    | some i ↦ (i, xs)
  ]
