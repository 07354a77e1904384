-- ===== src/Search/SortedList.antt =====
-- The abstract view of a search tree: the list of its keys, in ascending order and without two that
-- compare equal. Finding, inserting and deleting on the list say what the tree must do.
pub mod Laws
pub mod Split
use leblibc.Prelude.{◌≡◌, List, [], ◌∷◌, Option, none, some, All}
use leblibc.Search.Order.{below, same, above, Comparison}

module _ {K : Type 0} (o : Comparison K) where
  abbrev pub AllAbove : K → List K → Type 0
  AllAbove k xs = All (λ x. o.cmp k x ≡ below) xs

  abbrev pub AllBelow : K → List K → Type 0
  AllBelow k xs = All (λ x. o.cmp x k ≡ below) xs

  abbrev pub IsSorted : List K → Type 0
  IsSorted [] = Unit
  IsSorted (x ∷ xs) = AllAbove x xs × IsSorted xs

  -- The first element that compares equal to the key.
  unfoldable pub find : K → List K → Option K
  find k [] = none
  find k (x ∷ xs) = elim (o.cmp k x) [ same ↦ some x | _ ↦ find k xs ]

  -- The key takes its place in the order, unless an equal one is there.
  unfoldable pub insert : K → List K → List K
  insert k [] = k ∷ []
  insert k (x ∷ xs) = elim (o.cmp k x) [
    | below ↦ k ∷ x ∷ xs
    | same ↦ x ∷ xs
    | above ↦ x ∷ insert k xs
  ]

  -- The first element that compares equal to the key is taken out.
  unfoldable pub delete : K → List K → List K
  delete k [] = []
  delete k (x ∷ xs) = elim (o.cmp k x) [ same ↦ xs | _ ↦ x ∷ delete k xs ]
