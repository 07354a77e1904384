-- ===== src/Search/Tree/Walk.antt =====
-- `twalk.c` and `tdestroy.c`: the calls that they make, in order.
pub mod Order
use leblibc.Prelude.{ℕ, ◌+◌, List, [], ◌∷◌, ◌++◌, Bool, true, false, if◌then◌else◌, ◌==◌}
use leblibc.Search.Tree.{Tree, node}

-- The enumeration VISIT of `search.h`.
pub data Visit : Type 0 where
  preorder postorder endorder leaf : Visit

-- One call `action(r, v, d)`, with the node given by its key.
pub record Call (K : Type 0) : Type 0 where
  pub key : K
  pub visit : Visit
  pub depth : ℕ

-- What `tdestroy` gives back: a key, by `freekey`, or the node that held it, by `free`.
pub data Release (K : Type 0) : Type 0 where
  freekey free : K → Release K

module _ {K : Type 0} where
  unfoldable pub walk : Tree K → ℕ → List (Call K)
  walk Tree.leaf d = []
  walk (node k h l r) d =
      let inner =
        (record { key = k; visit = preorder; depth = d } ∷ walk l (d + 1))
        ++ (record { key = k; visit = postorder; depth = d } ∷ walk r (d + 1))
        ++ (record { key = k; visit = endorder; depth = d } ∷ []) in
      if h == 1 then record { key = k; visit = Visit.leaf; depth = d } ∷ [] else inner

  unfoldable pub twalk : Tree K → List (Call K)
  unfolding walk
  twalk root = walk root 0

  -- The flag says whether the pointer `freekey` is not null.
  unfoldable pub tdestroy : Bool → Tree K → List (Release K)
  tdestroy frees_keys Tree.leaf = []
  tdestroy frees_keys (node k h l r) =
      tdestroy frees_keys l
      ++ tdestroy frees_keys r
      ++ (if frees_keys then freekey k ∷ free k ∷ [] else free k ∷ [])
