-- ===== src/Search/Tree/Walk/Order.antt =====
-- The order of the calls: `twalk` visits the keys in ascending order, `tdestroy` every node once.
use leblibc.Prelude.{
  ℕ, ◌+◌, List, [], ◌∷◌, ◌++◌, Bool, true, false, if◌then◌else◌, ◌==◌, ◌≡◌, refl, arith,
  append_assoc, append-nil, Bool-cases, ==_iff, inl, inr,
}
use mathlib.Core.List.{Perm, perm_append_singleton}
use mathlib.Core.List.Perm
use leblibc.Search.Tree.{Tree, leaf, node, height}
use leblibc.Search.Tree.Balance.{IsAvl, to_list}
use leblibc.Search.Tree.Walk.{Visit, postorder, Call, Release, freekey, free, walk, twalk, tdestroy}

module _ {K : Type 0} where
  -- The key of a call that comes between the two sides of its node.
  abbrev pub in_between : Visit → K → List K
  in_between postorder k = k ∷ []
  in_between Visit.leaf k = k ∷ []
  in_between _ k = []

  unfoldable pub in_order : List (Call K) → List K
  in_order [] = []
  in_order (c ∷ cs) = in_between c.visit c.key ++ in_order cs

  in_order-append : (cs ds : List (Call K)) → in_order (cs ++ ds) ≡ in_order cs ++ in_order ds
  unfolding in_order
  in_order-append [] ds = refl
  in_order-append (c ∷ cs) ds = simp (in_order-append cs ds, append_assoc)

  -- Only the empty tree has height 0.
  no_keys : (t : Tree K) → IsAvl t → height t ≡ 0 → to_list t ≡ []
  unfolding height
  no_keys leaf a e = refl
  no_keys (node k h l r) a e = absurd (omega arith)

  in_order-walk : (t : Tree K) (d : ℕ) → IsAvl t → in_order (walk t d) ≡ to_list t
  unfolding walk in_order
  in_order-walk leaf d a = refl
  in_order-walk (node k h l r) d a = elim (Bool-cases (h == 1)) [
    | inl e ↦
        let one = (==_iff h 1).0 e in
        rw (e, no_keys l a.3 (omega arith), no_keys r a.4 (omega arith))
    | inr e ↦ rw e (
        simp
          (in_order-append, in_order-walk l (d + 1) a.3, in_order-walk r (d + 1) a.4, append-nil))
  ]

  -- In a balanced tree the calls of twalk that come between the sides of a node, or at a node
  -- without children, name every key once, in the order of the tree.
  pub in_order-twalk : (t : Tree K) → IsAvl t → in_order (twalk t) ≡ to_list t
  unfolding twalk
  in_order-twalk t a = in_order-walk t 0 a

  unfoldable pub freed_nodes : List (Release K) → List K
  freed_nodes [] = []
  freed_nodes (freekey k ∷ es) = freed_nodes es
  freed_nodes (free k ∷ es) = k ∷ freed_nodes es

  unfoldable pub freed_keys : List (Release K) → List K
  freed_keys [] = []
  freed_keys (freekey k ∷ es) = k ∷ freed_keys es
  freed_keys (free k ∷ es) = freed_keys es

  freed_nodes-append :
      (es fs : List (Release K)) → freed_nodes (es ++ fs) ≡ freed_nodes es ++ freed_nodes fs
  unfolding freed_nodes
  freed_nodes-append [] fs = refl
  freed_nodes-append (freekey k ∷ es) fs = freed_nodes-append es fs
  freed_nodes-append (free k ∷ es) fs = rw (freed_nodes-append es fs)

  freed_keys-append :
      (es fs : List (Release K)) → freed_keys (es ++ fs) ≡ freed_keys es ++ freed_keys fs
  unfolding freed_keys
  freed_keys-append [] fs = refl
  freed_keys-append (free k ∷ es) fs = freed_keys-append es fs
  freed_keys-append (freekey k ∷ es) fs = rw (freed_keys-append es fs)

  released_last :
      (b : Bool) (k : K) → freed_nodes (if b then freekey k ∷ free k ∷ [] else free k ∷ []) ≡ k ∷ []
  unfolding freed_nodes
  released_last true k = refl
  released_last false k = refl

  tdestroy_nodes : (b : Bool) (t : Tree K) → Perm (freed_nodes (tdestroy b t)) (to_list t)
  unfolding tdestroy
  tdestroy_nodes b leaf = unfold freed_nodes in Perm.refl []
  tdestroy_nodes b (node k h l r) =
      simp (freed_nodes-append, released_last, append_assoc)
        (Perm.append (tdestroy_nodes b l) (
          Perm.trans (Perm.append (tdestroy_nodes b r) (Perm.refl (k ∷ [])))
            (perm_append_singleton k (to_list r))))

  tdestroy_keys : (t : Tree K) → freed_keys (tdestroy true t) ≡ freed_nodes (tdestroy true t)
  unfolding tdestroy
  tdestroy_keys leaf = unfold freed_keys freed_nodes in refl
  tdestroy_keys (node k h l r) =
      simp (freed_keys-append, freed_nodes-append, tdestroy_keys l, tdestroy_keys r, both k)
    where
      both : (k : K) → freed_keys (freekey k ∷ free k ∷ []) ≡ freed_nodes (freekey k ∷ free k ∷ [])
      both k = unfold freed_keys freed_nodes in refl

  tdestroy_no_keys : (t : Tree K) → freed_keys (tdestroy false t) ≡ []
  unfolding tdestroy
  tdestroy_no_keys leaf = unfold freed_keys in refl
  tdestroy_no_keys (node k h l r) =
      simp (freed_keys-append, tdestroy_no_keys l, tdestroy_no_keys r, last k)
    where
      last : (k : K) → freed_keys (free k ∷ []) ≡ []
      last k = unfold freed_keys in refl

  -- tdestroy frees every node once, and nothing else; it passes each key to freekey, in the order of
  -- the nodes, if that is given, and no key if it is null.
  pub tdestroy_frees :
      (t : Tree K)
      → ((b : Bool) → Perm (freed_nodes (tdestroy b t)) (to_list t))
        × (freed_keys (tdestroy true t) ≡ freed_nodes (tdestroy true t))
        × (freed_keys (tdestroy false t) ≡ [])
  tdestroy_frees t = (λ b. tdestroy_nodes b t, tdestroy_keys t, tdestroy_no_keys t)
