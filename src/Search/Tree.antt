-- ===== src/Search/Tree.antt =====
-- `tsearch.h` and the files of `src/search` that work on `struct node`. A tree is owned by one
-- link, so a data type stands for the nodes and their links; `none` is a read through a null link.
pub mod Balance
pub mod Bound
pub mod Insert
pub mod Delete
pub mod Walk
pub mod Contract
mod Examples
use leblibc.Prelude.{
  ℕ, zero, suc, ◌+◌, ◌-◌, ◌%◌, ◌^◌, List, [], ◌∷◌, ◌++◌, Option, none, some, Bool, true, false, ltb,
  not, ◌==◌, if◌then◌else◌, ◌>>=◌,
}
use leblibc.Prelude.Int.{ℤ, pos, negsuc, sub_ℕ}
use leblibc.Search.Order.{Sign, below, same, above, Comparison}

-- `struct node`: the key, the stored height, and the links a[0] and a[1].
pub data Tree (K : Type 0) : Type 0 where
  leaf : Tree K
  node : K → ℕ → Tree K → Tree K → Tree K

-- The index of a link: `c>0`.
pub data Dir : Type 0 where
  left right : Dir

abbrev pub nonzero : ℤ → Bool
nonzero (pos n) = not (n == 0)
nonzero (negsuc n) = true

abbrev pub other : Dir → Dir
other left = right
other right = left

module _ {K : Type 0} where
  unfoldable pub height : Tree K → ℕ
  height leaf = 0
  height (node k h l r) = h

  -- A node with `x` at a[dir] and `y` at a[!dir].
  abbrev pub with_links : Dir → K → ℕ → Tree K → Tree K → Tree K
  with_links left k h x y = node k h x y
  with_links right k h x y = node k h y x

  -- a[dir] of a node with the two links.
  abbrev pub link : Dir → Tree K → Tree K → Tree K
  link left a b = a
  link right a b = b

  -- The first branch of `rot`: z comes up between x and y.
  unfoldable pub rot_double : Dir → K → ℕ → Tree K → K → Tree K → Tree K → Option (Tree K × ℤ)
  rot_double dir xk hx xo yk yd leaf = none
  rot_double dir xk hx xo yk yd (node zk hz z0 z1) = some (
    with_links dir zk (hz + 1) (with_links dir yk hz yd (link dir z0 z1))
        (with_links dir xk hz (link (other dir) z0 z1) xo),
    sub_ℕ (hz + 1) hx,
  )

  -- `rot` on a node with key `xk`, height `hx`, a[!dir] = `xo` and a[dir] = `y`.
  unfoldable pub rot : Dir → K → ℕ → Tree K → Tree K → Option (Tree K × ℤ)
  unfolding height rot_double
  rot dir xk hx xo leaf = none
  rot dir xk hx xo (node yk hy y0 y1) =
      let z = link (other dir) y0 y1 in
      let yd = link dir y0 y1 in
      let hz = height z in
      if ltb (height yd) hz
      then rot_double dir xk hx xo yk yd z
      else some (with_links dir yk (hz + 2) yd (with_links dir xk (hz + 1) z xo), sub_ℕ (hz + 2) hx)

  -- `__tsearch_balance`. The test `h0 - h1 + 1u < 3u` is unsigned and wraps.
  unfoldable pub balance : Tree K → Option (Tree K × ℤ)
  unfolding height rot
  balance leaf = none
  balance (node k h l r) =
      let h0 = height l in
      let h1 = height r in
      if ltb ((h0 + 2 ^ 32 - h1 + 1) % 2 ^ 32) 3
      then (let new = if ltb h0 h1 then h1 + 1 else h0 + 1 in some (node k new l r, sub_ℕ new h))
      else (if ltb h0 h1 then rot right k h l r else rot left k h r l)

-- One entry of the array `a` past the root's: the node that holds the link, with the index of the
-- link, the node's key and height, and what its other link holds.
pub data Frame (K : Type 0) : Type 0 where
  frame : Dir → K → ℕ → Tree K → Frame K

module _ {K : Type 0} where
  -- The node of a frame, with a tree stored through the link.
  abbrev pub plug : Tree K → Frame K → Tree K
  plug t (frame dir k h o) = with_links dir k h t o

  -- The tree that the links of the path lead through, the innermost first.
  unfoldable pub unwind : Tree K → List (Frame K) → Tree K
  unwind t [] = t
  unwind t (f ∷ fs) = unwind (plug t f) fs

  -- `while (i && __tsearch_balance(a[--i]));` after a store through the innermost link.
  unfoldable pub climb : Tree K → List (Frame K) → Option (Tree K)
  unfolding unwind
  climb t [] = some t
  climb t (f ∷ fs) = elim (balance (plug t f)) [
    | none ↦ none
    | some (u, change) ↦
        (let rest = climb u fs in if nonzero change then rest else some (unwind u fs))
  ]

module _ {K : Type 0} (o : Comparison K) where
  -- The loop that `tsearch` and `tdelete` share: down to the key or to a null link.
  unfoldable pub descend : K → Tree K → List (Frame K) → Tree K × List (Frame K)
  descend key leaf path = (leaf, path)
  descend key (node k h l r) path = elim (o.cmp key k) [
    | below ↦ descend key l (frame left k h r ∷ path)
    | same ↦ (node k h l r, path)
    | above ↦ descend key r (frame right k h l ∷ path)
  ]

  -- `tfind`; the result stands for the node by its key. `none` for `rootp` is a null pointer.
  unfoldable pub find_node : K → Tree K → Option K
  find_node key leaf = none
  find_node key (node k h l r) = elim (o.cmp key k) [
    | below ↦ find_node key l
    | same ↦ some k
    | above ↦ find_node key r
  ]

  unfoldable pub tfind : K → Option (Tree K) → Option K
  unfolding find_node
  tfind key none = none
  tfind key (some root) = find_node key root

-- What a call leaves: the tree at the root link (empty where `rootp` is null), and the node
-- returned, by its key, or null.
pub record Outcome (K : Type 0) : Type 0 where
  pub root : Tree K
  pub result : Option K

module _ {K : Type 0} (o : Comparison K) where
  -- What `tsearch` does once the descent has ended; `allocates` says whether `malloc` succeeds.
  unfoldable pub insert_at : Bool → K → Tree K → Tree K × List (Frame K) → Option (Outcome K)
  unfolding climb
  insert_at allocates key root (node k h l r, path) = some (record { root = root; result = some k })
  insert_at false key root (leaf, path) = some (record { root = root; result = none })
  insert_at true key root (leaf, path) =
      climb (node key 1 leaf leaf) path >>= λ t. some (record { root = t; result = some key })

  unfoldable pub tsearch : Bool → K → Option (Tree K) → Option (Outcome K)
  unfolding descend insert_at
  tsearch allocates key none = some (record { root = leaf; result = none })
  tsearch allocates key (some root) = insert_at allocates key root (descend o key root [])

module _ {K : Type 0} where
  -- `while (n->a[1])`: the key and left tree of the rightmost node, and the path to it.
  unfoldable pub rightmost : K → Tree K → Tree K → ℕ → List (Frame K) → K × Tree K × List (Frame K)
  rightmost k l leaf h path = (k, l, path)
  rightmost k l (node rk rh rl rr) h path = rightmost rk rl rr rh (frame right k h l ∷ path)

  -- The parent that `tdelete` returns: that of the node, or the root itself.
  unfoldable pub parent_of : K → List (Frame K) → K
  parent_of key [] = key
  parent_of key (frame dir k h t ∷ fs) = k

  -- `tdelete` once the descent has ended at a node: unlink it, or its predecessor in its place.
  unfoldable pub unlink : K → ℕ → Tree K → Tree K → List (Frame K) → Option (Tree K)
  unfolding climb rightmost
  unlink k h leaf r path = climb r path
  unlink k h (node lk lh ll lr) r path =
      let (key, child, below_it) = rightmost lk ll lr lh [] in
      climb child (below_it ++ (frame left key h r ∷ path))

  unfoldable pub delete_at : Tree K → Tree K × List (Frame K) → Option (Outcome K)
  unfolding unlink parent_of
  delete_at root (leaf, path) = some (record { root = root; result = none })
  delete_at root (node k h l r, path) =
      unlink k h l r path >>= λ t. some (record { root = t; result = some (parent_of k path) })

module _ {K : Type 0} (o : Comparison K) where
  unfoldable pub tdelete : K → Option (Tree K) → Option (Outcome K)
  unfolding descend delete_at
  tdelete key none = some (record { root = leaf; result = none })
  tdelete key (some root) = delete_at root (descend o key root [])
