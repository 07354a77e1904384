-- ===== src/Search/Hash.antt =====
-- `hsearch.c`: a hash table that is probed at growing distances, and grows by rehashing. The type of
-- the keys, `strcmp` and `keyhash` are parameters here; Search/Hash/Strings has those of the file.
pub mod Triangle
pub mod Occupied
pub mod Probe
pub mod Placed
pub mod Insert
pub mod Rehash
pub mod Grow
pub mod Contract
pub mod Enter
pub mod Refine
pub mod Laws
pub mod Strings
mod Examples
use leblibc.Prelude.{
  ℕ, zero, suc, ◌+◌, ◌-◌, ◌*◌, ◌/◌, ◌%◌, ◌^◌, List, [], ◌∷◌, Bool, true, false, not, ◌&&◌, ltb,
  ◌==◌, if◌then◌else◌, bit_and, Option, none, some, ◌>>=◌,
}

-- `ENTRY`; the data is a pointer.
pub record Item (K : Type 0) : Type 0 where
  pub key : K
  pub val : ℕ

-- `struct __tab`: the entries by their index, where `none` has a null key.
pub record Table (K : Type 0) : Type 0 where
  pub entries : ℕ → Option (Item K)
  pub mask : ℕ
  pub used : ℕ

abbrev pub size_mod : ℕ
size_mod = 2 ^ 64

-- `MINSIZE` and `MAXSIZE`.
abbrev pub min_size : ℕ
min_size = 8

abbrev pub max_size : ℕ
max_size = 2 ^ 63

unfoldable pub set_entry :
    {K : Type 0} → (ℕ → Option (Item K)) → ℕ → Option (Item K) → ℕ → Option (Item K)
set_entry entries p v q = if q == p then v else entries q

-- `for (i=hash,j=1; ; i+=j++)`: the first index where the loop is left.
unfoldable pub probe :
    {K : Type 0} → (Option (Item K) → Bool) → (ℕ → Option (Item K)) → ℕ → ℕ → ℕ → ℕ → Option ℕ
probe stop entries mask zero i j = none
probe stop entries mask (suc fuel) i j =
    let p = bit_and i mask in
    let rest = probe stop entries mask fuel ((i + j) % size_mod) (suc j) in
    if stop (entries p) then some p else rest

-- `!newe->key`.
abbrev pub is_null : {K : Type 0} → Option (Item K) → Bool
is_null none = true
is_null (some e) = false

-- `for (newsize = MINSIZE; newsize < nel; newsize *= 2);`
unfoldable pub grow : ℕ → ℕ → ℕ → ℕ
grow zero newsize nel = newsize
grow (suc fuel) newsize nel =
    let rest = grow fuel ((newsize * 2) % size_mod) nel in if ltb newsize nel then rest else newsize

-- The size that `resize` computes.
unfoldable pub new_size : ℕ → ℕ
unfolding grow
new_size nel = grow 64 min_size (if ltb max_size nel then max_size else nel)

-- `__hcreate_r`: the new table, if both the table and its entries are allocated.
unfoldable pub hcreate : {K : Type 0} → Bool → Bool → ℕ → Option (Table K)
unfolding new_size
hcreate table_memory entries_memory nel =
    if table_memory && entries_memory
    then some (record { entries = λ p. none; mask = new_size nel - 1; used = 0 })
    else none

-- What a caller does if the key is not there.
pub data Action : Type 0 where
  find : Action
  enter : Action

-- `!e->key || strcmp(e->key, key) == 0`.
abbrev pub stops : {K : Type 0} → (K → K → Bool) → K → Option (Item K) → Bool
stops same key none = true
stops same key (some e) = same e.key key

module _ {K : Type 0} (same : K → K → Bool) (hash : K → ℕ) where
  -- The fuel is the number of places, which is enough where one of them is empty.
  unfoldable pub lookup : Table K → K → Option ℕ
  unfolding probe
  lookup t key = probe (stops same key) t.entries t.mask (t.mask + 1) (hash key) 1

  -- The loop of `resize` over the old entries, from the index `p` on.
  unfoldable pub rehash :
      ℕ → ℕ → (ℕ → Option (Item K)) → (ℕ → Option (Item K)) → ℕ → Option (ℕ → Option (Item K))
  unfolding probe set_entry
  rehash zero p old new mask = some new
  rehash (suc count) p old new mask = elim (old p) [
    | none ↦ rehash count (suc p) old new mask
    | some e ↦ probe is_null new mask (mask + 1) (hash e.key) 1 >>= λ q.
        rehash count (suc p) old (set_entry new q (some e)) mask
  ]

  -- The new table, or the old one where `calloc` fails; the array of entries is not null.
  unfoldable pub resize : Bool → ℕ → Table K → Option (Bool × Table K)
  unfolding new_size rehash
  resize memory nel t =
      let newsize = new_size nel in
      if not memory
      then some (false, t)
      else rehash (t.mask + 1) 0 t.entries (λ p. none) (newsize - 1) >>= λ entries.
          some (true, record t { entries = entries; mask = newsize - 1 })

  -- What follows `*e = item` at the index `p`.
  unfoldable pub added : Bool → Table K → K → ℕ → Option (Option ℕ × Table K)
  unfolding resize lookup set_entry
  added memory t key p =
      let t1 : Table K = record t { used = (t.used + 1) % size_mod } in
      let grown = resize memory ((2 * t1.used) % size_mod) t1 >>= λ (ok, t2).
      if ok
      then (lookup t2 key >>= λ q. some (some q, t2))
      else some (
        none,
        record t2 {
          used = (t2.used + (size_mod - 1)) % size_mod;
          entries = set_entry t2.entries p none;
        },
      ) in
      if ltb (t.mask - t.mask / 4) t1.used then grown else some (some p, t1)

  -- `hsearch_r`: the index of the entry, or null, and the table.
  unfoldable pub hsearch : Bool → Item K → Action → Table K → Option (Option ℕ × Table K)
  unfolding lookup added set_entry
  hsearch memory item action t = lookup t item.key >>= λ p. elim (t.entries p) [
    | some e ↦ some (some p, t)
    | none ↦ elim action [
      | find ↦ some (none, t)
      | enter ↦ added memory (record t { entries = set_entry t.entries p (some item) }) item.key p
    ]
  ]
