-- ===== src/Search/Hash/Contract.antt =====
-- What `hsearch_r` promises of a table: it stands for a map from the keys to entries, in which a key is
-- entered once.
use leblibc.Prelude.{
  ℕ, ◌+◌, ◌-◌, ◌/◌, ◌^◌, ◌≤◌, ◌<◌, ◌≡◌, refl, sym, ap, ◌∙◌, Bool, Option, none, some, ◌>>=◌, arith,
  ◌⊎◌,
}
use native.Mathlib.Decide.{ℕ_discrete}
use leblibc.Search.Hash.{Item, Table, set_entry, probe, stops, lookup}
use leblibc.Search.Hash.Occupied.{Entries, occupied, set_entry_self, set_entry_other}
use leblibc.Search.Hash.Placed.{IsKeys, IsTable, Found, Missing, lookup_ends}
use leblibc.Search.Hash.Insert.{get}

module _ {K : Type 0} (same : K → K → Bool) (hash : K → ℕ) where
  -- The entry of a key.
  unfoldable pub view : Table K → K → Option (Item K)
  unfolding lookup
  view t key = lookup same hash t key >>= λ p. t.entries p

  pub record IsHash (t : Table K) : Type 0 where
    pub m : ℕ
    pub large : 3 ≤ m
    pub size : t.mask + 1 ≡ 2 ^ m
    pub table : IsTable same hash m t.entries
    pub counted : t.used ≡ occupied t.entries (2 ^ m)
    pub filled : t.used ≤ t.mask - t.mask / 4

module _ {K : Type 0} (same : K → K → Bool) (hash : K → ℕ) (keys : IsKeys same hash) where
  pub mask_pow : {t : Table K} (h : IsHash same hash t) → t.mask ≡ 2 ^ h.m - 1
  mask_pow h = omega (arith, h.size)

  pub probe_mask :
      {t : Table K} (h : IsHash same hash t) (key : K)
      → lookup same hash t key
        ≡ probe (stops same key) t.entries (2 ^ h.m - 1) (2 ^ h.m) (hash key) 1
  unfolding lookup
  probe_mask h key = rw (h.size, mask_pow h) refl

  pub view-get :
      {t : Table K} (h : IsHash same hash t) (key : K)
      → view same hash t key ≡ get same hash keys h.m t.entries key
  unfolding view get
  view-get h key = rw (probe_mask h key) refl

  pub ends :
      {t : Table K} (h : IsHash same hash t) (key : K)
      → (p : ℕ) × (lookup same hash t key ≡ some p)
        × (p < 2 ^ h.m)
        × (Found same hash t.entries key p ⊎ Missing same hash h.m t.entries key p)
  ends h key =
      let (p, e, inside, what) = lookup_ends same hash keys h.table key in
      (p, probe_mask h key ∙ e, inside, what)

  pub rebuilt :
      (t : Table K) (entries : Entries K) (used : ℕ)
      → ((p : ℕ) → entries p ≡ t.entries p)
      → used ≡ t.used
      → record t { entries = entries; used = used } ≡ t
  rebuilt t entries used e f = λ i. record t { entries = λ p. e p i; used = f i }

  pub set_back :
      (t : Entries K) (p : ℕ) (v : Option (Item K))
      → t p ≡ none
      → (q : ℕ) → set_entry (set_entry t p v) p none q ≡ t q
  unfolding set_entry
  set_back t p v null q = elim (ℕ_discrete q p) [
    | yes e ↦
        ap (set_entry (set_entry t p v) p none) e
        ∙ set_entry_self (set_entry t p v) p none
        ∙ sym null
        ∙ ap t (sym e)
    | no other ↦ set_entry_other (set_entry t p v) p q none other ∙ set_entry_other t p q v other
  ]
