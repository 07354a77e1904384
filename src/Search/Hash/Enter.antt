-- ===== src/Search/Hash/Enter.antt =====
-- A new entry, where the table has room for it, where it has to grow and where it cannot.
use leblibc.Prelude.{
  ℕ, ◌+◌, ◌-◌, ◌*◌, ◌/◌, ◌%◌, ◌^◌, ◌≤◌, ◌<◌, ◌≡◌, refl, sym, ap, ◌∙◌, Bool, true, false, Option,
  none, some, ◌>>=◌, arith,
}
use leblibc.Search.Hash.{Item, Table, size_mod, set_entry, new_size, lookup, rehash, resize, added}
use leblibc.Search.Hash.Occupied.{Entries, weight, occupied, set_entry_self, occupied-set}
use leblibc.Search.Hash.Placed.{IsKeys, Reaches, IsTable, lookup_finds}
use leblibc.Search.Hash.Insert.{insert-IsTable, get, get-insert_same, get-insert_other}
use leblibc.Search.Hash.Rehash.{rehash_lem, get-Copied}
use leblibc.Search.Hash.Grow.{new_size_lem, pow_mono, ltb-true, ltb-false}
use leblibc.Search.Hash.Contract.{view, IsHash, view-get, probe_mask, rebuilt, set_back}

module _ {K : Type 0} (same : K → K → Bool) (hash : K → ℕ) where
  -- The table `t'` has the item at `r`, and else what `t` has.
  pub record IsEntered (t : Table K) (item : Item K) (r : Option ℕ) (t' : Table K) : Type 0 where
    pub well_formed : IsHash same hash t'
    pub place : ℕ
    pub is_place : r ≡ some place
    pub within : place ≤ t'.mask
    pub stored : t'.entries place ≡ some item
    pub own : (key : K) → same item.key key ≡ true → view same hash t' key ≡ some item
    pub others :
        (key : K) → same item.key key ≡ false → view same hash t' key ≡ view same hash t key

  abbrev pub IsFull : Table K → Type 0
  IsFull t = t.mask - t.mask / 4 < t.used + 1

  module _ (keys : IsKeys same hash) {t : Table K} (h : IsHash same hash t) (few : t.used < 2 ^ 62)
      (item : Item K) (p : ℕ) (inside : p < 2 ^ h.m) (null : t.entries p ≡ none)
      (reach : Reaches same hash h.m t.entries item.key p) where
    abbrev after : Entries K
    after = set_entry t.entries p (some item)

    after_count : occupied after (2 ^ h.m) ≡ t.used + 1
    after_count =
        omega
          (arith, occupied-set t.entries p (some item) (2 ^ h.m) inside, ap weight null, h.counted)

    after-IsTable : IsTable same hash h.m after
    after-IsTable =
        let eight = pow_mono 3 h.m h.large in
        insert-IsTable same hash keys h.table item p inside null
          (omega (arith, h.counted, h.filled, h.size, eight)) reach

    after_own : (key : K) → same item.key key ≡ true → get same hash keys h.m after key ≡ some item
    after_own key equal =
        get-insert_same same hash keys h.table item p inside null after-IsTable key equal

    after_others :
        (key : K)
        → same item.key key ≡ false
        → get same hash keys h.m after key ≡ get same hash keys h.m t.entries key
    after_others key differs =
        get-insert_other same hash keys h.table item p inside null after-IsTable key differs

    -- The number of entries does not wrap.
    next_used : (t.used + 1) % size_mod ≡ t.used + 1
    next_used = omega (arith, few)

    pub added_room :
        (memory : Bool)
        → t.used + 1 ≤ t.mask - t.mask / 4
        → added same hash memory (record t { entries = after }) item.key p
          ≡ some (some p, record t { entries = after; used = t.used + 1 })
    unfolding added
    added_room memory room = rw (next_used, ltb-false (t.mask - t.mask / 4) (t.used + 1) room) refl

    pub room_entered :
        t.used + 1 ≤ t.mask - t.mask / 4
        → IsEntered t item (some p) (record t { entries = after; used = t.used + 1 })
    room_entered room =
        let wf : IsHash same hash (record t { entries = after; used = t.used + 1 }) = record {
          m = h.m;
          large = h.large;
          size = h.size;
          table = after-IsTable;
          counted = sym after_count;
          filled = room;
        } in
        record {
          well_formed = wf;
          place = p;
          is_place = refl;
          within = omega (arith, h.size);
          stored = set_entry_self t.entries p (some item);
          own = λ key equal. view-get same hash keys wf key ∙ after_own key equal;
          others = λ key differs.
              view-get same hash keys wf key
              ∙ after_others key differs
              ∙ sym (view-get same hash keys h key);
        }

    pub added_full :
        t.mask - t.mask / 4 < t.used + 1
        → added same hash false (record t { entries = after }) item.key p ≡ some (none, t)
    unfolding added resize
    added_full full =
        let back : (t.used + 1 + (size_mod - 1)) % size_mod ≡ t.used = omega (arith, few) in
        rw (next_used, ltb-true (t.mask - t.mask / 4) (t.used + 1) full)
          (ap (λ u. some (none, u))
            (rebuilt same hash keys t (set_entry after p none)
              ((t.used + 1 + (size_mod - 1)) % size_mod)
              (set_back same hash keys t.entries p (some item) null) back))

    added_grown :
        t.mask - t.mask / 4 < t.used + 1
        → (mask : ℕ) (n : Entries K) (q : ℕ) → new_size (2 * (t.used + 1)) - 1 ≡ mask
        → rehash same hash (2 ^ h.m) 0 after (λ p. none) mask ≡ some n
        → lookup same hash (record t { entries = n; mask = mask; used = t.used + 1 }) item.key
          ≡ some q
        → added same hash true (record t { entries = after }) item.key p
          ≡ some (some q, record t { entries = n; mask = mask; used = t.used + 1 })
    unfolding added resize
    added_grown full mask n q size copy found =
        let twice : (2 * (t.used + 1)) % size_mod ≡ 2 * (t.used + 1) = omega (arith, few) in
        rw (next_used, ltb-true (t.mask - t.mask / 4) (t.used + 1) full, twice, size, h.size, copy)
          (ap
            (λ o.
              o >>= λ r. some (some r, record t { entries = n; mask = mask; used = t.used + 1 }))
            found)

    pub grown :
        t.mask - t.mask / 4 < t.used + 1
        → (r : Option ℕ) × (t' : Table K) × (added same hash true
              (record t { entries = after })
              item.key
              p
            ≡ some (r, t'))
          × IsEntered t item r t'
    grown full =
        let (m', size, fits, large, small, least) =
          new_size_lem (2 * (t.used + 1)) (omega (arith, few)) in
        let eight = pow_mono 3 m' large in
        let (n, copy, copied) =
          rehash_lem same hash keys after-IsTable m' (omega (arith, after_count, fits))
            (omega (arith, small)) in
        let (q, within, held) =
          copied.into p item inside (set_entry_self t.entries p (some item)) in
        let whole : 2 ^ m' - 1 + 1 ≡ 2 ^ m' = omega (arith, eight) in
        let t' : Table K = record t { entries = n; mask = 2 ^ m' - 1; used = t.used + 1 } in
        let wf : IsHash same hash t' = record {
          m = m';
          large = large;
          size = whole;
          table = copied.table;
          counted = sym (copied.amount ∙ after_count);
          filled = omega (arith, fits, eight);
        } in
        let moved : (key : K) → view same hash t' key ≡ get same hash keys h.m after key = λ key.
          view-get same hash keys wf key
          ∙ get-Copied same hash keys after-IsTable m' n copied key in
        let found : lookup same hash t' item.key ≡ some q =
          probe_mask same hash keys wf item.key
          ∙ lookup_finds same hash keys copied.table item.key q within
              (item, held, keys.same_refl item.key) in
        (
          some q,
          t',
          added_grown full (2 ^ m' - 1) n q (ap (λ s. s - 1) size) copy found,
          record {
            well_formed = wf;
            place = q;
            is_place = refl;
            within = omega (arith, within);
            stored = held;
            own = λ key equal. moved key ∙ after_own key equal;
            others = λ key differs.
                moved key ∙ after_others key differs ∙ sym (view-get same hash keys h key);
          },
        )
