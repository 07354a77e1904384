-- ===== src/Search/Hash/Laws.antt =====
-- The table over several calls.
use leblibc.Prelude.{
  ℕ, ◌+◌, ◌-◌, ◌^◌, ◌≤◌, ◌<◌, ◌≡◌, refl, sym, ap, ◌∙◌, Bool, true, false, Option, none, some, arith,
  inl, inr,
}
use leblibc.Search.Hash.{
  Item, Table, Action, find, enter, max_size, probe, new_size, stops, lookup, hcreate, hsearch,
}
use leblibc.Search.Hash.Occupied.{occupied-none}
use leblibc.Search.Hash.Placed.{place-lt, IsKeys, lookup_finds, stops_null}
use leblibc.Search.Hash.Probe.{probe_ends, probe_hit}
use leblibc.Search.Hash.Triangle.{place}
use leblibc.Search.Hash.Insert.{some_inj, none_some, get_found, get_absent}
use leblibc.Search.Hash.Grow.{new_size_any, pow_mono}
use leblibc.Search.Hash.Contract.{view, IsHash, mask_pow, view-get, ends, probe_mask}
use leblibc.Search.Hash.Enter.{IsFull, added_full}
use leblibc.Search.Hash.Refine.{
  Outcome, held, missing, entered, refused, hsearch_lem, hsearch-added,
}

module _ {K : Type 0} (same : K → K → Bool) (hash : K → ℕ) where
  Outcome-IsHash :
      {memory : Bool} {item : Item K} {action : Action} {t t' : Table K} {r : Option ℕ}
      → IsHash same hash t
      → Outcome same hash memory item t action r t'
      → IsHash same hash t'
  Outcome-IsHash h (held p e got within at equal) = h
  Outcome-IsHash h (missing gone) = h
  Outcome-IsHash h (entered gone is) = is.well_formed
  Outcome-IsHash h (refused gone failed full) = h

  module _ (keys : IsKeys same hash) where
    -- In a well-formed table the loop of lookup ends within as many turns as the table has places,
    -- at a place of the table; a larger bound on the turns gives the same place.
    pub lookup_halts :
        {t : Table K}
        → IsHash same hash t
        → (key : K) (fuel : ℕ) → t.mask < fuel
        → (p : ℕ) × (p ≤ t.mask)
          × (probe (stops same key) t.entries t.mask fuel (hash key) 1 ≡ some p)
          × (lookup same hash t key ≡ some p)
    unfolding lookup
    lookup_halts {t} h key fuel enough =
        let small = h.table.small in
        let (r, lt, hit) =
          probe_ends h.m small (stops same key) t.entries (hash key) (stops_null same hash keys key)
            h.table.room in
        let run : (f : ℕ)
            → t.mask < f
            → probe (stops same key) t.entries t.mask f (hash key) 1
              ≡ some (place h.m (hash key) r) =
          λ f more. rw (mask_pow same hash keys h) (
            probe_hit h.m small (stops same key) t.entries (hash key) f r (keys.hash_range key)
              (omega (arith, h.size)) hit) in
        (
          place h.m (hash key) r,
          omega (arith, h.size, place-lt same hash keys h.m (hash key) r),
          run fuel enough,
          run (t.mask + 1) (omega arith),
        )

    -- With fewer than 2 ^ 62 entries, hsearch_r keeps a table well-formed: a power of 2 of places,
    -- at most three quarters in use as counted, and every entry where lookup finds it.
    pub hsearch-IsHash :
        {t t' : Table K} {r : Option ℕ}
        → IsHash same hash t
        → t.used < 2 ^ 62
        → (memory : Bool) (item : Item K) (action : Action)
        → hsearch same hash memory item action t ≡ some (r, t')
        → IsHash same hash t'
    hsearch-IsHash h few memory item action run =
        let (r0, t0, run0, outcome) = hsearch_lem same hash keys h few memory item action in
        let same_end = some_inj (sym run0 ∙ run) in
        rw (ap (λ x. x.1) same_end) at (Outcome-IsHash h outcome)

    find_found :
        {t : Table K} (h : IsHash same hash t) (memory : Bool) (item : Item K) (p : ℕ) (e : Item K)
        → p ≤ t.mask
        → t.entries p ≡ some e
        → same e.key item.key ≡ true
        → hsearch same hash memory item find t ≡ some (some p, t)
    unfolding hsearch
    find_found {t} h memory item p e inside at equal =
        let stop : lookup same hash t item.key ≡ some p =
          probe_mask same hash keys h item.key
          ∙ lookup_finds same hash keys h.table item.key p (omega (arith, h.size)) (e, at, equal) in
        rw (stop, at) refl

    Outcome-place :
        {memory : Bool} {item : Item K} {action : Action} {t t' : Table K} {r : Option ℕ} (p : ℕ)
        → Outcome same hash memory item t action r t'
        → r ≡ some p
        → (e : Item K) × (p ≤ t'.mask) × (t'.entries p ≡ some e) × (same e.key item.key ≡ true)
    Outcome-place {t} p (held q e got within at equal) same_place =
        let level = some_inj same_place in (e, rw level at within, rw level at at, equal)
    Outcome-place p (missing gone) same_place = none_some same_place
    Outcome-place {item} {t'} p (entered gone is) same_place =
        let level = some_inj (sym is.is_place ∙ same_place) in
        (item, rw level at is.within, rw level at is.stored, keys.same_refl item.key)
    Outcome-place p (refused gone failed full) same_place = none_some same_place

    -- After a call of hsearch_r on a well-formed table of fewer than 2 ^ 62 entries has returned an
    -- entry, a search for an equal key returns the same entry and keeps the table.
    pub find-hsearch :
        {t t' : Table K}
        → IsHash same hash t
        → t.used < 2 ^ 62
        → (memory memory' : Bool) (item item' : Item K) (action : Action) (p : ℕ)
        → hsearch same hash memory item action t ≡ some (some p, t')
        → same item.key item'.key ≡ true
        → hsearch same hash memory' item' find t' ≡ some (some p, t')
    find-hsearch h few memory memory' item item' action p run equal =
        let (r0, t0, run0, outcome) = hsearch_lem same hash keys h few memory item action in
        let same_end = some_inj (sym run0 ∙ run) in
        let wf = Outcome-IsHash h outcome in
        let (e, within, at, own) = Outcome-place p outcome (ap (λ x. x.0) same_end) in
        let found =
          find_found wf memory' item' p e within at
            (keys.same_trans e.key item.key item'.key own equal) in
        rw (ap (λ x. x.1) same_end) at found

    -- Where the key has no entry, the table is full, and memory for a larger one fails, entering
    -- the key into a well-formed table of fewer than 2 ^ 62 entries returns null and leaves the
    -- table as it was.
    pub hsearch-refused :
        {t : Table K}
        → IsHash same hash t
        → t.used < 2 ^ 62
        → (item : Item K) → view same hash t item.key ≡ none
        → IsFull same hash t
        → hsearch same hash false item enter t ≡ some (none, t)
    hsearch-refused {t} h few item gone full =
        let (p, stop, inside, what) = ends same hash keys h item.key in
        elim what [
          | inl (e, at, equal) ↦ none_some (
              sym gone
              ∙ view-get same hash keys h item.key
              ∙ get_found same hash keys h.table item.key p e inside at equal)
          | inr (null, absent, reach) ↦
              hsearch-added same hash keys h few false item p stop null
              ∙ added_full same hash keys h few item p inside null reach full
        ]

    -- Where memory suffices, hcreate_r gives a well-formed table in which no key has an entry; up
    -- to MAXSIZE it has as many places as are asked for.
    pub hcreate_lem :
        (nel : ℕ)
        → (t : Table K) × (hcreate true true nel ≡ some t)
          × IsHash same hash t
          × ((key : K) → view same hash t key ≡ none)
          × (nel ≤ max_size → nel ≤ t.mask + 1)
    unfolding hcreate
    hcreate_lem nel =
        let (m, size, large, small, fits) = new_size_any nel in
        let eight = pow_mono 3 m large in
        let t : Table K = record { entries = λ p. none; mask = new_size nel - 1; used = 0 } in
        let h : IsHash same hash t = record {
          m = m;
          large = large;
          size = omega (arith, size, eight);
          table = record {
            small = omega arith;
            room = omega (arith, occupied-none K (2 ^ m), eight);
            placed = λ p e lt at. none_some at;
          };
          counted = sym (occupied-none K (2 ^ m));
          filled = omega arith;
        } in
        (
          t,
          refl,
          h,
          λ key.
              view-get same hash keys h key
              ∙ get_absent same hash keys h.table key (λ p e lt at. none_some at),
          λ in_range. omega (arith, fits in_range, size),
        )
