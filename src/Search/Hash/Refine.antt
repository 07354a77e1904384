-- ===== src/Search/Hash/Refine.antt =====
-- `hsearch_r` on every branch, and what `hcreate_r` starts from.
use leblibc.Prelude.{
  ℕ, ◌+◌, ◌-◌, ◌/◌, ◌^◌, ◌≤◌, ◌<◌, ◌≡◌, refl, ◌∙◌, Bool, true, false, Option, none, some, arith,
  inl, inr, Bool-cases,
}
use native.Mathlib.Decide.{dec_lt}
use leblibc.Search.Hash.{Item, Table, Action, find, enter, set_entry, lookup, added, hsearch}
use leblibc.Search.Hash.Placed.{IsKeys, Found, Missing}
use leblibc.Search.Hash.Insert.{get_found, get_absent}
use leblibc.Search.Hash.Contract.{view, IsHash, view-get, ends}
use leblibc.Search.Hash.Enter.{IsEntered, IsFull, added_room, room_entered, added_full, grown}

module _ {K : Type 0} (same : K → K → Bool) (hash : K → ℕ) where
  -- What may come of a call, by what the map of the table holds for the key.
  pub data Outcome (memory : Bool) (item : Item K) (t : Table K)
      : Action → Option ℕ → Table K → Type 0 where
    held :
        {action : Action} (p : ℕ) (e : Item K)
        → view same hash t item.key ≡ some e
        → p ≤ t.mask
        → t.entries p ≡ some e
        → same e.key item.key ≡ true
        → Outcome memory item t action (some p) t
    missing : view same hash t item.key ≡ none → Outcome memory item t find none t
    entered :
        {r : Option ℕ} {t' : Table K}
        → view same hash t item.key ≡ none
        → IsEntered same hash t item r t'
        → Outcome memory item t enter r t'
    refused :
        view same hash t item.key ≡ none
        → memory ≡ false
        → IsFull same hash t
        → Outcome memory item t enter none t

  module _ (keys : IsKeys same hash) {t : Table K} (h : IsHash same hash t)
      (few : t.used < 2 ^ 62) where
    abbrev Run : Bool → Item K → Action → Type 0
    Run memory item action =
        (r : Option ℕ) × (t' : Table K) × (hsearch same hash memory item action t ≡ some (r, t'))
        × Outcome memory item t action r t'

    view-Missing :
        (item : Item K) (p : ℕ)
        → Missing same hash h.m t.entries item.key p
        → view same hash t item.key ≡ none
    view-Missing item p (null, absent, reach) =
        view-get same hash keys h item.key ∙ get_absent same hash keys h.table item.key absent

    Run-held :
        (memory : Bool) (item : Item K) (action : Action) (p : ℕ)
        → lookup same hash t item.key ≡ some p
        → p < 2 ^ h.m
        → Found same hash t.entries item.key p
        → Run memory item action
    unfolding hsearch
    Run-held memory item action p stop inside (e, at, equal) = (
      some p,
      t,
      rw (stop, at) refl,
      held p e
          (view-get same hash keys h item.key
            ∙ get_found same hash keys h.table item.key p e inside at equal)
          (omega (arith, h.size)) at equal,
    )

    pub hsearch-added :
        (memory : Bool) (item : Item K) (p : ℕ)
        → lookup same hash t item.key ≡ some p
        → t.entries p ≡ none
        → hsearch same hash memory item enter t
          ≡ added same hash memory
              (record t { entries = set_entry t.entries p (some item) })
              item.key
              p
    unfolding hsearch
    hsearch-added memory item p stop null = rw (stop, null) refl

    Run-Missing :
        (memory : Bool) (item : Item K) (action : Action) (p : ℕ)
        → lookup same hash t item.key ≡ some p
        → p < 2 ^ h.m
        → Missing same hash h.m t.entries item.key p
        → Run memory item action
    unfolding hsearch
    Run-Missing memory item find p stop inside what =
        (none, t, rw (stop, what.0) refl, missing (view-Missing item p what))
    Run-Missing memory item enter p stop inside what =
        let (null, absent, reach) = what in
        let start = hsearch-added memory item p stop null in
        let gone = view-Missing item p what in
        elim (dec_lt (t.mask - t.mask / 4) (t.used + 1)) [
          | no room ↦
              let fits : t.used + 1 ≤ t.mask - t.mask / 4 = omega (arith, room) in
              (
                some p,
                record t { entries = set_entry t.entries p (some item); used = t.used + 1 },
                start ∙ added_room same hash keys h few item p inside null reach memory fits,
                entered gone (room_entered same hash keys h few item p inside null reach fits),
              )
          | yes full ↦ elim (Bool-cases memory) [
            | inl present ↦
                let (r, t', run, is) = grown same hash keys h few item p inside null reach full in
                (r, t', start ∙ rw present run, entered gone is)
            | inr failed ↦ (
              none,
              t,
              start ∙ rw failed (added_full same hash keys h few item p inside null reach full),
              refused gone failed full,
            )
          ]
        ]

    -- With fewer than 2 ^ 62 entries, hsearch_r on a well-formed table ends, with one of four
    -- outcomes: the entry that the key has; null and the same table, where the key has none and is
    -- not entered; a well-formed table that maps the key to the new item and every other key to
    -- what it had, where the item stands at the place returned; or null and the same table, where
    -- the table is full and there is no memory.
    pub hsearch_lem : (memory : Bool) (item : Item K) (action : Action) → Run memory item action
    hsearch_lem memory item action =
        let (p, stop, inside, what) = ends same hash keys h item.key in
        elim what [
          | inl found ↦ Run-held memory item action p stop inside found
          | inr gone ↦ Run-Missing memory item action p stop inside gone
        ]
