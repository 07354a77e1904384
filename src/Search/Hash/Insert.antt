-- ===== src/Search/Hash/Insert.antt =====
-- A new entry at the empty place where the loop ends, and what is found then.
use leblibc.Prelude.{
  ℕ, ◌+◌, ◌-◌, ◌^◌, ◌<◌, ◌≡◌, sym, ap, ◌∙◌, Bool, true, false, Option, none, some, ◌>>=◌, arith,
  inl, inr, ◌⊎◌,
}
use native.Mathlib.Decide.{ℕ_discrete}
use leblibc.Search.Hash.{Item, probe, set_entry, stops}
use leblibc.Search.Hash.Triangle.{place}
use leblibc.Search.Hash.Occupied.{
  Entries, weight, occupied, set_entry_self, set_entry_other, occupied-set,
}
use leblibc.Search.Hash.Placed.{
  IsKeys, Passes, Reaches, IsTable, IsAbsent, true_false, lookup_ends, lookup_finds,
}

pub some_inj : {A : Type 0} {a b : A} → some a ≡ some b → a ≡ b
some_inj {A} {a} e = ap (from a) e
  where
    from : A → Option A → A
    from d none = d
    from d (some x) = x

pub none_some : {A B : Type 0} {a : A} → none ≡ some a → B
none_some e = absurd (ground arith)

module _ {K : Type 0} (same : K → K → Bool) (hash : K → ℕ) (keys : IsKeys same hash) where
  -- The entry that is found for a key.
  unfoldable pub get : ℕ → Entries K → K → Option (Item K)
  get m t key = probe (stops same key) t (2 ^ m - 1) (2 ^ m) (hash key) 1 >>= λ p. t p

  pub get_found :
      {m : ℕ} {t : Entries K}
      → IsTable same hash m t
      → (key : K) (p : ℕ) (e : Item K) → p < 2 ^ m
      → t p ≡ some e
      → same e.key key ≡ true
      → get m t key ≡ some e
  unfolding get
  get_found wf key p e inside held equal =
      rw (lookup_finds same hash keys wf key p inside (e, held, equal)) held

  pub get_absent :
      {m : ℕ} {t : Entries K}
      → IsTable same hash m t
      → (key : K) → IsAbsent same hash m t key
      → get m t key ≡ none
  unfolding get
  get_absent {m} {t} wf key absent =
      let (p, e, inside, what) = lookup_ends same hash keys wf key in
      elim what [
        | inl (d, held, equal) ↦ true_false same hash keys equal (absent p d inside held)
        | inr missing ↦ rw e missing.0
      ]

  -- Either an entry of the key is found, or there is none.
  pub get_cases :
      {m : ℕ} {t : Entries K}
      → IsTable same hash m t
      → (key : K)
      → ((p : ℕ) × (e : Item K) × (p < 2 ^ m)
          × (t p ≡ some e)
          × (same e.key key ≡ true)
          × (get m t key ≡ some e))
        ⊎ ((get m t key ≡ none) × IsAbsent same hash m t key)
  get_cases wf key =
      let (p, e, inside, what) = lookup_ends same hash keys wf key in
      elim what [
        | inl (d, held, equal) ↦
            inl (p, d, inside, held, equal, get_found wf key p d inside held equal)
        | inr (null, absent, reach) ↦ inr (get_absent wf key absent, absent)
      ]

  module _ {m : ℕ} {t : Entries K} (wf : IsTable same hash m t) (item : Item K) (p : ℕ)
      (inside : p < 2 ^ m) (null : t p ≡ none) where
    abbrev t' : Entries K
    t' = set_entry t p (some item)

    Passes-set : (key : K) (n : ℕ) → Passes same hash m t key n → Passes same hash m t' key n
    Passes-set key n passes k less = elim (ℕ_discrete (place m (hash key) k) p) [
      | yes e ↦ true_false same hash keys (ap (stops same key) (ap t e ∙ null)) (passes k less)
      | no other ↦
          ap (stops same key) (set_entry_other t p (place m (hash key) k) (some item) other)
          ∙ passes k less
    ]

    pub insert-IsTable :
        occupied t (2 ^ m) + 1 < 2 ^ m → Reaches same hash m t item.key p → IsTable same hash m t'
    insert-IsTable room reach = record {
      small = wf.small;
      room = omega (arith, occupied-set t p (some item) (2 ^ m) inside, ap weight null, room);
      placed = λ q e within held. elim (ℕ_discrete q p) [
        | yes at ↦
            let (n, lt, there, passes) = reach in
            let own : item ≡ e =
              some_inj (sym (set_entry_self t p (some item)) ∙ ap t' (sym at) ∙ held) in
            rw⁻¹ own (n, lt, there ∙ sym at, Passes-set item.key n passes)
        | no other ↦
            let (n, lt, there, passes) =
              wf.placed q e within (sym (set_entry_other t p q (some item) other) ∙ held) in
            (n, lt, there, Passes-set e.key n passes)
      ];
    }

    module _ (wf' : IsTable same hash m t') where
      pub get-insert_same : (key : K) → same item.key key ≡ true → get m t' key ≡ some item
      get-insert_same key equal =
          get_found wf' key p item inside (set_entry_self t p (some item)) equal

      pub get-insert_other : (key : K) → same item.key key ≡ false → get m t' key ≡ get m t key
      get-insert_other key differs = elim (get_cases wf key) [
        | inl (q, e, within, held, equal, got) ↦ elim (ℕ_discrete q p) [
          | yes at ↦ none_some (sym null ∙ ap t (sym at) ∙ held)
          | no other ↦
              get_found wf' key q e within (set_entry_other t p q (some item) other ∙ held) equal
              ∙ sym got
        ]
        | inr (got, absent) ↦
            let others : IsAbsent same hash m t' key = λ q e within held. elim (ℕ_discrete q p) [
              | yes at ↦
                  let own : item ≡ e =
                    some_inj (sym (set_entry_self t p (some item)) ∙ ap t' (sym at) ∙ held) in
                  ap (λ d. same d.key key) (sym own) ∙ differs
              | no other ↦ absent q e within (sym (set_entry_other t p q (some item) other) ∙ held)
            ] in
            get_absent wf' key others ∙ sym got
      ]
