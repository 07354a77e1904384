-- ===== src/Search/Hash/Rehash.antt =====
-- Growing the table: the loop over the old entries puts each into the new table, where it is found.
use leblibc.Prelude.{
  ℕ, zero, suc, ◌+◌, ◌-◌, ◌^◌, ◌≤◌, ◌<◌, ◌≡◌, refl, sym, ap, ◌∙◌, Bool, true, false, Option, none,
  some, arith, inl, inr, Option-cases, Bool-cases,
}
use native.Mathlib.Decide.{ℕ_discrete}
use native.Mathlib.Nat.{one-le-pow}
use leblibc.Search.Hash.{Item, probe, is_null, set_entry, stops, rehash}
use leblibc.Search.Hash.Triangle.{place}
use leblibc.Search.Hash.Occupied.{
  Entries, weight, occupied, set_entry_self, set_entry_other, occupied-set, occupied-none,
}
use leblibc.Search.Hash.Probe.{probe_hit, probe_ends}
use leblibc.Search.Hash.Placed.{
  IsKeys, Reaches, IsTable, IsAbsent, true_false, lookup_finds, place-lt,
}
use leblibc.Search.Hash.Insert.{
  some_inj, none_some, insert-IsTable, get, get_found, get_absent, get_cases,
}

occupied_mono : {K : Type 0} (t : Entries K) (n d : ℕ) → occupied t n ≤ occupied t (n + d)
unfolding occupied
occupied_mono t n zero = let e : n + 0 ≡ n = omega arith in rw e (omega arith)
occupied_mono t n (suc d) =
    let e : n + suc d ≡ suc (n + d) = omega arith in rw e (omega (arith, occupied_mono t n d))

null_none : {K : Type 0} (o : Option (Item K)) → is_null o ≡ true → o ≡ none
null_none none h = refl
null_none (some e) h = absurd (ground arith)

module _ {K : Type 0} (same : K → K → Bool) (hash : K → ℕ) (keys : IsKeys same hash) where
  -- Entries with the same key stand at the same index.
  one_place :
      {m : ℕ} {t : Entries K}
      → IsTable same hash m t
      → (p q : ℕ) (d e : Item K) → p < 2 ^ m
      → q < 2 ^ m
      → t p ≡ some d
      → t q ≡ some e
      → same d.key e.key ≡ true
      → p ≡ q
  one_place wf p q d e inside within held stored equal = some_inj (
      sym (lookup_finds same hash keys wf e.key p inside (d, held, equal))
      ∙ lookup_finds same hash keys wf e.key q within (e, stored, keys.same_refl e.key))

  module _ {m : ℕ} {t : Entries K} (wf : IsTable same hash m t) (m' : ℕ) where
    -- The new entries are the old ones below the index `p`.
    pub record Copied (p : ℕ) (n : Entries K) : Type 0 where
      pub table : IsTable same hash m' n
      pub amount : occupied n (2 ^ m') ≡ occupied t p
      pub from :
          (q : ℕ) (e : Item K) → q < 2 ^ m' → n q ≡ some e → (r : ℕ) × (r < p) × (t r ≡ some e)
      pub into :
          (r : ℕ) (e : Item K) → r < p → t r ≡ some e → (q : ℕ) × (q < 2 ^ m') × (n q ≡ some e)

    module _ (fits : occupied t (2 ^ m) < 2 ^ m') where
      copy_null : (p : ℕ) (n : Entries K) → t p ≡ none → Copied p n → Copied (suc p) n
      unfolding occupied
      copy_null p n null copied = record {
        table = copied.table;
        amount = rw null (omega (arith, copied.amount));
        from = λ q e within held.
            let (r, lt, at) = copied.from q e within held in (r, omega arith, at);
        into = λ r e lt at. elim (ℕ_discrete r p) [
          | yes last ↦ none_some (sym null ∙ ap t (sym last) ∙ at)
          | no other ↦ copied.into r e (omega (arith, other)) at
        ];
      }

      -- What the loop passes in the new table has other keys.
      passes_other :
          (p : ℕ) (n : Entries K) (e : Item K)
          → p < 2 ^ m
          → t p ≡ some e
          → Copied p n
          → (q : ℕ) → q < 2 ^ m'
          → is_null (n q) ≡ false
          → stops same e.key (n q) ≡ false
      passes_other p n e inside at copied q within used = elim (Option-cases (n q)) [
        | inl null ↦ true_false same hash keys (ap is_null null) used
        | inr (d, held) ↦
            let (r, lt, stored) = copied.from q d within held in
            elim (Bool-cases (same d.key e.key)) [
              | inr other ↦ ap (stops same e.key) held ∙ other
              | inl equal ↦
                  let level = one_place wf r p d e (omega arith) inside stored at equal in
                  absurd (omega arith)
            ]
      ]

      abbrev with : Entries K → ℕ → Item K → Entries K
      with n q e = set_entry n q (some e)

      copy_some :
          (p : ℕ) (n : Entries K) (e : Item K) (q : ℕ)
          → p < 2 ^ m
          → t p ≡ some e
          → Copied p n
          → q < 2 ^ m'
          → n q ≡ none
          → Reaches same hash m' n e.key q
          → Copied (suc p) (with n q e)
      unfolding occupied
      copy_some p n e q inside at copied within null reach =
          let more : occupied t (suc p) ≡ occupied t p + 1 = ap (λ o. occupied t p + weight o) at in
          let top : suc p + (2 ^ m - suc p) ≡ 2 ^ m = omega arith in
          let least : occupied t (suc p) ≤ occupied t (2 ^ m) =
            rw top at (occupied_mono t (suc p) (2 ^ m - suc p)) in
          let room : occupied n (2 ^ m') + 1 < 2 ^ m' =
            omega (arith, copied.amount, more, least, fits) in
          let counted = occupied-set n q (some e) (2 ^ m') within in
          record {
            table = insert-IsTable same hash keys copied.table e q within null room reach;
            amount = omega (arith, counted, ap weight null, copied.amount, more);
            from = λ r d below held. elim (ℕ_discrete r q) [
              | yes own ↦ (
                p,
                omega arith,
                at ∙ sym (set_entry_self n q (some e)) ∙ ap (with n q e) (sym own) ∙ held,
              )
              | no other ↦
                  let (s, lt, stored) =
                    copied.from r d below (sym (set_entry_other n q r (some e) other) ∙ held) in
                  (s, omega arith, stored)
            ];
            into = λ r d lt stored. elim (ℕ_discrete r p) [
              | yes last ↦
                  (q, within, set_entry_self n q (some e) ∙ sym at ∙ ap t (sym last) ∙ stored)
              | no other ↦
                  let (s, below, held) = copied.into r d (omega (arith, other)) stored in
                  (
                    s,
                    below,
                    set_entry_other n q s (some e)
                          (λ own. none_some (sym null ∙ ap n (sym own) ∙ held))
                        ∙ held,
                  )
            ];
          }

      -- The inner loop of `resize` ends at an empty place of the key.
      free_place :
          (p : ℕ) (n : Entries K) (e : Item K)
          → p < 2 ^ m
          → t p ≡ some e
          → Copied p n
          → (q : ℕ) × (probe is_null n (2 ^ m' - 1) (2 ^ m') (hash e.key) 1 ≡ some q)
            × (q < 2 ^ m')
            × (n q ≡ none)
            × Reaches same hash m' n e.key q
      free_place p n e inside at copied =
          let small = copied.table.small in
          let (r, lt, hit) =
            probe_ends m' small is_null n (hash e.key) (λ o h. h) copied.table.room in
          let q = place m' (hash e.key) r in
          let bound : (k : ℕ) → place m' (hash e.key) k < 2 ^ m' =
            λ k. place-lt same hash keys m' (hash e.key) k in
          (
            q,
            probe_hit m' small is_null n (hash e.key) (2 ^ m') r (keys.hash_range e.key) lt hit,
            bound r,
            null_none (n q) hit.0,
            (
              r,
              lt,
              refl,
              λ k less.
                  passes_other p n e inside at copied (place m' (hash e.key) k) (bound k)
                    (hit.1 k less),
            ),
          )

      rehash_from :
          (count p : ℕ) (n : Entries K)
          → p + count ≡ 2 ^ m
          → Copied p n
          → (n' : Entries K) × (rehash same hash count p t n (2 ^ m' - 1) ≡ some n')
            × Copied (2 ^ m) n'
      unfolding rehash
      rehash_from zero p n all copied = let e : p ≡ 2 ^ m = omega arith in (n, refl, rw e at copied)
      rehash_from (suc count) p n all copied = elim (Option-cases (t p)) [
        | inl null ↦
            let (n', e, result) =
              rehash_from count (suc p) n (omega arith) (copy_null p n null copied) in
            (n', rw (rehash, null) e, result)
        | inr (d, at) ↦
            let inside : p < 2 ^ m = omega arith in
            let whole : 2 ^ m' - 1 + 1 ≡ 2 ^ m' = omega (arith, one-le-pow m' 2 (omega arith)) in
            let (q, stop, within, null, reach) = free_place p n d inside at copied in
            let (n', e, result) =
              rehash_from count (suc p) (with n q d) (omega arith)
                (copy_some p n d q inside at copied within null reach) in
            (n', rw (rehash, at, whole, stop) e, result)
      ]

      pub rehash_lem :
          m' ≤ 64
          → (n : Entries K) × (rehash same hash (2 ^ m) 0 t (λ p. none) (2 ^ m' - 1) ≡ some n)
            × Copied (2 ^ m) n
      unfolding occupied
      rehash_lem small =
          rehash_from (2 ^ m) 0 (λ p. none) (omega arith)
            (record {
              table = record {
                small = small;
                room = omega (arith, occupied-none K (2 ^ m'), one-le-pow m' 2 (omega arith));
                placed = λ p e lt held. none_some held;
              };
              amount = occupied-none K (2 ^ m');
              from = λ q e lt held. none_some held;
              into = λ r e lt held. absurd (omega arith);
            })

    -- Each key is found in the new table as it was in the old one.
    pub get-Copied :
        (n : Entries K)
        → Copied (2 ^ m) n
        → (key : K) → get same hash keys m' n key ≡ get same hash keys m t key
    get-Copied n copied key = elim (get_cases same hash keys wf key) [
      | inl (p, e, inside, held, equal, got) ↦
          let (q, within, stored) = copied.into p e inside held in
          get_found same hash keys copied.table key q e within stored equal ∙ sym got
      | inr (got, absent) ↦
          let others : IsAbsent same hash m' n key = λ q e within stored.
            let (r, lt, held) = copied.from q e within stored in absent r e lt held in
          get_absent same hash keys copied.table key others ∙ sym got
    ]
