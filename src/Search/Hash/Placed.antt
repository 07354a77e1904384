-- ===== src/Search/Hash/Placed.antt =====
-- Every entry stands where the loop of `lookup` finds it, and a new one can be put where it ends.
use leblibc.Prelude.{
  ℕ, ◌+◌, ◌-◌, ◌^◌, ◌≤◌, ◌<◌, ◌≡◌, refl, sym, ap, ◌∙◌, Bool, true, false, Option, none, some, arith,
  inl, inr, ◌⊎◌, Bool-cases, Option-cases,
}
use native.Mathlib.Decide.{dec_lt, ℕ_discrete}
use native.Mathlib.Nat.{one-le-pow, mod-lt}
use leblibc.Search.Hash.{Item, probe, is_null, size_mod, stops}
use leblibc.Search.Hash.Triangle.{tri, place}
use leblibc.Search.Hash.Occupied.{Entries, occupied}
use leblibc.Search.Hash.Probe.{probe_hit, probe_ends}

-- What the table asks of the comparison and the hash.
pub record IsKeys {K : Type 0} (same : K → K → Bool) (hash : K → ℕ) : Type 0 where
  pub same_refl : (a : K) → same a a ≡ true
  pub same_sym : (a b : K) → same a b ≡ true → same b a ≡ true
  pub same_trans : (a b c : K) → same a b ≡ true → same b c ≡ true → same a c ≡ true
  pub hash_same : (a b : K) → same a b ≡ true → hash a ≡ hash b
  pub hash_range : (a : K) → hash a < size_mod

module _ {K : Type 0} (same : K → K → Bool) (hash : K → ℕ) where
  -- The loop passes `n` places of the key.
  abbrev pub Passes : ℕ → Entries K → K → ℕ → Type 0
  Passes m t key n = (k : ℕ) → k < n → stops same key (t (place m (hash key) k)) ≡ false

  abbrev pub Reaches : ℕ → Entries K → K → ℕ → Type 0
  Reaches m t key p = (n : ℕ) × (n < 2 ^ m) × (place m (hash key) n ≡ p) × Passes m t key n

  -- A table of 2 ^ m entries, one at least empty.
  pub record IsTable (m : ℕ) (t : Entries K) : Type 0 where
    pub small : m ≤ 64
    pub room : occupied t (2 ^ m) < 2 ^ m
    pub placed : (p : ℕ) (e : Item K) → p < 2 ^ m → t p ≡ some e → Reaches m t e.key p

  abbrev pub Found : Entries K → K → ℕ → Type 0
  Found t key p = (e : Item K) × (t p ≡ some e) × (same e.key key ≡ true)

  -- No entry has the key.
  abbrev pub IsAbsent : ℕ → Entries K → K → Type 0
  IsAbsent m t key = (p : ℕ) (e : Item K) → p < 2 ^ m → t p ≡ some e → same e.key key ≡ false

  abbrev pub Missing : ℕ → Entries K → K → ℕ → Type 0
  Missing m t key p = (t p ≡ none) × IsAbsent m t key × Reaches m t key p

  module _ (keys : IsKeys same hash) where
    pub place-lt : (m h n : ℕ) → place m h n < 2 ^ m
    place-lt m h n = mod-lt (h + tri n) (one-le-pow m 2 (omega arith))

    pub true_false : {A : Type 0} {b : Bool} → b ≡ true → b ≡ false → A
    true_false h k = absurd (ground arith)

    stops_at :
        (t : Entries K) (key : K) (p q : ℕ) (e : Item K)
        → q ≡ p
        → t p ≡ some e
        → stops same key (t q) ≡ same e.key key
    stops_at t key p q e at held = ap (λ x. stops same key (t x)) at ∙ ap (stops same key) held

    pub stops_null : (key : K) (o : Option (Item K)) → is_null o ≡ true → stops same key o ≡ true
    stops_null key none h = refl
    stops_null key (some e) h = absurd (ground arith)

    -- Keys that compare equal stop at the same entries.
    stops_same :
        (key key' : K)
        → same key' key ≡ true
        → (o : Option (Item K)) → stops same key' o ≡ false
        → stops same key o ≡ false
    stops_same key key' equal none h = h
    stops_same key key' equal (some e) h = elim (Bool-cases (same e.key key)) [
      | inr other ↦ other
      | inl equal' ↦
          true_false (keys.same_trans e.key key key' equal' (keys.same_sym key' key equal)) h
    ]

    absent :
        {m : ℕ} {t : Entries K}
        → IsTable m t
        → (key : K) (n : ℕ) → n < 2 ^ m
        → t (place m (hash key) n) ≡ none
        → Passes m t key n
        → IsAbsent m t key
    absent {m} {t} wf key n lt null passes p e inside held = elim (Bool-cases (same e.key key)) [
      | inr other ↦ other
      | inl equal ↦
          let (n', lt', there, before) = wf.placed p e inside held in
          let hashes = keys.hash_same e.key key equal in
          let moved : (k : ℕ) → place m (hash e.key) k ≡ place m (hash key) k =
            λ k. ap (λ h. place m h k) hashes in
          elim (dec_lt n' n) [
            | yes early ↦
                true_false
                  (stops_at t key p (place m (hash key) n') e (sym (moved n') ∙ there) held ∙ equal)
                  (passes n' early)
            | no late ↦ elim (ℕ_discrete n' n) [
              | yes level ↦
                  true_false {b = is_null (t p)}
                    (ap is_null (
                      ap t (sym (sym (moved n') ∙ there) ∙ ap (λ k. place m (hash key) k) level)
                      ∙ null))
                    (ap is_null held)
              | no differs ↦
                  true_false (ap (stops same e.key) (ap t (moved n) ∙ null))
                    (before n (omega (arith, late, differs)))
            ]
          ]
    ]

    -- The loop of `lookup` ends, at an entry of the key or at an empty one behind all places where the
    -- key could be.
    pub lookup_ends :
        {m : ℕ} {t : Entries K}
        → IsTable m t
        → (key : K)
        → (p : ℕ) × (probe (stops same key) t (2 ^ m - 1) (2 ^ m) (hash key) 1 ≡ some p)
          × (p < 2 ^ m)
          × (Found t key p ⊎ Missing m t key p)
    lookup_ends {m} {t} wf key =
        let (r, lt, hit) =
          probe_ends m wf.small (stops same key) t (hash key) (stops_null key) wf.room in
        let p = place m (hash key) r in
        (
          p,
          probe_hit m wf.small (stops same key) t (hash key) (2 ^ m) r (keys.hash_range key) lt hit,
          place-lt m (hash key) r,
          elim (Option-cases (t p)) [
            | inl null ↦ inr (null, absent wf key r lt null hit.1, (r, lt, refl, hit.1))
            | inr (e, held) ↦ inl (e, held, sym (ap (stops same key) held) ∙ hit.0)
          ],
        )

    -- An entry of the key is found, wherever it is.
    pub lookup_finds :
        {m : ℕ} {t : Entries K}
        → IsTable m t
        → (key : K) (p : ℕ) → p < 2 ^ m
        → Found t key p
        → probe (stops same key) t (2 ^ m - 1) (2 ^ m) (hash key) 1 ≡ some p
    lookup_finds {m} {t} wf key p inside (e, held, equal) =
        let (n, lt, there, before) = wf.placed p e inside held in
        let hashes = keys.hash_same e.key key equal in
        let moved : (k : ℕ) → place m (hash e.key) k ≡ place m (hash key) k =
          λ k. ap (λ h. place m h k) hashes in
        let at : place m (hash key) n ≡ p = sym (moved n) ∙ there in
        let hit = stops_at t key p (place m (hash key) n) e at held ∙ equal in
        let passes : Passes m t key n = λ k less.
          stops_same key e.key equal (t (place m (hash key) k))
            (ap (λ q. stops same e.key (t q)) (sym (moved k)) ∙ before k less) in
        probe_hit m wf.small (stops same key) t (hash key) (2 ^ m) n (keys.hash_range key) lt
          (hit, passes)
        ∙ ap some at
