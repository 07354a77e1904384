-- ===== src/Search/Hash/Occupied.antt =====
-- How many entries are in use.
use leblibc.Prelude.{
  ℕ, zero, suc, ◌+◌, ◌≤◌, ◌<◌, ◌≡◌, ◌≢◌, refl, sym, ap, ◌∙◌, Option, none, some, arith,
}
use native.Mathlib.Decide.{ℕ_discrete}
use leblibc.Search.Hash.{Item, set_entry}

abbrev pub Entries : Type 0 → Type 0
Entries K = ℕ → Option (Item K)

module _ {K : Type 0} where
  abbrev pub weight : Option (Item K) → ℕ
  weight none = 0
  weight (some e) = 1

  -- The entries in use, below an index.
  unfoldable pub occupied : Entries K → ℕ → ℕ
  occupied t zero = 0
  occupied t (suc n) = occupied t n + weight (t n)

  pub set_entry_self : (t : Entries K) (p : ℕ) (v : Option (Item K)) → set_entry t p v p ≡ v
  unfolding set_entry
  set_entry_self t p v = ground arith

  pub set_entry_other :
      (t : Entries K) (p q : ℕ) (v : Option (Item K)) → q ≢ p → set_entry t p v q ≡ t q
  unfolding set_entry
  set_entry_other t p q v h = ground arith

  occupied-set_past :
      (t : Entries K) (p : ℕ) (v : Option (Item K)) (n : ℕ)
      → n ≤ p
      → occupied (set_entry t p v) n ≡ occupied t n
  unfolding occupied
  occupied-set_past t p v zero h = refl
  occupied-set_past t p v (suc n) h =
      let same = set_entry_other t p n v (λ e. ground arith) in
      rw (same, occupied-set_past t p v n (omega arith)) refl

  pub occupied-set :
      (t : Entries K) (p : ℕ) (v : Option (Item K)) (n : ℕ)
      → p < n
      → occupied (set_entry t p v) n + weight (t p) ≡ occupied t n + weight v
  unfolding occupied
  occupied-set t p v zero h = absurd (omega arith)
  occupied-set t p v (suc n) h = elim (ℕ_discrete p n) [
    | yes e ↦
        let own = ap weight (ap (λ q. set_entry t p v q) (sym e) ∙ set_entry_self t p v) in
        omega (arith, own, occupied-set_past t p v n (omega arith), ap (λ q. weight (t q)) e)
    | no other ↦
        let same = set_entry_other t p n v (λ e. ground arith) in
        rw same (omega (arith, occupied-set t p v n (omega (arith, other))))
  ]

  -- As many different indices, all in use, are at most the entries in use.
  pub distinct_occupied :
      (c : ℕ) (t : Entries K) (n : ℕ) (g : ℕ → ℕ)
      → ((k : ℕ) → k < c → (g k < n) × (weight (t (g k)) ≡ 1))
      → ((a b : ℕ) → a < b → b < c → g a ≢ g b)
      → c ≤ occupied t n
  distinct_occupied zero t n g h apart = omega arith
  distinct_occupied (suc c) t n g h apart =
      let (inside, used) = h c (omega arith) in
      let t' = set_entry t (g c) none in
      let others : (k : ℕ) → k < c → (g k < n) × (weight (t' (g k)) ≡ 1) = λ k lt.
        let (a, b) = h k (omega arith) in
        (a, ap weight (set_entry_other t (g c) (g k) none (apart k c lt (omega arith))) ∙ b) in
      let rest = distinct_occupied c t' n g others (λ a b lt small. apart a b lt (omega arith)) in
      omega (arith, rest, used, occupied-set t (g c) none n inside)

pub occupied-none : (K : Type 0) (n : ℕ) → occupied {K = K} (λ p. none) n ≡ 0
unfolding occupied
occupied-none K zero = refl
occupied-none K (suc n) = omega (arith, occupied-none K n)
