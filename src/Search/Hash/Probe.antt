-- ===== src/Search/Hash/Probe.antt =====
-- Where the loop over the places of a key stops, and that it stops.
use leblibc.Prelude.{
  ℕ, zero, suc, ◌+◌, ◌-◌, ◌*◌, ◌/◌, ◌%◌, ◌^◌, ◌≤◌, ◌<◌, ◌≡◌, refl, sym, ap, ◌∙◌, Bool, true, false,
  Option, none, some, arith, bit_and, inl, inr, ◌⊎◌, Bool-cases,
}
use native.Mathlib.Decide.{dec_lt}
use native.Mathlib.Nat.{one-le-pow, mod-lt, pow-suc, div-add-mod, mul_assoc, mul-add-mod_self_left}
use leblibc.Prelude.Bits.{bit_and_low}
use leblibc.Search.Hash.{Item, probe, is_null, size_mod}
use leblibc.Search.Hash.Triangle.{tri, place, place-ne}
use leblibc.Search.Hash.Occupied.{Entries, weight, occupied, distinct_occupied}

-- The first of `count` numbers at which a test holds, if there is one.
abbrev pub FirstHit : (ℕ → Bool) → ℕ → Type 0
FirstHit test r = (test r ≡ true) × ((k : ℕ) → k < r → test k ≡ false)

last_miss :
    (test : ℕ → Bool) (count k : ℕ)
    → k < suc count
    → ((k : ℕ) → k < count → test k ≡ false)
    → test count ≡ false
    → test k ≡ false
last_miss test count k lt missed end = elim (dec_lt k count) [
  | yes below ↦ missed k below
  | no above ↦ let e : k ≡ count = omega arith in rw e end
]

pub first_hit :
    (test : ℕ → Bool) (count : ℕ)
    → ((k : ℕ) → k < count → test k ≡ false) ⊎ ((r : ℕ) × (r < count) × FirstHit test r)
first_hit test zero = inl (λ k lt. absurd (omega arith))
first_hit test (suc count) = elim (first_hit test count) [
  | inr (r, lt, hit) ↦ inr (r, omega arith, hit)
  | inl missed ↦ elim (Bool-cases (test count)) [
    | inl stopped ↦ inr (count, omega arith, (stopped, missed))
    | inr passed ↦ inl (λ k lt. last_miss test count k lt missed passed)
  ]
]

pow_multiple : (m d : ℕ) → 2 ^ (m + d) ≡ 2 ^ m * 2 ^ d
pow_multiple m zero = grind arith
pow_multiple m (suc d) = grind (arith, pow-suc 2 (m + d), pow-suc 2 d, pow_multiple m d)

mod_of_multiple : (x a c : ℕ) → x % (a * c) % a ≡ x % a
mod_of_multiple x a c =
    let whole = div-add-mod x (a * c) in
    let parts : a * (c * (x / (a * c))) + x % (a * c) ≡ x =
      ap (λ t. t + x % (a * c)) (sym (mul_assoc a c (x / (a * c)))) ∙ whole in
    sym (mul-add-mod_self_left a (c * (x / (a * c))) (x % (a * c))) ∙ ap (λ t. t % a) parts

-- Indices wrap at 2 ^ 64, which does not matter to their low bits.
low_bits : (m x : ℕ) → m ≤ 64 → x % size_mod % 2 ^ m ≡ x % 2 ^ m
low_bits m x h =
    let split : 64 ≡ m + (64 - m) = omega arith in
    let whole : size_mod ≡ 2 ^ m * 2 ^ (64 - m) = ap (λ t. 2 ^ t) split ∙ pow_multiple m (64 - m) in
    ap (λ t. x % t % 2 ^ m) whole ∙ mod_of_multiple x (2 ^ m) (2 ^ (64 - m))

-- The index that the loop computes after `n` steps.
masked : (m h n i : ℕ) → m ≤ 64 → i ≡ (h + tri n) % size_mod → bit_and i (2 ^ m - 1) ≡ place m h n
masked m h n i small e = bit_and_low m i ∙ ap (λ t. t % 2 ^ m) e ∙ low_bits m (h + tri n) small

step_index :
    (h n i : ℕ) → i ≡ (h + tri n) % size_mod → (i + suc n) % size_mod ≡ (h + tri (suc n)) % size_mod
unfolding tri
step_index h n i e = omega (arith, e)

start_index : (h : ℕ) → h < size_mod → h ≡ (h + tri 0) % size_mod
unfolding tri
start_index h range = omega arith

weight_used :
    {K : Type 0} (o : Option (Item K)) {b : Bool}
    → (is_null o ≡ true → b ≡ true)
    → b ≡ false
    → weight o ≡ 1
weight_used none h e = absurd (ground (arith, h refl))
weight_used (some d) h e = refl

module _ {K : Type 0} (m : ℕ) (small : m ≤ 64) (stop : Option (Item K) → Bool) (t : Entries K)
    (h : ℕ) where
  abbrev at : ℕ → Bool
  at k = stop (t (place m h k))

  probe_from :
      (fuel n i r : ℕ)
      → i ≡ (h + tri n) % size_mod
      → r < fuel
      → at (n + r) ≡ true
      → ((k : ℕ) → k < r → at (n + k) ≡ false)
      → probe stop t (2 ^ m - 1) fuel i (suc n) ≡ some (place m h (n + r))
  unfolding probe
  probe_from zero n i r e lt hit missed = absurd (omega arith)
  probe_from (suc fuel) n i zero e lt hit missed =
      let here : n + 0 ≡ n = omega arith in
      let found : at n ≡ true = rw here at hit in rw (masked m h n i small e, found, here) refl
  probe_from (suc fuel) n i (suc r) e lt hit missed =
      let here : n + 0 ≡ n = omega arith in
      let passed : at n ≡ false = rw here at (missed 0 (omega arith)) in
      let moved : n + suc r ≡ suc n + r = omega arith in
      let rest =
        probe_from fuel (suc n) ((i + suc n) % size_mod) r (step_index h n i e) (omega arith)
          (rw moved at hit) (λ k less. ap at (omega arith) ∙ missed (suc k) (omega arith)) in
      rw (masked m h n i small e, passed, moved) rest

  -- The loop stops at the first place that its test holds of.
  pub probe_hit :
      (fuel r : ℕ)
      → h < size_mod
      → r < fuel
      → FirstHit at r
      → probe stop t (2 ^ m - 1) fuel h 1 ≡ some (place m h r)
  probe_hit fuel r range lt (hit, missed) =
      let from : (k : ℕ) → 0 + k ≡ k = λ k. omega arith in
      probe_from fuel 0 h r (start_index h range) lt (ap at (from r) ∙ hit)
        (λ k less. ap at (from k) ∙ missed k less)
      ∙ ap (λ k. some (place m h k)) (from r)

  module _ (at_null : (o : Option (Item K)) → is_null o ≡ true → stop o ≡ true) where
    used_place : (k : ℕ) → at k ≡ false → weight (t (place m h k)) ≡ 1
    used_place k e = weight_used (t (place m h k)) (at_null (t (place m h k))) e

  -- Some place of a key is empty, where fewer entries are in use than there are.
  pub probe_ends :
      ((o : Option (Item K)) → is_null o ≡ true → stop o ≡ true)
      → occupied t (2 ^ m) < 2 ^ m
      → (r : ℕ) × (r < 2 ^ m) × FirstHit at r
  probe_ends at_null room = elim (first_hit at (2 ^ m)) [
    | inr found ↦ found
    | inl missed ↦
        let in_use : (k : ℕ) → k < 2 ^ m → (place m h k < 2 ^ m) × (weight (t (place m h k)) ≡ 1) =
          λ k lt. (
            mod-lt (h + tri k) (one-le-pow m 2 (omega arith)),
            used_place at_null k (missed k lt),
          ) in
        absurd (
          omega
            (arith, room, distinct_occupied (2 ^ m) t (2 ^ m) (place m h) in_use (place-ne m h)))
  ]
