-- ===== src/Search/Hash/Grow.antt =====
-- The loop of `resize` over the sizes ends at a power of 2 that is large enough, and does not wrap.
use leblibc.Prelude.{
  ℕ, zero, suc, ◌+◌, ◌-◌, ◌*◌, ◌%◌, ◌^◌, ◌≤◌, ◌<◌, ◌≡◌, refl, ap, true, false, ltb, arith,
}
use native.Mathlib.Decide.{dec_lt, ℕ_discrete}
use native.Mathlib.Nat.{pow-suc}
use leblibc.Search.Hash.{size_mod, grow, new_size, max_size}

pub ltb-true : (a b : ℕ) → a < b → ltb a b ≡ true
ltb-true a b h = ground arith

pub ltb-false : (a b : ℕ) → b ≤ a → ltb a b ≡ false
ltb-false a b h = ground arith

pow_up : (k d : ℕ) → 2 ^ k ≤ 2 ^ (k + d)
pow_up k zero = let e : k + 0 ≡ k = omega arith in rw e (omega arith)
pow_up k (suc d) =
    let e : k + suc d ≡ suc (k + d) = omega arith in
    rw e (omega (arith, pow_up k d, pow-suc 2 (k + d)))

pub pow_mono : (k n : ℕ) → k ≤ n → 2 ^ k ≤ 2 ^ n
pow_mono k n h = let e : n ≡ k + (n - k) = omega arith in rw e (pow_up k (n - k))

-- From 2 ^ k on, the loop stops at the least power of 2 that is `nel` at least.
abbrev Power : ℕ → ℕ → ℕ → Type 0
Power k nel size =
    (m : ℕ) × (size ≡ 2 ^ m)
    × (nel ≤ 2 ^ m)
    × (k ≤ m)
    × (m ≤ 63)
    × ((j : ℕ) → k ≤ j → j < m → 2 ^ j < nel)

grow-Power :
    (fuel k nel : ℕ) → k ≤ 63 → 63 < k + fuel → nel ≤ max_size → Power k nel (grow fuel (2 ^ k) nel)
unfolding grow
grow-Power zero k nel small enough fits = absurd (omega arith)
grow-Power (suc fuel) k nel small enough fits = elim (dec_lt (2 ^ k) nel) [
  | no large ↦ (
    k,
    rw (ltb-false (2 ^ k) nel (omega (arith, large))) refl,
    omega (arith, large),
    omega arith,
    small,
    λ j above below. absurd (omega arith),
  )
  | yes less ↦ elim (ℕ_discrete k 63) [
    | yes top ↦ absurd (omega (arith, less, fits, ap (λ n. 2 ^ n) top))
    | no other ↦
        let bound = pow_mono (suc k) 63 (omega (arith, other)) in
        let next : (2 ^ k * 2) % size_mod ≡ 2 ^ suc k = omega (arith, pow-suc 2 k, bound) in
        let (m, e, reached, above, inside, least) =
          grow-Power fuel (suc k) nel (omega (arith, other)) (omega arith) fits in
        (
          m,
          rw (ltb-true (2 ^ k) nel less, next) e,
          reached,
          omega arith,
          inside,
          λ j from to. elim (ℕ_discrete j k) [
            | yes first ↦ rw first less
            | no later ↦ least j (omega (arith, later)) to
          ],
        )
  ]
]

-- The size that `resize` computes is the least power of 2 that is large enough.
pub new_size_lem :
    (nel : ℕ)
    → nel ≤ max_size
    → (m : ℕ) × (new_size nel ≡ 2 ^ m)
      × (nel ≤ 2 ^ m)
      × (3 ≤ m)
      × (m ≤ 63)
      × ((j : ℕ) → 3 ≤ j → j < m → 2 ^ j < nel)
unfolding new_size
new_size_lem nel fits =
    let (m, e, reached, above, inside, least) =
      grow-Power 64 3 nel (omega arith) (omega arith) fits in
    (m, rw (ltb-false max_size nel fits) e, reached, above, inside, least)

pub new_size_any :
    (nel : ℕ)
    → (m : ℕ) × (new_size nel ≡ 2 ^ m) × (3 ≤ m) × (m ≤ 63) × (nel ≤ max_size → nel ≤ 2 ^ m)
unfolding new_size
new_size_any nel = elim (dec_lt max_size nel) [
  | yes large ↦
      let (m, e, reached, above, inside, least) =
        grow-Power 64 3 max_size (omega arith) (omega arith) (omega arith) in
      (m, rw (ltb-true max_size nel large) e, above, inside, λ fits. absurd (omega arith))
  | no fits ↦
      let (m, e, reached, above, inside, least) =
        grow-Power 64 3 nel (omega arith) (omega arith) (omega (arith, fits)) in
      (m, rw (ltb-false max_size nel (omega (arith, fits))) e, above, inside, λ in_range. reached)
]
