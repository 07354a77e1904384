-- ===== src/Search/Hash/Triangle.antt =====
-- The steps 1, 2, 3, … from a place meet every place once, where the number of places is a power of 2.
use leblibc.Prelude.{
  ℕ, zero, suc, ◌+◌, ◌-◌, ◌*◌, ◌/◌, ◌%◌, ◌^◌, ◌≤◌, ◌<◌, ◌≡◌, ◌≢◌, sym, ap, ◌∙◌, arith, inl, inr,
  ◌⊎◌,
}
use native.Mathlib.Nat.{
  pow-suc, one-le-pow, mul_assoc, mul_comm, mul-suc, div-add-mod, mul-add, le-div_iff_mul-le,
  div-mul-le_self,
}

-- 1 + 2 + … + n.
unfoldable pub tri : ℕ → ℕ
tri zero = 0
tri (suc n) = tri n + suc n

half_cases : (n : ℕ) → (n ≡ (n / 2) * 2) ⊎ (n ≡ (n / 2) * 2 + 1)
half_cases n = ground arith

double_pow : (k d : ℕ) → 2 ^ suc k * d ≡ 2 ^ k * d * 2
double_pow k d = grind (arith, pow-suc 2 k)

-- A power of 2 that divides a product with an odd number divides the other factor.
odd_factor : (k x y c : ℕ) → x % 2 ≡ 1 → x * y ≡ 2 ^ k * c → (d : ℕ) × (y ≡ 2 ^ k * d)
odd_factor zero x y c odd e = (y, omega arith)
odd_factor (suc k) x y c odd e =
    let h = y / 2 in
    let whole = double_pow k c in
    elim (half_cases y) [
      | inl even ↦
          let product : x * y ≡ (x * h) * 2 = ap (λ t. x * t) even ∙ sym (mul_assoc x h 2) in
          let (d, f) = odd_factor k x h c odd (omega (arith, product, whole, e)) in
          (d, omega (arith, double_pow k d, even, f))
      | inr uneven ↦
          let product : x * y ≡ (x * h) * 2 + x = ap (λ t. x * t) uneven ∙ grind arith in
          absurd (omega (arith, product, whole, e, odd))
    ]

tri-add : (a d : ℕ) → 2 * tri (a + d) ≡ 2 * tri a + d * (2 * a + d + 1)
unfolding tri
tri-add a zero = grind arith
tri-add a (suc d) = grind (arith, tri-add a d)

-- Numbers with the same remainder differ by a multiple.
same_remainder : (n x y : ℕ) → 0 < n → x ≤ y → x % n ≡ y % n → (c : ℕ) × (y ≡ x + n * c)
same_remainder n x y pos le e =
    let below : x / n ≤ y / n =
      (le-div_iff_mul-le pos).1 (omega (arith, div-mul-le_self x n, le)) in
    (
      y / n - x / n,
      grind (arith, div-add-mod x n, div-add-mod y n, mul-add n (x / n) (y / n - x / n)),
    )

tri-le : (a d : ℕ) → tri a ≤ tri (a + d)
tri-le a d = omega (arith, tri-add a d)

-- The place after `n` steps.
abbrev pub place : ℕ → ℕ → ℕ → ℕ
place m h n = (h + tri n) % 2 ^ m

far : (m x y : ℕ) → x ≡ 2 ^ suc m * y → 0 < x → 2 ^ m * 2 ≤ x
far m x zero e lt = absurd (grind arith)
far m x (suc y) e lt = grind (arith, double_pow m (suc y), mul-suc (2 ^ m) y)

-- No place is met twice in as many steps as there are places.
place_apart : (m h a d : ℕ) → a + suc d < 2 ^ m → place m h a ≢ place m h (a + suc d)
place_apart m h a d lt e =
    let (c, f) =
      same_remainder (2 ^ m) (h + tri a) (h + tri (a + suc d)) (omega (arith, one-le-pow m 2))
        (omega (arith, tri-le a (suc d))) e in
    let product : suc d * (2 * a + suc d + 1) ≡ 2 ^ suc m * c =
      omega (arith, tri-add a (suc d), f, double_pow m c) in
    elim (half_cases (suc d)) [
      | inl even ↦
          let swapped = mul_comm (2 * a + suc d + 1) (suc d) ∙ product in
          let (k, g) =
            odd_factor (suc m) (2 * a + suc d + 1) (suc d) c (omega (arith, even)) swapped in
          let much = far m (suc d) k g (omega arith) in omega (arith, much, lt)
      | inr odd ↦
          let (k, g) =
            odd_factor (suc m) (suc d) (2 * a + suc d + 1) c (omega (arith, odd)) product in
          let much = far m (2 * a + suc d + 1) k g (omega arith) in omega (arith, much, lt)
    ]

pub place-ne : (m h a b : ℕ) → a < b → b < 2 ^ m → place m h a ≢ place m h b
place-ne m h a b lt small e =
    let d = b - suc a in
    let sum : b ≡ a + suc d = omega arith in
    place_apart m h a d (omega (arith, sum)) (e ∙ ap (λ t. place m h t) sum)
