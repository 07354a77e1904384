-- ===== src/Prelude/Bits.antt =====
-- Bit operations at variables: `|` of disjoint fields is a sum, `&` with a low mask a remainder.
use Prim.Native.Nat.{
  ℕ, zero, suc, ◌+◌, ◌-◌, ◌*◌, ◌/◌, ◌%◌, ◌^◌, ◌≤◌, ◌<◌, min, max, bit_and, bit_or, digits,
  bit_and-bitwise, bit_or-bitwise, bit_xor, bit_xor-bitwise, differ,
}
use mathlib.Core.Path.{◌≡◌, refl, ap, ◌∙◌}
use mathlib.Core.Bool.{Bool, true, false}
use leblibc.Prelude.Tests.{if◌then◌else◌}
use native.Mathlib.Nat.{pow-suc, one-le-pow, div-div-eq-div-mul, mul_assoc}
use native.Mathlib.Omega.{arith}

-- Does a test hold for the first `count` numbers? A statement about a byte is proved by trying all.
unfoldable pub all_below : ℕ → (ℕ → Bool) → Bool
all_below zero test = true
all_below (suc count) test = if all_below count test then test count else false

pub all_below_sound :
    (count : ℕ) (test : ℕ → Bool) (i : ℕ) → all_below count test ≡ true → i < count → test i ≡ true
unfolding all_below
all_below_sound zero test i passed small = absurd (omega arith)
all_below_sound (suc count) test i passed small =
    let earlier = all_below_sound count test i in ground arith

mod_of_sum : (n q r : ℕ) → r < n → (n * q + r) % n ≡ r
mod_of_sum n q r h = grind arith

-- More fuel than the first argument changes nothing in the recursion on digits.
module _ (last : ℕ → ℕ) (combine : ℕ → ℕ → ℕ) where
  digits-suc :
      (fuel x y : ℕ) → x ≤ fuel → digits last combine (suc fuel) x y ≡ digits last combine fuel x y
  digits-suc zero zero y enough = refl
  digits-suc (suc fuel) zero y enough = refl
  digits-suc zero (suc x) y enough = absurd (omega arith)
  digits-suc (suc fuel) (suc x) y enough = rw (digits-suc fuel (suc x / 2) (y / 2) (omega arith))

  digits-add : (spare x y : ℕ) → digits last combine (spare + x) x y ≡ digits last combine x x y
  digits-add zero x y =
      let none_spare : 0 + x ≡ x = omega arith in
      ap (λ fuel. digits last combine fuel x y) none_spare
  digits-add (suc spare) x y =
      let one_spare : suc spare + x ≡ suc (spare + x) = omega arith in
      ap (λ fuel. digits last combine fuel x y) one_spare
      ∙ digits-suc (spare + x) x y (omega arith)
      ∙ digits-add spare x y

  digits-half :
      (x y : ℕ)
      → digits last combine x (suc x / 2) y ≡ digits last combine (suc x / 2) (suc x / 2) y
  digits-half x y =
      let split : x ≡ (x - suc x / 2) + suc x / 2 = omega arith in
      ap (λ fuel. digits last combine fuel (suc x / 2) y) split
      ∙ digits-add (x - suc x / 2) (suc x / 2) y

pub bit_or_step : (x y : ℕ) → bit_or x y ≡ 2 * bit_or (x / 2) (y / 2) + max (x % 2) (y % 2)
bit_or_step zero y = simp bit_or-bitwise (omega arith)
bit_or_step (suc x) y =
    let half = digits-half (λ rest. rest) max x (y / 2) in
    omega (arith, half, bit_or-bitwise (suc x) y, bit_or-bitwise (suc x / 2) (y / 2))

pub bit_and_step : (x y : ℕ) → bit_and x y ≡ 2 * bit_and (x / 2) (y / 2) + min (x % 2) (y % 2)
bit_and_step zero y = simp bit_and-bitwise (omega arith)
bit_and_step (suc x) y =
    let half = digits-half (λ rest. 0) min x (y / 2) in
    omega (arith, half, bit_and-bitwise (suc x) y, bit_and-bitwise (suc x / 2) (y / 2))

-- With 0 on the right, for all numbers up to a bound.
zero_right : (bound x : ℕ) → x ≤ bound → (bit_or x 0 ≡ x) × (bit_and x 0 ≡ 0)
zero_right bound zero small = (refl, refl)
zero_right zero (suc x) small = absurd (omega arith)
zero_right (suc bound) (suc x) small =
    let half = zero_right bound (suc x / 2) (omega arith) in
    (omega (arith, half.0, bit_or_step (suc x) 0), omega (arith, half.1, bit_and_step (suc x) 0))

-- A number of at most `width` bits is put below another by `|`.
pub bit_or_join :
    (width high low : ℕ) → low < 2 ^ width → bit_or (high * 2 ^ width) low ≡ high * 2 ^ width + low
bit_or_join zero high low small = ground (arith, (zero_right high high (omega arith)).0)
bit_or_join (suc width) high low small =
    let half = bit_or_join width high (low / 2) in
    let power = ap (λ (t : ℕ). high * t) (pow-suc 2 width) in
    ground (arith, half, power, bit_or_step (high * 2 ^ suc width) low)

-- The same with the low part on the left.
pub bit_or_join_low :
    (width high low : ℕ) → low < 2 ^ width → bit_or low (high * 2 ^ width) ≡ high * 2 ^ width + low
bit_or_join_low zero high low small =
    let empty : low ≡ 0 = omega arith in
    ap (λ x. bit_or x (high * 2 ^ 0)) empty ∙ omega (arith, bit_or-bitwise 0 (high * 2 ^ 0))
bit_or_join_low (suc width) high low small =
    let half = bit_or_join_low width high (low / 2) in
    let power = ap (λ (t : ℕ). high * t) (pow-suc 2 width) in
    ground (arith, half, power, bit_or_step low (high * 2 ^ suc width))

-- A number and two bytes side by side.
pub bit_or_join_three :
    (a b c : ℕ)
    → b < 256
    → c < 256
    → bit_or (bit_or (a * 2 ^ 16) (b * 2 ^ 8)) c ≡ a * 65536 + b * 256 + c
bit_or_join_three a b c hb hc =
    let high : a * 2 ^ 16 + b * 2 ^ 8 ≡ (a * 256 + b) * 2 ^ 8 = omega arith in
    ap (λ x. bit_or x c) (bit_or_join 16 a (b * 2 ^ 8) (omega arith) ∙ high)
    ∙ bit_or_join 8 (a * 256 + b) c (omega arith)
    ∙ omega arith

mod_double : (m a : ℕ) → 0 < m → a % (2 * m) ≡ a / 2 % m * 2 + a % 2
mod_double m a h = grind (arith, mod_of_sum (2 * m) (a / 2 / m) (a / 2 % m * 2 + a % 2))

-- `a & (2 ^ k - 1)` is the remainder by `2 ^ k`.
pub bit_and_low : (k a : ℕ) → bit_and a (2 ^ k - 1) ≡ a % 2 ^ k
bit_and_low zero a = (zero_right a a (omega arith)).1 ∙ omega arith
bit_and_low (suc k) a = ground (
  arith,
  bit_and_step a (2 ^ suc k - 1),
  pow-suc 2 k,
  one-le-pow k 2,
  mod_double (2 ^ k) a,
  bit_and_low k (a / 2),
)

bit_and-zero : (a : ℕ) → bit_and a 0 ≡ 0
bit_and-zero a = (zero_right a a (omega arith)).1

-- `a & 2 ^ k` keeps one bit.
pub bit_and_bit : (k a : ℕ) → bit_and a (2 ^ k) ≡ a / 2 ^ k % 2 * 2 ^ k
bit_and_bit zero a = omega (arith, bit_and_step a 1, bit_and-zero (a / 2))
bit_and_bit (suc k) a = ground (
  arith,
  bit_and_step a (2 ^ suc k),
  pow-suc 2 k,
  bit_and_bit k (a / 2),
  div-div-eq-div-mul a 2 (2 ^ k),
  mul_assoc (a / 2 / 2 ^ k % 2) (2 ^ k) 2,
)

pub bit_xor_step : (x y : ℕ) → bit_xor x y ≡ 2 * bit_xor (x / 2) (y / 2) + differ (x % 2) (y % 2)
bit_xor_step zero y = simp bit_xor-bitwise (omega arith)
bit_xor_step (suc x) y =
    let half = digits-half (λ rest. rest) differ x (y / 2) in
    omega (arith, half, bit_xor-bitwise (suc x) y, bit_xor-bitwise (suc x / 2) (y / 2))

differ_lt : (a b : ℕ) → a < 2 → b < 2 → differ a b < 2
differ_lt zero b h k = k
differ_lt (suc a) zero h k = h
differ_lt (suc zero) (suc zero) h k = omega arith
differ_lt (suc zero) (suc (suc b)) h k = absurd (omega arith)
differ_lt (suc (suc a)) (suc b) h k = absurd (omega arith)

-- `^` of two numbers of `width` bits has at most `width` bits.
pub bit_xor_lt : (width x y : ℕ) → x < 2 ^ width → y < 2 ^ width → bit_xor x y < 2 ^ width
bit_xor_lt zero x y h k =
    let x_zero : x ≡ 0 = omega arith in
    let y_zero : y ≡ 0 = omega arith in rw (x_zero, y_zero) (omega (arith, bit_xor-bitwise 0 0))
bit_xor_lt (suc width) x y h k =
    let half = bit_xor_lt width (x / 2) (y / 2) in
    ground (arith, half, pow-suc 2 width, bit_xor_step x y, differ_lt (x % 2) (y % 2))

pub bit_and_lt : (width x y : ℕ) → x < 2 ^ width → bit_and x y < 2 ^ width
bit_and_lt zero x y h =
    let x_zero : x ≡ 0 = omega arith in rw x_zero (omega (arith, bit_and-bitwise 0 y))
bit_and_lt (suc width) x y h =
    let half = bit_and_lt width (x / 2) (y / 2) in
    ground (arith, half, pow-suc 2 width, bit_and_step x y)
