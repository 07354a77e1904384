-- ===== src/Prelude/Int.antt =====
-- C's `int` and `long long` as signed integers over the native numbers.
use Prim.Native.Nat.{ℕ, suc, ◌+◌, ◌-◌, ◌*◌, ◌/◌, ◌%◌, ◌≤◌, ◌<◌}
use mathlib.Core.Path.{◌≡◌, refl}
use mathlib.Core.Logic.{◌⊎◌, inl, inr}
use mathlib.Core.Bool.{Bool, true, false}
use native.Mathlib.Omega.{arith}
use leblibc.Prelude.Tests.{ltb, leb, if◌then◌else◌}

-- `negsuc n` is -(n + 1).
pub data ℤ : Type 0 where
  pos : ℕ → ℤ
  negsuc : ℕ → ℤ

abbrev pub pos_part : ℤ → ℕ
pos_part (pos n) = n
pos_part (negsuc n) = 0

abbrev pub neg_part : ℤ → ℕ
neg_part (pos n) = 0
neg_part (negsuc n) = suc n

-- a - b, as an integer.
abbrev pub sub_ℕ : ℕ → ℕ → ℤ
sub_ℕ a b = if leb b a then pos (a - b) else negsuc (b - a - 1)

infixl 65 ◌+ℤ◌ ◌-ℤ◌
infixl 70 ◌*ℤ◌ ◌/ℤ◌ ◌%ℤ◌
infix 50 ◌≤ℤ◌
unfoldable pub ◌+ℤ◌ : ℤ → ℤ → ℤ
a +ℤ b = sub_ℕ (pos_part a + pos_part b) (neg_part a + neg_part b)

unfoldable pub ◌-ℤ◌ : ℤ → ℤ → ℤ
a -ℤ b = sub_ℕ (pos_part a + neg_part b) (neg_part a + pos_part b)

-- Multiplication by a constant that is not negative.
unfoldable pub ◌*ℤ◌ : ℤ → ℕ → ℤ
a *ℤ n = sub_ℕ (pos_part a * n) (neg_part a * n)

-- The negative of a number.
abbrev pub negate : ℕ → ℤ
negate n = sub_ℕ 0 n

-- C's division truncates toward zero, and the remainder has the dividend's sign.
unfoldable pub ◌/ℤ◌ : ℤ → ℕ → ℤ
pos n /ℤ d = pos (n / d)
negsuc n /ℤ d = negate (suc n / d)

unfoldable pub ◌%ℤ◌ : ℤ → ℕ → ℤ
pos n %ℤ d = pos (n % d)
negsuc n %ℤ d = negate (suc n % d)

abbrev pub ◌≤ℤ◌ : ℤ → ℤ → Type 0
a ≤ℤ b = pos_part a + neg_part b ≤ pos_part b + neg_part a

abbrev pub ltb_ℤ : ℤ → ℤ → Bool
ltb_ℤ a b = ltb (pos_part a + neg_part b) (pos_part b + neg_part a)

abbrev pub is_negative : ℤ → Bool
is_negative (pos n) = false
is_negative (negsuc n) = true

pub eq_of_parts : (a b : ℤ) → pos_part a + neg_part b ≡ pos_part b + neg_part a → a ≡ b
eq_of_parts a b h = ground arith

-- One law for each operation lets `omega` work through the two parts of an integer.
pub +ℤ_parts :
    (a b : ℤ)
    → pos_part (a +ℤ b) + neg_part a + neg_part b ≡ neg_part (a +ℤ b) + pos_part a + pos_part b
unfolding ◌+ℤ◌
+ℤ_parts a b = ground arith

pub -ℤ_parts :
    (a b : ℤ)
    → pos_part (a -ℤ b) + neg_part a + pos_part b ≡ neg_part (a -ℤ b) + pos_part a + neg_part b
unfolding ◌-ℤ◌
-ℤ_parts a b = ground arith

pub *ℤ_parts :
    (a : ℤ) (n : ℕ) → pos_part (a *ℤ n) + neg_part a * n ≡ neg_part (a *ℤ n) + pos_part a * n
unfolding ◌*ℤ◌
*ℤ_parts a n = ground arith

pub pos_part-div : (a : ℤ) (d : ℕ) → pos_part (a /ℤ d) ≡ pos_part a / d
unfolding ◌/ℤ◌
pos_part-div (pos n) d = refl
pos_part-div (negsuc n) d = ground arith

pub neg_part-div : (a : ℤ) (d : ℕ) → neg_part (a /ℤ d) ≡ neg_part a / d
unfolding ◌/ℤ◌
neg_part-div (pos n) d = omega arith
neg_part-div (negsuc n) d = ground arith

pub pos_part-mod : (a : ℤ) (d : ℕ) → pos_part (a %ℤ d) ≡ pos_part a % d
unfolding ◌%ℤ◌
pos_part-mod (pos n) d = refl
pos_part-mod (negsuc n) d = ground arith

pub neg_part-mod : (a : ℤ) (d : ℕ) → neg_part (a %ℤ d) ≡ neg_part a % d
unfolding ◌%ℤ◌
neg_part-mod (pos n) d = omega arith
neg_part-mod (negsuc n) d = ground arith

-- A value that an `int` receives: the low 32 bits, in two's complement.
unfoldable pub to_int : ℤ → ℤ
to_int a =
    let n = (pos_part a + (4294967296 - neg_part a % 4294967296)) % 4294967296 in
    if ltb n 2147483648 then pos n else negsuc (4294967295 - n)

abbrev pub IsInt : ℤ → Type 0
IsInt a = (pos_part a < 2147483648) × (neg_part a ≤ 2147483648)

-- What fits is kept.
pub to_int-IsInt : (a : ℤ) → IsInt a → to_int a ≡ a
unfolding to_int
to_int-IsInt (pos n) h = ground arith
to_int-IsInt (negsuc n) h = ground arith

-- At most one of the two parts is not zero.
pub one_part : (a : ℤ) → (pos_part a ≡ 0) ⊎ (neg_part a ≡ 0)
one_part (pos n) = inr refl
one_part (negsuc n) = inl refl

-- The sign test, by the parts.
pub negative_parts : (a : ℤ) → is_negative a ≡ ltb (pos_part a) (neg_part a)
negative_parts (pos n) = ground arith
negative_parts (negsuc n) = ground arith

pub ruleset int_laws = (
  arith, +ℤ_parts, -ℤ_parts, *ℤ_parts, pos_part-div, neg_part-div, pos_part-mod, neg_part-mod,
  eq_of_parts,
)
