-- ===== src/Search/Order.antt =====
-- The comparison that the callers of `tsearch`, `bsearch` and `lsearch` pass: a function into the
-- three signs of an `int`. Keys that compare equal need not be equal.
use Prim.Native.Nat.Ordering.{lt, eq, gt}
use leblibc.Prelude.{◌≡◌, refl, arith, ℕ, compare, ◌⊎◌, inl, inr}

pub data Sign : Type 0 where
  below same above : Sign

pub Sign-cases : (s : Sign) → (s ≡ below) ⊎ (s ≡ same) ⊎ (s ≡ above)
Sign-cases below = inl refl
Sign-cases same = inr (inl refl)
Sign-cases above = inr (inr refl)

-- What POSIX asks of the comparison: a consistent order, up to keys that compare equal.
pub record IsConsistent {K : Type 0} (cmp : K → K → Sign) : Type 0 where
  pub cmp_self : (a : K) → cmp a a ≡ same
  pub below_of_above : (a b : K) → cmp a b ≡ above → cmp b a ≡ below
  pub above_of_below : (a b : K) → cmp a b ≡ below → cmp b a ≡ above
  pub same_of_same : (a b : K) → cmp a b ≡ same → cmp b a ≡ same
  pub below_trans : (a b c : K) → cmp a b ≡ below → cmp b c ≡ below → cmp a c ≡ below
  pub below_same : (a b c : K) → cmp a b ≡ below → cmp b c ≡ same → cmp a c ≡ below
  pub same_below : (a b c : K) → cmp a b ≡ same → cmp b c ≡ below → cmp a c ≡ below

pub record Comparison (K : Type 0) : Type 0 where
  pub cmp : K → K → Sign
  pub consistent : IsConsistent cmp
  pub open consistent use *

-- Comparison of numbers.
abbrev pub cmp_ℕ : ℕ → ℕ → Sign
cmp_ℕ a b = elim (compare a b) [ lt ↦ below | eq ↦ same | gt ↦ above ]

pub cmp_ℕ-IsConsistent : IsConsistent cmp_ℕ
cmp_ℕ-IsConsistent = ground arith

abbrev pub number_order : Comparison ℕ
number_order = record { cmp = cmp_ℕ; consistent = cmp_ℕ-IsConsistent }
