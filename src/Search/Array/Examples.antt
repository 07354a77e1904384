-- ===== src/Search/Array/Examples.antt =====
-- Searches in a small array, and the theorems about them.
use leblibc.Prelude.{ℕ, suc, zero, ◌<◌, ◌≤◌, List, [], ◌∷◌, some, ◌≡◌, refl, arith, length}
use leblibc.Search.Order.{same, below, above, number_order}
use leblibc.Search.Array.{bsearch}
use leblibc.Search.Array.Binary.{Compares, IsSplit, IsAnswer, bsearch_returns, bsearch_finds}

abbrev squares : List ℕ
squares = 9 ∷ 16 ∷ 25 ∷ []

bsearch-squares : bsearch number_order 16 squares ≡ some (some 1)
unfolding bsearch
bsearch-squares = refl

after_key :
    (i j : ℕ)
    → i ≤ j
    → j < length squares
    → Compares number_order 16 squares i below
    → Compares number_order 16 squares j below
after_key zero j le lt (x, e, s) = absurd (ground arith)
after_key (suc zero) j le lt (x, e, s) = absurd (ground arith)
after_key (suc (suc i)) zero le lt c = absurd (omega arith)
after_key (suc (suc i)) (suc zero) le lt c = absurd (omega arith)
after_key (suc (suc i)) (suc (suc zero)) le lt c = (25, refl, refl)
after_key (suc (suc i)) (suc (suc (suc j))) le lt c = absurd (omega arith)

before_key :
    (i j : ℕ)
    → i ≤ j
    → Compares number_order 16 squares j above
    → Compares number_order 16 squares i above
before_key zero j le c = (9, refl, refl)
before_key (suc i) zero le c = absurd (omega arith)
before_key (suc i) (suc zero) le (x, e, s) = absurd (ground arith)
before_key (suc i) (suc (suc zero)) le (x, e, s) = absurd (ground arith)
before_key (suc i) (suc (suc (suc j))) le (x, e, s) = absurd (ground arith)

squares-IsSplit : IsSplit number_order 16 squares
squares-IsSplit = record { still_below = after_key; still_above = before_key }

bsearch_returns_example : IsAnswer number_order 5 squares (bsearch number_order 5 squares)
bsearch_returns_example = bsearch_returns number_order 5 squares

bsearch_finds_example :
    (j : ℕ) × (bsearch number_order 16 squares ≡ some (some j))
    × Compares number_order 16 squares j same
bsearch_finds_example = bsearch_finds number_order 16 squares 1 squares-IsSplit (16, refl, refl)
