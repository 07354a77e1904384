-- ===== src/Multibyte/Table.antt =====
-- What the packed states mean: the range that each one allows for the next byte, and the states
-- that the lead bytes start. The tables are checked by evaluation at every value.
use leblibc.Prelude.{
  ℕ, ◌+◌, ◌-◌, ◌/◌, ◌^◌, ◌≤◌, ◌<◌, ◌≡◌, refl, Bool, true, false, not, ltb, leb, ◌==◌, ==_iff,
  if◌then◌else◌, get_or, arith, ◌⊎◌, inl, inr,
}
use leblibc.Prelude.Bits.{all_below, all_below_sound}
use leblibc.Multibyte.{bittab, oob_top, oob, not_continuation}

abbrev same_test : Bool → Bool → Bool
same_test true b = b
same_test false b = not b

same_test_sound : (a b : Bool) → same_test a b ≡ true → a ≡ b
same_test_sound true b h = ground arith
same_test_sound false b h = ground arith

-- The range of the state whose six highest bits are `t`, for the five values that occur.
abbrev pub outside : ℕ → ℕ → ℕ → Bool
outside lo hi b = if leb lo b then not (ltb b hi) else true

oob_table : ℕ → ℕ → ℕ → Bool
oob_table t lo hi = all_below 256 (λ b. same_test (oob_top t b) (outside lo hi b))

oob_outside : (t lo hi b : ℕ) → oob_table t lo hi ≡ true → b < 256 → oob_top t b ≡ outside lo hi b
unfolding oob_table
oob_outside t lo hi b h lt = same_test_sound _ _ (all_below_sound 256 _ b h lt)

any_continuation : oob_table 48 0x80 0xc0 ≡ true
unfolding oob_table all_below oob_top
any_continuation = refl

after_e0 : oob_table 44 0xa0 0xc0 ≡ true
unfolding oob_table all_below oob_top
after_e0 = refl

after_ed : oob_table 52 0x80 0xa0 ≡ true
unfolding oob_table all_below oob_top
after_ed = refl

after_f0 : oob_table 46 0x90 0xc0 ≡ true
unfolding oob_table all_below oob_top
after_f0 = refl

after_f4 : oob_table 54 0x80 0x90 ≡ true
unfolding oob_table all_below oob_top
after_f4 = refl

-- The high bits of a state and the range that they allow.
abbrev pub Allows : ℕ → ℕ → ℕ → Type 0
Allows t lo hi =
    ((t ≡ 48) × (lo ≡ 0x80) × (hi ≡ 0xc0))
    ⊎ ((t ≡ 44) × (lo ≡ 0xa0) × (hi ≡ 0xc0))
    ⊎ ((t ≡ 52) × (lo ≡ 0x80) × (hi ≡ 0xa0))
    ⊎ ((t ≡ 46) × (lo ≡ 0x90) × (hi ≡ 0xc0))
    ⊎ ((t ≡ 54) × (lo ≡ 0x80) × (hi ≡ 0x90))

-- The start states, by arithmetic: 0xc0000000 and its variants are the packed ranges, 0x03000000
-- and 0x000c0000 stand for one and two more bytes to come.
abbrev pub start_state : ℕ → ℕ
start_state b =
    if ltb b 0xe0
    then 0xc000_0000 + (b - 0xc0)
    else if ltb b 0xf0
    then (if b == 0xe0 then 0xb000_0000 else if b == 0xed then 0xd000_0000 else 0xc000_0000)
      + 0x0300_0000
      + (b - 0xe0)
    else (if b == 0xf0 then 0xb800_0000 else if b == 0xf4 then 0xd800_0000 else 0xc000_0000)
      + 0x0300_0000
      + 0x000c_0000
      + (b - 0xf0)

start_table : all_below 51 (λ i. get_or bittab i 0 == start_state (i + 0xc2)) ≡ true
unfolding all_below bittab
start_table = refl

pub bittab_start : (b : ℕ) → 0xc2 ≤ b → b ≤ 0xf4 → get_or bittab (b - 0xc2) 0 ≡ start_state b
bittab_start b lo hi =
    let e : b - 0xc2 + 0xc2 ≡ b = omega arith in
    let h = (==_iff _ _).0 (all_below_sound 51 _ (b - 0xc2) start_table (omega arith)) in rw e at h

-- The test after a lead byte, and after any later byte of an unfinished character.
pub oob_state : (c lo hi b : ℕ) → Allows (c / 2 ^ 26) lo hi → b < 256 → oob c b ≡ outside lo hi b
oob_state c lo hi b (inl (e, f, g)) lt =
    rw (e, f, g) (oob_outside 48 0x80 0xc0 b any_continuation lt)
oob_state c lo hi b (inr (inl (e, f, g))) lt = rw (e, f, g) (oob_outside 44 0xa0 0xc0 b after_e0 lt)
oob_state c lo hi b (inr (inr (inl (e, f, g)))) lt =
    rw (e, f, g) (oob_outside 52 0x80 0xa0 b after_ed lt)
oob_state c lo hi b (inr (inr (inr (inl (e, f, g))))) lt =
    rw (e, f, g) (oob_outside 46 0x90 0xc0 b after_f0 lt)
oob_state c lo hi b (inr (inr (inr (inr (e, f, g))))) lt =
    rw (e, f, g) (oob_outside 54 0x80 0x90 b after_f4 lt)

pub not_continuation-outside : (b : ℕ) → b < 256 → not_continuation b ≡ outside 0x80 0xc0 b
not_continuation-outside b lt = ground arith
