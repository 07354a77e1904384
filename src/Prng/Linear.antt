-- ===== src/Prng/Linear.antt =====
-- The generators of one word: `rand.c`, `rand_r.c`, and `__rand48_step.c` with the functions over it
-- that return integers (`lrand48.c`, `mrand48.c`, `seed48.c`, `srand48.c`, `lcong48.c`).
pub mod Steps
mod Examples
use leblibc.Prelude.{ℕ, ◌+◌, ◌-◌, ◌*◌, ◌/◌, ◌%◌, ◌^◌, ltb, if◌then◌else◌, bit_or, bit_and, bit_xor}
use leblibc.Prelude.Int.{ℤ, pos, negsuc}

-- `srand`: the new seed; `s - 1` wraps as an unsigned int.
unfoldable pub srand : ℕ → ℕ
srand s = (s + (2 ^ 32 - 1)) % 2 ^ 32

-- `rand`: the number, and the seed behind it.
unfoldable pub rand : ℕ → ℕ × ℕ
rand seed = let seed' = (6364136223846793005 * seed + 1) % 2 ^ 64 in (seed' / 2 ^ 33, seed')

unfoldable pub temper : ℕ → ℕ
temper x =
    let a = bit_xor x (x / 2 ^ 11) in
    let b = bit_xor a (bit_and (a * 2 ^ 7 % 2 ^ 32) 0x9D2C5680) in
    let c = bit_xor b (bit_and (b * 2 ^ 15 % 2 ^ 32) 0xEFC60000) in bit_xor c (c / 2 ^ 18)

unfoldable pub rand_r : ℕ → ℕ × ℕ
unfolding temper
rand_r seed = let seed' = (seed * 1103515245 + 12345) % 2 ^ 32 in (temper seed' / 2, seed')

-- Three unsigned shorts, the lowest first.
pub record Shorts : Type 0 where
  pub s0 : ℕ
  pub s1 : ℕ
  pub s2 : ℕ

-- `lc`: the multiplier, and the number that is added.
pub record Params : Type 0 where
  pub mul : Shorts
  pub add : ℕ

-- `__seed48`, and the static `p` of `seed48`.
pub record Seed : Type 0 where
  pub xi : Shorts
  pub lc : Params
  pub p : Shorts

abbrev pub seed_start : Seed
seed_start = record {
  xi = record { s0 = 0; s1 = 0; s2 = 0 };
  lc = record { mul = record { s0 = 0xe66d; s1 = 0xdeec; s2 = 0x5 }; add = 0xb };
  p = record { s0 = 0; s1 = 0; s2 = 0 };
}

unfoldable pub pack : Shorts → ℕ
pack s = bit_or (bit_or s.s0 (s.s1 * 2 ^ 16)) (s.s2 * 2 ^ 32)

-- The number, and `xi` afterwards.
unfoldable pub rand48_step : Shorts → Params → ℕ × Shorts
unfolding pack
rand48_step xi lc =
    let x = (pack lc.mul * pack xi + lc.add) % 2 ^ 64 in
    (
      bit_and x 0xffffffffffff,
      record { s0 = x % 2 ^ 16; s1 = x / 2 ^ 16 % 2 ^ 16; s2 = x / 2 ^ 32 % 2 ^ 16 },
    )

-- `nrand48` and `jrand48` read the parameters that are in `__seed48`.
unfoldable pub nrand48 : Shorts → Params → ℕ × Shorts
unfolding rand48_step
nrand48 s lc = let (x, s') = rand48_step s lc in (x / 2 ^ 17, s')

-- The conversion to `int32_t`.
unfoldable pub to_int32 : ℕ → ℤ
to_int32 w = if ltb w (2 ^ 31) then pos w else negsuc (2 ^ 32 - 1 - w)

unfoldable pub jrand48 : Shorts → Params → ℤ × Shorts
unfolding rand48_step to_int32
jrand48 s lc = let (x, s') = rand48_step s lc in (to_int32 (x / 2 ^ 16 % 2 ^ 32), s')

unfoldable pub lrand48 : Seed → ℕ × Seed
unfolding nrand48
lrand48 g = let (k, s) = nrand48 g.xi g.lc in (k, record g { xi = s })

unfoldable pub mrand48 : Seed → ℤ × Seed
unfolding jrand48
mrand48 g = let (k, s) = jrand48 g.xi g.lc in (k, record g { xi = s })

-- An argument of `seed48`: an array of the caller's, or the static `p` that an earlier call returned.
pub data Given : Type 0 where
  own : Shorts → Given
  returned : Given

-- `p` is filled first, so that the second copy reads it as it is then.
unfoldable pub seed48 : Given → Seed → Seed
seed48 (own s) g = record g { p = g.xi; xi = s }
seed48 returned g = let filled : Seed = record g { p = g.xi } in record filled { xi = filled.p }

-- The low 32 bits of the seed count, so that it is given by a natural number.
unfoldable pub srand48 : ℕ → Seed → Seed
unfolding seed48
srand48 seed g =
    seed48 (own (record { s0 = 0x330e; s1 = seed % 2 ^ 16; s2 = seed / 2 ^ 16 % 2 ^ 16 })) g

unfoldable pub lcong48 : Shorts → Params → Seed → Seed
lcong48 s lc g = record g { xi = s; lc = lc }
