-- ===== src/Prng/Linear/Examples.antt =====
-- The first numbers of the generators, and the theorems at small states.
use leblibc.Prelude.{◌*◌, ◌+◌, ◌%◌, ◌^◌, ◌≡◌, refl, arith}
use leblibc.Prng.Linear.{Shorts, pack, seed_start, srand48, lrand48, nrand48, rand48_step, seed48}
use leblibc.Prng.Linear.Steps.{value, AreShorts, rand48_step_lem}

-- `srand48(1)`, and the number that POSIX makes of it.
lrand48_first : (lrand48 (srand48 1 seed_start)).0 ≡ 89400484
unfolding lrand48 srand48 seed48 nrand48 rand48_step pack
lrand48_first = refl

abbrev some_shorts : Shorts
some_shorts = record { s0 = 0x330e; s1 = 1; s2 = 0 }

rand48_step_lem_example :
    ((rand48_step some_shorts seed_start.lc).0
      ≡ (value seed_start.lc.mul * value some_shorts + 0xb) % 2 ^ 48)
    × (value (rand48_step some_shorts seed_start.lc).1
        ≡ (value seed_start.lc.mul * value some_shorts + 0xb) % 2 ^ 48)
    × AreShorts (rand48_step some_shorts seed_start.lc).1
rand48_step_lem_example =
    rand48_step_lem some_shorts seed_start.lc (omega arith, omega arith, omega arith)
      (omega arith, omega arith, omega arith)
