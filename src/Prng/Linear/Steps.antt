-- ===== src/Prng/Linear/Steps.antt =====
-- What one step of each generator computes, and the range of its results.
use leblibc.Prelude.{
  ℕ, ◌+◌, ◌*◌, ◌/◌, ◌%◌, ◌^◌, ◌<◌, ◌≡◌, refl, ◌∙◌, bit_or, bit_and, bit_xor, arith, List, [], ◌∷◌,
  Bool, true, false,
}
use leblibc.Prelude.Bits.{bit_or_join_low, bit_and_low, bit_xor_lt, bit_and_lt}
use leblibc.Prelude.Int.{ℤ, pos, negsuc}
use leblibc.Prng.Linear.{
  seed48, own, returned, rand, temper, rand_r, Shorts, Params, Seed, pack, rand48_step, nrand48,
  jrand48, to_int32, lrand48, mrand48,
}

-- Unsigned shorts.
abbrev pub AreShorts : Shorts → Type 0
AreShorts s = (s.s0 < 2 ^ 16) × (s.s1 < 2 ^ 16) × (s.s2 < 2 ^ 16)

-- The number that three shorts stand for.
abbrev pub value : Shorts → ℕ
value s = s.s0 + s.s1 * 65536 + s.s2 * 4294967296

pack_lem : (s : Shorts) → AreShorts s → pack s ≡ value s
unfolding pack
pack_lem s h =
    let low : bit_or s.s0 (s.s1 * 2 ^ 16) ≡ s.s1 * 2 ^ 16 + s.s0 =
      bit_or_join_low 16 s.s1 s.s0 h.0 in
    rw low (bit_or_join_low 32 s.s2 (s.s1 * 2 ^ 16 + s.s0) (omega (arith, h)) ∙ omega arith)

low48 : (y : ℕ) → bit_and (y % 2 ^ 64) 0xffffffffffff ≡ y % 2 ^ 48
low48 y = bit_and_low 48 (y % 2 ^ 64) ∙ omega arith

stored48 :
    (y : ℕ)
    → let s : Shorts = record {
      s0 = y % 2 ^ 64 % 2 ^ 16;
      s1 = y % 2 ^ 64 / 2 ^ 16 % 2 ^ 16;
      s2 = y % 2 ^ 64 / 2 ^ 32 % 2 ^ 16;
    } in
      (value s ≡ y % 2 ^ 48) × AreShorts s
stored48 y = (omega arith, (omega arith, omega arith, omega arith))

-- A step of rand48 multiplies and adds modulo 2 ^ 48, although it computes with 64 bits: the number
-- that it returns is that one, and what it stores, in three unsigned shorts, stands for it.
pub rand48_step_lem :
    (xi : Shorts) (lc : Params)
    → AreShorts xi
    → AreShorts lc.mul
    → ((rand48_step xi lc).0 ≡ (value lc.mul * value xi + lc.add) % 2 ^ 48)
      × (value (rand48_step xi lc).1 ≡ (value lc.mul * value xi + lc.add) % 2 ^ 48)
      × AreShorts (rand48_step xi lc).1
unfolding rand48_step
rand48_step_lem xi lc h k =
    let y = value lc.mul * value xi + lc.add in
    rw (pack_lem xi h, pack_lem lc.mul k) (low48 y, (stored48 y).0, (stored48 y).1)

temper_lt : (x : ℕ) → x < 2 ^ 32 → temper x < 2 ^ 32
unfolding temper
temper_lt x h =
    let a = bit_xor x (x / 2 ^ 11) in
    let ha = bit_xor_lt 32 x (x / 2 ^ 11) h (omega (arith, h)) in
    let b = bit_xor a (bit_and (a * 2 ^ 7 % 2 ^ 32) 0x9D2C5680) in
    let hb =
      bit_xor_lt 32 a (bit_and (a * 2 ^ 7 % 2 ^ 32) 0x9D2C5680) ha
        (bit_and_lt 32 (a * 2 ^ 7 % 2 ^ 32) 0x9D2C5680 (omega arith)) in
    let c = bit_xor b (bit_and (b * 2 ^ 15 % 2 ^ 32) 0xEFC60000) in
    let hc =
      bit_xor_lt 32 b (bit_and (b * 2 ^ 15 % 2 ^ 32) 0xEFC60000) hb
        (bit_and_lt 32 (b * 2 ^ 15 % 2 ^ 32) 0xEFC60000 (omega arith)) in
    bit_xor_lt 32 c (c / 2 ^ 18) hc (omega (arith, hc))

-- An `int`.
abbrev pub IsInt : ℤ → Type 0
IsInt (pos n) = n < 2 ^ 31
IsInt (negsuc n) = n < 2 ^ 31

to_int32-IsInt : (w : ℕ) → w < 2 ^ 32 → IsInt (to_int32 w)
unfolding to_int32
to_int32-IsInt w h = ground arith

-- Whatever the seeds are, rand, rand_r and nrand48 return numbers from 0 up to 2 ^ 31 - 1, and jrand48
-- numbers from - 2 ^ 31 up to 2 ^ 31 - 1.
pub ranges :
    (seed : ℕ) (xi : Shorts) (lc : Params)
    → ((rand seed).0 < 2 ^ 31)
      × ((rand_r seed).0 < 2 ^ 31)
      × ((nrand48 xi lc).0 < 2 ^ 31)
      × IsInt (jrand48 xi lc).0
unfolding rand rand_r nrand48 jrand48 rand48_step
ranges seed xi lc =
    let y = pack lc.mul * pack xi + lc.add in
    let t = temper_lt ((seed * 1103515245 + 12345) % 2 ^ 32) (omega arith) in
    (
      omega arith,
      omega (arith, t),
      omega (arith, low48 y),
      to_int32-IsInt (bit_and (y % 2 ^ 64) 0xffffffffffff / 2 ^ 16 % 2 ^ 32) (omega arith),
    )

-- Calls of lrand48 where the list says true, and of mrand48 where it says false.
unfoldable pub run48 : List Bool → Seed → Seed
unfolding lrand48 mrand48
run48 [] g = g
run48 (true ∷ calls) g = run48 calls (lrand48 g).1
run48 (false ∷ calls) g = run48 calls (mrand48 g).1

run48-rest :
    (calls : List Bool) (g : Seed) → ((run48 calls g).lc ≡ g.lc) × ((run48 calls g).p ≡ g.p)
unfolding run48 lrand48 mrand48
run48-rest [] g = (refl, refl)
run48-rest (true ∷ calls) g = run48-rest calls (lrand48 g).1
run48-rest (false ∷ calls) g = run48-rest calls (mrand48 g).1

-- The buffer that seed48 returns holds the earlier numbers however many are drawn meanwhile, and a
-- copy of it, given to seed48, brings them back; the buffer itself, given to seed48, changes no
-- number of the generator, because it is overwritten before it is read.
pub seed48_restores :
    (s : Shorts) (calls : List Bool) (g : Seed)
    → let later = run48 calls (seed48 (own s) g) in
      (later.p ≡ g.xi)
      × ((seed48 (own later.p) later).xi ≡ g.xi)
      × ((seed48 (own later.p) later).lc ≡ g.lc)
      × ((seed48 returned later).xi ≡ later.xi)
unfolding seed48
seed48_restores s calls g = let (lc, p) = run48-rest calls (seed48 (own s) g) in (p, p, lc, refl)
