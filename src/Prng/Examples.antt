-- ===== src/Prng/Examples.antt =====
-- The state at the start of a program, and a program that leaves it and comes back.
use leblibc.Prelude.{ℕ, ◌≡◌, refl, List, [], ◌∷◌, some, ◌==◌, if◌then◌else◌, arith, ◌>>=◌, inr}
use leblibc.Prelude.Slices.{replicate}
use leblibc.Prng.{
  Random, init_words, initial, srandom, seed_loop, lcg64, put, read, set_words, put_buffer,
  set_elem?, current, initstate, setstate,
}
use leblibc.Prng.View.{numbers}
use leblibc.Prng.Bounds.{IsReady, Keeps}
use leblibc.Prng.Switch.{draw_number, reseed, run, Op, run-IsReady, setstate_resumes}

-- The table is what the seed 1 gives.
init_words_seed_1 : (srandom 1 initial >>= λ r. some (current r)) ≡ some init_words
unfolding srandom seed_loop lcg64 put read set_words put_buffer set_elem? current
init_words_seed_1 = refl

-- An array of 64 bytes at the address 1.
abbrev before : Random
before = record initial {
  store = λ a. if a == 1 then record { header = 0; words = replicate 15 0 } else initial.store a;
}

abbrev program : List Op
program = draw_number ∷ reseed 7 ∷ draw_number ∷ []

before-IsReady : IsReady before
unfolding current
before-IsReady = (
  omega arith,
  omega arith,
  omega arith,
  omega arith,
  omega arith,
  inr (omega arith, omega arith, omega arith),
)

run-IsReady_example : (r : Random) × (run program before ≡ some r) × IsReady r × Keeps before r
run-IsReady_example = run-IsReady program before before-IsReady

setstate_resumes_example :
    (r' r'' : Random) × (initstate 5 1 64 before ≡ some (some 0, r'))
    × (run program r' ≡ some r'')
    × ((setstate 0 r'').0 ≡ 1)
    × ((m : ℕ) → numbers m (setstate 0 r'').1 ≡ numbers m before)
unfolding replicate
setstate_resumes_example =
    setstate_resumes 5 1 64 program before before-IsReady (λ e. ground arith) (omega arith)
      (omega arith)
