-- ===== src/Thread/Lock/Progress.antt =====
-- A thread that is not disturbed comes to the end of the loops of `__lock`.
use leblibc.Prelude.{ℕ, zero, suc, ◌+◌, ◌≤◌, ◌<◌, ◌≡◌, ◌≢◌, refl, arith}
use native.Mathlib.Decide.{ℕ_discrete}
use leblibc.Thread.Lock.{
  Pc, idle, spin, waiting, asleep, trying, holding, unlocking, waking, int_min, expected, wrap,
  Move, take, busy, spin_take, spin_fail, enlist, no_sleep, spurious, try_take, try_fail,
}

-- Steps of one thread alone.
pub data Moves : ℕ → Pc → ℕ → Pc → Type 0 where
  stay : {l : ℕ} {p : Pc} → Moves l p l p
  step : {l k l' : ℕ} {p q p' : Pc} → Move l p k q → Moves k q l' p' → Moves l p l' p'

-- The lock was taken: the word is negative.
abbrev pub Takes : ℕ → Pc → Type 0
Takes l p = (l' : ℕ) × (int_min ≤ l') × Moves l p l' holding

step_Takes : {l k : ℕ} {p q : Pc} → Move l p k q → Takes k q → Takes l p
step_Takes mv (l', neg, ms) = (l', neg, step mv ms)

expected-free : (l : ℕ) → l < int_min → expected l ≡ l
unfolding expected
expected-free l h = ground arith

trying_own : (l : ℕ) → l < int_min → Takes l (trying l)
trying_own l h = (wrap (int_min + l), omega arith, step (try_take l refl refl refl refl) stay)

waiting_own : (l : ℕ) → l < int_min → Takes l (waiting l)
waiting_own l h =
    step_Takes (no_sleep l refl (λ neg. absurd (omega arith)) refl refl)
      (rw (expected-free l h) (trying_own l h))

trying-Takes : (l current : ℕ) → l < int_min → Takes l (trying current)
trying-Takes l current h = elim (ℕ_discrete l current) [
  | yes e ↦ rw⁻¹ e (trying_own l h)
  | no e ↦ step_Takes (try_fail current refl e refl refl) (waiting_own l h)
]

waiting-Takes : (l current : ℕ) → l < int_min → Takes l (waiting current)
waiting-Takes l current h =
    step_Takes (no_sleep current refl (λ neg e. absurd (omega arith)) refl refl)
      (trying-Takes l (expected current) h)

spin-Takes : (turns l current : ℕ) → l + 1 < int_min → Takes l (spin turns current)
spin-Takes zero l current h =
    let next : wrap (l + 1) ≡ l + 1 = omega arith in
    step_Takes (enlist current refl refl refl) (rw next (waiting_own (l + 1) h))
spin-Takes (suc turns) l current h = elim (ℕ_discrete l (expected current)) [
  | yes e ↦ (
    wrap (int_min + (expected current + 1)),
    omega (arith, e),
    step (spin_take turns current refl e refl refl) stay,
  )
  | no e ↦ step_Takes (spin_fail turns current refl e refl refl) (spin-Takes turns l l h)
]

-- Where the lock is free, and fewer than 2 ^ 31 - 1 threads wait, a thread at any place within
-- __lock takes it after finitely many steps if the others make none; for a sleeper the first of
-- them is its return from __futexwait.
pub alone-Takes :
    (l : ℕ) (p : Pc) → l + 1 < int_min → p ≢ holding → p ≢ unlocking → p ≢ waking → Takes l p
alone-Takes l idle h k u w = elim (ℕ_discrete l 0) [
  | yes e ↦ (int_min + 1, omega arith, step (take refl e refl refl) stay)
  | no e ↦ step_Takes (busy refl e refl refl) (spin-Takes 10 l l h)
]
alone-Takes l (spin turns current) h k u w = spin-Takes turns l current h
alone-Takes l (waiting current) h k u w = waiting-Takes l current (omega arith)
alone-Takes l (asleep current) h k u w =
    step_Takes (spurious current refl refl refl) (trying-Takes l (expected current) (omega arith))
alone-Takes l (trying current) h k u w = trying-Takes l current (omega arith)
alone-Takes l holding h k u w = absurd (k refl)
alone-Takes l unlocking h k u w = absurd (u refl)
alone-Takes l waking h k u w = absurd (w refl)
