-- ===== src/Thread/Lock/Examples.antt =====
-- Two threads, of which one waits for the other.
use leblibc.Prelude.{ℕ, zero, suc, ◌+◌, ◌*◌, ◌≤◌, ◌≡◌, refl, [], ◌∷◌, arith}
use leblibc.Thread.Lock.{
  idle, spin, asleep, trying, holding, waking, int_min, expected, take, busy, spin_fail, enlist,
  sleep, release, see_held, here, there, total, move, wake, Reach, start, later,
}
use leblibc.Thread.Lock.Counts.{holds, counts, awake, wakes}
use leblibc.Thread.Lock.Safety.{mutual_exclusion, no_lost_wake}
use leblibc.Thread.Lock.Progress.{Takes, alone-Takes}

-- The word while the first thread has the lock, and then with the second counted too.
abbrev held : ℕ
held = int_min + 1

abbrev both : ℕ
both = int_min + 2

taken : Reach held (holding ∷ idle ∷ [])
taken =
    later (start {ts = idle ∷ idle ∷ []} (refl, (refl, tt))) (move (take refl refl refl refl) here)

-- The second thread uses up its ten turns.
spun :
    (turns : ℕ)
    → Reach held (holding ∷ spin turns held ∷ [])
    → Reach held (holding ∷ spin 0 held ∷ [])
unfolding expected
spun zero r = r
spun (suc turns) r =
    spun turns
      (later r (move (spin_fail turns held refl (λ e. ground arith) refl refl) (there here)))

slept : Reach both (holding ∷ asleep both ∷ [])
slept =
    later
      (later (spun 10 (later taken (move (busy refl (λ e. ground arith) refl refl) (there here))))
        (move (enlist held refl refl refl) (there here)))
      (move (sleep both refl (omega arith) refl refl refl) (there here))

released : Reach 1 (waking ∷ asleep both ∷ [])
released =
    later (later slept (move (see_held refl (omega arith) refl refl) here))
      (move (release refl (λ e. ground arith) refl refl) here)

woken : Reach 1 (idle ∷ trying 1 ∷ [])
unfolding expected
woken = later released (wake both refl here (there here))

mutual_exclusion_example :
    (total holds (holding ∷ asleep both ∷ []) ≤ 1)
    × (both
        ≡ total holds (holding ∷ asleep both ∷ []) * int_min
          + total counts (holding ∷ asleep both ∷ []))
mutual_exclusion_example = mutual_exclusion (omega arith) slept

no_lost_wake_example :
    1
    ≤ total holds (waking ∷ asleep both ∷ [])
      + total awake (waking ∷ asleep both ∷ [])
      + total wakes (waking ∷ asleep both ∷ [])
unfolding total
no_lost_wake_example = no_lost_wake (omega arith) released (omega arith)

alone-Takes_example : Takes 1 (trying 1)
alone-Takes_example =
    alone-Takes 1 (trying 1) (omega arith) (λ e. ground arith) (λ e. ground arith)
      (λ e. ground arith)
