-- ===== src/Thread/Lock/Safety.antt =====
-- What holds in every state that the threads can reach.
use leblibc.Prelude.{ℕ, ◌+◌, ◌*◌, ◌≤◌, ◌<◌, ◌≡◌, List, length, arith}
use leblibc.Thread.Lock.{int_min, is_asleep, Pc, total, Reach}
use leblibc.Thread.Lock.Counts.{holds, counts, awake, wakes}
use leblibc.Thread.Lock.Invariant.{Reach-Inv}

-- With fewer than 2 ^ 31 threads, in every state that interleaved steps of __lock and __unlock
-- reach, at most one thread has the lock, and the word is INT_MIN if one has it, plus the number of
-- threads that are counted in it.
pub mutual_exclusion :
    {l : ℕ} {ts : List Pc}
    → length ts < int_min
    → Reach l ts
    → (total holds ts ≤ 1) × (l ≡ total holds ts * int_min + total counts ts)
mutual_exclusion few r = let inv = Reach-Inv few r in (inv.one, inv.word)

-- With fewer than 2 ^ 31 threads, no wake is lost: in every state reached in which a thread sleeps,
-- some thread has the lock, or is awake and about to try for it, or is about to wake a sleeper.
pub no_lost_wake :
    {l : ℕ} {ts : List Pc}
    → length ts < int_min
    → Reach l ts
    → 1 ≤ total is_asleep ts
    → 1 ≤ total holds ts + total awake ts + total wakes ts
no_lost_wake few r sleeping = let inv = Reach-Inv few r in ground (arith, inv.noticed)
