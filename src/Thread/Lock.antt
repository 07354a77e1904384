-- ===== src/Thread/Lock.antt =====
-- `__lock.c`: one word, whose sign bit says that the lock is held, and whose other bits count the
-- threads that hold it or wait for it. Every access to the word is a step of one thread, and the
-- steps of the threads are interleaved in any order. An `int` is a word below 2 ^ 32.
pub mod Counts
pub mod Invariant
pub mod Safety
pub mod Progress
mod Examples
use leblibc.Prelude.{
  ℕ, zero, suc, ◌+◌, ◌-◌, ◌%◌, ◌^◌, ◌≤◌, ◌<◌, ◌≡◌, ◌≢◌, List, [], ◌∷◌, leb, if◌then◌else◌,
}

-- Where a thread stands, with the local variables that are live there.
pub data Pc : Type 0 where
  idle : Pc
  spin : (turns current : ℕ) → Pc
  waiting : (current : ℕ) → Pc
  asleep : (current : ℕ) → Pc
  trying : (current : ℕ) → Pc
  holding : Pc
  unlocking : Pc
  waking : Pc

abbrev pub int_min : ℕ
int_min = 2 ^ 31

-- `if (current < 0) current -= INT_MIN + 1;`
unfoldable pub expected : ℕ → ℕ
expected current = if leb int_min current then current - (int_min + 1) else current

-- `INT_MIN + current`, and what `a_fetch_add` stores.
abbrev pub wrap : ℕ → ℕ
wrap n = n % 2 ^ 32

-- A step of one thread, from the word `l` to the word `l'`.
pub data Move (l : ℕ) (p : Pc) (l' : ℕ) (p' : Pc) : Type 0 where
  -- The first `a_cas`.
  take : p ≡ idle → l ≡ 0 → l' ≡ int_min + 1 → p' ≡ holding → Move l p l' p'
  busy : p ≡ idle → l ≢ 0 → l' ≡ l → p' ≡ spin 10 l → Move l p l' p'
  -- A turn of the first loop.
  spin_take :
      (turns current : ℕ)
      → p ≡ spin (suc turns) current
      → l ≡ expected current
      → l' ≡ wrap (int_min + (expected current + 1))
      → p' ≡ holding
      → Move l p l' p'
  spin_fail :
      (turns current : ℕ)
      → p ≡ spin (suc turns) current
      → l ≢ expected current
      → l' ≡ l
      → p' ≡ spin turns l
      → Move l p l' p'
  -- `a_fetch_add(l, 1)` behind it.
  enlist :
      (current : ℕ)
      → p ≡ spin 0 current
      → l' ≡ wrap (l + 1)
      → p' ≡ waiting (wrap (l + 1))
      → Move l p l' p'
  -- The second loop: `__futexwait` sleeps where the word is still the expected one.
  sleep :
      (current : ℕ)
      → p ≡ waiting current
      → int_min ≤ current
      → l ≡ current
      → l' ≡ l
      → p' ≡ asleep current
      → Move l p l' p'
  no_sleep :
      (current : ℕ)
      → p ≡ waiting current
      → (int_min ≤ current → l ≢ current)
      → l' ≡ l
      → p' ≡ trying (expected current)
      → Move l p l' p'
  -- It may return without a wake.
  spurious :
      (current : ℕ) → p ≡ asleep current → l' ≡ l → p' ≡ trying (expected current) → Move l p l' p'
  try_take :
      (current : ℕ)
      → p ≡ trying current
      → l ≡ current
      → l' ≡ wrap (int_min + current)
      → p' ≡ holding
      → Move l p l' p'
  try_fail :
      (current : ℕ) → p ≡ trying current → l ≢ current → l' ≡ l → p' ≡ waiting l → Move l p l' p'
  -- `__unlock` reads the word, and then adds to it; it wakes where the old word is not `INT_MIN + 1`.
  see_held : p ≡ holding → int_min ≤ l → l' ≡ l → p' ≡ unlocking → Move l p l' p'
  not_held : p ≡ holding → l < int_min → l' ≡ l → p' ≡ idle → Move l p l' p'
  release_last :
      p ≡ unlocking → l ≡ int_min + 1 → l' ≡ wrap (l + (int_min - 1)) → p' ≡ idle → Move l p l' p'
  release :
      p ≡ unlocking → l ≢ int_min + 1 → l' ≡ wrap (l + (int_min - 1)) → p' ≡ waking → Move l p l' p'

-- One thread goes from `p` to `p'`.
pub data Replace (p p' : Pc) : List Pc → List Pc → Type 0 where
  here : {ts : List Pc} → Replace p p' (p ∷ ts) (p' ∷ ts)
  there : {q : Pc} {ts us : List Pc} → Replace p p' ts us → Replace p p' (q ∷ ts) (q ∷ us)

abbrev pub is_asleep : Pc → ℕ
is_asleep (asleep current) = 1
is_asleep p = 0

-- How many threads stand where the weight is 1.
unfoldable pub total : (Pc → ℕ) → List Pc → ℕ
total w [] = 0
total w (p ∷ ts) = w p + total w ts

-- A step of the system. `__wake(l, 1, 1)` wakes one thread that sleeps, if there is one.
pub data Step (l : ℕ) (ts : List Pc) (l' : ℕ) (ts' : List Pc) : Type 0 where
  move : {p p' : Pc} → Move l p l' p' → Replace p p' ts ts' → Step l ts l' ts'
  wake :
      {us : List Pc} (current : ℕ)
      → l' ≡ l
      → Replace waking idle ts us
      → Replace (asleep current) (trying (expected current)) us ts'
      → Step l ts l' ts'
  wake_none : l' ≡ l → total is_asleep ts ≡ 0 → Replace waking idle ts ts' → Step l ts l' ts'

-- At the start no thread is in `__lock`, and the word is 0.
abbrev pub AreIdle : List Pc → Type 0
AreIdle [] = Unit
AreIdle (p ∷ ts) = (p ≡ idle) × AreIdle ts

pub data Reach : ℕ → List Pc → Type 0 where
  start : {ts : List Pc} → AreIdle ts → Reach 0 ts
  later : {l l' : ℕ} {ts ts' : List Pc} → Reach l ts → Step l ts l' ts' → Reach l' ts'
