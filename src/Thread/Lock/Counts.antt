-- ===== src/Thread/Lock/Counts.antt =====
-- How a step of one thread changes the number of threads in each place.
use leblibc.Prelude.{ℕ, ◌+◌, ◌≤◌, ◌≡◌, refl, List, [], ◌∷◌, length, All, arith}
use leblibc.Thread.Lock.{
  Pc, idle, spin, waiting, trying, holding, unlocking, waking, Replace, here, there, total, AreIdle,
}

-- The threads that have the lock, that count in the word, that are awake in the second loop, and that
-- are about to wake another one.
abbrev pub holds : Pc → ℕ
holds holding = 1
holds unlocking = 1
holds p = 0

abbrev pub counts : Pc → ℕ
counts idle = 0
counts (spin turns current) = 0
counts waking = 0
counts p = 1

abbrev pub awake : Pc → ℕ
awake (waiting current) = 1
awake (trying current) = 1
awake p = 0

abbrev pub wakes : Pc → ℕ
wakes waking = 1
wakes p = 0

pub total-Replace :
    (w : Pc → ℕ) {p p' : Pc} {ts us : List Pc}
    → Replace p p' ts us
    → total w us + w p ≡ total w ts + w p'
unfolding total
total-Replace w here = omega arith
total-Replace w (there r) = omega (arith, total-Replace w r)

pub length-Replace : {p p' : Pc} {ts us : List Pc} → Replace p p' ts us → length us ≡ length ts
length-Replace here = refl
length-Replace (there r) = omega (arith, length-Replace r)

pub All-Replace :
    (P : Pc → Type 0) {p p' : Pc} {ts us : List Pc}
    → Replace p p' ts us
    → All P ts
    → P p × (P p' → All P us)
All-Replace P here h = (h.0, λ k. (k, h.1))
All-Replace P (there r) h = let (a, rest) = All-Replace P r h.1 in (a, λ k. (h.0, rest k))

pub total-le : (w : Pc → ℕ) (ts : List Pc) → ((p : Pc) → w p ≤ 1) → total w ts ≤ length ts
unfolding total
total-le w [] h = omega arith
total-le w (p ∷ ts) h = omega (arith, h p, total-le w ts h)

pub total-AreIdle : (w : Pc → ℕ) (ts : List Pc) → w idle ≡ 0 → AreIdle ts → total w ts ≡ 0
unfolding total
total-AreIdle w [] e h = refl
total-AreIdle w (p ∷ ts) e h = rw h.0 (omega (arith, e, total-AreIdle w ts e h.1))

pub total-mine : (w : Pc → ℕ) {p p' : Pc} {ts us : List Pc} → Replace p p' ts us → w p ≤ total w ts
unfolding total
total-mine w here = omega arith
total-mine w (there r) = omega (arith, total-mine w r)

pub total_mono : (v w : Pc → ℕ) (ts : List Pc) → ((p : Pc) → v p ≤ w p) → total v ts ≤ total w ts
unfolding total
total_mono v w [] h = omega arith
total_mono v w (p ∷ ts) h = omega (arith, h p, total_mono v w ts h)
