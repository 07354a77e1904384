-- ===== src/Thread/Lock/Invariant.antt =====
-- The word is what the threads make of it; true at the start and kept by every step.
use leblibc.Prelude.{
  ℕ, suc, ◌+◌, ◌*◌, ◌^◌, ◌≤◌, ◌<◌, ◌≡◌, refl, List, [], ◌∷◌, length, All, arith, ◌⊎◌, inl, inr, ◌∙◌,
}
use leblibc.Thread.Lock.{
  Pc, idle, spin, waiting, asleep, trying, holding, unlocking, waking, int_min, expected, Move,
  take, busy, spin_take, spin_fail, enlist, sleep, no_sleep, spurious, try_take, try_fail,
  release_last, release, see_held, not_held, Replace, is_asleep, total, Step, move, wake, wake_none,
  AreIdle, Reach, start, later,
}
use leblibc.Thread.Lock.Counts.{
  holds, counts, awake, wakes, total-Replace, total-mine, total_mono, length-Replace, All-Replace,
  total-le, total-AreIdle,
}

-- A value that the word may have: with the sign bit, at least one thread is counted.
abbrev pub IsValue : ℕ → Type 0
IsValue n = (n < int_min) ⊎ ((int_min + 1 ≤ n) × (n < 2 ^ 32))

-- What holds of the local variables.
abbrev pub IsLocal : Pc → Type 0
IsLocal (spin turns current) = IsValue current
IsLocal (waiting current) = IsValue current
IsLocal (asleep current) = IsValue current
IsLocal (trying current) = current < int_min
IsLocal p = Unit

-- There are at most `INT_MAX` threads. Where one sleeps, the lock is held, or a thread is awake in the
-- second loop, or one is about to wake another.
pub record Inv (l : ℕ) (ts : List Pc) : Type 0 where
  pub few : length ts < int_min
  pub one : total holds ts ≤ 1
  pub word : l ≡ total holds ts * int_min + total counts ts
  pub noticed : total is_asleep ts ≤ 0 ⊎ (1 ≤ total holds ts + total awake ts + total wakes ts)
  pub locals : All IsLocal ts

expected-IsValue : (n : ℕ) → IsValue n → expected n < int_min
unfolding expected
expected-IsValue n h = ground arith

holds-le : (p : Pc) → counts p ≤ 1
holds-le p = ground arith

-- The numbers of threads before and after one of them goes from `p` to `p'`.
pub record Changed (p p' : Pc) (ts us : List Pc) : Type 0 where
  pub few : length us < int_min
  pub held : total holds us + holds p ≡ total holds ts + holds p'
  pub counted : total counts us + counts p ≡ total counts ts + counts p'
  pub sleeping : total is_asleep us + is_asleep p ≡ total is_asleep ts + is_asleep p'
  pub up : total awake us + awake p ≡ total awake ts + awake p'
  pub wakers : total wakes us + wakes p ≡ total wakes ts + wakes p'
  pub room : total counts us ≤ length us
  pub owned : holds p ≤ total holds ts
  pub mine : counts p ≤ total counts ts
  pub slept : total is_asleep us ≤ total counts us
  pub own : IsLocal p
  pub locals : IsLocal p' → All IsLocal us

pub changed :
    {l : ℕ} {p p' : Pc} {ts us : List Pc} → Inv l ts → Replace p p' ts us → Changed p p' ts us
changed {us} inv r = record {
  few = omega (arith, inv.few, length-Replace r);
  held = total-Replace holds r;
  counted = total-Replace counts r;
  sleeping = total-Replace is_asleep r;
  up = total-Replace awake r;
  wakers = total-Replace wakes r;
  room = total-le counts us holds-le;
  owned = total-mine holds r;
  mine = total-mine counts r;
  slept = total_mono is_asleep counts us (λ p. ground arith);
  own = (All-Replace IsLocal r inv.locals).0;
  locals = (All-Replace IsLocal r inv.locals).1;
}

-- What the new word is, from the numbers.
Inv-of :
    {l l' : ℕ} {p p' : Pc} {ts us : List Pc}
    → Inv l ts
    → Changed p p' ts us
    → total holds us ≤ 1
    → l' ≡ total holds us * int_min + total counts us
    → total is_asleep us ≤ 0 ⊎ (1 ≤ total holds us + total awake us + total wakes us)
    → IsLocal p'
    → Inv l' us
Inv-of inv c one word noticed own = record {
  few = c.few;
  one = one;
  word = word;
  noticed = noticed;
  locals = c.locals own;
}

Inv-IsValue : {l : ℕ} {ts : List Pc} → Inv l ts → IsValue l
Inv-IsValue {ts} inv =
    let room = total-le counts ts holds-le in
    let held = total_mono holds counts ts (λ p. ground arith) in ground arith

pub Move-Inv :
    {l l' : ℕ} {p p' : Pc} {ts us : List Pc}
    → Inv l ts
    → Changed p p' ts us
    → Move l p l' p'
    → Inv l' us
Move-Inv {ts} {us} inv c0 (take e f g h) =
    let c : Changed idle holding ts us = rw (e, h) at c0 in
    Inv-of inv c (ground arith) (ground arith) (ground arith) tt
Move-Inv {ts} {us} inv c0 (busy e f g h) =
    let c : Changed idle (spin 10 _) ts us = rw (e, h) at c0 in
    Inv-of inv c (ground arith) (ground arith) (ground arith) (Inv-IsValue inv)
Move-Inv {ts} {us} inv c0 (spin_take turns current e f g h) =
    let c : Changed (spin (suc turns) current) holding ts us = rw (e, h) at c0 in
    let free = expected-IsValue current c.own in
    Inv-of inv c (ground arith) (ground arith) (ground arith) tt
Move-Inv {ts} {us} inv c0 (spin_fail turns current e f g h) =
    let c : Changed (spin (suc turns) current) (spin turns _) ts us = rw (e, h) at c0 in
    Inv-of inv c (ground arith) (ground arith) (ground arith) (Inv-IsValue inv)
Move-Inv {ts} {us} inv c0 (enlist current e g h) =
    let c : Changed (spin 0 current) (waiting _) ts us = rw (e, h) at c0 in
    Inv-of inv c (ground arith) (ground arith) (ground arith) (ground arith)
Move-Inv {ts} {us} inv c0 (sleep current e lo f g h) =
    let c : Changed (waiting current) (asleep current) ts us = rw (e, h) at c0 in
    Inv-of inv c (ground arith) (ground arith) (ground arith) c.own
Move-Inv {ts} {us} inv c0 (no_sleep current e f g h) =
    let c : Changed (waiting current) (trying (expected current)) ts us = rw (e, h) at c0 in
    Inv-of inv c (ground arith) (ground arith) (ground arith) (expected-IsValue current c.own)
Move-Inv {ts} {us} inv c0 (spurious current e g h) =
    let c : Changed (asleep current) (trying (expected current)) ts us = rw (e, h) at c0 in
    Inv-of inv c (ground arith) (ground arith) (ground arith) (expected-IsValue current c.own)
Move-Inv {ts} {us} inv c0 (try_take current e f g h) =
    let c : Changed (trying current) holding ts us = rw (e, h) at c0 in
    Inv-of inv c (ground arith) (ground arith) (ground arith) tt
Move-Inv {ts} {us} inv c0 (try_fail current e f g h) =
    let c : Changed (trying current) (waiting _) ts us = rw (e, h) at c0 in
    Inv-of inv c (ground arith) (ground arith) (ground arith) (Inv-IsValue inv)
Move-Inv {ts} {us} inv c0 (release_last e f g h) =
    let c : Changed unlocking idle ts us = rw (e, h) at c0 in
    Inv-of inv c (ground arith) (ground arith) (ground arith) tt
Move-Inv {ts} {us} inv c0 (release e f g h) =
    let c : Changed unlocking waking ts us = rw (e, h) at c0 in
    Inv-of inv c (ground arith) (ground arith) (ground arith) tt
Move-Inv {ts} {us} inv c0 (see_held e lo g h) =
    let c : Changed holding unlocking ts us = rw (e, h) at c0 in
    Inv-of inv c (ground arith) (ground arith) (ground arith) tt
Move-Inv {ts} {us} inv c0 (not_held e lo g h) =
    let c : Changed holding idle ts us = rw (e, h) at c0 in
    Inv-of inv c (ground arith) (ground arith) (ground arith) tt

-- A thread that wakes another one.
woken-Inv :
    {l : ℕ} {ts us vs : List Pc} (current : ℕ)
    → Inv l ts
    → Replace waking idle ts us
    → Replace (asleep current) (trying (expected current)) us vs
    → Inv l vs
woken-Inv {ts} {us} {vs} current inv r q =
    let c = changed inv r in
    let local : IsValue current = (All-Replace IsLocal q (c.locals tt)).0 in
    record {
      few = omega (arith, c.few, length-Replace q);
      one = omega (arith, inv.one, c.held, total-Replace holds q);
      word =
          omega (arith, inv.word, c.held, c.counted, total-Replace holds q, total-Replace counts q);
      noticed =
          inr (omega (arith, total-mine awake r, total-mine is_asleep q, total-Replace awake q));
      locals = (All-Replace IsLocal q (c.locals tt)).1 (expected-IsValue current local);
    }

-- A wake where no thread sleeps.
unheard-Inv :
    {l : ℕ} {ts us : List Pc}
    → Inv l ts
    → total is_asleep ts ≡ 0
    → Replace waking idle ts us
    → Inv l us
unheard-Inv inv none r =
    let c = changed inv r in
    Inv-of inv c (omega (arith, inv.one, c.held)) (omega (arith, inv.word, c.held, c.counted))
      (inl (omega (arith, none, c.sleeping))) tt

pub Step-Inv : {l l' : ℕ} {ts ts' : List Pc} → Inv l ts → Step l ts l' ts' → Inv l' ts'
Step-Inv inv (move mv r) = Move-Inv inv (changed inv r) mv
Step-Inv inv (wake current e r q) = rw e (woken-Inv current inv r q)
Step-Inv inv (wake_none e none r) = rw e (unheard-Inv inv none r)

AreIdle-IsLocal : (ts : List Pc) → AreIdle ts → All IsLocal ts
AreIdle-IsLocal [] h = tt
AreIdle-IsLocal (p ∷ ts) h = (rw h.0 tt, AreIdle-IsLocal ts h.1)

start-Inv : (ts : List Pc) → length ts < int_min → AreIdle ts → Inv 0 ts
start-Inv ts few h =
    let none = total-AreIdle holds ts refl h in
    record {
      few = few;
      one = omega (arith, none);
      word = omega (arith, none, total-AreIdle counts ts refl h);
      noticed = inl (omega (arith, total-AreIdle is_asleep ts refl h));
      locals = AreIdle-IsLocal ts h;
    }

Step-length : {l l' : ℕ} {ts ts' : List Pc} → Step l ts l' ts' → length ts' ≡ length ts
Step-length (move mv r) = length-Replace r
Step-length (wake current e r q) = length-Replace q ∙ length-Replace r
Step-length (wake_none e none r) = length-Replace r

pub Reach-Inv : {l : ℕ} {ts : List Pc} → length ts < int_min → Reach l ts → Inv l ts
Reach-Inv {ts} few (start h) = start-Inv ts few h
Reach-Inv few (later r st) = Step-Inv (Reach-Inv (rw⁻¹ (Step-length st) few) r) st
