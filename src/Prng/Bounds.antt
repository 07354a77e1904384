-- ===== src/Prng/Bounds.antt =====
-- No operation leaves the array of state.
use leblibc.Prelude.{
  ℕ, zero, suc, ◌+◌, ◌/◌, ◌%◌, ◌^◌, ◌≤◌, ◌<◌, ◌≡◌, ◌≢◌, refl, ap, ◌∙◌, List, [], ◌∷◌, true, false,
  some, ◌==◌, ◌||◌, if◌then◌else◌, get_elem?, length, arith, bit_or, ◌⊎◌, inl, inr, Bool-cases,
}
use leblibc.Prng.{
  Random, word_mod, lcg31, lcg64, set_elem?, current, set_words, read, put, seed_loop, srandom,
  next, random,
}
use leblibc.Prng.View.{put_buffer_same, put_buffer_other}

-- The indices lie in the array; with a degree of 0 there is one word, and they are not used.
abbrev pub IsReady : Random → Type 0
IsReady r =
    (r.n < 256)
    × (r.i < 256)
    × (r.j < 256)
    × (1 ≤ length (current r))
    × (r.n ≤ length (current r))
    × ((r.n ≡ 0) ⊎ ((2 ≤ r.n) × (r.i < r.n) × (r.j < r.n)))

-- What `srandom` needs, which sets the indices where they are used.
abbrev pub IsSized : Random → Type 0
IsSized r =
    (r.n < 256)
    × (r.i < 256)
    × (r.j < 256)
    × (1 ≤ length (current r))
    × (r.n ≤ length (current r))
    × ((r.n ≡ 0) ⊎ (2 ≤ r.n))

-- The same array is current, of the same size, and no other one was written.
abbrev pub Keeps : Random → Random → Type 0
Keeps r r' =
    (r'.n ≡ r.n)
    × (r'.x ≡ r.x)
    × (length (current r') ≡ length (current r))
    × ((c : ℕ) → c ≢ r.x → r'.store c ≡ r.store c)

pub Keeps-trans : (r s t : Random) → Keeps r s → Keeps s t → Keeps r t
Keeps-trans r s t (a, b, l, h) (a', b', l', h') =
    (a' ∙ a, b' ∙ b, l' ∙ l, λ c e. h' c (λ f. e (f ∙ b)) ∙ h c e)

set_elem?_total :
    (ws : List ℕ) (k v : ℕ)
    → k < length ws
    → (ws' : List ℕ) × (set_elem? ws k v ≡ some ws') × (length ws' ≡ length ws)
unfolding set_elem?
set_elem?_total [] k v h = absurd (omega arith)
set_elem?_total (w ∷ ws) zero v h = (v ∷ ws, refl, refl)
set_elem?_total (w ∷ ws) (suc k) v h =
    let (ws', e, l) = set_elem?_total ws k v (omega arith) in (w ∷ ws', rw e refl, omega (arith, l))

get_elem?_total : (ws : List ℕ) (k : ℕ) → k < length ws → (w : ℕ) × (get_elem? ws k ≡ some w)
get_elem?_total [] k h = absurd (omega arith)
get_elem?_total (w ∷ ws) zero h = (w, refl)
get_elem?_total (w ∷ ws) (suc k) h = get_elem?_total ws k (omega arith)

set_words-Keeps :
    (r : Random) (ws : List ℕ) → length ws ≡ length (current r) → Keeps r (set_words r ws)
unfolding set_words current
set_words-Keeps r ws e =
    let b = record (r.store r.x) { words = ws } in
    (
      refl,
      refl,
      ap (λ b. length b.words) (put_buffer_same r.store r.x b) ∙ e,
      λ c h. put_buffer_other r.store r.x c b h,
    )

put_total :
    (r : Random) (k v : ℕ)
    → k < length (current r)
    → (r' : Random) × (put r k v ≡ some r') × (r'.i ≡ r.i) × (r'.j ≡ r.j) × Keeps r r'
unfolding put set_words
put_total r k v h =
    let (ws, e, l) = set_elem?_total (current r) k v h in
    (set_words r ws, rw e refl, refl, refl, set_words-Keeps r ws l)

seed_loop_total :
    (count k s : ℕ) (r : Random)
    → k + count ≤ length (current r)
    → (r' : Random) × (seed_loop count k s r ≡ some r') × (r'.i ≡ r.i) × (r'.j ≡ r.j) × Keeps r r'
unfolding seed_loop
seed_loop_total zero k s r h = (r, refl, refl, refl, (refl, refl, refl, λ c e. refl))
seed_loop_total (suc count) k s r h =
    let (r', e, a, b, keeps) = put_total r k (lcg64 s / 2 ^ 32) (omega arith) in
    let (r'', e', a', b', keeps') =
      seed_loop_total count (suc k) (lcg64 s) r' (omega (arith, keeps.2)) in
    (r'', rw (e, e') refl, a' ∙ a, b' ∙ b, Keeps-trans r r' r'' keeps keeps')

pub IsReady-IsSized : (r : Random) → IsReady r → IsSized r
IsReady-IsSized r ready =
    (ready.0, ready.1, ready.2, ready.3, ready.4, elim ready.5 [ inl e ↦ inl e | inr h ↦ inr h.0 ])

IsReady-Keeps :
    (r r' : Random)
    → r'.i < 256
    → r'.j < 256
    → (r.n ≡ 0) ⊎ ((2 ≤ r.n) × (r'.i < r.n) × (r'.j < r.n))
    → Keeps r r'
    → IsSized r
    → IsReady r'
unfolding current
IsReady-Keeps r r' i j within (n, x, l, h) sized =
    (rw n sized.0, i, j, rw l sized.3, rw (n, l) sized.4, rw n within)

zero_of : (n : ℕ) → (n == 0) ≡ true → n ≡ 0
zero_of n e = ground arith

two_of : (n : ℕ) → (n == 0) ≡ false → (n ≡ 0) ⊎ (2 ≤ n) → 2 ≤ n
two_of n e h = ground arith

first_fits : (n : ℕ) → 2 ≤ n → (if (n == 31) || (n == 7) then 3 else 1) < n
first_fits n h = ground arith

-- On a state of the right size, `srandom` writes within its array, and leaves a state that is ready.
pub srandom-IsReady :
    (seed : ℕ) (r : Random)
    → IsSized r
    → (r' : Random) × (srandom seed r ≡ some r') × IsReady r' × Keeps r r'
unfolding srandom read
srandom-IsReady seed r sized = elim (Bool-cases (r.n == 0)) [
  | inl linear ↦
      let (r', e, i, j, keeps) = put_total r 0 seed (omega (arith, sized.3)) in
      (
        r',
        rw (linear, e) refl,
        IsReady-Keeps r r' (rw i sized.1) (rw j sized.2) (inl (zero_of r.n linear)) keeps sized,
        keeps,
      )
  | inr additive ↦
      let first = if (r.n == 31) || (r.n == 7) then 3 else 1 in
      let begun : Random = record r { i = first; j = 0 } in
      let big = two_of r.n additive sized.5 in
      let fits = first_fits r.n big in
      let (s, e, i, j, keeps) = seed_loop_total r.n 0 seed begun (omega (arith, sized.4)) in
      let room : 0 < length (current s) = rw keeps.2 sized.3 in
      let (w, f) = get_elem?_total (current s) 0 room in
      let (t, g, i', j', keeps') = put_total s 0 (bit_or w 1) room in
      let both = Keeps-trans r s t keeps keeps' in
      let small : t.i < r.n = rw (i', i) fits in
      let zero_j : t.j < r.n = rw (j', j) (omega (arith, big)) in
      (
        t,
        rw (additive, e, f, g) refl,
        IsReady-Keeps r t (omega (arith, small, sized.0)) (omega (arith, zero_j, sized.0))
            (inr (big, small, zero_j)) both sized,
        both,
      )
]

next-lt : (n i : ℕ) → i < n → next n i < n
unfolding next
next-lt n i h = ground arith

-- On a state that is ready, `random` reads and writes within its array, and leaves it ready.
pub random-IsReady :
    (r : Random)
    → IsReady r
    → (k : ℕ) × (r' : Random) × (random r ≡ some (k, r')) × IsReady r' × Keeps r r'
unfolding random read
random-IsReady r ready = elim (Bool-cases (r.n == 0)) [
  | inl linear ↦
      let (w, f) = get_elem?_total (current r) 0 ready.3 in
      let (r', e, i, j, keeps) = put_total r 0 (lcg31 w) ready.3 in
      (
        lcg31 w,
        r',
        rw (linear, f, e) refl,
        IsReady-Keeps r r' (rw i ready.1) (rw j ready.2) (inl (zero_of r.n linear)) keeps
            (IsReady-IsSized r ready),
        keeps,
      )
  | inr additive ↦ elim ready.5 [
    | inl e ↦ absurd (ground arith)
    | inr (big, i_small, j_small) ↦
        let (a, f) = get_elem?_total (current r) r.i (omega (arith, ready.4, i_small)) in
        let (b, g) = get_elem?_total (current r) r.j (omega (arith, ready.4, j_small)) in
        let v = (a + b) % word_mod in
        let (s, e, i, j, keeps) = put_total r r.i v (omega (arith, ready.4, i_small)) in
        let t : Random = record s { i = next s.n s.i; j = next s.n s.j } in
        let small : t.i < r.n = rw (keeps.0, i) (next-lt r.n r.i i_small) in
        let small_j : t.j < r.n = rw (keeps.0, j) (next-lt r.n r.j j_small) in
        (
          v / 2,
          t,
          rw (additive, f, g, e) refl,
          IsReady-Keeps r t (omega (arith, small, ready.0)) (omega (arith, small_j, ready.0))
              (inr (big, small, small_j)) keeps (IsReady-IsSized r ready),
          keeps,
        )
  ]
]
