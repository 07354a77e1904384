-- ===== src/Prng/View.antt =====
-- What the generator makes of a state: `random` reads and writes only the current array.
use leblibc.Prelude.{
  ℕ, zero, suc, ◌+◌, ◌/◌, ◌%◌, ◌≡◌, ◌≢◌, refl, sym, ap, List, [], ◌∷◌, Option, none, some, ◌>>=◌,
  ◌==◌, if◌then◌else◌, get_elem?, arith, inl, inr, Bool-cases, ◌⊎◌, Option-cases,
}
use leblibc.Prng.{
  Buffer, Random, word_mod, lcg31, set_elem?, put_buffer, current, set_words, read, put, next,
  random,
}

-- The indices, and the words of the current array.
pub record Gen : Type 0 where
  pub n : ℕ
  pub i : ℕ
  pub j : ℕ
  pub words : List ℕ

unfoldable pub view : Random → Gen
view r = record { n = r.n; i = r.i; j = r.j; words = current r }

-- One number, without the memory.
unfoldable pub draw : Gen → Option (ℕ × Gen)
draw g =
    if g.n == 0
    then (get_elem? g.words 0 >>= λ w.
        set_elem? g.words 0 (lcg31 w) >>= λ ws. some (lcg31 w, record g { words = ws }))
    else (get_elem? g.words g.i >>= λ a. get_elem? g.words g.j >>= λ b.
        set_elem? g.words g.i ((a + b) % word_mod) >>= λ ws. some (
          (a + b) % word_mod / 2,
          record { n = g.n; i = next g.n g.i; j = next g.n g.j; words = ws },
        ))

unfoldable pub seen : Option (ℕ × Random) → Option (ℕ × Gen)
unfolding view
seen none = none
seen (some (k, r)) = some (k, view r)

pub put_buffer_same : (store : ℕ → Buffer) (a : ℕ) (b : Buffer) → put_buffer store a b a ≡ b
unfolding put_buffer
put_buffer_same store a b = ground arith

pub put_buffer_other :
    (store : ℕ → Buffer) (a c : ℕ) (b : Buffer) → c ≢ a → put_buffer store a b c ≡ store c
unfolding put_buffer
put_buffer_other store a c b h = ground arith

-- Numbers drawn from both alike.
unfoldable pub numbers : ℕ → Random → Option (List ℕ)
unfolding random
numbers zero r = some []
numbers (suc m) r = random r >>= λ (k, r'). numbers m r' >>= λ ks. some (k ∷ ks)

unfoldable pub draws : ℕ → Gen → Option (List ℕ)
unfolding draw
draws zero g = some []
draws (suc m) g = draw g >>= λ (k, g'). draws m g' >>= λ ks. some (k ∷ ks)

-- A write, and what is stored behind it.
put-view :
    (r : Random) (k v : ℕ)
    → (put r k v ≡ none) × (set_elem? (current r) k v ≡ none)
      ⊎ ((ws : List ℕ) × (put r k v ≡ some (set_words r ws))
          × (set_elem? (current r) k v ≡ some ws))
unfolding put
put-view r k v = elim (Option-cases (set_elem? (current r) k v)) [
  | inl e ↦ inl (rw e refl, e)
  | inr (ws, e) ↦ inr (ws, rw e refl, e)
]

view-set_words : (r : Random) (ws : List ℕ) → view (set_words r ws) ≡ record (view r) { words = ws }
unfolding view current set_words
view-set_words r ws =
    ap (λ b. record (view r) { words = b.words })
      (put_buffer_same r.store r.x (record (r.store r.x) { words = ws }))

view-stepped :
    (r : Random) (ws : List ℕ)
    → let r' = set_words r ws in
      view (record r' { i = next r'.n r'.i; j = next r'.n r'.j })
      ≡ record { n = r.n; i = next r.n r.i; j = next r.n r.j; words = ws }
unfolding view current set_words
view-stepped r ws =
    ap (λ b. record { n = r.n; i = next r.n r.i; j = next r.n r.j; words = b.words })
      (put_buffer_same r.store r.x (record (r.store r.x) { words = ws }))

pub random-draw : (r : Random) → seen (random r) ≡ draw (view r)
unfolding random draw view seen read
random-draw r = elim (Bool-cases (r.n == 0)) [
  | inl linear ↦ elim (Option-cases (get_elem? (current r) 0)) [
    | inl e ↦ rw (linear, e) refl
    | inr (w, e) ↦ elim (put-view r 0 (lcg31 w)) [
      | inl (p, q) ↦ rw (linear, e, p, q) refl
      | inr (ws, p, q) ↦ rw (linear, e, p, q) (ap (λ g. some (lcg31 w, g)) (view-set_words r ws))
    ]
  ]
  | inr additive ↦ elim (Option-cases (get_elem? (current r) r.i)) [
    | inl e ↦ rw (additive, e) refl
    | inr (a, e) ↦ elim (Option-cases (get_elem? (current r) r.j)) [
      | inl f ↦ rw (additive, e, f) refl
      | inr (b, f) ↦ elim (put-view r r.i ((a + b) % word_mod)) [
        | inl (p, q) ↦ rw (additive, e, f, p, q) refl
        | inr (ws, p, q) ↦
            rw (additive, e, f, p, q)
              (ap (λ g. some ((a + b) % word_mod / 2, g)) (view-stepped r ws))
      ]
    ]
  ]
]

pub numbers-draws : (m : ℕ) (r : Random) → numbers m r ≡ draws m (view r)
unfolding numbers draws seen
numbers-draws zero r = refl
numbers-draws (suc m) r = after (random r) (random-draw r) (numbers-draws m)
  where
    after :
        (o : Option (ℕ × Random))
        → seen o ≡ draw (view r)
        → ((r' : Random) → numbers m r' ≡ draws m (view r'))
        → (o >>= λ (k, r'). numbers m r' >>= λ ks. some (k ∷ ks))
          ≡ (draw (view r) >>= λ (k, g'). draws m g' >>= λ ks. some (k ∷ ks))
    after none e h = rw (sym e) refl
    after (some (k, r')) e h = rw (sym e, h r') refl
