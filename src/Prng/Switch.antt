-- ===== src/Prng/Switch.antt =====
-- A program may leave a generator for another one, and come back to it.
use leblibc.Prelude.{
  ℕ, suc, ◌+◌, ◌*◌, ◌/◌, ◌%◌, ◌^◌, ◌≤◌, ◌<◌, ◌≡◌, ◌≢◌, refl, sym, ap, ◌∙◌, List, [], ◌∷◌, false,
  Option, some, ◌>>=◌, ltb, length, arith, bit_or, bit_and, ◌⊎◌,
}
use leblibc.Prelude.Bits.{bit_or_join_three, bit_and_low}
use leblibc.Prng.{
  Buffer, Random, word_mod, current, savestate, loadstate, srandom, degree, initstate, setstate,
  random,
}
use leblibc.Prng.View.{view, numbers, draws, numbers-draws, put_buffer_same, put_buffer_other}
use leblibc.Prng.Bounds.{
  IsReady, IsSized, IsReady-IsSized, Keeps, Keeps-trans, srandom-IsReady, random-IsReady,
}

-- What a program does with one generator.
pub data Op : Type 0 where
  draw_number : Op
  reseed : ℕ → Op

unfoldable pub run : List Op → Random → Option Random
unfolding random srandom
run [] r = some r
run (draw_number ∷ ops) r = random r >>= λ (k, r'). run ops r'
run (reseed seed ∷ ops) r = srandom seed r >>= λ r'. run ops r'

-- However a generator is used, no operation leaves its array.
pub run-IsReady :
    (ops : List Op) (r : Random)
    → IsReady r
    → (r' : Random) × (run ops r ≡ some r') × IsReady r' × Keeps r r'
unfolding run
run-IsReady [] r ready = (r, refl, ready, (refl, refl, refl, λ c e. refl))
run-IsReady (draw_number ∷ ops) r ready =
    let (k, r', e, ready', keeps) = random-IsReady r ready in
    let (r'', f, ready'', keeps') = run-IsReady ops r' ready' in
    (r'', rw e f, ready'', Keeps-trans r r' r'' keeps keeps')
run-IsReady (reseed seed ∷ ops) r ready =
    let (r', e, ready', keeps) = srandom-IsReady seed r (IsReady-IsSized r ready) in
    let (r'', f, ready'', keeps') = run-IsReady ops r' ready' in
    (r'', rw e f, ready'', Keeps-trans r r' r'' keeps keeps')

degree_sound :
    (size words : ℕ)
    → 8 ≤ size
    → size ≤ 4 * suc words
    → (degree size < 256)
      × (1 ≤ words)
      × (degree size ≤ words)
      × ((degree size ≡ 0) ⊎ (2 ≤ degree size))
unfolding degree
degree_sound size words h k = ground arith

abbrev header_of : (n i j : ℕ) → ℕ
header_of n i j = bit_or (bit_or (n * 2 ^ 16 % word_mod) (i * 2 ^ 8)) j

-- The header determines the degree and the indices.
header-load :
    (n i j : ℕ)
    → n < 256
    → i < 256
    → j < 256
    → let h = header_of n i j in
      (h / 2 ^ 16 ≡ n) × (bit_and (h / 2 ^ 8) 0xff ≡ i) × (bit_and h 0xff ≡ j)
header-load n i j hn hi hj =
    let whole : n * 2 ^ 16 % word_mod ≡ n * 2 ^ 16 = omega arith in
    let h = header_of n i j in
    let joined : h ≡ n * 65536 + i * 256 + j = rw whole (bit_or_join_three n i j hi hj) in
    (
      omega (arith, joined),
      bit_and_low 8 (h / 2 ^ 8) ∙ omega (arith, joined),
      bit_and_low 8 h ∙ omega (arith, joined),
    )

-- The array as `savestate` leaves it.
abbrev saved : Random → Buffer
saved r = record (r.store r.x) { header = header_of r.n r.i r.j }

savestate-Keeps : (r : Random) → Keeps r (savestate r).1
unfolding savestate current
savestate-Keeps r = (
  refl,
  refl,
  ap (λ b. length b.words) (put_buffer_same r.store r.x (saved r)),
  λ c h. put_buffer_other r.store r.x c (saved r) h,
)

savestate-IsReady : (r : Random) → IsReady r → IsReady (savestate r).1
unfolding savestate
savestate-IsReady r ready =
    let l = (savestate-Keeps r).2 in
    (ready.0, ready.1, ready.2, rw l ready.3, rw l ready.4, ready.5)

savestate-saved : (r : Random) → (savestate r).1.store r.x ≡ saved r
unfolding savestate
savestate-saved r = put_buffer_same r.store r.x (saved r)

-- What `initstate` does with an array that is large enough.
initstate-IsReady :
    (seed state size : ℕ) (r : Random)
    → IsReady r
    → state ≢ r.x
    → 8 ≤ size
    → size ≤ 4 * suc (length (r.store state).words)
    → (r' : Random) × (initstate seed state size r ≡ some (some r.x, r'))
      × IsReady r'
      × (r'.x ≡ state)
      × (r'.store r.x ≡ saved r)
unfolding initstate current
initstate-IsReady seed state size r ready other h k =
    let s : Random = record (savestate r).1 { n = degree size; x = state } in
    let (n, one, fits, two) = degree_sound size (length (r.store state).words) h k in
    let kept : length (s.store state).words ≡ length (r.store state).words =
      ap (λ b. length b.words) ((savestate-Keeps r).3 state other) in
    let sized : IsSized s = (n, ready.1, ready.2, rw kept one, rw kept fits, two) in
    let (t, e, ready', keeps) = srandom-IsReady seed s sized in
    let large : ltb size 8 ≡ false = ground arith in
    (
      (savestate t).1,
      rw (large, e) refl,
      savestate-IsReady t ready',
      (savestate-Keeps t).1 ∙ keeps.1,
      (savestate-Keeps t).3 r.x (λ f. other (sym (f ∙ keeps.1)))
          ∙ keeps.3 r.x (λ f. other (sym f))
          ∙ savestate-saved r,
    )

loadstate-view :
    (r s : Random) → IsReady r → s.store r.x ≡ saved r → view (loadstate r.x s) ≡ view r
unfolding loadstate view current
loadstate-view r s ready e =
    let (n, i, j) = header-load r.n r.i r.j ready.0 ready.1 ready.2 in rw (e, n, i, j) refl

-- A generator that is left by `initstate`, for another array that holds the size given, is the same
-- when `setstate` comes back to it, whatever numbers were drawn and seeds set in between: both
-- calls return the address of the array that was left, and every later number is as without them.
pub setstate_resumes :
    (seed state size : ℕ) (ops : List Op) (r : Random)
    → IsReady r
    → state ≢ r.x
    → 8 ≤ size
    → size ≤ 4 * suc (length (r.store state).words)
    → (r' r'' : Random) × (initstate seed state size r ≡ some (some r.x, r'))
      × (run ops r' ≡ some r'')
      × ((setstate r.x r'').0 ≡ state)
      × ((m : ℕ) → numbers m (setstate r.x r'').1 ≡ numbers m r)
unfolding setstate
setstate_resumes seed state size ops r ready other h k =
    let (r', e, ready', x, kept) = initstate-IsReady seed state size r ready other h k in
    let (r'', f, ready'', keeps) = run-IsReady ops r' ready' in
    let at : r''.x ≡ state = keeps.1 ∙ x in
    let apart : r.x ≢ r''.x = λ g. other (sym (g ∙ at)) in
    let found : (savestate r'').1.store r.x ≡ saved r =
      (savestate-Keeps r'').3 r.x apart ∙ keeps.3 r.x (λ g. other (sym (g ∙ x))) ∙ kept in
    (
      r',
      r'',
      e,
      f,
      at,
      λ m.
          numbers-draws m (loadstate r.x (savestate r'').1)
          ∙ ap (λ g. draws m g) (loadstate-view r (savestate r'').1 ready found)
          ∙ sym (numbers-draws m r),
    )
