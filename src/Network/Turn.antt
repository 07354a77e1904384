-- ===== src/Network/Turn.antt =====
-- One turn of the loop: what it reads and writes is in bounds, and what it does.
use leblibc.Prelude.{
  ℕ, zero, suc, ◌+◌, ◌-◌, ◌*◌, ◌^◌, ◌≤◌, ◌<◌, ◌≡◌, ◌≢◌, refl, sym, ap, ◌∙◌, List, [], ◌∷◌, ◌++◌,
  append_assoc, append-nil, true, false, ◌||◌, leb, ◌==◌, if◌then◌else◌, bit_and, bit_or, Option,
  some, ◌>>=◌, length, length-append, get_elem?, Bool-cases, inl, inr, ◌⊎◌, arith,
}
use native.Mathlib.Decide.{dec_lt, ℕ_discrete}
use leblibc.Prelude.Int.{ℤ}
use leblibc.Prelude.Slices.{take, drop}
use leblibc.Network.{
  fail, put, copy, Kind, pointer, label, root, kind, Next, done, more, set_len, follow, take_label,
  finish, turn,
}

==-ne : (a b : ℕ) → a ≢ b → (a == b) ≡ false
==-ne a b h = ground arith

leb-gt : (a b : ℕ) → b < a → leb a b ≡ false
leb-gt a b h = ground arith

leb-le : (a b : ℕ) → a ≤ b → leb a b ≡ true
leb-le a b h = ground arith

neither : (a b c : ℕ) → leb a c || leb b c ≡ false → (c < a) × (c < b)
neither a b c h = ground arith

get_elem_some : (msg : List ℕ) (p : ℕ) → p < length msg → (c : ℕ) × (get_elem? msg p ≡ some c)
get_elem_some [] p h = absurd (omega arith)
get_elem_some (x ∷ msg) zero h = (x, refl)
get_elem_some (x ∷ msg) (suc p) h = get_elem_some msg p (omega arith)

drop_step : (msg : List ℕ) (p c : ℕ) → get_elem? msg p ≡ some c → drop p msg ≡ c ∷ drop (suc p) msg
unfolding drop
drop_step [] p c h = absurd (ground arith)
drop_step (x ∷ msg) zero c h = ap (λ y. y ∷ msg) (ground arith)
drop_step (x ∷ msg) (suc p) c h = drop_step msg p c h

put_lem :
    (space : ℕ) (dest : List ℕ) (c : ℕ)
    → length dest < space
    → put space dest c ≡ some (dest ++ c ∷ [])
unfolding put
put_lem space dest c h = ground arith

copy_lem :
    (msg : List ℕ) (space j p : ℕ) (dest : List ℕ)
    → p + j ≤ length msg
    → length dest + j ≤ space
    → copy msg space j p dest ≡ some (dest ++ take j (drop p msg))
unfolding copy take
copy_lem msg space zero p dest h k = ap some (sym (append-nil dest))
copy_lem msg space (suc j) p dest h k =
    let (c, e) = get_elem_some msg p (omega arith) in
    let longer : length (dest ++ c ∷ []) ≡ length dest + 1 = length-append dest (c ∷ []) in
    let rest =
      copy_lem msg space j (suc p) (dest ++ c ∷ []) (omega arith) (omega (arith, longer)) in
    rw (e, put_lem space dest c (omega arith), rest, drop_step msg p c e)
      (ap some (append_assoc dest (c ∷ []) (take j (drop (suc p) msg))))

-- What stands before the next label.
unfoldable pub dotted : List ℕ → List ℕ
dotted dest = if length dest == 0 then dest else dest ++ 46 ∷ []

pub length-dotted : (dest : List ℕ) → length (dotted dest) ≤ suc (length dest)
unfolding dotted
length-dotted dest = elim (ℕ_discrete (length dest) 0) [
  | yes e ↦ rw e (omega (arith, e))
  | no h ↦
      let e : dotted dest ≡ dest ++ 46 ∷ [] = ground arith in
      rw e (omega (arith, length-append dest (46 ∷ [])))
]

pub data Turned (msg : List ℕ) (space dend src p : ℕ) (len : ℤ) (dest : List ℕ)
    : Next → Type 0 where
  failed : (d : List ℕ) → length d ≤ space → Turned msg space dend src p len dest (done (fail d))
  ended :
      get_elem? msg p ≡ some 0
      → length dest < space
      → Turned msg space dend src p len dest
          (done (record { ret = set_len src (p + 1) len; dest = dest ++ 0 ∷ [] }))
  jumped :
      (c d : ℕ)
      → get_elem? msg p ≡ some c
      → bit_and c 0xc0 ≢ 0
      → get_elem? msg (p + 1) ≡ some d
      → bit_or (bit_and c 0x3f * 2 ^ 8) d < length msg
      → Turned msg space dend src p len dest
          (more (bit_or (bit_and c 0x3f * 2 ^ 8) d) (set_len src (p + 2) len) dest)
  labelled :
      (c : ℕ)
      → get_elem? msg p ≡ some c
      → bit_and c 0xc0 ≡ 0
      → c ≢ 0
      → p + 1 + c < length msg
      → length (dotted dest) + c < dend
      → Turned msg space dend src p len dest
          (more (p + 1 + c) len (dotted dest ++ take c (drop (p + 1) msg)))

kind_cases :
    (c : ℕ)
    → ((kind c ≡ root) × (c ≡ 0))
      ⊎ ((kind c ≡ label) × (bit_and c 0xc0 ≡ 0) × (c ≢ 0))
      ⊎ ((kind c ≡ pointer) × (bit_and c 0xc0 ≢ 0))
unfolding kind
kind_cases c = elim (ℕ_discrete (bit_and c 0xc0) 0) [
  | no h ↦ inr (inr (ground arith, h))
  | yes e ↦ elim (ℕ_discrete c 0) [
    | yes z ↦ inl (ground arith, z)
    | no h ↦ inr (inl (ground arith, e, h))
  ]
]

module _ (msg : List ℕ) (space dend src p : ℕ) (len : ℤ) (dest : List ℕ) (inside : p < length msg)
    (room : length dest < dend) (bound : dend ≤ space) where
  abbrev Result : Option Next → Type 0
  Result o = (next : Next) × (o ≡ some next) × Turned msg space dend src p len dest next

  follow_lem :
      (c : ℕ) → get_elem? msg p ≡ some c → bit_and c 0xc0 ≢ 0 → Result (follow msg src c p len dest)
  unfolding follow
  follow_lem c at h = elim (ℕ_discrete (p + 1) (length msg)) [
    | yes e ↦ (done (fail dest), ground arith, failed dest (omega arith))
    | no other ↦
        let (d, after) = get_elem_some msg (p + 1) (omega (arith, other)) in
        elim (dec_lt (bit_or (bit_and c 0x3f * 2 ^ 8) d) (length msg)) [
          | yes lt ↦ (
            more (bit_or (bit_and c 0x3f * 2 ^ 8) d) (set_len src (p + 2) len) dest,
            rw
                (
                  ==-ne (p + 1) (length msg) other,
                  after,
                  leb-gt (length msg) (bit_or (bit_and c 0x3f * 2 ^ 8) d) lt,
                )
                refl,
            jumped c d at h after lt,
          )
          | no ge ↦ (
            done (fail dest),
            rw
                (
                  ==-ne (p + 1) (length msg) other,
                  after,
                  leb-le (length msg) (bit_or (bit_and c 0x3f * 2 ^ 8) d) (omega (arith, ge)),
                )
                refl,
            failed dest (omega arith),
          )
        ]
  ]

  start_label : (if length dest == 0 then some dest else put space dest 46) ≡ some (dotted dest)
  unfolding dotted put
  start_label = ground arith

  take_label_lem :
      (c : ℕ)
      → get_elem? msg p ≡ some c
      → bit_and c 0xc0 ≡ 0
      → c ≢ 0
      → Result (take_label msg space dend c p len dest)
  unfolding take_label
  take_label_lem c at low h =
      let d = dotted dest in
      let longer = length-dotted dest in
      elim (Bool-cases (leb (length msg - (p + 1)) c || leb (dend - length d) c)) [
        | inl stop ↦ (done (fail d), rw (start_label, stop) refl, failed d (omega arith))
        | inr go ↦
            let within : (p + 1 + c < length msg) × (length d + c < dend) =
              let (a, b) = neither (length msg - (p + 1)) (dend - length d) c go in
              (omega (arith, a), omega (arith, b)) in
            let copied =
              copy_lem msg space c (p + 1) d (omega (arith, within.0)) (omega (arith, within.1)) in
            (
              more (p + 1 + c) len (d ++ take c (drop (p + 1) msg)),
              rw (start_label, go, copied) refl,
              labelled c at low h within.0 within.1,
            )
      ]

  finish_lem : get_elem? msg p ≡ some 0 → Result (finish space src p len dest)
  unfolding finish
  finish_lem at = (
    done (record { ret = set_len src (p + 1) len; dest = dest ++ 0 ∷ [] }),
    rw (put_lem space dest 0 (omega arith)) refl,
    ended at (omega arith),
  )

  abbrev dispatch : ℕ → Kind → Option Next
  dispatch c pointer = follow msg src c p len dest
  dispatch c label = take_label msg space dend c p len dest
  dispatch c root = finish space src p len dest

  turn_kind :
      (c : ℕ) (k : Kind)
      → get_elem? msg p ≡ some c
      → kind c ≡ k
      → turn msg space dend src p len dest ≡ dispatch c k
  unfolding turn
  turn_kind c k at e = ap (λ o. o >>= λ c. dispatch c (kind c)) at ∙ ap (dispatch c) e

  turn_at : (c : ℕ) → get_elem? msg p ≡ some c → Result (turn msg space dend src p len dest)
  turn_at c at = elim (kind_cases c) [
    | inl (k, z) ↦
        let (next, run, is) = finish_lem (rw z at at) in (next, turn_kind c root at k ∙ run, is)
    | inr (inl (k, low, h)) ↦
        let (next, run, is) = take_label_lem c at low h in (next, turn_kind c label at k ∙ run, is)
    | inr (inr (k, h)) ↦
        let (next, run, is) = follow_lem c at h in (next, turn_kind c pointer at k ∙ run, is)
  ]

  pub turn_lem : Result (turn msg space dend src p len dest)
  turn_lem = let (c, at) = get_elem_some msg p inside in turn_at c at
