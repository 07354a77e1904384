-- ===== src/Network/Expand.antt =====
-- The whole loop: it ends, stays in bounds, and writes the name.
use leblibc.Prelude.{
  ℕ, zero, suc, ◌+◌, ◌-◌, ◌*◌, ◌^◌, ◌≤◌, ◌<◌, ◌≡◌, ◌≢◌, refl, ◌∙◌, List, [], ◌∷◌, ◌++◌, true, false,
  ◌||◌, ltb, ◌==◌, if◌then◌else◌, bit_and, bit_or, Option, some, length, length-append, get_elem?,
  lt→ltb, Bool-cases, inl, inr, arith,
}
use native.Mathlib.Decide.{dec_lt}
use leblibc.Prelude.Int.{ℤ, pos, negsuc, is_negative, pos_part}
use leblibc.Prelude.Slices.{take, drop, length-take, length-drop}
use leblibc.Network.{Expanded, fail, Next, done, more, set_len, turn, expand_loop, dn_expand}
use leblibc.Network.Turn.{Turned, failed, ended, jumped, labelled, turn_lem, dotted}
use leblibc.Network.Names.{
  IsName, name_end, name_label, name_pointer, IsEnd, end_root, end_pointer, end_label, text,
}

-- The length returned, where the loop is at `p` and has stored `len`: that one, or if it is negative the
-- one up to the end of the name.
abbrev pub IsLength : List ℕ → ℕ → ℕ → ℤ → ℤ → Type 0
IsLength msg src p len ret =
    (is_negative len ≡ true → (e : ℕ) × IsEnd msg p e × (src ≤ e) × (ret ≡ pos (e - src)))
    × (is_negative len ≡ false → ret ≡ len)

-- What stands in the buffer is within it; after an error -1 is returned, else the buffer holds the name
-- at `p`, behind the text `dest`.
pub data IsResult (msg : List ℕ) (space src p : ℕ) (len : ℤ) (dest : List ℕ) (r : Expanded)
    : Type 0 where
  is_error : r.ret ≡ negsuc 0 → length r.dest ≤ space → IsResult msg space src p len dest r
  is_name :
      (labels : List (List ℕ))
      → IsName msg p labels
      → r.dest ≡ text dest labels ++ 0 ∷ []
      → IsLength msg src p len r.ret
      → length r.dest ≤ space
      → IsResult msg space src p len dest r

-- The length is not known yet only before a pointer, where the loop is behind the start.
abbrev IsStart : ℕ → ℕ → ℤ → Type 0
IsStart src p len = is_negative len ≡ true → src ≤ p

set_len-positive :
    (src p q : ℕ) (len : ℤ) → IsStart src p len → p ≤ q → is_negative (set_len src q len) ≡ false
unfolding set_len
set_len-positive src p q (pos n) from h = refl
set_len-positive src p q (negsuc n) from h = let le = from refl in ground arith

set_len-negative :
    (src q : ℕ) (len : ℤ) → is_negative len ≡ true → src ≤ q → set_len src q len ≡ pos (q - src)
unfolding set_len
set_len-negative src q (pos n) neg le = absurd (ground arith)
set_len-negative src q (negsuc n) neg le = ground arith

set_len-known : (src q : ℕ) (len : ℤ) → is_negative len ≡ false → set_len src q len ≡ len
unfolding set_len
set_len-known src q (pos n) known = refl
set_len-known src q (negsuc n) known = absurd (ground arith)

ltb-ge : (a b : ℕ) → b ≤ a → ltb a b ≡ false
ltb-ge a b h = ground arith

module _ (msg : List ℕ) (space dend src : ℕ) (bound : dend ≤ space) where
  Result-jumped :
      {p : ℕ} {len : ℤ} {dest : List ℕ} {r : Expanded} (c d : ℕ)
      → get_elem? msg p ≡ some c
      → bit_and c 0xc0 ≢ 0
      → get_elem? msg (p + 1) ≡ some d
      → IsStart src p len
      → IsResult msg space src (bit_or (bit_and c 0x3f * 2 ^ 8) d) (set_len src (p + 2) len) dest r
      → IsResult msg space src p len dest r
  Result-jumped c d at h after from (is_error e room) = is_error e room
  Result-jumped {p} {len} {r} c d at h after from (is_name labels name e ret room) =
      let known = ret.1 (set_len-positive src p (p + 2) len from (omega arith)) in
      let returned : IsLength msg src p len r.ret = (
        λ neg.
            let le : src ≤ p + 2 = omega (arith, from neg) in
            (p + 2, end_pointer c at h, le, known ∙ set_len-negative src (p + 2) len neg le),
        λ positive. known ∙ set_len-known src (p + 2) len positive,
      ) in
      is_name labels (name_pointer c d at h after name) e returned room

  Result-labelled :
      {p : ℕ} {len : ℤ} {dest : List ℕ} {r : Expanded} (c : ℕ)
      → get_elem? msg p ≡ some c
      → bit_and c 0xc0 ≡ 0
      → c ≢ 0
      → p + 1 + c < length msg
      → IsResult msg space src (p + 1 + c) len (dotted dest ++ take c (drop (p + 1) msg)) r
      → IsResult msg space src p len dest r
  unfolding text
  Result-labelled c at low h inside (is_error e room) = is_error e room
  Result-labelled {p} {len} {r} c at low h inside (is_name labels name e ret room) =
      let returned : IsLength msg src p len r.ret = (
        λ neg.
            let (stop, end, le, known) = ret.0 neg in (stop, end_label c at low h end, le, known),
        ret.1,
      ) in
      is_name (take c (drop (p + 1) msg) ∷ labels) (name_label c at low h inside name) e returned
        room

  abbrev Ends : ℕ → ℕ → ℕ → ℤ → List ℕ → Type 0
  Ends fuel i p len dest =
      (r : Expanded) × (expand_loop msg space dend src fuel i p len dest ≡ some r)
      × IsResult msg space src p len dest r

  abbrev resume : ℕ → ℕ → Next → Option Expanded
  resume fuel i (done r) = some r
  resume fuel i (more q l d) = expand_loop msg space dend src fuel (i + 2) q l d

  loop_step :
      (fuel i p : ℕ) (len : ℤ) (dest : List ℕ) (next : Next)
      → i < length msg
      → turn msg space dend src p len dest ≡ some next
      → expand_loop msg space dend src (suc fuel) i p len dest ≡ resume fuel i next
  unfolding expand_loop
  loop_step fuel i p len dest (done r) less run =
      rw (expand_loop, lt→ltb i (length msg) less, run) refl
  loop_step fuel i p len dest (more q l d) less run =
      rw (expand_loop, lt→ltb i (length msg) less, run) refl

  loop_past :
      (fuel i p : ℕ) (len : ℤ) (dest : List ℕ)
      → length msg ≤ i
      → expand_loop msg space dend src (suc fuel) i p len dest ≡ some (fail dest)
  unfolding expand_loop
  loop_past fuel i p len dest past = rw (expand_loop, ltb-ge i (length msg) past) refl

  after_turn :
      (fuel i p : ℕ) (len : ℤ) (dest : List ℕ) (next : Next)
      → i < length msg
      → length dest < dend
      → IsStart src p len
      → turn msg space dend src p len dest ≡ some next
      → Turned msg space dend src p len dest next
      → ((q : ℕ) (l : ℤ) (d : List ℕ)
          → q < length msg
          → length d < dend
          → IsStart src q l
          → Ends fuel (i + 2) q l d)
      → Ends (suc fuel) i p len dest
  unfolding text
  after_turn fuel i p len dest next less short from run (failed d room) rest =
      (fail d, loop_step fuel i p len dest next less run, is_error refl room)
  after_turn fuel i p len dest next less short from run (ended at room) rest = (
    record { ret = set_len src (p + 1) len; dest = dest ++ 0 ∷ [] },
    loop_step fuel i p len dest next less run,
    is_name [] (name_end at) refl
        (
          λ neg.
              let le : src ≤ p + 1 = omega (arith, from neg) in
              (p + 1, end_root at, le, set_len-negative src (p + 1) len neg le),
          λ known. set_len-known src (p + 1) len known,
        )
        (omega (arith, room, length-append dest (0 ∷ []))),
  )
  after_turn fuel i p len dest next less short from run (jumped c d at h after inside) rest =
      let (r, more_run, is) =
        rest (bit_or (bit_and c 0x3f * 2 ^ 8) d) (set_len src (p + 2) len) dest inside short
          (λ neg. absurd (ground (arith, set_len-positive src p (p + 2) len from (omega arith)))) in
      (
        r,
        loop_step fuel i p len dest next less run ∙ more_run,
        Result-jumped c d at h after from is,
      )
  after_turn fuel i p len dest next less short from run (labelled c at low h inside room) rest =
      let label = take c (drop (p + 1) msg) in
      let long : length label ≤ c = omega (
        arith,
        length-take c (drop (p + 1) msg) (omega (arith, length-drop (p + 1) msg, inside)),
      ) in
      let (r, more_run, is) =
        rest (p + 1 + c) len (dotted dest ++ label) inside
          (omega (arith, long, room, length-append (dotted dest) label))
          (λ neg. omega (arith, from neg)) in
      (
        r,
        loop_step fuel i p len dest next less run ∙ more_run,
        Result-labelled c at low h inside is,
      )

  loop_lem :
      (fuel i p : ℕ) (len : ℤ) (dest : List ℕ)
      → length msg < i + fuel
      → 0 < fuel
      → p < length msg
      → length dest < dend
      → IsStart src p len
      → Ends fuel i p len dest
  loop_lem zero i p len dest enough some_fuel inside room from = absurd (omega arith)
  loop_lem (suc fuel) i p len dest enough some_fuel inside room from =
      elim (dec_lt i (length msg)) [
        | no past ↦ (
          fail dest,
          loop_past fuel i p len dest (omega (arith, past)),
          is_error refl (omega (arith, bound, room)),
        )
        | yes less ↦
            let (next, run, is) = turn_lem msg space dend src p len dest inside room bound in
            after_turn fuel i p len dest next less room from run is (λ q l d within short start.
              loop_lem fuel (i + 2) q l d (omega (arith, enough)) (omega (arith, less, enough))
                within short start)
      ]

abbrev limit : ℕ → ℕ
limit room = if ltb 254 room then 254 else room

limit_lem : (room : ℕ) → (limit room ≤ room) × (room ≢ 0 → 0 < limit room)
limit_lem room = ground arith

guards : (a b c : ℕ) → (a == b) || (c == 0) ≡ false → (a ≢ b) × (c ≢ 0)
guards a b c h = (λ e. ground arith, λ e. ground arith)

-- For a start within the message, dn_expand ends, reads nothing past the message, and writes at
-- most as many bytes as the space it is given; it returns -1, or how far the name at the start
-- goes, up to behind its zero or its first pointer, where the buffer then holds the labels that the
-- bytes at the start stand for, over all pointers, with dots between them and a zero behind.
pub dn_expand_lem :
    (msg : List ℕ) (src : ℕ) (space : ℤ)
    → src ≤ length msg
    → (r : Expanded) × (dn_expand msg src space ≡ some r)
      × IsResult msg (pos_part space) src src (negsuc 0) [] r
unfolding dn_expand
dn_expand_lem msg src space inside =
    let room = pos_part space in
    let (le, some_room) = limit_lem room in
    elim (Bool-cases ((src == length msg) || (room == 0))) [
      | inl stop ↦ (fail [], rw stop refl, is_error refl (omega arith))
      | inr go ↦
          let (apart, wide) = guards src (length msg) room go in
          let (r, run, is) =
            loop_lem msg room (limit room) src le (suc (length msg)) 0 src (negsuc 0) []
              (omega arith) (omega arith) (omega (arith, inside, apart)) (some_room wide)
              (λ neg. omega arith) in
          (r, rw go run, is)
    ]
