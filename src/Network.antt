-- ===== src/Network.antt =====
-- `dn_expand.c`: a domain name in a message, whose labels may be shared by pointers. Addresses are
-- indices into the message; a read past its end, and a write past the end of the buffer, is `none`.
pub mod Turn
pub mod Expand
pub mod Names
mod Examples
use leblibc.Prelude.{
  ℕ, zero, suc, ◌+◌, ◌-◌, ◌*◌, ◌^◌, List, [], ◌∷◌, ◌++◌, Bool, true, false, ◌||◌, ltb, leb, ◌==◌,
  if◌then◌else◌, bit_and, bit_or, Option, none, some, ◌>>=◌, length, get_elem?,
}
use leblibc.Prelude.Int.{ℤ, pos, negsuc, sub_ℕ, is_negative, pos_part}

-- What is returned, and the bytes written.
pub record Expanded : Type 0 where
  pub ret : ℤ
  pub dest : List ℕ

abbrev pub fail : List ℕ → Expanded
fail dest = record { ret = negsuc 0; dest = dest }

-- `*dest++ = c;` in a buffer of `space` bytes.
unfoldable pub put : ℕ → List ℕ → ℕ → Option (List ℕ)
put space dest c = if ltb (length dest) space then some (dest ++ c ∷ []) else none

-- `while (j--) *dest++ = *p++;`
unfoldable pub copy : List ℕ → ℕ → ℕ → ℕ → List ℕ → Option (List ℕ)
unfolding put
copy msg space zero p dest = some dest
copy msg space (suc j) p dest =
    get_elem? msg p >>= λ c. put space dest c >>= λ d. copy msg space j (suc p) d

-- The three branches of the loop.
pub data Kind : Type 0 where
  pointer : Kind
  label : Kind
  root : Kind

unfoldable pub kind : ℕ → Kind
kind c = if bit_and c 0xc0 == 0 then (if c == 0 then root else label) else pointer

-- What a turn does: it returns, or goes on with new `p`, `len` and `dest`.
pub data Next : Type 0 where
  done : Expanded → Next
  more : (p : ℕ) → (len : ℤ) → (dest : List ℕ) → Next

-- `if (len < 0) len = p+k-src;`
unfoldable pub set_len : ℕ → ℕ → ℤ → ℤ
set_len src p len = if is_negative len then sub_ℕ p src else len

unfoldable pub follow : List ℕ → ℕ → ℕ → ℕ → ℤ → List ℕ → Option Next
unfolding set_len
follow msg src c p len dest =
    if p + 1 == length msg
    then some (done (fail dest))
    else get_elem? msg (p + 1) >>= λ d.
        let j = bit_or (bit_and c 0x3f * 2 ^ 8) d in
        if leb (length msg) j
        then some (done (fail dest))
        else some (more j (set_len src (p + 2) len) dest)

unfoldable pub take_label : List ℕ → ℕ → ℕ → ℕ → ℕ → ℤ → List ℕ → Option Next
unfolding put copy
take_label msg space dend c p len dest =
    (if length dest == 0 then some dest else put space dest 46) >>= λ d.
    if leb (length msg - (p + 1)) c || leb (dend - length d) c
    then some (done (fail d))
    else copy msg space c (p + 1) d >>= λ e. some (more (p + 1 + c) len e)

unfoldable pub finish : ℕ → ℕ → ℕ → ℤ → List ℕ → Option Next
unfolding put set_len
finish space src p len dest =
    put space dest 0 >>= λ d. some (done (record { ret = set_len src (p + 1) len; dest = d }))

unfoldable pub turn : List ℕ → ℕ → ℕ → ℕ → ℕ → ℤ → List ℕ → Option Next
unfolding kind follow take_label finish
turn msg space dend src p len dest = get_elem? msg p >>= λ c. elim (kind c) [
  | pointer ↦ follow msg src c p len dest
  | label ↦ take_label msg space dend c p len dest
  | root ↦ finish space src p len dest
]

-- `for (i=0; i < end-base; i+=2)`.
unfoldable pub expand_loop : List ℕ → ℕ → ℕ → ℕ → ℕ → ℕ → ℕ → ℤ → List ℕ → Option Expanded
unfolding turn
expand_loop msg space dend src zero i p len dest = none
expand_loop msg space dend src (suc fuel) i p len dest = elim (ltb i (length msg)) [
  | false ↦ some (fail dest)
  | true ↦ turn msg space dend src p len dest >>= λ next. elim next [
    | done r ↦ some r
    | more q l d ↦ expand_loop msg space dend src fuel (i + 2) q l d
  ]
]

-- The fuel is more than the number of turns, as `i` grows in each.
unfoldable pub dn_expand : List ℕ → ℕ → ℤ → Option Expanded
unfolding expand_loop
dn_expand msg src space =
    let room = pos_part space in
    let dend = if ltb 254 room then 254 else room in
    if (src == length msg) || (room == 0)
    then some (fail [])
    else expand_loop msg room dend src (suc (length msg)) 0 src (negsuc 0) []
