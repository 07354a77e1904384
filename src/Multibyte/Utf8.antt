-- ===== src/Multibyte/Utf8.antt =====
-- UTF-8 as RFC 3629 tabulates it: which bytes may follow a lead byte, and the character that a
-- well-formed sequence stands for. The decoder is compared with this reference.
pub mod Agrees
use leblibc.Prelude.{
  ℕ, suc, ◌+◌, ◌-◌, ◌*◌, ◌<◌, List, [], ◌∷◌, Bool, true, false, ltb, ◌==◌, if◌then◌else◌, some,
  none,
}
use leblibc.Multibyte.Table.{outside, start_state}
use leblibc.Multibyte.Decode.{Decoded, length_of, incomplete, bad}
use leblibc.Multibyte.Decode.Loop.{low6, then_one, then_two, finished, pending}

abbrev pub two_bytes : ℕ → List ℕ → Decoded
two_bytes b [] = pending (start_state b)
two_bytes b (b1 ∷ rest) =
    if outside 0x80 0xc0 b1 then bad else finished 2 ((b - 0xc0) * 64 + low6 b1)

abbrev pub three_bytes : ℕ → ℕ → ℕ → List ℕ → Decoded
three_bytes lo hi b [] = pending (start_state b)
three_bytes lo hi b (b1 ∷ []) =
    if outside lo hi b1 then bad else pending (then_one ((b - 0xe0) * 64 + low6 b1))
three_bytes lo hi b (b1 ∷ b2 ∷ rest) =
    if outside lo hi b1
    then bad
    else if outside 0x80 0xc0 b2
    then bad
    else finished 3 (((b - 0xe0) * 64 + low6 b1) * 64 + low6 b2)

abbrev pub four_bytes : ℕ → ℕ → ℕ → List ℕ → Decoded
four_bytes lo hi b [] = pending (start_state b)
four_bytes lo hi b (b1 ∷ []) =
    if outside lo hi b1 then bad else pending (then_two ((b - 0xf0) * 64 + low6 b1))
four_bytes lo hi b (b1 ∷ b2 ∷ []) =
    if outside lo hi b1
    then bad
    else if outside 0x80 0xc0 b2
    then bad
    else pending (then_one (((b - 0xf0) * 64 + low6 b1) * 64 + low6 b2))
four_bytes lo hi b (b1 ∷ b2 ∷ b3 ∷ rest) =
    if outside lo hi b1
    then bad
    else if outside 0x80 0xc0 b2
    then bad
    else if outside 0x80 0xc0 b3
    then bad
    else finished 4 ((((b - 0xf0) * 64 + low6 b1) * 64 + low6 b2) * 64 + low6 b3)

-- The ranges of the second byte, by the lead byte.
abbrev pub second_lo : ℕ → ℕ
second_lo b = if b == 0xe0 then 0xa0 else if b == 0xf0 then 0x90 else 0x80

abbrev pub second_hi : ℕ → ℕ
second_hi b = if b == 0xed then 0xa0 else if b == 0xf4 then 0x90 else 0xc0

unfoldable pub decode : List ℕ → Decoded
decode [] = pending 0
decode (b ∷ rest) =
    if ltb b 0x80
    then finished (if b == 0 then 0 else 1) b
    else if ltb b 0xc2
    then bad
    else if ltb b 0xe0
    then two_bytes b rest
    else if ltb b 0xf0
    then three_bytes (second_lo b) (second_hi b) b rest
    else if ltb b 0xf5
    then four_bytes (second_lo b) (second_hi b) b rest
    else bad
