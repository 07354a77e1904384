-- ===== src/Multibyte/Decode/Loop.antt =====
-- The loop of `mbrtowc` by how many bytes are to come. A state keeps the bits read so far in its low
-- 26 bits, under marks that reach bit 31 while more than one byte is to come.
use leblibc.Prelude.{
  ℕ, suc, ◌+◌, ◌-◌, ◌*◌, ◌%◌, ◌^◌, ◌≤◌, ◌<◌, List, [], ◌∷◌, ◌≡◌, true, false, if◌then◌else◌, some,
  none, arith, ◌∙◌,
}
use leblibc.Prelude.Bits.{bit_or_join, bit_and_bit}
use leblibc.Multibyte.{word_mod}
use leblibc.Multibyte.Table.{outside, not_continuation-outside}
use leblibc.Multibyte.Decode.{Decoded, length_of, incomplete, bad, shift_in, complete, loop}

abbrev pub IsContinuation : ℕ → Type 0
IsContinuation b = (0x80 ≤ b) × (b < 0xc0)

-- The six bits that a continuation byte carries.
abbrev pub low6 : ℕ → ℕ
low6 b = b - 0x80

pub shift_in_sum : (c v b : ℕ) → c % 2 ^ 26 ≡ v → IsContinuation b → shift_in c b ≡ v * 64 + low6 b
shift_in_sum c v b e h =
    let high : c * 2 ^ 6 % word_mod ≡ v * 2 ^ 6 = omega arith in
    let low : (b + word_mod - 0x80) % word_mod ≡ low6 b = omega arith in
    rw (high, low) (bit_or_join 6 v (low6 b) (omega arith))

pub complete_small : (c : ℕ) → c < 2 ^ 31 → complete c ≡ true
complete_small c h = ground (arith, bit_and_bit 31 c)

pub complete_marked : (c : ℕ) → 2 ^ 31 ≤ c → c < 2 ^ 32 → complete c ≡ false
complete_marked c lo hi = ground (arith, bit_and_bit 31 c)

-- What the low 26 bits say: the marks for the bytes to come after this one, and the bits `v`.
abbrev pub Last : ℕ → ℕ → Type 0
Last c v = (c % 2 ^ 26 ≡ v) × (v < 2 ^ 16)

abbrev pub OneMore : ℕ → ℕ → Type 0
OneMore c v = (c % 2 ^ 26 ≡ 0x0300_0000 + v) × (v < 2 ^ 10)

abbrev pub TwoMore : ℕ → ℕ → Type 0
TwoMore c v = (c % 2 ^ 26 ≡ 0x0300_0000 + 0x000c_0000 + v) × (v < 2 ^ 4)

-- The state after one more byte, where one and where two are still to come.
abbrev pub then_one : ℕ → ℕ
then_one w = 0xc000_0000 + w

abbrev pub then_two : ℕ → ℕ
then_two w = 0xc000_0000 + 0x0300_0000 + w

abbrev pub finished : ℕ → ℕ → Decoded
finished n wc = record { state = 0; stored = some wc; ret = length_of n }

abbrev pub pending : ℕ → Decoded
pending c = record { state = c; stored = none; ret = incomplete }

pub loop-Last :
    (used c v b : ℕ) (rest : List ℕ)
    → Last c v
    → IsContinuation b
    → loop used c b rest ≡ finished (suc used) (v * 64 + low6 b)
unfolding loop
loop-Last used c v b [] h k =
    rw (shift_in_sum c v b h.0 k, complete_small (v * 64 + low6 b) (omega arith))
loop-Last used c v b (b' ∷ rest) h k =
    rw (shift_in_sum c v b h.0 k, complete_small (v * 64 + low6 b) (omega arith))

-- A byte that leaves bit 31 set: the state is kept at the end of the input, and otherwise the next
-- byte is tested and the loop goes on.
loop_end :
    (used c c' b : ℕ) → shift_in c b ≡ c' → complete c' ≡ false → loop used c b [] ≡ pending c'
unfolding loop
loop_end used c c' b e m = rw (e, m)

loop_next :
    (used c c' b b' : ℕ) (rest : List ℕ)
    → shift_in c b ≡ c'
    → complete c' ≡ false
    → b' < 256
    → loop used c b (b' ∷ rest) ≡ (if outside 0x80 0xc0 b' then bad else loop (suc used) c' b' rest)
unfolding loop
loop_next used c c' b b' rest e m lt = rw (e, m, not_continuation-outside b' lt)

module _ (c v b : ℕ) (k : IsContinuation b) where
  abbrev bits : ℕ
  bits = v * 64 + low6 b

  module _ (h : OneMore c v) where
    pub one_shifted : shift_in c b ≡ then_one bits
    one_shifted = shift_in_sum c (0x0300_0000 + v) b h.0 k ∙ omega arith

    pub one_marked : complete (then_one bits) ≡ false
    one_marked = complete_marked (then_one bits) (omega arith) (omega arith)

    pub one_Last : Last (then_one bits) bits
    one_Last = omega arith

    pub loop_one_end : (used : ℕ) → loop used c b [] ≡ pending (then_one bits)
    loop_one_end used = loop_end used c (then_one bits) b one_shifted one_marked

    pub loop_one :
        (used b' : ℕ) (rest : List ℕ)
        → b' < 256
        → loop used c b (b' ∷ rest)
          ≡ (if outside 0x80 0xc0 b' then bad else loop (suc used) (then_one bits) b' rest)
    loop_one used b' rest lt = loop_next used c (then_one bits) b b' rest one_shifted one_marked lt

  module _ (h : TwoMore c v) where
    pub two_shifted : shift_in c b ≡ then_two bits
    two_shifted = shift_in_sum c (0x0300_0000 + 0x000c_0000 + v) b h.0 k ∙ omega arith

    pub two_marked : complete (then_two bits) ≡ false
    two_marked = complete_marked (then_two bits) (omega arith) (omega arith)

    pub two_OneMore : OneMore (then_two bits) bits
    two_OneMore = omega arith

    pub loop_two_end : (used : ℕ) → loop used c b [] ≡ pending (then_two bits)
    loop_two_end used = loop_end used c (then_two bits) b two_shifted two_marked

    pub loop_two :
        (used b' : ℕ) (rest : List ℕ)
        → b' < 256
        → loop used c b (b' ∷ rest)
          ≡ (if outside 0x80 0xc0 b' then bad else loop (suc used) (then_two bits) b' rest)
    loop_two used b' rest lt = loop_next used c (then_two bits) b b' rest two_shifted two_marked lt

pub outside-IsContinuation :
    (lo hi b : ℕ) → 0x80 ≤ lo → hi ≤ 0xc0 → outside lo hi b ≡ false → IsContinuation b
outside-IsContinuation lo hi b p q e = ground arith
