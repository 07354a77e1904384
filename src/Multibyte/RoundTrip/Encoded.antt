-- ===== src/Multibyte/RoundTrip/Encoded.antt =====
-- The bytes of a Unicode scalar value, by arithmetic, and what the reference makes of them.
use leblibc.Prelude.{
  ℕ, ◌+◌, ◌/◌, ◌%◌, ◌≤◌, ◌<◌, List, [], ◌∷◌, ◌++◌, ◌≡◌, false, ◌==◌, if◌then◌else◌, some, arith,
  ◌⊎◌, length, bit_or, bit_and,
}
use native.Mathlib.Decide.{dec_lt}
use leblibc.Prelude.Bits.{bit_or_join, bit_and_low}
use leblibc.Multibyte.Encode.{wcrtomb}
use leblibc.Multibyte.Decode.Loop.{finished}
use leblibc.Multibyte.Utf8.{decode}
use leblibc.Multibyte.Utf8.Agrees.{IsBytes}

-- A code point that is no surrogate.
abbrev pub IsScalar : ℕ → Type 0
IsScalar wc = (wc < 0xd800) ⊎ ((0xe000 ≤ wc) × (wc < 0x110000))

tail_byte : (x : ℕ) → bit_or 0x80 (bit_and x 0x3f) ≡ 0x80 + x % 64
tail_byte x = ground (arith, bit_and_low 6 x, bit_or_join 6 2 (x % 64))

pub wcrtomb_two :
    (wc : ℕ)
    → 0x80 ≤ wc
    → wc < 0x800
    → wcrtomb false wc ≡ some ((0xc0 + wc / 64) ∷ (0x80 + wc % 64) ∷ [])
unfolding wcrtomb
wcrtomb_two wc lo hi = ground (arith, tail_byte wc, bit_or_join 6 3 (wc / 64))

pub wcrtomb_three :
    (wc : ℕ)
    → 0x800 ≤ wc
    → wc < 0x10000
    → IsScalar wc
    → wcrtomb false wc ≡ some ((0xe0 + wc / 4096) ∷ (0x80 + wc / 64 % 64) ∷ (0x80 + wc % 64) ∷ [])
unfolding wcrtomb
wcrtomb_three wc lo hi sc =
    ground (arith, tail_byte wc, tail_byte (wc / 64), bit_or_join 5 7 (wc / 4096))

pub wcrtomb_four :
    (wc : ℕ)
    → 0x10000 ≤ wc
    → wc < 0x110000
    → wcrtomb false wc
      ≡ some (
          (0xf0 + wc / 262144)
          ∷ (0x80 + wc / 4096 % 64)
          ∷ (0x80 + wc / 64 % 64)
          ∷ (0x80 + wc % 64)
          ∷ [])
unfolding wcrtomb
wcrtomb_four wc lo hi = ground (
  arith,
  tail_byte wc,
  tail_byte (wc / 64),
  tail_byte (wc / 4096),
  bit_or_join 4 15 (wc / 262144),
)

-- An encoding that the reference decodes, whatever follows.
pub record IsEncoding (wc : ℕ) : Type 0 where
  pub bs : List ℕ
  pub encoded : wcrtomb false wc ≡ some bs
  pub bytes : IsBytes bs
  pub decoded :
      (rest : List ℕ) → decode (bs ++ rest) ≡ finished (if wc == 0 then 0 else length bs) wc

one_byte : (wc : ℕ) → wc < 0x80 → IsEncoding wc
unfolding decode wcrtomb
one_byte wc h = record {
  bs = wc ∷ [];
  encoded = ground arith;
  bytes = omega arith;
  decoded = λ rest. ground arith;
}

IsEncoding-two : (wc : ℕ) → 0x80 ≤ wc → wc < 0x800 → IsEncoding wc
unfolding decode
IsEncoding-two wc lo hi = record {
  bs = (0xc0 + wc / 64) ∷ (0x80 + wc % 64) ∷ [];
  encoded = wcrtomb_two wc lo hi;
  bytes = omega arith;
  decoded = λ rest. ground arith;
}

IsEncoding-three : (wc : ℕ) → 0x800 ≤ wc → wc < 0x10000 → IsScalar wc → IsEncoding wc
unfolding decode
IsEncoding-three wc lo hi sc = record {
  bs = (0xe0 + wc / 4096) ∷ (0x80 + wc / 64 % 64) ∷ (0x80 + wc % 64) ∷ [];
  encoded = wcrtomb_three wc lo hi sc;
  bytes = omega arith;
  decoded = λ rest. ground arith;
}

IsEncoding-four : (wc : ℕ) → 0x10000 ≤ wc → wc < 0x110000 → IsEncoding wc
unfolding decode
IsEncoding-four wc lo hi = record {
  bs =
      (0xf0 + wc / 262144)
      ∷ (0x80 + wc / 4096 % 64)
      ∷ (0x80 + wc / 64 % 64)
      ∷ (0x80 + wc % 64)
      ∷ [];
  encoded = wcrtomb_four wc lo hi;
  bytes = omega arith;
  decoded = λ rest. ground arith;
}

pub scalar-IsEncoding : (wc : ℕ) → IsScalar wc → IsEncoding wc
scalar-IsEncoding wc sc = elim (dec_lt wc 0x80) [
  | yes h ↦ one_byte wc h
  | no h ↦ elim (dec_lt wc 0x800) [
    | yes k ↦ IsEncoding-two wc (omega arith) k
    | no k ↦ elim (dec_lt wc 0x10000) [
      | yes m ↦ IsEncoding-three wc (omega arith) m sc
      | no m ↦ IsEncoding-four wc (omega arith) (omega arith)
    ]
  ]
]
