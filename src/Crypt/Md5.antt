-- ===== src/Crypt/Md5.antt =====
-- The hash in `crypt_md5.c`, up to `md5_update`; words have 32 bits, and the lowest byte comes first.
pub mod Digest
mod Examples
use leblibc.Prelude.{
  ℕ, zero, suc, ◌+◌, ◌-◌, ◌*◌, ◌/◌, ◌%◌, ◌^◌, List, [], ◌∷◌, ◌++◌, get_or, bit_and, bit_or, bit_xor,
}
use leblibc.Crypt.Stream.{Scheme, Context, update, pad}

abbrev word_mod : ℕ
word_mod = 2 ^ 32

rol : ℕ → ℕ → ℕ
rol n k = bit_or (n * 2 ^ k % word_mod) (n / 2 ^ (32 - k))

-- The macros `F`, `G`, `H` and `I`.
f : ℕ → ℕ → ℕ → ℕ
f x y z = bit_xor z (bit_and x (bit_xor y z))

g : ℕ → ℕ → ℕ → ℕ
g x y z = bit_xor y (bit_and z (bit_xor y x))

h : ℕ → ℕ → ℕ → ℕ
h x y z = bit_xor (bit_xor x y) z

i : ℕ → ℕ → ℕ → ℕ
i x y z = bit_xor y (bit_or x (word_mod - 1 - z))

-- `FF`, `GG`, `HH` and `II`, with the function as an argument: the new value of `a`.
mix : (ℕ → ℕ → ℕ → ℕ) → ℕ → ℕ → ℕ → ℕ → ℕ → ℕ → ℕ → ℕ
unfolding rol
mix fn a b c d w s t = (rol ((a + fn b c d + w + t) % word_mod) s + b) % word_mod

tab : List ℕ
tab =
    0xd76aa478 ∷ 0xe8c7b756 ∷ 0x242070db ∷ 0xc1bdceee ∷ 0xf57c0faf ∷ 0x4787c62a ∷ 0xa8304613
    ∷ 0xfd469501 ∷ 0x698098d8 ∷ 0x8b44f7af ∷ 0xffff5bb1 ∷ 0x895cd7be ∷ 0x6b901122 ∷ 0xfd987193
    ∷ 0xa679438e ∷ 0x49b40821 ∷ 0xf61e2562 ∷ 0xc040b340 ∷ 0x265e5a51 ∷ 0xe9b6c7aa ∷ 0xd62f105d
    ∷ 0x02441453 ∷ 0xd8a1e681 ∷ 0xe7d3fbc8 ∷ 0x21e1cde6 ∷ 0xc33707d6 ∷ 0xf4d50d87 ∷ 0x455a14ed
    ∷ 0xa9e3e905 ∷ 0xfcefa3f8 ∷ 0x676f02d9 ∷ 0x8d2a4c8a ∷ 0xfffa3942 ∷ 0x8771f681 ∷ 0x6d9d6122
    ∷ 0xfde5380c ∷ 0xa4beea44 ∷ 0x4bdecfa9 ∷ 0xf6bb4b60 ∷ 0xbebfbc70 ∷ 0x289b7ec6 ∷ 0xeaa127fa
    ∷ 0xd4ef3085 ∷ 0x04881d05 ∷ 0xd9d4d039 ∷ 0xe6db99e5 ∷ 0x1fa27cf8 ∷ 0xc4ac5665 ∷ 0xf4292244
    ∷ 0x432aff97 ∷ 0xab9423a7 ∷ 0xfc93a039 ∷ 0x655b59c3 ∷ 0x8f0ccc92 ∷ 0xffeff47d ∷ 0x85845dd1
    ∷ 0x6fa87e4f ∷ 0xfe2ce6e0 ∷ 0xa3014314 ∷ 0x4e0811a1 ∷ 0xf7537e82 ∷ 0xbd3af235 ∷ 0x2ad7d2bb
    ∷ 0xeb86d391 ∷ []

-- The four words of the state.
pub record Words : Type 0 where
  pub a : ℕ
  pub b : ℕ
  pub c : ℕ
  pub d : ℕ

input_word : List ℕ → ℕ → ℕ
input_word buf k =
    let byte = λ (j : ℕ). get_or buf (4 * k + j) 0 in
    bit_or (bit_or (bit_or (byte 0) (byte 1 * 2 ^ 8)) (byte 2 * 2 ^ 16)) (byte 3 * 2 ^ 24)

input_words : ℕ → List ℕ → List ℕ
unfolding input_word
input_words zero buf = []
input_words (suc n) buf = input_words n buf ++ input_word buf n ∷ []

-- What the four loops differ in: the function, the index into `W`, and the rotations.
record Pass : Type 0 where
  fn : ℕ → ℕ → ℕ → ℕ
  index : ℕ → ℕ
  rot_a : ℕ
  rot_d : ℕ
  rot_c : ℕ
  rot_b : ℕ

-- The body of a loop, four steps from the index `k` on.
four_steps : Pass → List ℕ → ℕ → Words → Words
unfolding mix tab
four_steps p w k s =
    let word = λ (j : ℕ). get_or w (p.index j) 0 in
    let a = mix p.fn s.a s.b s.c s.d (word k) p.rot_a (get_or tab k 0) in
    let d = mix p.fn s.d a s.b s.c (word (k + 1)) p.rot_d (get_or tab (k + 1) 0) in
    let c = mix p.fn s.c d a s.b (word (k + 2)) p.rot_c (get_or tab (k + 2) 0) in
    let b = mix p.fn s.b c d a (word (k + 3)) p.rot_b (get_or tab (k + 3) 0) in
    record { a = a; b = b; c = c; d = d }

-- A loop of `n` turns from the index `k` on.
pass_loop : ℕ → Pass → List ℕ → ℕ → Words → Words
unfolding four_steps
pass_loop zero p w k s = s
pass_loop (suc n) p w k s = pass_loop n p w (k + 4) (four_steps p w k s)

pass_f : Pass
unfolding f
pass_f = record { fn = f; index = λ k. k; rot_a = 7; rot_d = 12; rot_c = 17; rot_b = 22 }

pass_g : Pass
unfolding g
pass_g = record {
  fn = g;
  index = λ k. (5 * k + 1) % 16;
  rot_a = 5;
  rot_d = 9;
  rot_c = 14;
  rot_b = 20;
}

pass_h : Pass
unfolding h
pass_h = record {
  fn = h;
  index = λ k. (3 * k + 5) % 16;
  rot_a = 4;
  rot_d = 11;
  rot_c = 16;
  rot_b = 23;
}

pass_i : Pass
unfolding i
pass_i = record { fn = i; index = λ k. 7 * k % 16; rot_a = 6; rot_d = 10; rot_c = 15; rot_b = 21 }

pub process_block : Words → List ℕ → Words
unfolding input_words pass_loop pass_f pass_g pass_h pass_i
process_block s buf =
    let w = input_words 16 buf in
    let t =
      pass_loop 4 pass_i w 48
        (pass_loop 4 pass_h w 32 (pass_loop 4 pass_g w 16 (pass_loop 4 pass_f w 0 s))) in
    record {
      a = (s.a + t.a) % word_mod;
      b = (s.b + t.b) % word_mod;
      c = (s.c + t.c) % word_mod;
      d = (s.d + t.d) % word_mod;
    }

-- The length in bits, with the lowest byte first.
pub length_bytes : ℕ → List ℕ
length_bytes n =
    n % 256
    ∷ n / 2 ^ 8 % 256
    ∷ n / 2 ^ 16 % 256
    ∷ n / 2 ^ 24 % 256
    ∷ n / 2 ^ 32 % 256
    ∷ n / 2 ^ 40 % 256
    ∷ n / 2 ^ 48 % 256
    ∷ n / 2 ^ 56 % 256
    ∷ []

abbrev pub scheme : Scheme Words
scheme = record {
  block = 64;
  limit = 56;
  length_at = 56;
  encode = length_bytes;
  process = process_block;
}

abbrev pub start : Words
start = record { a = 0x67452301; b = 0xefcdab89; c = 0x98badcfe; d = 0x10325476 }

-- `buf` holds what was there before.
unfoldable pub md5_init : List ℕ → Context Words
md5_init buf = record { len = 0; h = start; buf = buf }

unfoldable pub md5_update : Context Words → List ℕ → Context Words
md5_update s p = update scheme s p

unfoldable pub md5_pad : Context Words → Words
md5_pad s = pad scheme s

word_bytes : ℕ → List ℕ
word_bytes x = x % 256 ∷ x / 2 ^ 8 % 256 ∷ x / 2 ^ 16 % 256 ∷ x / 2 ^ 24 % 256 ∷ []

-- The bytes that `md5_sum` stores.
pub digest_bytes : Words → List ℕ
unfolding word_bytes
digest_bytes t = word_bytes t.a ++ (word_bytes t.b ++ (word_bytes t.c ++ word_bytes t.d))

unfoldable pub md5_sum : Context Words → List ℕ
unfolding md5_pad digest_bytes
md5_sum s = digest_bytes (md5_pad s)
