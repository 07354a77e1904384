-- ===== src/Crypt/Sha256.antt =====
-- The hash in `crypt_sha256.c`, up to `sha256_update`; words have 32 bits.
pub mod Digest
mod Examples
use leblibc.Prelude.{
  ℕ, zero, suc, ◌+◌, ◌-◌, ◌*◌, ◌/◌, ◌%◌, ◌^◌, List, [], ◌∷◌, ◌++◌, length, get_or, bit_and, bit_or,
  bit_xor,
}
use leblibc.Crypt.Stream.{Scheme, Context, update, pad}

abbrev word_mod : ℕ
word_mod = 2 ^ 32

ror : ℕ → ℕ → ℕ
ror n k = bit_or (n / 2 ^ k) (n * 2 ^ (32 - k) % word_mod)

-- The macros `Ch`, `Maj`, `S0`, `S1`, `R0` and `R1`.
ch : ℕ → ℕ → ℕ → ℕ
ch x y z = bit_xor z (bit_and x (bit_xor y z))

maj : ℕ → ℕ → ℕ → ℕ
maj x y z = bit_or (bit_and x y) (bit_and z (bit_or x y))

s0 : ℕ → ℕ
unfolding ror
s0 x = bit_xor (bit_xor (ror x 2) (ror x 13)) (ror x 22)

s1 : ℕ → ℕ
unfolding ror
s1 x = bit_xor (bit_xor (ror x 6) (ror x 11)) (ror x 25)

r0 : ℕ → ℕ
unfolding ror
r0 x = bit_xor (bit_xor (ror x 7) (ror x 18)) (x / 2 ^ 3)

r1 : ℕ → ℕ
unfolding ror
r1 x = bit_xor (bit_xor (ror x 17) (ror x 19)) (x / 2 ^ 10)

k_table : List ℕ
k_table =
    0x428a2f98 ∷ 0x71374491 ∷ 0xb5c0fbcf ∷ 0xe9b5dba5 ∷ 0x3956c25b ∷ 0x59f111f1 ∷ 0x923f82a4
    ∷ 0xab1c5ed5 ∷ 0xd807aa98 ∷ 0x12835b01 ∷ 0x243185be ∷ 0x550c7dc3 ∷ 0x72be5d74 ∷ 0x80deb1fe
    ∷ 0x9bdc06a7 ∷ 0xc19bf174 ∷ 0xe49b69c1 ∷ 0xefbe4786 ∷ 0x0fc19dc6 ∷ 0x240ca1cc ∷ 0x2de92c6f
    ∷ 0x4a7484aa ∷ 0x5cb0a9dc ∷ 0x76f988da ∷ 0x983e5152 ∷ 0xa831c66d ∷ 0xb00327c8 ∷ 0xbf597fc7
    ∷ 0xc6e00bf3 ∷ 0xd5a79147 ∷ 0x06ca6351 ∷ 0x14292967 ∷ 0x27b70a85 ∷ 0x2e1b2138 ∷ 0x4d2c6dfc
    ∷ 0x53380d13 ∷ 0x650a7354 ∷ 0x766a0abb ∷ 0x81c2c92e ∷ 0x92722c85 ∷ 0xa2bfe8a1 ∷ 0xa81a664b
    ∷ 0xc24b8b70 ∷ 0xc76c51a3 ∷ 0xd192e819 ∷ 0xd6990624 ∷ 0xf40e3585 ∷ 0x106aa070 ∷ 0x19a4c116
    ∷ 0x1e376c08 ∷ 0x2748774c ∷ 0x34b0bcb5 ∷ 0x391c0cb3 ∷ 0x4ed8aa4a ∷ 0x5b9cca4f ∷ 0x682e6ff3
    ∷ 0x748f82ee ∷ 0x78a5636f ∷ 0x84c87814 ∷ 0x8cc70208 ∷ 0x90befffa ∷ 0xa4506ceb ∷ 0xbef9a3f7
    ∷ 0xc67178f2 ∷ []

-- The eight words of the state, `h` or `a` to `h`.
pub record Words : Type 0 where
  pub a : ℕ
  pub b : ℕ
  pub c : ℕ
  pub d : ℕ
  pub e : ℕ
  pub f : ℕ
  pub g : ℕ
  pub h : ℕ

-- `W[i]` for i < 16, from the bytes of the block.
input_word : List ℕ → ℕ → ℕ
input_word buf i =
    let byte = λ (k : ℕ). get_or buf (4 * i + k) 0 in
    (bit_or (bit_or (bit_or (byte 0 * 2 ^ 24) (byte 1 * 2 ^ 16)) (byte 2 * 2 ^ 8)) (byte 3))

input_words : ℕ → List ℕ → List ℕ
unfolding input_word
input_words zero buf = []
input_words (suc n) buf = input_words n buf ++ input_word buf n ∷ []

-- `W` from the index `i` on, for the `n` words that are left.
expand : ℕ → ℕ → List ℕ → List ℕ
unfolding r0 r1
expand zero i w = w
expand (suc n) i w =
    let next =
      (r1 (get_or w (i - 2) 0)
        + get_or w (i - 7) 0
        + r0 (get_or w (i - 15) 0)
        + get_or w (i - 16) 0)
      % word_mod in
    expand n (suc i) (w ++ next ∷ [])

-- One turn of the main loop, with K[i] and W[i].
turn : Words → ℕ → ℕ → Words
unfolding s0 s1 ch maj
turn s k w =
    let t1 = (s.h + s1 s.e + ch s.e s.f s.g + k + w) % word_mod in
    let t2 = (s0 s.a + maj s.a s.b s.c) % word_mod in
    record {
      a = (t1 + t2) % word_mod;
      b = s.a;
      c = s.b;
      d = s.c;
      e = (s.d + t1) % word_mod;
      f = s.e;
      g = s.f;
      h = s.g;
    }

turns : List ℕ → List ℕ → Words → Words
unfolding turn
turns [] ws s = s
turns (k ∷ ks) [] s = s
turns (k ∷ ks) (w ∷ ws) s = turns ks ws (turn s k w)

pub process_block : Words → List ℕ → Words
unfolding input_words expand turns k_table
process_block s buf =
    let t = turns k_table (expand 48 16 (input_words 16 buf)) s in
    record {
      a = (s.a + t.a) % word_mod;
      b = (s.b + t.b) % word_mod;
      c = (s.c + t.c) % word_mod;
      d = (s.d + t.d) % word_mod;
      e = (s.e + t.e) % word_mod;
      f = (s.f + t.f) % word_mod;
      g = (s.g + t.g) % word_mod;
      h = (s.h + t.h) % word_mod;
    }

-- The length in bits, with the highest byte first.
pub length_bytes : ℕ → List ℕ
length_bytes n =
    n / 2 ^ 56 % 256
    ∷ n / 2 ^ 48 % 256
    ∷ n / 2 ^ 40 % 256
    ∷ n / 2 ^ 32 % 256
    ∷ n / 2 ^ 24 % 256
    ∷ n / 2 ^ 16 % 256
    ∷ n / 2 ^ 8 % 256
    ∷ n % 256
    ∷ []

abbrev pub scheme : Scheme Words
scheme = record {
  block = 64;
  limit = 56;
  length_at = 56;
  encode = length_bytes;
  process = process_block;
}

abbrev pub start : Words
start = record {
  a = 0x6a09e667;
  b = 0xbb67ae85;
  c = 0x3c6ef372;
  d = 0xa54ff53a;
  e = 0x510e527f;
  f = 0x9b05688c;
  g = 0x1f83d9ab;
  h = 0x5be0cd19;
}

-- `buf` holds what was there before.
unfoldable pub sha256_init : List ℕ → Context Words
sha256_init buf = record { len = 0; h = start; buf = buf }

unfoldable pub sha256_update : Context Words → List ℕ → Context Words
sha256_update s p = update scheme s p

unfoldable pub sha256_pad : Context Words → Words
sha256_pad s = pad scheme s

word_bytes : ℕ → List ℕ
word_bytes x = x / 2 ^ 24 % 256 ∷ x / 2 ^ 16 % 256 ∷ x / 2 ^ 8 % 256 ∷ x % 256 ∷ []

-- The bytes that `sha256_sum` stores.
pub digest_bytes : Words → List ℕ
unfolding word_bytes
digest_bytes t =
    word_bytes t.a
    ++ (word_bytes t.b
        ++ (word_bytes t.c
            ++ (word_bytes t.d
                ++ (word_bytes t.e ++ (word_bytes t.f ++ (word_bytes t.g ++ word_bytes t.h))))))

unfoldable pub sha256_sum : Context Words → List ℕ
unfolding sha256_pad digest_bytes
sha256_sum s = digest_bytes (sha256_pad s)
