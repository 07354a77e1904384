-- ===== src/Crypt/Sha512.antt =====
-- The hash in `crypt_sha512.c`, up to `sha512_update`; words have 64 bits.
pub mod Digest
mod Examples
use leblibc.Prelude.{
  ℕ, zero, suc, ◌+◌, ◌-◌, ◌*◌, ◌/◌, ◌%◌, ◌^◌, List, [], ◌∷◌, ◌++◌, length, get_or, bit_and, bit_or,
  bit_xor,
}
use leblibc.Crypt.Stream.{Scheme, Context, update, pad}

abbrev word_mod : ℕ
word_mod = 2 ^ 64

ror : ℕ → ℕ → ℕ
ror n k = bit_or (n / 2 ^ k) (n * 2 ^ (64 - k) % word_mod)

-- The macros `Ch`, `Maj`, `S0`, `S1`, `R0` and `R1`.
ch : ℕ → ℕ → ℕ → ℕ
ch x y z = bit_xor z (bit_and x (bit_xor y z))

maj : ℕ → ℕ → ℕ → ℕ
maj x y z = bit_or (bit_and x y) (bit_and z (bit_or x y))

s0 : ℕ → ℕ
unfolding ror
s0 x = bit_xor (bit_xor (ror x 28) (ror x 34)) (ror x 39)

s1 : ℕ → ℕ
unfolding ror
s1 x = bit_xor (bit_xor (ror x 14) (ror x 18)) (ror x 41)

r0 : ℕ → ℕ
unfolding ror
r0 x = bit_xor (bit_xor (ror x 1) (ror x 8)) (x / 2 ^ 7)

r1 : ℕ → ℕ
unfolding ror
r1 x = bit_xor (bit_xor (ror x 19) (ror x 61)) (x / 2 ^ 6)

k_table : List ℕ
k_table =
    0x428a2f98d728ae22 ∷ 0x7137449123ef65cd ∷ 0xb5c0fbcfec4d3b2f ∷ 0xe9b5dba58189dbbc
    ∷ 0x3956c25bf348b538 ∷ 0x59f111f1b605d019 ∷ 0x923f82a4af194f9b ∷ 0xab1c5ed5da6d8118
    ∷ 0xd807aa98a3030242 ∷ 0x12835b0145706fbe ∷ 0x243185be4ee4b28c ∷ 0x550c7dc3d5ffb4e2
    ∷ 0x72be5d74f27b896f ∷ 0x80deb1fe3b1696b1 ∷ 0x9bdc06a725c71235 ∷ 0xc19bf174cf692694
    ∷ 0xe49b69c19ef14ad2 ∷ 0xefbe4786384f25e3 ∷ 0x0fc19dc68b8cd5b5 ∷ 0x240ca1cc77ac9c65
    ∷ 0x2de92c6f592b0275 ∷ 0x4a7484aa6ea6e483 ∷ 0x5cb0a9dcbd41fbd4 ∷ 0x76f988da831153b5
    ∷ 0x983e5152ee66dfab ∷ 0xa831c66d2db43210 ∷ 0xb00327c898fb213f ∷ 0xbf597fc7beef0ee4
    ∷ 0xc6e00bf33da88fc2 ∷ 0xd5a79147930aa725 ∷ 0x06ca6351e003826f ∷ 0x142929670a0e6e70
    ∷ 0x27b70a8546d22ffc ∷ 0x2e1b21385c26c926 ∷ 0x4d2c6dfc5ac42aed ∷ 0x53380d139d95b3df
    ∷ 0x650a73548baf63de ∷ 0x766a0abb3c77b2a8 ∷ 0x81c2c92e47edaee6 ∷ 0x92722c851482353b
    ∷ 0xa2bfe8a14cf10364 ∷ 0xa81a664bbc423001 ∷ 0xc24b8b70d0f89791 ∷ 0xc76c51a30654be30
    ∷ 0xd192e819d6ef5218 ∷ 0xd69906245565a910 ∷ 0xf40e35855771202a ∷ 0x106aa07032bbd1b8
    ∷ 0x19a4c116b8d2d0c8 ∷ 0x1e376c085141ab53 ∷ 0x2748774cdf8eeb99 ∷ 0x34b0bcb5e19b48a8
    ∷ 0x391c0cb3c5c95a63 ∷ 0x4ed8aa4ae3418acb ∷ 0x5b9cca4f7763e373 ∷ 0x682e6ff3d6b2b8a3
    ∷ 0x748f82ee5defb2fc ∷ 0x78a5636f43172f60 ∷ 0x84c87814a1f0ab72 ∷ 0x8cc702081a6439ec
    ∷ 0x90befffa23631e28 ∷ 0xa4506cebde82bde9 ∷ 0xbef9a3f7b2c67915 ∷ 0xc67178f2e372532b
    ∷ 0xca273eceea26619c ∷ 0xd186b8c721c0c207 ∷ 0xeada7dd6cde0eb1e ∷ 0xf57d4f7fee6ed178
    ∷ 0x06f067aa72176fba ∷ 0x0a637dc5a2c898a6 ∷ 0x113f9804bef90dae ∷ 0x1b710b35131c471b
    ∷ 0x28db77f523047d84 ∷ 0x32caab7b40c72493 ∷ 0x3c9ebe0a15c9bebc ∷ 0x431d67c49c100d4c
    ∷ 0x4cc5d4becb3e42b6 ∷ 0x597f299cfc657e2a ∷ 0x5fcb6fab3ad6faec ∷ 0x6c44198c4a475817 ∷ []

-- The eight words of the state, `h` or `a` to `h`.
pub record Words : Type 0 where
  pub a : ℕ
  pub b : ℕ
  pub c : ℕ
  pub d : ℕ
  pub e : ℕ
  pub f : ℕ
  pub g : ℕ
  pub h : ℕ

-- `W[i]` for i < 16, from the bytes of the block.
input_word : List ℕ → ℕ → ℕ
input_word buf i =
    let byte = λ (k : ℕ). get_or buf (8 * i + k) 0 in
    (bit_or
      (bit_or
        (bit_or
          (bit_or
            (bit_or (bit_or (bit_or (byte 0 * 2 ^ 56) (byte 1 * 2 ^ 48)) (byte 2 * 2 ^ 40))
              (byte 3 * 2 ^ 32))
            (byte 4 * 2 ^ 24))
          (byte 5 * 2 ^ 16))
        (byte 6 * 2 ^ 8))
      (byte 7))

input_words : ℕ → List ℕ → List ℕ
unfolding input_word
input_words zero buf = []
input_words (suc n) buf = input_words n buf ++ input_word buf n ∷ []

-- `W` from the index `i` on, for the `n` words that are left.
expand : ℕ → ℕ → List ℕ → List ℕ
unfolding r0 r1
expand zero i w = w
expand (suc n) i w =
    let next =
      (r1 (get_or w (i - 2) 0)
        + get_or w (i - 7) 0
        + r0 (get_or w (i - 15) 0)
        + get_or w (i - 16) 0)
      % word_mod in
    expand n (suc i) (w ++ next ∷ [])

-- One turn of the main loop, with K[i] and W[i].
turn : Words → ℕ → ℕ → Words
unfolding s0 s1 ch maj
turn s k w =
    let t1 = (s.h + s1 s.e + ch s.e s.f s.g + k + w) % word_mod in
    let t2 = (s0 s.a + maj s.a s.b s.c) % word_mod in
    record {
      a = (t1 + t2) % word_mod;
      b = s.a;
      c = s.b;
      d = s.c;
      e = (s.d + t1) % word_mod;
      f = s.e;
      g = s.f;
      h = s.g;
    }

turns : List ℕ → List ℕ → Words → Words
unfolding turn
turns [] ws s = s
turns (k ∷ ks) [] s = s
turns (k ∷ ks) (w ∷ ws) s = turns ks ws (turn s k w)

pub process_block : Words → List ℕ → Words
unfolding input_words expand turns k_table
process_block s buf =
    let t = turns k_table (expand 64 16 (input_words 16 buf)) s in
    record {
      a = (s.a + t.a) % word_mod;
      b = (s.b + t.b) % word_mod;
      c = (s.c + t.c) % word_mod;
      d = (s.d + t.d) % word_mod;
      e = (s.e + t.e) % word_mod;
      f = (s.f + t.f) % word_mod;
      g = (s.g + t.g) % word_mod;
      h = (s.h + t.h) % word_mod;
    }

-- The length in bits, with the highest byte first.
pub length_bytes : ℕ → List ℕ
length_bytes n =
    n / 2 ^ 56 % 256
    ∷ n / 2 ^ 48 % 256
    ∷ n / 2 ^ 40 % 256
    ∷ n / 2 ^ 32 % 256
    ∷ n / 2 ^ 24 % 256
    ∷ n / 2 ^ 16 % 256
    ∷ n / 2 ^ 8 % 256
    ∷ n % 256
    ∷ []

abbrev pub scheme : Scheme Words
scheme = record {
  block = 128;
  limit = 112;
  length_at = 120;
  encode = length_bytes;
  process = process_block;
}

abbrev pub start : Words
start = record {
  a = 0x6a09e667f3bcc908;
  b = 0xbb67ae8584caa73b;
  c = 0x3c6ef372fe94f82b;
  d = 0xa54ff53a5f1d36f1;
  e = 0x510e527fade682d1;
  f = 0x9b05688c2b3e6c1f;
  g = 0x1f83d9abfb41bd6b;
  h = 0x5be0cd19137e2179;
}

-- `buf` holds what was there before.
unfoldable pub sha512_init : List ℕ → Context Words
sha512_init buf = record { len = 0; h = start; buf = buf }

unfoldable pub sha512_update : Context Words → List ℕ → Context Words
sha512_update s p = update scheme s p

unfoldable pub sha512_pad : Context Words → Words
sha512_pad s = pad scheme s

word_bytes : ℕ → List ℕ
word_bytes x =
    x / 2 ^ 56 % 256
    ∷ x / 2 ^ 48 % 256
    ∷ x / 2 ^ 40 % 256
    ∷ x / 2 ^ 32 % 256
    ∷ x / 2 ^ 24 % 256
    ∷ x / 2 ^ 16 % 256
    ∷ x / 2 ^ 8 % 256
    ∷ x % 256
    ∷ []

-- The bytes that `sha512_sum` stores.
pub digest_bytes : Words → List ℕ
unfolding word_bytes
digest_bytes t =
    word_bytes t.a
    ++ (word_bytes t.b
        ++ (word_bytes t.c
            ++ (word_bytes t.d
                ++ (word_bytes t.e ++ (word_bytes t.f ++ (word_bytes t.g ++ word_bytes t.h))))))

unfoldable pub sha512_sum : Context Words → List ℕ
unfolding sha512_pad digest_bytes
sha512_sum s = digest_bytes (sha512_pad s)
