-- ===== src/Crypt/Sha256/Examples.antt =====
-- The published digest of "abc", and the theorem about pieces at that message.
use leblibc.Prelude.{ℕ, ◌≡◌, refl, List, [], ◌∷◌}
use mathlib.Core.List.{foldl}
use leblibc.Prelude.Slices.{take, drop, write, replicate}
use leblibc.Crypt.Stream.{whole_blocks, fill, update, close, pad}
use leblibc.Crypt.Sha256.{
  length_bytes, process_block, digest_bytes, sha256_init, sha256_update, sha256_pad, sha256_sum,
}

-- "ab" and "c".
abbrev two_pieces : List (List ℕ)
two_pieces = (97 ∷ 98 ∷ []) ∷ (99 ∷ []) ∷ []

abc_digest :
    sha256_sum (foldl sha256_update (sha256_init (replicate 64 0)) two_pieces)
    ≡ 186 ∷ 120 ∷ 22 ∷ 191 ∷ 143 ∷ 1 ∷ 207 ∷ 234 ∷ 65 ∷ 65 ∷ 64 ∷ 222 ∷ 93 ∷ 174 ∷ 34 ∷ 35 ∷ 176 ∷ 3
      ∷ 97 ∷ 163 ∷ 150 ∷ 23 ∷ 122 ∷ 156 ∷ 180 ∷ 16 ∷ 255 ∷ 97 ∷ 242 ∷ 0 ∷ 21 ∷ 173 ∷ []
unfolding sha256_init sha256_update sha256_pad sha256_sum update pad close fill whole_blocks write
    take drop replicate process_block length_bytes digest_bytes
abc_digest = refl
