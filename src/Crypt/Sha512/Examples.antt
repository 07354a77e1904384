-- ===== src/Crypt/Sha512/Examples.antt =====
-- The published digest of "abc", and the theorem about pieces at that message.
use leblibc.Prelude.{ℕ, ◌≡◌, refl, List, [], ◌∷◌}
use mathlib.Core.List.{foldl}
use leblibc.Prelude.Slices.{take, drop, write, replicate}
use leblibc.Crypt.Stream.{whole_blocks, fill, update, close, pad}
use leblibc.Crypt.Sha512.{
  length_bytes, process_block, digest_bytes, sha512_init, sha512_update, sha512_pad, sha512_sum,
}

-- "ab" and "c".
abbrev two_pieces : List (List ℕ)
two_pieces = (97 ∷ 98 ∷ []) ∷ (99 ∷ []) ∷ []

abc_digest :
    sha512_sum (foldl sha512_update (sha512_init (replicate 128 0)) two_pieces)
    ≡ 221 ∷ 175 ∷ 53 ∷ 161 ∷ 147 ∷ 97 ∷ 122 ∷ 186 ∷ 204 ∷ 65 ∷ 115 ∷ 73 ∷ 174 ∷ 32 ∷ 65 ∷ 49 ∷ 18
      ∷ 230 ∷ 250 ∷ 78 ∷ 137 ∷ 169 ∷ 126 ∷ 162 ∷ 10 ∷ 158 ∷ 238 ∷ 230 ∷ 75 ∷ 85 ∷ 211 ∷ 154 ∷ 33
      ∷ 146 ∷ 153 ∷ 42 ∷ 39 ∷ 79 ∷ 193 ∷ 168 ∷ 54 ∷ 186 ∷ 60 ∷ 35 ∷ 163 ∷ 254 ∷ 235 ∷ 189 ∷ 69 ∷ 77
      ∷ 68 ∷ 35 ∷ 100 ∷ 60 ∷ 232 ∷ 14 ∷ 42 ∷ 154 ∷ 201 ∷ 79 ∷ 165 ∷ 76 ∷ 164 ∷ 159 ∷ []
unfolding sha512_init sha512_update sha512_pad sha512_sum update pad close fill whole_blocks write
    take drop replicate process_block length_bytes digest_bytes
abc_digest = refl
