-- ===== src/Crypt/Md5/Examples.antt =====
-- The published digest of "abc", and the theorem about pieces at that message.
use leblibc.Prelude.{ℕ, ◌≡◌, refl, List, [], ◌∷◌}
use mathlib.Core.List.{foldl}
use leblibc.Prelude.Slices.{take, drop, write, replicate}
use leblibc.Crypt.Stream.{whole_blocks, fill, update, close, pad}
use leblibc.Crypt.Md5.{
  length_bytes, process_block, digest_bytes, md5_init, md5_update, md5_pad, md5_sum,
}

-- "ab" and "c".
abbrev two_pieces : List (List ℕ)
two_pieces = (97 ∷ 98 ∷ []) ∷ (99 ∷ []) ∷ []

abc_digest :
    md5_sum (foldl md5_update (md5_init (replicate 64 0)) two_pieces)
    ≡ 144 ∷ 1 ∷ 80 ∷ 152 ∷ 60 ∷ 210 ∷ 79 ∷ 176 ∷ 214 ∷ 150 ∷ 63 ∷ 125 ∷ 40 ∷ 225 ∷ 127 ∷ 114 ∷ []
unfolding md5_init md5_update md5_pad md5_sum update pad close fill whole_blocks write take drop
    replicate process_block length_bytes digest_bytes
abc_digest = refl
