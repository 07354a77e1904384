-- ===== src/Crypt/Md5/Digest.antt =====
-- MD5 of a message that comes in pieces.
use leblibc.Prelude.{ℕ, ◌≡◌, refl, List, ◌++◌, length, arith}
use mathlib.Core.List.{foldl}
use leblibc.Prelude.Slices.{flatten}
use leblibc.Crypt.Stream.{IsScheme}
use leblibc.Crypt.Stream.Padding.{IsHash, padding}
use leblibc.Crypt.Stream.Digest.{pieces-IsHash}
use leblibc.Crypt.Md5.{
  Words, scheme, start, length_bytes, digest_bytes, md5_init, md5_update, md5_pad, md5_sum,
}

pub scheme-IsScheme : IsScheme scheme
unfolding length_bytes
scheme-IsScheme = record {
  positive = omega arith;
  wraps = λ n. omega arith;
  splits = λ k r h. omega arith;
  length_last = refl;
  limit_fits = omega arith;
  eight = λ n. refl;
}

-- What md5_sum stores after any number of calls of md5_update does not depend on how the
-- message was cut into pieces: it is the hash of the blocks of the whole message, with the padding of
-- the standard behind it, from its first state.
pub md5_streams :
    (buf : List ℕ) (pieces : List (List ℕ))
    → length buf ≡ 64
    → (t : Words) × (md5_sum (foldl md5_update (md5_init buf) pieces) ≡ digest_bytes t)
      × IsHash scheme scheme-IsScheme start
          (flatten pieces ++ padding scheme (length (flatten pieces)))
          t
unfolding md5_init md5_update md5_pad md5_sum
md5_streams buf pieces size = (_, refl, pieces-IsHash scheme scheme-IsScheme start buf pieces size)
