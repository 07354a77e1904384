-- ===== src/Crypt/Sha512/Digest.antt =====
-- SHA-512 of a message that comes in pieces.
use leblibc.Prelude.{ℕ, ◌≡◌, refl, List, ◌++◌, length, arith}
use mathlib.Core.List.{foldl}
use leblibc.Prelude.Slices.{flatten}
use leblibc.Crypt.Stream.{IsScheme}
use leblibc.Crypt.Stream.Padding.{IsHash, padding}
use leblibc.Crypt.Stream.Digest.{pieces-IsHash}
use leblibc.Crypt.Sha512.{
  Words, scheme, start, length_bytes, digest_bytes, sha512_init, sha512_update, sha512_pad,
  sha512_sum,
}

pub scheme-IsScheme : IsScheme scheme
unfolding length_bytes
scheme-IsScheme = record {
  positive = omega arith;
  wraps = λ n. omega arith;
  splits = λ k r h. omega arith;
  length_last = refl;
  limit_fits = omega arith;
  eight = λ n. refl;
}

-- What sha512_sum stores after any number of calls of sha512_update does not depend on how the
-- message was cut into pieces: it is the hash of the blocks of the whole message, with the padding of
-- the standard behind it, from the standard's first state.
pub sha512_streams :
    (buf : List ℕ) (pieces : List (List ℕ))
    → length buf ≡ 128
    → (t : Words) × (sha512_sum (foldl sha512_update (sha512_init buf) pieces) ≡ digest_bytes t)
      × IsHash scheme scheme-IsScheme start
          (flatten pieces ++ padding scheme (length (flatten pieces)))
          t
unfolding sha512_init sha512_update sha512_pad sha512_sum
sha512_streams buf pieces size =
    (_, refl, pieces-IsHash scheme scheme-IsScheme start buf pieces size)
