-- ===== src/Crypt/Sha256/Digest.antt =====
-- SHA-256 of a message that comes in pieces.
use leblibc.Prelude.{refl, List, arith}
use leblibc.Crypt.Stream.{IsScheme}
use leblibc.Crypt.Sha256.{scheme, length_bytes}

pub scheme-IsScheme : IsScheme scheme
unfolding length_bytes
scheme-IsScheme = record {
  positive = omega arith;
  wraps = λ n. omega arith;
  splits = λ k r h. omega arith;
  length_last = refl;
  limit_fits = omega arith;
  eight = λ n. refl;
}
