-- ===== src/Crypt/Stream/Digest.antt =====
-- From the first context to the digest, through any number of pieces.
use leblibc.Prelude.{
  ℕ, ◌≡◌, refl, sym, List, [], ◌∷◌, ◌++◌, length, arith, append_assoc, append-nil,
}
use mathlib.Core.Path.{subst}
use mathlib.Core.List.{foldl}
use leblibc.Prelude.Slices.{flatten}
use leblibc.Crypt.Stream.{Scheme, Context, IsScheme, update, pad}
use leblibc.Crypt.Stream.Absorb.{Absorbed, update-Absorbed}
use leblibc.Crypt.Stream.Padding.{IsHash, padding, pad-IsHash}

module _ {H : Type 0} (S : Scheme H) (ok : IsScheme S) where
  init-Absorbed :
      (h : H) (buf : List ℕ)
      → length buf ≡ S.block
      → Absorbed S ok h (record { len = 0; h = h; buf = buf }) []
  unfolding flatten
  init-Absorbed h buf size = record {
    bs = [];
    tail = [];
    junk = buf;
    cut = record { joined = refl; sizes = tt; small = ok.positive };
    hashed = refl;
    stored = refl;
    full = omega (arith, size);
    counted = refl;
  }

  pieces-Absorbed :
      (start : H) (s : Context H) (message : List ℕ) (pieces : List (List ℕ))
      → Absorbed S ok start s message
      → Absorbed S ok start (foldl (update S) s pieces) (message ++ flatten pieces)
  unfolding flatten
  pieces-Absorbed start s message [] a =
      subst (λ text. Absorbed S ok start s text) (sym (append-nil message)) a
  pieces-Absorbed start s message (p ∷ pieces) a =
      subst (λ text. Absorbed S ok start (foldl (update S) (update S s p) pieces) text)
        (append_assoc message p (flatten pieces))
        (pieces-Absorbed start (update S s p) (message ++ p) pieces
          (update-Absorbed S ok start s message p a))

  -- The padded message of the pieces goes through the hash, however it was cut.
  pub pieces-IsHash :
      (h : H) (buf : List ℕ) (pieces : List (List ℕ))
      → length buf ≡ S.block
      → IsHash S ok h
          (flatten pieces ++ padding S (length (flatten pieces)))
          (pad S (foldl (update S) (record { len = 0; h = h; buf = buf }) pieces))
  pieces-IsHash h buf pieces size =
      pad-IsHash S ok h (foldl (update S) (record { len = 0; h = h; buf = buf }) pieces)
        (flatten pieces)
        (pieces-Absorbed h (record { len = 0; h = h; buf = buf }) [] pieces
          (init-Absorbed h buf size))
