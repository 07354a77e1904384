-- ===== src/Crypt/Stream.antt =====
-- What the three files do in the same way: a buffer of one block is filled, and every full block is
-- put into the hash. A scheme says in what they differ.
pub mod Absorb
pub mod Padding
pub mod Digest
use leblibc.Prelude.{
  ℕ, zero, suc, ◌+◌, ◌-◌, ◌*◌, ◌%◌, ◌^◌, ◌≤◌, ◌<◌, ◌≡◌, List, [], ◌∷◌, ltb, ◌==◌, if◌then◌else◌,
  length,
}
use leblibc.Prelude.Slices.{take, drop, replicate, write}

-- The size of a block, the last index at which the padding still fits, where the length is stored and
-- how it is written, and the function on blocks.
pub record Scheme (H : Type 0) : Type 0 where
  pub block : ℕ
  pub limit : ℕ
  pub length_at : ℕ
  pub encode : ℕ → List ℕ
  pub process : H → List ℕ → H

-- `struct sha256`, `struct sha512` and `struct md5`.
pub record Context (H : Type 0) : Type 0 where
  pub len : ℕ
  pub h : H
  pub buf : List ℕ

abbrev pub size_mod : ℕ
size_mod = 2 ^ 64

module _ {H : Type 0} (S : Scheme H) where
  -- `for (; len >= 64; len -= 64, p += 64) processblock(s, p);` and what is left.
  unfoldable pub whole_blocks : ℕ → H → List ℕ → H × List ℕ
  whole_blocks zero h p = (h, p)
  whole_blocks (suc fuel) h p =
      let rest = whole_blocks fuel (S.process h (take S.block p)) (drop S.block p) in
      if ltb (length p) S.block then (h, p) else rest

  -- The loop, and the `memcpy` behind it.
  unfoldable pub fill : ℕ → H → List ℕ → List ℕ → Context H
  fill len h buf p =
      let (h', rest) = whole_blocks (length p) h p in
      record { len = len; h = h'; buf = write buf 0 rest }

  unfoldable pub update : Context H → List ℕ → Context H
  update s p =
      let r = s.len % S.block in
      let len = (s.len + length p) % size_mod in
      let room = S.block - r in
      let buf = write s.buf r (take room p) in
      let filled = fill len (S.process s.h buf) buf (drop room p) in
      if r == 0
      then fill len s.h s.buf p
      else if ltb (length p) room
      then record { len = len; h = s.h; buf = write s.buf r p }
      else filled

  -- The end of `pad`, from the index `r` on.
  unfoldable pub close : ℕ → H → List ℕ → ℕ → H
  close len h buf r =
      let zeros = write buf r (replicate (S.length_at - r) 0) in
      S.process h (write zeros S.length_at (S.encode (len * 8 % size_mod)))

  -- `pad`; what it leaves in the buffer and the length is not read again.
  unfoldable pub pad : Context H → H
  pad s =
      let r = s.len % S.block in
      let marked = write s.buf r (0x80 ∷ []) in
      let filled = write marked (suc r) (replicate (S.block - suc r) 0) in
      if ltb S.limit (suc r)
      then close s.len (S.process s.h filled) filled 0
      else close s.len s.h marked (suc r)

-- What holds of the numbers of a scheme.
pub record IsScheme {H : Type 0} (S : Scheme H) : Type 0 where
  pub positive : 0 < S.block
  pub wraps : (n : ℕ) → n % size_mod % S.block ≡ n % S.block
  pub splits : (k r : ℕ) → r < S.block → (k * S.block + r) % S.block ≡ r
  pub length_last : S.length_at + 8 ≡ S.block
  pub limit_fits : S.limit ≤ S.length_at
  pub eight : (n : ℕ) → length (S.encode n) ≡ 8
