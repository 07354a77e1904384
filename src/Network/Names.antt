-- ===== src/Network/Names.antt =====
-- What a name in a message stands for.
use leblibc.Prelude.{
  ℕ, ◌+◌, ◌*◌, ◌^◌, ◌<◌, ◌≡◌, ◌≢◌, List, [], ◌∷◌, ◌++◌, bit_and, bit_or, some, length, get_elem?,
}
use leblibc.Prelude.Slices.{take, drop}
use leblibc.Network.Turn.{dotted}

-- The labels of the name at `p`: each has its length before it, a zero ends the name, and a pointer
-- leads to the rest of it.
pub data IsName (msg : List ℕ) : ℕ → List (List ℕ) → Type 0 where
  name_end : {p : ℕ} → get_elem? msg p ≡ some 0 → IsName msg p []
  name_label :
      {p : ℕ} {labels : List (List ℕ)} (c : ℕ)
      → get_elem? msg p ≡ some c
      → bit_and c 0xc0 ≡ 0
      → c ≢ 0
      → p + 1 + c < length msg
      → IsName msg (p + 1 + c) labels
      → IsName msg p (take c (drop (p + 1) msg) ∷ labels)
  name_pointer :
      {p : ℕ} {labels : List (List ℕ)} (c d : ℕ)
      → get_elem? msg p ≡ some c
      → bit_and c 0xc0 ≢ 0
      → get_elem? msg (p + 1) ≡ some d
      → IsName msg (bit_or (bit_and c 0x3f * 2 ^ 8) d) labels
      → IsName msg p labels

-- The labels behind a text, with a dot before each but the first.
unfoldable pub text : List ℕ → List (List ℕ) → List ℕ
text dest [] = dest
text dest (label ∷ labels) = text (dotted dest ++ label) labels

-- Where the bytes of the name at `p` end: behind its zero, or behind its first pointer.
pub data IsEnd (msg : List ℕ) : ℕ → ℕ → Type 0 where
  end_root : {p : ℕ} → get_elem? msg p ≡ some 0 → IsEnd msg p (p + 1)
  end_pointer :
      {p : ℕ} (c : ℕ) → get_elem? msg p ≡ some c → bit_and c 0xc0 ≢ 0 → IsEnd msg p (p + 2)
  end_label :
      {p e : ℕ} (c : ℕ)
      → get_elem? msg p ≡ some c
      → bit_and c 0xc0 ≡ 0
      → c ≢ 0
      → IsEnd msg (p + 1 + c) e
      → IsEnd msg p e
