-- ===== src/Crypt/Password/Encode.antt =====
-- The text of a digest determines the digest: every byte stands in some row, and the digits of a row
-- determine its bytes.
use leblibc.Prelude.{
  ℕ, zero, suc, ◌+◌, ◌-◌, ◌*◌, ◌/◌, ◌%◌, ◌^◌, ◌<◌, ◌≡◌, refl, sym, ap, ◌∙◌, List, [], ◌∷◌, ◌++◌,
  Bool, true, false, ltb, ◌==◌, ◌||◌, if◌then◌else◌, get_or, length, All, arith, bit_or, inl, inr,
  Bool-cases, ==_iff, append_assoc,
}
use native.Mathlib.Nat.{pow-suc}
use leblibc.Prelude.Bits.{all_below, all_below_sound, bit_or_join, bit_or_join_three}
use leblibc.Prelude.Slices.{take, drop, take-append_self, drop-append_self}
use leblibc.Crypt.Password.{
  b64, to64, triple, encode_rows, perm_256, perm_512, perm_md5, encode_256, encode_512, encode_md5,
}

-- The digit that a character stands for.
digit_of : ℕ → ℕ
digit_of c = if ltb c 58 then c - 46 else if ltb c 91 then c - 53 else c - 59

digit_of-b64 : (d : ℕ) → d < 64 → digit_of (b64 d) ≡ d
unfolding digit_of b64
digit_of-b64 d h = ground arith

from64 : List ℕ → ℕ
from64 [] = 0
from64 (c ∷ cs) = digit_of c + 64 * from64 cs

from64-to64 : (u n : ℕ) → u < 64 ^ n → from64 (to64 u n) ≡ u
unfolding from64 to64
from64-to64 u zero h = omega arith
from64-to64 u (suc n) h = omega (
  arith,
  digit_of-b64 (u % 64) (omega arith),
  from64-to64 (u / 64) n (omega (arith, pow-suc 64 n)),
)

length-to64 : (u n : ℕ) → length (to64 u n) ≡ n
unfolding to64
length-to64 u zero = refl
length-to64 u (suc n) = omega (arith, length-to64 (u / 64) n)

abbrev pub AreBytes : List ℕ → Type 0
AreBytes = All (λ b. b < 256)

get_or-lt : (md : List ℕ) (i : ℕ) → AreBytes md → get_or md i 0 < 256
get_or-lt [] i h = omega arith
get_or-lt (b ∷ md) zero h = h.0
get_or-lt (b ∷ md) (suc i) h = get_or-lt md i h.1

list_ext :
    (xs ys : List ℕ)
    → length xs ≡ length ys
    → ((i : ℕ) → i < length xs → get_or xs i 0 ≡ get_or ys i 0)
    → xs ≡ ys
list_ext [] [] e h = refl
list_ext [] (y ∷ ys) e h = absurd (omega arith)
list_ext (x ∷ xs) [] e h = absurd (omega arith)
list_ext (x ∷ xs) (y ∷ ys) e h =
    let rest = list_ext xs ys (omega arith) (λ i lt. h (suc i) (omega arith)) in
    let head = h 0 (omega arith) in cc

in_rows : ℕ → List (ℕ × ℕ × ℕ) → Bool
in_rows n [] = false
in_rows n ((i, j, k) ∷ rows) = (n == i) || (n == j) || (n == k) || in_rows n rows

module _ (md md' : List ℕ) (bytes : AreBytes md) (bytes' : AreBytes md') where
  abbrev Same : ℕ → Type 0
  Same i = get_or md i 0 ≡ get_or md' i 0

  abbrev SameRow : ℕ × ℕ × ℕ → Type 0
  SameRow (i, j, k) = Same i × Same j × Same k

  Same-cong : (n i : ℕ) → n ≡ i → Same i → Same n
  Same-cong n i e s = rw e s

  triple_small : (i j k : ℕ) → triple md (i, j, k) ≡ triple md' (i, j, k) → SameRow (i, j, k)
  unfolding triple
  triple_small i j k e =
      let a =
        bit_or_join_three (get_or md i 0) (get_or md j 0) (get_or md k 0) (get_or-lt md j bytes)
          (get_or-lt md k bytes) in
      let b =
        bit_or_join_three (get_or md' i 0) (get_or md' j 0) (get_or md' k 0)
          (get_or-lt md' j bytes') (get_or-lt md' k bytes') in
      omega (
        arith,
        a,
        b,
        e,
        get_or-lt md i bytes,
        get_or-lt md j bytes,
        get_or-lt md k bytes,
        get_or-lt md' i bytes',
        get_or-lt md' j bytes',
        get_or-lt md' k bytes',
      )

triple-lt : (md : List ℕ) (row : ℕ × ℕ × ℕ) → AreBytes md → triple md row < 64 ^ 4
unfolding triple
triple-lt md (i, j, k) bytes = omega (
  arith,
  bit_or_join_three (get_or md i 0) (get_or md j 0) (get_or md k 0) (get_or-lt md j bytes)
      (get_or-lt md k bytes),
  get_or-lt md i bytes,
  get_or-lt md j bytes,
  get_or-lt md k bytes,
)

to64_inj : (u v n : ℕ) → u < 64 ^ n → v < 64 ^ n → to64 u n ≡ to64 v n → u ≡ v
to64_inj u v n hu hv e = sym (from64-to64 u n hu) ∙ ap from64 e ∙ from64-to64 v n hv

to64_front :
    (u v n : ℕ) (s t : List ℕ) → to64 u n ++ s ≡ to64 v n ++ t → (to64 u n ≡ to64 v n) × (s ≡ t)
to64_front u v n s t e = (
  sym (take-append_self (to64 u n) s n (sym (length-to64 u n)))
      ∙ ap (λ x. take n x) e
      ∙ take-append_self (to64 v n) t n (sym (length-to64 v n)),
  sym (drop-append_self (to64 u n) s n (sym (length-to64 u n)))
      ∙ ap (λ x. drop n x) e
      ∙ drop-append_self (to64 v n) t n (sym (length-to64 v n)),
)

module _ (md md' : List ℕ) (bytes : AreBytes md) (bytes' : AreBytes md') where
  rows_same :
      (rows : List (ℕ × ℕ × ℕ)) (s t : List ℕ)
      → encode_rows rows md ++ s ≡ encode_rows rows md' ++ t
      → All (SameRow md md' bytes bytes') rows × (s ≡ t)
  unfolding encode_rows
  rows_same [] s t e = (tt, e)
  rows_same ((i, j, k) ∷ rows) s t e =
      let split =
        to64_front (triple md (i, j, k)) (triple md' (i, j, k)) 4 (encode_rows rows md ++ s)
          (encode_rows rows md' ++ t)
          (sym (append_assoc (to64 (triple md (i, j, k)) 4) (encode_rows rows md) s)
            ∙ e
            ∙ append_assoc (to64 (triple md' (i, j, k)) 4) (encode_rows rows md') t) in
      let same = triple_small md md' bytes bytes' i j k (
        to64_inj (triple md (i, j, k)) (triple md' (i, j, k)) 4 (triple-lt md (i, j, k) bytes)
          (triple-lt md' (i, j, k) bytes') split.0) in
      let rest = rows_same rows s t split.1 in ((same, rest.0), rest.1)

  Same-in :
      (n : ℕ) (rows : List (ℕ × ℕ × ℕ))
      → in_rows n rows ≡ true
      → All (SameRow md md' bytes bytes') rows
      → Same md md' bytes bytes' n
  unfolding in_rows
  Same-in n [] h all = absurd (ground arith)
  Same-in n ((i, j, k) ∷ rows) h all = elim (Bool-cases (n == i)) [
    | inl e ↦ Same-cong md md' bytes bytes' n i ((==_iff n i).0 e) all.0.0
    | inr ni ↦ elim (Bool-cases (n == j)) [
      | inl e ↦ Same-cong md md' bytes bytes' n j ((==_iff n j).0 e) all.0.1
      | inr nj ↦ elim (Bool-cases (n == k)) [
        | inl e ↦ Same-cong md md' bytes bytes' n k ((==_iff n k).0 e) all.0.2
        | inr nk ↦ Same-in n rows (rw (ni, nj, nk) at h) all.1
      ]
    ]
  ]

  everywhere :
      (rows : List (ℕ × ℕ × ℕ)) (n : ℕ)
      → all_below n (λ i. in_rows i rows) ≡ true
      → All (SameRow md md' bytes bytes') rows
      → length md ≡ n
      → length md' ≡ n
      → md ≡ md'
  everywhere rows n table all size size' =
      list_ext md md' (omega arith)
        (λ i lt. Same-in i rows (all_below_sound n (λ j. in_rows j rows) i table (omega arith)) all)

table_256 : all_below 32 (λ i. in_rows i ((30, 31, 31) ∷ perm_256)) ≡ true
unfolding all_below in_rows
table_256 = refl

table_512 : all_below 64 (λ i. in_rows i ((63, 63, 63) ∷ perm_512)) ≡ true
unfolding all_below in_rows
table_512 = refl

table_md5 : all_below 16 (λ i. in_rows i ((11, 11, 11) ∷ perm_md5)) ≡ true
unfolding all_below in_rows
table_md5 = refl

last_two :
    (a b c d : ℕ)
    → a < 256
    → b < 256
    → c < 256
    → d < 256
    → to64 (bit_or (a * 2 ^ 8) b) 3 ≡ to64 (bit_or (c * 2 ^ 8) d) 3
    → (a ≡ c) × (b ≡ d)
last_two a b c d ha hb hc hd e =
    let value = bit_or_join 8 a b hb in
    let value' = bit_or_join 8 c d hd in
    let same =
      to64_inj (bit_or (a * 2 ^ 8) b) (bit_or (c * 2 ^ 8) d) 3 (omega (arith, value))
        (omega (arith, value')) e in
    omega (arith, value, value', same)

last_one : (a b : ℕ) → a < 256 → b < 256 → to64 a 2 ≡ to64 b 2 → a ≡ b
last_one a b ha hb e = to64_inj a b 2 (omega arith) (omega arith) e

-- The text of a SHA-256 digest in a password hash determines the digest.
pub encode_256_inj :
    (md md' : List ℕ)
    → AreBytes md
    → AreBytes md'
    → length md ≡ 32
    → length md' ≡ 32
    → encode_256 md ≡ encode_256 md'
    → md ≡ md'
unfolding encode_256
encode_256_inj md md' bytes bytes' size size' e =
    let split = rows_same md md' bytes bytes' perm_256 _ _ e in
    let ends =
      last_two (get_or md 31 0) (get_or md 30 0) (get_or md' 31 0) (get_or md' 30 0)
        (get_or-lt md 31 bytes) (get_or-lt md 30 bytes) (get_or-lt md' 31 bytes')
        (get_or-lt md' 30 bytes') split.1 in
    everywhere md md' bytes bytes' ((30, 31, 31) ∷ perm_256) 32 table_256
      ((ends.1, ends.0, ends.0), split.0) size size'

-- The text of a SHA-512 digest in a password hash determines the digest.
pub encode_512_inj :
    (md md' : List ℕ)
    → AreBytes md
    → AreBytes md'
    → length md ≡ 64
    → length md' ≡ 64
    → encode_512 md ≡ encode_512 md'
    → md ≡ md'
unfolding encode_512
encode_512_inj md md' bytes bytes' size size' e =
    let split = rows_same md md' bytes bytes' perm_512 _ _ e in
    let end =
      last_one (get_or md 63 0) (get_or md' 63 0) (get_or-lt md 63 bytes) (get_or-lt md' 63 bytes')
        split.1 in
    everywhere md md' bytes bytes' ((63, 63, 63) ∷ perm_512) 64 table_512 ((end, end, end), split.0)
      size size'

-- The text of an MD5 digest in a password hash determines the digest.
pub encode_md5_inj :
    (md md' : List ℕ)
    → AreBytes md
    → AreBytes md'
    → length md ≡ 16
    → length md' ≡ 16
    → encode_md5 md ≡ encode_md5 md'
    → md ≡ md'
unfolding encode_md5
encode_md5_inj md md' bytes bytes' size size' e =
    let split = rows_same md md' bytes bytes' perm_md5 _ _ e in
    let end =
      last_one (get_or md 11 0) (get_or md' 11 0) (get_or-lt md 11 bytes) (get_or-lt md' 11 bytes')
        split.1 in
    everywhere md md' bytes bytes' ((11, 11, 11) ∷ perm_md5) 16 table_md5 ((end, end, end), split.0)
      size size'
