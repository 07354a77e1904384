-- ===== src/Crypt/Password/Examples.antt =====
-- The theorems about password hashes at single digests and settings.
use leblibc.Prelude.{ℕ, List, [], ◌∷◌, ◌++◌, some, ◌≡◌, refl, arith}
use leblibc.Prelude.Slices.{drop}
use leblibc.Crypt.Password.{Numbers, digest, encode_256, encode_512}
use leblibc.Crypt.Password.Functions.{
  sha256_hash, sha512_hash, sha256_crypt, sha512_crypt, test_key,
}
use leblibc.Crypt.Password.Encode.{encode_256_inj}
use leblibc.Crypt.Password.Safe.{ArePlain, sha256_crypt-ArePlain}

abbrev count_16 : List ℕ
count_16 = 0 ∷ 1 ∷ 2 ∷ 3 ∷ 4 ∷ 5 ∷ 6 ∷ 7 ∷ 8 ∷ 9 ∷ 10 ∷ 11 ∷ 12 ∷ 13 ∷ 14 ∷ 255 ∷ []

abbrev count_32 : List ℕ
count_32 = count_16 ++ count_16

encode_256_inj_example : count_32 ≡ count_32
encode_256_inj_example = encode_256_inj count_32 count_32 (omega arith) (omega arith) refl refl refl

-- Numbers of one digit.
abbrev one_digit : Numbers
one_digit = record { strtoul = λ s. (0, drop 1 s); print = λ n. 48 ∷ [] }

one_digit-ArePlain : (n : ℕ) → ArePlain (one_digit.print n)
one_digit-ArePlain n = ground arith

-- "$5$ab$" and "$6$rounds=1$ab"
abbrev setting_256 : List ℕ
setting_256 = 36 ∷ 53 ∷ 36 ∷ 97 ∷ 98 ∷ 36 ∷ []

abbrev setting_512 : List ℕ
setting_512 = 36 ∷ 54 ∷ 36 ∷ 114 ∷ 111 ∷ 117 ∷ 110 ∷ 100 ∷ 115 ∷ 61 ∷ 49 ∷ 36 ∷ 97 ∷ 98 ∷ []

abbrev printed_256 : List ℕ
printed_256 =
    36 ∷ 53 ∷ 36 ∷ 97 ∷ 98 ∷ 36 ∷ encode_256 (digest sha256_hash test_key (97 ∷ 98 ∷ []) 5000)

abbrev printed_512 : List ℕ
printed_512 =
    36
    ∷ 54
    ∷ 36
    ∷ 114
    ∷ 111
    ∷ 117
    ∷ 110
    ∷ 100
    ∷ 115
    ∷ 61
    ∷ 48
    ∷ 36
    ∷ 97
    ∷ 98
    ∷ 36
    ∷ encode_512 (digest sha512_hash test_key (97 ∷ 98 ∷ []) 1000)

runs_256 : sha256_crypt one_digit test_key setting_256 ≡ some printed_256
unfolding sha256_crypt drop
runs_256 = refl

runs_512 : sha512_crypt one_digit test_key setting_512 ≡ some printed_512
unfolding sha512_crypt drop
runs_512 = refl

sha256_crypt-ArePlain_example : ArePlain printed_256
sha256_crypt-ArePlain_example =
    sha256_crypt-ArePlain one_digit one_digit-ArePlain test_key setting_256 printed_256 runs_256
