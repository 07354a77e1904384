-- ===== src/Crypt/Password/Functions.antt =====
-- The three functions that `crypt` calls, with the test that each makes first, and `md5crypt`.
use leblibc.Prelude.{
  ℕ, zero, suc, ◌-◌, ◌/◌, ◌%◌, List, [], ◌∷◌, ◌++◌, Bool, true, false, not, ltb, ◌==◌, ◌&&◌,
  if◌then◌else◌, Option, none, some, length, bit_and,
}
use leblibc.Prelude.Slices.{take, drop, replicate}
use leblibc.Crypt.Stream.{Context}
use leblibc.Crypt.Sha256
use leblibc.Crypt.Sha512
use leblibc.Crypt.Md5
use leblibc.Crypt.Password.{
  Hash, Numbers, starts_with, encode_256, encode_512, encode_md5, sha_crypt,
}

-- A context on the stack; what its buffer holds at first does not matter.
abbrev pub sha256_hash : Hash (Context Sha256.Words)
sha256_hash = record {
  init = Sha256.sha256_init (replicate 64 0);
  update = Sha256.sha256_update;
  sum = Sha256.sha256_sum;
  size = 32;
  digit = 53;
  encode = encode_256;
}

abbrev pub sha512_hash : Hash (Context Sha512.Words)
sha512_hash = record {
  init = Sha512.sha512_init (replicate 128 0);
  update = Sha512.sha512_update;
  sum = Sha512.sha512_sum;
  size = 64;
  digit = 54;
  encode = encode_512;
}

unfoldable pub sha256_crypt : Numbers → List ℕ → List ℕ → Option (List ℕ)
unfolding sha_crypt
sha256_crypt = sha_crypt sha256_hash

unfoldable pub sha512_crypt : Numbers → List ℕ → List ℕ → Option (List ℕ)
unfolding sha_crypt
sha512_crypt = sha_crypt sha512_hash

-- The salt of `md5crypt`: up to `max` characters, and none is refused.
unfoldable pub md5_salt : ℕ → List ℕ → List ℕ
md5_salt zero s = []
md5_salt (suc max) [] = []
md5_salt (suc max) (c ∷ s) = let rest = c ∷ md5_salt max s in if c == 36 then [] else rest

abbrev pub Md5Context : Type 0
Md5Context = Context Md5.Words

abbrev pub md5_start : Md5Context
md5_start = Md5.md5_init (replicate 64 0)

unfoldable pub add_md : ℕ → Md5Context → ℕ → List ℕ → Md5Context
add_md zero s j md = Md5.md5_update s (take j md)
add_md (suc fuel) s j md =
    let rest = add_md fuel (Md5.md5_update s md) (j - 16) md in
    if ltb 16 j then rest else Md5.md5_update s (take j md)

-- The loop over the bits of the length, where `md[0]` is 0.
unfoldable pub md5_bits : ℕ → Md5Context → ℕ → List ℕ → Md5Context
md5_bits zero s j key = s
md5_bits (suc fuel) s j key =
    let rest =
      md5_bits fuel (Md5.md5_update s (if bit_and j 1 == 1 then 0 ∷ [] else take 1 key)) (j / 2)
        key in
    if j == 0 then s else rest

unfoldable pub md5_round : List ℕ → List ℕ → List ℕ → ℕ → List ℕ
md5_round key salt md i =
    let a = Md5.md5_update md5_start (if not (i % 2 == 0) then key else md) in
    let b = if not (i % 3 == 0) then Md5.md5_update a salt else a in
    let c = if not (i % 7 == 0) then Md5.md5_update b key else b in
    Md5.md5_sum (Md5.md5_update c (if not (i % 2 == 0) then md else key))

unfoldable pub md5_rounds : ℕ → List ℕ → List ℕ → List ℕ → ℕ → List ℕ
unfolding md5_round
md5_rounds zero key salt md i = md
md5_rounds (suc n) key salt md i = md5_rounds n key salt (md5_round key salt md i) (suc i)

unfoldable pub md5_digest : List ℕ → List ℕ → List ℕ
unfolding add_md md5_bits md5_rounds
md5_digest key salt =
    let klen = length key in
    let md =
      Md5.md5_sum (Md5.md5_update (Md5.md5_update (Md5.md5_update md5_start key) salt) key) in
    let first = Md5.md5_update (Md5.md5_update md5_start key) (36 ∷ 49 ∷ 36 ∷ salt) in
    let md' = Md5.md5_sum (md5_bits klen (add_md klen first klen md) klen key) in
    md5_rounds 1000 key salt md' 0

unfoldable pub md5_crypt : List ℕ → List ℕ → Option (List ℕ)
unfolding md5_digest md5_salt
md5_crypt key setting =
    let salt = md5_salt 8 (drop 3 setting) in
    if starts_with (36 ∷ 49 ∷ 36 ∷ []) setting
    then some ((36 ∷ 49 ∷ 36 ∷ salt) ++ (36 ∷ encode_md5 (md5_digest key salt)))
    else none

abbrev pub same_text : List ℕ → List ℕ → Bool
same_text [] [] = true
same_text [] (c ∷ t) = false
same_text (c ∷ s) [] = false
same_text (c ∷ s) (d ∷ t) = (c == d) && same_text s t

-- `__crypt_sha256` and its likes, from the result `p`, the result `q` for the test key, and the text
-- that is expected of it: "*" is returned where either is missing or the text is another.
unfoldable pub checked : Option (List ℕ) → Option (List ℕ) → List ℕ → List ℕ
checked none q expected = 42 ∷ []
checked (some p) none expected = 42 ∷ []
checked (some p) (some q) expected = if same_text q expected then p else 42 ∷ []

-- Xy01@# and bytes that are no letters.
abbrev pub test_key : List ℕ
test_key = 88 ∷ 121 ∷ 48 ∷ 49 ∷ 64 ∷ 35 ∷ 1 ∷ 2 ∷ 128 ∷ 127 ∷ 255 ∷ 13 ∷ 10 ∷ 129 ∷ 9 ∷ 32 ∷ 33 ∷ []

-- $5$rounds=1234$abc0123456789$
abbrev pub test_setting_256 : List ℕ
test_setting_256 =
    36 ∷ 53 ∷ 36 ∷ 114 ∷ 111 ∷ 117 ∷ 110 ∷ 100 ∷ 115 ∷ 61 ∷ 49 ∷ 50 ∷ 51 ∷ 52 ∷ 36 ∷ 97 ∷ 98 ∷ 99
    ∷ 48 ∷ 49 ∷ 50 ∷ 51 ∷ 52 ∷ 53 ∷ 54 ∷ 55 ∷ 56 ∷ 57 ∷ 36 ∷ []

abbrev pub test_hash_256 : List ℕ
test_hash_256 =
    36 ∷ 53 ∷ 36 ∷ 114 ∷ 111 ∷ 117 ∷ 110 ∷ 100 ∷ 115 ∷ 61 ∷ 49 ∷ 50 ∷ 51 ∷ 52 ∷ 36 ∷ 97 ∷ 98 ∷ 99
    ∷ 48 ∷ 49 ∷ 50 ∷ 51 ∷ 52 ∷ 53 ∷ 54 ∷ 55 ∷ 56 ∷ 57 ∷ 36 ∷ 51 ∷ 86 ∷ 102 ∷ 68 ∷ 106 ∷ 80 ∷ 116
    ∷ 48 ∷ 53 ∷ 86 ∷ 72 ∷ 70 ∷ 110 ∷ 52 ∷ 55 ∷ 67 ∷ 47 ∷ 111 ∷ 106 ∷ 70 ∷ 90 ∷ 54 ∷ 75 ∷ 82 ∷ 80
    ∷ 89 ∷ 114 ∷ 79 ∷ 106 ∷ 106 ∷ 49 ∷ 108 ∷ 76 ∷ 98 ∷ 72 ∷ 46 ∷ 100 ∷ 107 ∷ 70 ∷ 51 ∷ 98 ∷ 90 ∷ 54
    ∷ []

-- $6$rounds=1234$abc0123456789$
abbrev pub test_setting_512 : List ℕ
test_setting_512 =
    36 ∷ 54 ∷ 36 ∷ 114 ∷ 111 ∷ 117 ∷ 110 ∷ 100 ∷ 115 ∷ 61 ∷ 49 ∷ 50 ∷ 51 ∷ 52 ∷ 36 ∷ 97 ∷ 98 ∷ 99
    ∷ 48 ∷ 49 ∷ 50 ∷ 51 ∷ 52 ∷ 53 ∷ 54 ∷ 55 ∷ 56 ∷ 57 ∷ 36 ∷ []

abbrev pub test_hash_512 : List ℕ
test_hash_512 =
    36 ∷ 54 ∷ 36 ∷ 114 ∷ 111 ∷ 117 ∷ 110 ∷ 100 ∷ 115 ∷ 61 ∷ 49 ∷ 50 ∷ 51 ∷ 52 ∷ 36 ∷ 97 ∷ 98 ∷ 99
    ∷ 48 ∷ 49 ∷ 50 ∷ 51 ∷ 52 ∷ 53 ∷ 54 ∷ 55 ∷ 56 ∷ 57 ∷ 36 ∷ 66 ∷ 67 ∷ 112 ∷ 116 ∷ 56 ∷ 122 ∷ 76
    ∷ 114 ∷ 99 ∷ 47 ∷ 82 ∷ 99 ∷ 121 ∷ 117 ∷ 88 ∷ 109 ∷ 67 ∷ 68 ∷ 79 ∷ 69 ∷ 49 ∷ 65 ∷ 76 ∷ 113 ∷ 77
    ∷ 88 ∷ 66 ∷ 50 ∷ 77 ∷ 72 ∷ 54 ∷ 110 ∷ 49 ∷ 103 ∷ 56 ∷ 57 ∷ 49 ∷ 72 ∷ 104 ∷ 70 ∷ 106 ∷ 56 ∷ 46
    ∷ 119 ∷ 55 ∷ 76 ∷ 120 ∷ 71 ∷ 118 ∷ 46 ∷ 70 ∷ 84 ∷ 107 ∷ 113 ∷ 113 ∷ 54 ∷ 86 ∷ 120 ∷ 99 ∷ 47
    ∷ 107 ∷ 109 ∷ 51 ∷ 89 ∷ 48 ∷ 106 ∷ 69 ∷ 48 ∷ 106 ∷ 50 ∷ 52 ∷ 106 ∷ 89 ∷ 53 ∷ 80 ∷ 73 ∷ 118 ∷ 47
    ∷ 111 ∷ 79 ∷ 117 ∷ 54 ∷ 114 ∷ 101 ∷ 103 ∷ 49 ∷ []

-- $1$abcd0123$
abbrev pub test_setting_md5 : List ℕ
test_setting_md5 = 36 ∷ 49 ∷ 36 ∷ 97 ∷ 98 ∷ 99 ∷ 100 ∷ 48 ∷ 49 ∷ 50 ∷ 51 ∷ 36 ∷ []

abbrev pub test_hash_md5 : List ℕ
test_hash_md5 =
    36 ∷ 49 ∷ 36 ∷ 97 ∷ 98 ∷ 99 ∷ 100 ∷ 48 ∷ 49 ∷ 50 ∷ 51 ∷ 36 ∷ 57 ∷ 81 ∷ 99 ∷ 103 ∷ 56 ∷ 68 ∷ 121
    ∷ 118 ∷ 105 ∷ 101 ∷ 107 ∷ 86 ∷ 51 ∷ 116 ∷ 68 ∷ 71 ∷ 77 ∷ 90 ∷ 121 ∷ 110 ∷ 74 ∷ 49 ∷ []

unfoldable pub crypt_sha256 : Numbers → List ℕ → List ℕ → List ℕ
unfolding sha256_crypt checked
crypt_sha256 num key setting =
    checked (sha256_crypt num key setting) (sha256_crypt num test_key test_setting_256)
      test_hash_256

unfoldable pub crypt_sha512 : Numbers → List ℕ → List ℕ → List ℕ
unfolding sha512_crypt checked
crypt_sha512 num key setting =
    checked (sha512_crypt num key setting) (sha512_crypt num test_key test_setting_512)
      test_hash_512

unfoldable pub crypt_md5 : List ℕ → List ℕ → List ℕ
unfolding md5_crypt checked
crypt_md5 key setting =
    checked (md5_crypt key setting) (md5_crypt test_key test_setting_md5) test_hash_md5
