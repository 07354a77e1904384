-- ===== src/Crypt/Password.antt =====
-- The password hashes behind the hash functions: `sha256crypt` and `sha512crypt`, which have the same
-- body, and `md5crypt`. A key or a setting is the text up to its null byte; `none` is a null pointer.
pub mod Functions
pub mod Encode
pub mod Safe
mod Examples
use leblibc.Prelude.{
  ℕ, zero, suc, ◌+◌, ◌-◌, ◌*◌, ◌/◌, ◌%◌, ◌^◌, List, [], ◌∷◌, ◌++◌, Bool, true, false, not, ltb, leb,
  ◌==◌, ◌&&◌, ◌||◌, if◌then◌else◌, Option, none, some, ◌>>=◌, get_or, length, bit_and, bit_or,
}
use mathlib.Core.List.{foldl}
use leblibc.Prelude.Slices.{take, drop, replicate}
use leblibc.Crypt.Stream.{Context}
use leblibc.Crypt.Sha256
use leblibc.Crypt.Sha512
use leblibc.Crypt.Md5

-- `b64`: ./0123456789, then the capital and the small letters.
unfoldable pub b64 : ℕ → ℕ
b64 d = if ltb d 12 then d + 46 else if ltb d 38 then d + 53 else d + 59

unfoldable pub to64 : ℕ → ℕ → List ℕ
unfolding b64
to64 u zero = []
to64 u (suc n) = b64 (u % 64) ∷ to64 (u / 64) n

-- `(md[i]<<16)|(md[j]<<8)|md[k]` in four digits, for each row of `perm`.
unfoldable pub triple : List ℕ → ℕ × ℕ × ℕ → ℕ
triple md (i, j, k) =
    bit_or (bit_or (get_or md i 0 * 2 ^ 16) (get_or md j 0 * 2 ^ 8)) (get_or md k 0)

unfoldable pub encode_rows : List (ℕ × ℕ × ℕ) → List ℕ → List ℕ
unfolding triple to64
encode_rows [] md = []
encode_rows (row ∷ rows) md = to64 (triple md row) 4 ++ encode_rows rows md

abbrev pub perm_256 : List (ℕ × ℕ × ℕ)
perm_256 =
    (0, 10, 20)
    ∷ (21, 1, 11)
    ∷ (12, 22, 2)
    ∷ (3, 13, 23)
    ∷ (24, 4, 14)
    ∷ (15, 25, 5)
    ∷ (6, 16, 26)
    ∷ (27, 7, 17)
    ∷ (18, 28, 8)
    ∷ (9, 19, 29)
    ∷ []

abbrev pub perm_512 : List (ℕ × ℕ × ℕ)
perm_512 =
    (0, 21, 42)
    ∷ (22, 43, 1)
    ∷ (44, 2, 23)
    ∷ (3, 24, 45)
    ∷ (25, 46, 4)
    ∷ (47, 5, 26)
    ∷ (6, 27, 48)
    ∷ (28, 49, 7)
    ∷ (50, 8, 29)
    ∷ (9, 30, 51)
    ∷ (31, 52, 10)
    ∷ (53, 11, 32)
    ∷ (12, 33, 54)
    ∷ (34, 55, 13)
    ∷ (56, 14, 35)
    ∷ (15, 36, 57)
    ∷ (37, 58, 16)
    ∷ (59, 17, 38)
    ∷ (18, 39, 60)
    ∷ (40, 61, 19)
    ∷ (62, 20, 41)
    ∷ []

abbrev pub perm_md5 : List (ℕ × ℕ × ℕ)
perm_md5 = (0, 6, 12) ∷ (1, 7, 13) ∷ (2, 8, 14) ∷ (3, 9, 15) ∷ (4, 10, 5) ∷ []

unfoldable pub encode_256 : List ℕ → List ℕ
unfolding encode_rows to64
encode_256 md = encode_rows perm_256 md ++ to64 (bit_or (get_or md 31 0 * 2 ^ 8) (get_or md 30 0)) 3

unfoldable pub encode_512 : List ℕ → List ℕ
unfolding encode_rows to64
encode_512 md = encode_rows perm_512 md ++ to64 (get_or md 63 0) 2

unfoldable pub encode_md5 : List ℕ → List ℕ
unfolding encode_rows to64
encode_md5 md = encode_rows perm_md5 md ++ to64 (get_or md 11 0) 2

-- What `sha256crypt` and `sha512crypt` differ in: the hash function, its size, the digit of the
-- prefix, and the encoding.
pub record Hash (C : Type 0) : Type 0 where
  pub init : C
  pub update : C → List ℕ → C
  pub sum : C → List ℕ
  pub size : ℕ
  pub digit : ℕ
  pub encode : List ℕ → List ℕ

-- `strtoul(s, &end, 10)`, as the value and the text at `end`, and `sprintf` of a number.
pub record Numbers : Type 0 where
  pub strtoul : List ℕ → ℕ × List ℕ
  pub print : ℕ → List ℕ

abbrev pub starts_with : List ℕ → List ℕ → Bool
starts_with [] s = true
starts_with (c ∷ cs) [] = false
starts_with (c ∷ cs) (b ∷ s) = (c == b) && starts_with cs s

abbrev pub is_digit : ℕ → Bool
is_digit c = leb 48 c && leb c 57

-- The first character, 0 at the end of the text.
abbrev pub first : List ℕ → ℕ
first s = get_or s 0 0

-- "rounds="
abbrev pub rounds_key : List ℕ
rounds_key = 114 ∷ 111 ∷ 117 ∷ 110 ∷ 100 ∷ 115 ∷ 61 ∷ []

abbrev pub salt_max : ℕ
salt_max = 16

-- The setting behind the prefix: the number of rounds, the text to print for it, and the salt.
pub record Setting : Type 0 where
  pub rounds : ℕ
  pub text : List ℕ
  pub salt : List ℕ

-- The bounds on the rounds, and what is printed.
unfoldable pub limit_rounds : Numbers → ℕ × List ℕ → Option Setting
limit_rounds num (u, rest) =
    if not (first rest == 36)
    then none
    else if ltb 9999999 u
    then none
    else (let r = if ltb u 1000 then 1000 else u in
        some (record {
          rounds = r;
          text = rounds_key ++ (num.print r ++ 36 ∷ []);
          salt = drop 1 rest;
        }))

unfoldable pub read_setting : Numbers → List ℕ → Option Setting
unfolding limit_rounds
read_setting num salt =
    let after_key = drop 7 salt in
    if starts_with rounds_key salt
    then (if is_digit (first after_key) then limit_rounds num (num.strtoul after_key) else none)
    else some (record { rounds = 5000; text = []; salt = salt })

-- The salt, up to `max` characters; a newline or a colon is refused.
unfoldable pub read_salt : ℕ → List ℕ → Option (List ℕ)
read_salt zero s = some []
read_salt (suc max) [] = some []
read_salt (suc max) (c ∷ s) =
    let rest = read_salt max s >>= λ salt. some (c ∷ salt) in
    if c == 36 then some [] else if c == 10 || c == 58 then none else rest

module _ {C : Type 0} (H : Hash C) where
  -- `hashmd`, with fuel for the loop.
  unfoldable pub hash_md : ℕ → C → ℕ → List ℕ → C
  hash_md zero s i md = H.update s (take i md)
  hash_md (suc fuel) s i md =
      let rest = hash_md fuel (H.update s (take H.size md)) (i - H.size) md in
      if ltb H.size i then rest else H.update s (take i md)

  -- `for (j = klen; j > 0; j >>= 1)`, with fuel.
  unfoldable pub add_bits : ℕ → C → ℕ → List ℕ → List ℕ → C
  add_bits zero s j md key = s
  add_bits (suc fuel) s j md key =
      let rest = add_bits fuel (H.update s (if bit_and j 1 == 1 then md else key)) (j / 2) md key in
      if j == 0 then s else rest

  unfoldable pub update_times : ℕ → C → List ℕ → C
  update_times zero s p = s
  update_times (suc n) s p = update_times n (H.update s p) p

  -- One of the rounds, with its number.
  unfoldable pub round : List ℕ → List ℕ → ℕ → ℕ → List ℕ → ℕ → List ℕ
  unfolding hash_md
  round kmd smd klen slen md i =
      let a = if not (i % 2 == 0) then hash_md klen H.init klen kmd else H.update H.init md in
      let b = if not (i % 3 == 0) then H.update a (take slen smd) else a in
      let c = if not (i % 7 == 0) then hash_md klen b klen kmd else b in
      H.sum (if not (i % 2 == 0) then H.update c md else hash_md klen c klen kmd)

  unfoldable pub all_rounds : ℕ → List ℕ → List ℕ → ℕ → ℕ → List ℕ → ℕ → List ℕ
  unfolding round
  all_rounds zero kmd smd klen slen md i = md
  all_rounds (suc n) kmd smd klen slen md i =
      all_rounds n kmd smd klen slen (round kmd smd klen slen md i) (suc i)

  -- The digest of a key with a salt.
  unfoldable pub digest : List ℕ → List ℕ → ℕ → List ℕ
  unfolding hash_md add_bits update_times all_rounds
  digest key salt rounds =
      let klen = length key in
      let md = H.sum (H.update (H.update (H.update H.init key) salt) key) in
      let added = hash_md klen (H.update (H.update H.init key) salt) klen md in
      let md' = H.sum (add_bits klen added klen md key) in
      let kmd = H.sum (update_times klen H.init key) in
      let smd = H.sum (update_times (16 + get_or md' 0 0) H.init salt) in
      all_rounds rounds kmd smd klen (length salt) md' 0

  -- `sha256crypt`: what is written to `output`.
  unfoldable pub sha_crypt : Numbers → List ℕ → List ℕ → Option (List ℕ)
  unfolding read_setting read_salt
  sha_crypt num key setting =
      let prefix = 36 ∷ H.digit ∷ 36 ∷ [] in
      if not (starts_with prefix setting)
      then none
      else (read_setting num (drop 3 setting) >>= λ s. read_salt salt_max s.salt >>= λ salt.
          some (prefix ++ (s.text ++ (salt ++ (36 ∷ H.encode (digest key salt s.rounds))))))
