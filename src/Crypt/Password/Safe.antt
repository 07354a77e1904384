-- ===== src/Crypt/Password/Safe.antt =====
-- What `sha256crypt` and `sha512crypt` print fits into a field of a password file.
use leblibc.Prelude.{
  ℕ, zero, suc, ◌*◌, ◌/◌, ◌%◌, ◌<◌, ◌≡◌, ◌≢◌, List, [], ◌∷◌, ◌++◌, not, ltb, ◌==◌, ◌||◌,
  if◌then◌else◌, All, All-append, arith, bit_or, inl, inr, Bool-cases, Option, none, some, ◌>>=◌,
  get_or, ◌^◌,
}
use leblibc.Prelude.Slices.{drop}
use leblibc.Crypt.Password.Functions.{sha256_hash, sha512_hash, sha256_crypt, sha512_crypt}
use leblibc.Crypt.Password.{
  b64, to64, triple, encode_rows, encode_256, encode_512, perm_256, perm_512, Hash, Numbers,
  Setting, read_setting, limit_rounds, read_salt, sha_crypt, starts_with, rounds_key, salt_max,
  digest, first, is_digit,
}

-- No colon, and no newline.
abbrev pub IsPlain : ℕ → Type 0
IsPlain c = (c ≢ 58) × (c ≢ 10)

abbrev pub ArePlain : List ℕ → Type 0
ArePlain = All IsPlain

plain-append : (s t : List ℕ) → ArePlain s → ArePlain t → ArePlain (s ++ t)
plain-append s t h k = All-append IsPlain s t h k

b64-IsPlain : (d : ℕ) → d < 64 → IsPlain (b64 d)
unfolding b64
b64-IsPlain d h = (λ e. ground arith, λ e. ground arith)

to64-ArePlain : (u n : ℕ) → ArePlain (to64 u n)
unfolding to64
to64-ArePlain u zero = tt
to64-ArePlain u (suc n) = (b64-IsPlain (u % 64) (omega arith), to64-ArePlain (u / 64) n)

encode_rows-ArePlain : (rows : List (ℕ × ℕ × ℕ)) (md : List ℕ) → ArePlain (encode_rows rows md)
unfolding encode_rows
encode_rows-ArePlain [] md = tt
encode_rows-ArePlain (row ∷ rows) md =
    plain-append (to64 (triple md row) 4) (encode_rows rows md) (to64-ArePlain (triple md row) 4)
      (encode_rows-ArePlain rows md)

pub encode_256-ArePlain : (md : List ℕ) → ArePlain (encode_256 md)
unfolding encode_256
encode_256-ArePlain md =
    let u = bit_or (get_or md 31 0 * 2 ^ 8) (get_or md 30 0) in
    plain-append (encode_rows perm_256 md) (to64 u 3) (encode_rows-ArePlain perm_256 md)
      (to64-ArePlain u 3)

pub encode_512-ArePlain : (md : List ℕ) → ArePlain (encode_512 md)
unfolding encode_512
encode_512-ArePlain md =
    let u = get_or md 63 0 in
    plain-append (encode_rows perm_512 md) (to64 u 2) (encode_rows-ArePlain perm_512 md)
      (to64-ArePlain u 2)

-- A text that is plain, if there is one.
abbrev Plain : Option (List ℕ) → Type 0
Plain none = Unit
Plain (some s) = ArePlain s

cons-Plain :
    (c : ℕ) (rest : Option (List ℕ)) → IsPlain c → Plain rest → Plain (rest >>= λ s. some (c ∷ s))
cons-Plain c none h k = tt
cons-Plain c (some s) h k = (h, k)

read_salt-Plain : (max : ℕ) (s : List ℕ) → Plain (read_salt max s)
unfolding read_salt
read_salt-Plain zero s = tt
read_salt-Plain (suc max) [] = tt
read_salt-Plain (suc max) (c ∷ s) = elim (Bool-cases (c == 36)) [
  | inl end ↦ rw end tt
  | inr more ↦ elim (Bool-cases (c == 10 || c == 58)) [
    | inl refused ↦ rw (more, refused) tt
    | inr taken ↦
        rw (more, taken)
          (cons-Plain c (read_salt max s) (λ e. ground arith, λ e. ground arith)
            (read_salt-Plain max s))
  ]
]

-- The text to print for the rounds.
abbrev PlainSetting : Option Setting → Type 0
PlainSetting none = Unit
PlainSetting (some s) = ArePlain s.text

rounds_key-ArePlain : ArePlain rounds_key
rounds_key-ArePlain = ground arith

module _ (num : Numbers) (digits : (n : ℕ) → ArePlain (num.print n)) where
  dollar : ArePlain (36 ∷ [])
  dollar = ground arith

  limit_rounds-Plain : (r : ℕ × List ℕ) → PlainSetting (limit_rounds num r)
  unfolding limit_rounds
  limit_rounds-Plain (u, rest) = elim (Bool-cases (not (first rest == 36))) [
    | inl other ↦ rw other tt
    | inr ended ↦ elim (Bool-cases (ltb 9999999 u)) [
      | inl many ↦ rw (ended, many) tt
      | inr some_rounds ↦
          rw (ended, some_rounds)
            (let r = if ltb u 1000 then 1000 else u in
              plain-append rounds_key (num.print r ++ 36 ∷ []) rounds_key-ArePlain
                (plain-append (num.print r) (36 ∷ []) (digits r) dollar))
    ]
  ]

  read_setting-Plain : (s : List ℕ) → PlainSetting (read_setting num s)
  unfolding read_setting
  read_setting-Plain s = elim (Bool-cases (starts_with rounds_key s)) [
    | inr none_given ↦ rw none_given tt
    | inl given ↦ elim (Bool-cases (is_digit (first (drop 7 s)))) [
      | inl number ↦ rw (given, number) (limit_rounds-Plain (num.strtoul (drop 7 s)))
      | inr other ↦ rw (given, other) tt
    ]
  ]

  module _ {C : Type 0} (H : Hash C) (plain_digit : IsPlain H.digit)
      (encoded : (md : List ℕ) → ArePlain (H.encode md)) where
    prefix_plain : ArePlain (36 ∷ H.digit ∷ 36 ∷ [])
    prefix_plain = ground arith

    printed :
        (key : List ℕ) (s : Option Setting)
        → PlainSetting s
        → Plain (
            s >>= λ s. read_salt salt_max s.salt >>= λ salt. some (
              (36 ∷ H.digit ∷ 36 ∷ [])
              ++ (s.text ++ (salt ++ (36 ∷ H.encode (digest H key salt s.rounds))))))
    printed key none h = tt
    printed key (some s) h = with_salt (read_salt salt_max s.salt) (read_salt-Plain salt_max s.salt)
      where
        with_salt :
            (salt : Option (List ℕ))
            → Plain salt
            → Plain (
                salt >>= λ salt. some (
                  (36 ∷ H.digit ∷ 36 ∷ [])
                  ++ (s.text ++ (salt ++ (36 ∷ H.encode (digest H key salt s.rounds))))))
        with_salt none k = tt
        with_salt (some salt) k =
            let code = H.encode (digest H key salt s.rounds) in
            plain-append (36 ∷ H.digit ∷ 36 ∷ []) (s.text ++ (salt ++ (36 ∷ code))) prefix_plain (
              plain-append s.text (salt ++ (36 ∷ code)) h (
                plain-append salt (36 ∷ code) k
                  (plain-append (36 ∷ []) code dollar (encoded (digest H key salt s.rounds)))))

    pub sha_crypt-Plain : (key setting : List ℕ) → Plain (sha_crypt H num key setting)
    unfolding sha_crypt
    sha_crypt-Plain key setting =
        elim (Bool-cases (not (starts_with (36 ∷ H.digit ∷ 36 ∷ []) setting))) [
          | inl other ↦ rw other tt
          | inr ours ↦ rw ours (
              printed key (read_setting num (drop 3 setting)) (read_setting-Plain (drop 3 setting)))
        ]

  given : (found : Option (List ℕ)) (out : List ℕ) → Plain found → found ≡ some out → ArePlain out
  given found out h e = rw e at h

  -- Where the numbers are printed without a colon or a newline, no text that sha256crypt returns
  -- has one, whatever the key and the setting are.
  pub sha256_crypt-ArePlain :
      (key setting out : List ℕ) → sha256_crypt num key setting ≡ some out → ArePlain out
  unfolding sha256_crypt
  sha256_crypt-ArePlain key setting out e =
      given _ out (sha_crypt-Plain sha256_hash (ground arith) encode_256-ArePlain key setting) e

  -- Where the numbers are printed without a colon or a newline, no text that sha512crypt returns
  -- has one, whatever the key and the setting are.
  pub sha512_crypt-ArePlain :
      (key setting out : List ℕ) → sha512_crypt num key setting ≡ some out → ArePlain out
  unfolding sha512_crypt
  sha512_crypt-ArePlain key setting out e =
      given _ out (sha_crypt-Plain sha512_hash (ground arith) encode_512-ArePlain key setting) e
