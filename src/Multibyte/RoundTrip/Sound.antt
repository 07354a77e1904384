-- ===== src/Multibyte/RoundTrip/Sound.antt =====
-- The decoder takes nothing but encodings: no overlong form, no surrogate, nothing past 0x10ffff.
use leblibc.Prelude.{
  ℕ, ◌^◌, ◌≤◌, ◌<◌, List, [], ◌∷◌, ◌++◌, ◌≡◌, ◌↔◌, refl, false, ◌==◌, if◌then◌else◌, some, none,
  arith, inl, inr, ◌⊎◌, ◌∙◌, sym, length,
}
use native.Mathlib.Decide.{dec_lt}
use leblibc.Multibyte.Encode.{wcrtomb}
use leblibc.Multibyte.Decode.{mbrtowc, bad}
use leblibc.Multibyte.Decode.Loop.{finished}
use leblibc.Multibyte.Utf8.{decode, two_bytes, three_bytes, four_bytes, second_lo, second_hi}
use leblibc.Multibyte.Utf8.Agrees.{IsBytes, mbrtowc_utf8}
use leblibc.Multibyte.RoundTrip.Encoded.{wcrtomb_two, wcrtomb_three, wcrtomb_four}

-- The input begins with the encoding of `wc`, and `n` is what is returned for it.
pub record BeginsWith (s : List ℕ) (n wc : ℕ) : Type 0 where
  pub bs : List ℕ
  pub rest : List ℕ
  pub splits : s ≡ bs ++ rest
  pub encoded : wcrtomb false wc ≡ some bs
  pub returned : n ≡ (if wc == 0 then 0 else length bs)

sound_one :
    (b : ℕ) (rest : List ℕ) (n wc : ℕ)
    → b < 0x80
    → finished (if b == 0 then 0 else 1) b ≡ finished n wc
    → BeginsWith (b ∷ rest) n wc
unfolding wcrtomb
sound_one b rest n wc h e = record {
  bs = b ∷ [];
  rest = rest;
  splits = refl;
  encoded = ground arith;
  returned = ground arith;
}

sound_two :
    (b : ℕ) (s : List ℕ) (n wc : ℕ)
    → 0xc2 ≤ b
    → b < 0xe0
    → two_bytes b s ≡ finished n wc
    → BeginsWith (b ∷ s) n wc
sound_two b [] n wc lo hi e = ground arith
sound_two b (b1 ∷ rest) n wc lo hi e = record {
  bs = b ∷ b1 ∷ [];
  rest = rest;
  splits = refl;
  encoded = ground (arith, wcrtomb_two wc);
  returned = ground arith;
}

sound_three :
    (b : ℕ) (s : List ℕ) (n wc : ℕ)
    → 0xe0 ≤ b
    → b < 0xf0
    → three_bytes (second_lo b) (second_hi b) b s ≡ finished n wc
    → BeginsWith (b ∷ s) n wc
sound_three b [] n wc lo hi e = ground arith
sound_three b (b1 ∷ []) n wc lo hi e = ground arith
sound_three b (b1 ∷ b2 ∷ rest) n wc lo hi e = record {
  bs = b ∷ b1 ∷ b2 ∷ [];
  rest = rest;
  splits = refl;
  encoded = ground (arith, wcrtomb_three wc);
  returned = ground arith;
}

sound_four :
    (b : ℕ) (s : List ℕ) (n wc : ℕ)
    → 0xf0 ≤ b
    → b < 0xf5
    → four_bytes (second_lo b) (second_hi b) b s ≡ finished n wc
    → BeginsWith (b ∷ s) n wc
sound_four b [] n wc lo hi e = ground arith
sound_four b (b1 ∷ []) n wc lo hi e = ground arith
sound_four b (b1 ∷ b2 ∷ []) n wc lo hi e = ground arith
sound_four b (b1 ∷ b2 ∷ b3 ∷ rest) n wc lo hi e = record {
  bs = b ∷ b1 ∷ b2 ∷ b3 ∷ [];
  rest = rest;
  splits = refl;
  encoded = ground (arith, wcrtomb_four wc);
  returned = ground arith;
}

-- The reference by the range of the first byte.
module _ (b : ℕ) (s : List ℕ) where
  decode_one : b < 0x80 → decode (b ∷ s) ≡ finished (if b == 0 then 0 else 1) b
  unfolding decode
  decode_one h = ground arith

  decode_two : 0xc2 ≤ b → b < 0xe0 → decode (b ∷ s) ≡ two_bytes b s
  unfolding decode
  decode_two lo hi = ground arith

  decode_three : 0xe0 ≤ b → b < 0xf0 → decode (b ∷ s) ≡ three_bytes (second_lo b) (second_hi b) b s
  unfolding decode
  decode_three lo hi = ground arith

  decode_four : 0xf0 ≤ b → b < 0xf5 → decode (b ∷ s) ≡ four_bytes (second_lo b) (second_hi b) b s
  unfolding decode
  decode_four lo hi = ground arith

  decode-bad : ((0x80 ≤ b) × (b < 0xc2)) ⊎ (0xf5 ≤ b) → decode (b ∷ s) ≡ bad
  unfolding decode
  decode-bad h = ground arith

bad-finished : {n wc : ℕ} → bad ≡ finished n wc → ⊥
bad-finished e = cc

decode_sound : (s : List ℕ) (n wc : ℕ) → decode s ≡ finished n wc → BeginsWith s n wc
decode_sound [] n wc e = absurd (unfold decode in cc)
decode_sound (b ∷ s) n wc e = elim (dec_lt b 0x80) [
  | yes h ↦ sound_one b s n wc h (sym (decode_one b s h) ∙ e)
  | no h ↦ elim (dec_lt b 0xc2) [
    | yes k ↦ absurd (bad-finished (sym (decode-bad b s (inl (omega arith, k))) ∙ e))
    | no k ↦ elim (dec_lt b 0xe0) [
      | yes m ↦ sound_two b s n wc (omega arith) m (sym (decode_two b s (omega arith) m) ∙ e)
      | no m ↦ elim (dec_lt b 0xf0) [
        | yes p ↦ sound_three b s n wc (omega arith) p (sym (decode_three b s (omega arith) p) ∙ e)
        | no p ↦ elim (dec_lt b 0xf5) [
          | yes q ↦ sound_four b s n wc (omega arith) q (sym (decode_four b s (omega arith) q) ∙ e)
          | no q ↦ absurd (bad-finished (sym (decode-bad b s (inr (omega arith))) ∙ e))
        ]
      ]
    ]
  ]
]

-- Where mbrtowc, from the initial state and in a UTF-8 locale, stores a character, the input begins
-- with the bytes that wcrtomb writes for it, and the number returned is their count, or 0 for the
-- null character.
pub mbrtowc_sound :
    (s : List ℕ) (n wc : ℕ)
    → IsBytes s
    → mbrtowc false 0 (some s) ≡ finished n wc
    → BeginsWith s n wc
mbrtowc_sound s n wc bytes e = decode_sound s n wc (sym (mbrtowc_utf8 s bytes) ∙ e)

-- In a UTF-8 locale wcrtomb fails exactly for the wide characters that are no Unicode scalar values,
-- the surrogates and what lies past 0x10ffff.
pub wcrtomb_fails_iff :
    (wc : ℕ)
    → wc < 2 ^ 32
    → (wcrtomb false wc ≡ none) ↔ ((¬ (wc < 0xd800)) × (¬ ((0xe000 ≤ wc) × (wc < 0x110000))))
unfolding wcrtomb
wcrtomb_fails_iff wc lt = ground arith
