-- ===== src/Multibyte/Examples.antt =====
-- Runs of the encoder and the decoder, and the theorems about them at single characters.
use leblibc.Prelude.{
  ℕ, ◌<◌, ◌≤◌, List, [], ◌∷◌, ◌++◌, false, ◌==◌, ◌≡◌, ◌↔◌, refl, arith, inr, none, some, length, ap,
  if◌then◌else◌,
}
use leblibc.Multibyte.Encode.{wcrtomb}
use leblibc.Multibyte.Decode.{incomplete, mbrtowc}
use leblibc.Multibyte.Decode.Loop.{finished}
use leblibc.Multibyte.Utf8.{decode}
use leblibc.Multibyte.Utf8.Agrees.{IsBytes, mbrtowc_utf8}
use leblibc.Multibyte.RoundTrip.{mbrtowc-wcrtomb}
use leblibc.Multibyte.RoundTrip.Sound.{BeginsWith, mbrtowc_sound, wcrtomb_fails_iff}
use leblibc.Multibyte.Restart.{after, mbrtowc_restart}

-- The euro sign.
abbrev euro : List ℕ
euro = 0xe2 ∷ 0x82 ∷ 0xac ∷ []

euro-IsBytes : IsBytes euro
euro-IsBytes = omega arith

euro_encoded : wcrtomb false 0x20ac ≡ some euro
unfolding wcrtomb
euro_encoded = refl

euro_decoded : mbrtowc false 0 (some euro) ≡ finished 3 0x20ac
unfolding decode
euro_decoded = mbrtowc_utf8 euro euro-IsBytes

mbrtowc_utf8_example : mbrtowc false 0 (some euro) ≡ decode euro
mbrtowc_utf8_example = mbrtowc_utf8 euro euro-IsBytes

mbrtowc-wcrtomb_example :
    (bs : List ℕ) × (wcrtomb false 0x1f600 ≡ some bs)
    × (mbrtowc false 0 (some (bs ++ euro))
        ≡ finished (if 0x1f600 == 0 then 0 else length bs) 0x1f600)
mbrtowc-wcrtomb_example = mbrtowc-wcrtomb 0x1f600 euro (inr (omega arith)) euro-IsBytes

mbrtowc_sound_example : BeginsWith euro 3 0x20ac
mbrtowc_sound_example = mbrtowc_sound euro 3 0x20ac euro-IsBytes euro_decoded

wcrtomb_fails_iff_example :
    (wcrtomb false 0xd800 ≡ none)
    ↔ ((¬ (0xd800 < 0xd800)) × (¬ ((0xe000 ≤ 0xd800) × (0xd800 < 0x110000))))
wcrtomb_fails_iff_example = wcrtomb_fails_iff 0xd800 (omega arith)

front-IsBytes : IsBytes (0xe2 ∷ 0x82 ∷ [])
front-IsBytes = omega arith

front_unfinished : (mbrtowc false 0 (some (0xe2 ∷ 0x82 ∷ []))).ret ≡ incomplete
unfolding decode
front_unfinished = ap (λ d. d.ret) (mbrtowc_utf8 (0xe2 ∷ 0x82 ∷ []) front-IsBytes)

mbrtowc_restart_example :
    mbrtowc false 0 (some euro)
    ≡ after 2 (mbrtowc false (mbrtowc false 0 (some (0xe2 ∷ 0x82 ∷ []))).state (some (0xac ∷ [])))
mbrtowc_restart_example =
    mbrtowc_restart 0xe2 (0x82 ∷ []) 0xac [] front-IsBytes (omega arith) front_unfinished
