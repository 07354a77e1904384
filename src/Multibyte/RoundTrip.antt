-- ===== src/Multibyte/RoundTrip.antt =====
-- Encoder and decoder undo one another.
pub mod Encoded
pub mod Sound
use leblibc.Prelude.{
  ℕ, suc, ◌+◌, ◌-◌, ◌*◌, ◌/◌, ◌%◌, ◌^◌, ◌≤◌, ◌<◌, List, [], ◌∷◌, ◌++◌, ◌≡◌, refl, Bool, true, false,
  ◌==◌, if◌then◌else◌, some, none, arith, inl, inr, ◌∙◌, ◌⊎◌, All, All-append, length,
}
use native.Mathlib.Decide.{dec_lt}
use leblibc.Multibyte.Encode.{wcrtomb}
use leblibc.Multibyte.Decode.{mbrtowc}
use leblibc.Multibyte.Decode.Loop.{finished}
use leblibc.Multibyte.Utf8.{decode}
use leblibc.Multibyte.Utf8.Agrees.{IsBytes, mbrtowc_utf8}
use leblibc.Multibyte.RoundTrip.Encoded.{IsScalar, IsEncoding, scalar-IsEncoding}

-- Every Unicode scalar value is encoded, and mbrtowc reads it back from the front of any bytes that
-- begin with its encoding; it returns the length of the encoding, and 0 for the null character.
pub mbrtowc-wcrtomb :
    (wc : ℕ) (rest : List ℕ)
    → IsScalar wc
    → IsBytes rest
    → (bs : List ℕ) × (wcrtomb false wc ≡ some bs)
      × (mbrtowc false 0 (some (bs ++ rest)) ≡ finished (if wc == 0 then 0 else length bs) wc)
mbrtowc-wcrtomb wc rest sc bytes =
    let e = scalar-IsEncoding wc sc in
    (
      e.bs,
      e.encoded,
      mbrtowc_utf8 (e.bs ++ rest) (All-append (λ b. b < 256) e.bs rest e.bytes bytes)
          ∙ e.decoded rest,
    )
