-- ===== src/Multibyte/Whole/Examples.antt =====
-- The euro sign, and what is left of it without its last byte.
use leblibc.Prelude.{◌≡◌, refl, [], ◌∷◌, some, false, arith}
use leblibc.Multibyte.{bittab, oob_top}
use leblibc.Multibyte.Decode.{mbrtowc}
use leblibc.Multibyte.Whole.{mbtowc, after_lead, second, third, fourth, done, refused}
use leblibc.Multibyte.Whole.Steps.{whole}
use leblibc.Multibyte.Whole.Agrees.{mbtowc-mbrtowc}

euro : mbtowc false (some (0xe2 ∷ 0x82 ∷ 0xac ∷ [])) ≡ done 3 0x20ac
unfolding mbtowc after_lead second third fourth bittab oob_top
euro = refl

half_euro : mbtowc false (some (0xe2 ∷ 0x82 ∷ [])) ≡ refused
unfolding mbtowc after_lead second third fourth bittab oob_top
half_euro = refl

mbtowc-mbrtowc_example :
    mbtowc false (some (0xe2 ∷ 0x82 ∷ [])) ≡ whole (mbrtowc false 0 (some (0xe2 ∷ 0x82 ∷ [])))
mbtowc-mbrtowc_example = mbtowc-mbrtowc (0xe2 ∷ 0x82 ∷ []) (omega arith, (omega arith, tt))
