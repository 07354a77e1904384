-- ===== src/Multibyte/Utf16/Examples.antt =====
-- A character of two units, before the bytes of the euro sign.
use leblibc.Prelude.{◌≡◌, refl, [], ◌∷◌, ◌++◌, List, ℕ, false, true, some, length, arith}
use leblibc.Multibyte.Encode.{wcrtomb}
use leblibc.Multibyte.Decode.{length_of}
use leblibc.Multibyte.Utf16.{bytes, c16rtomb, c16_write, mbrtoc16, second_unit, decoded, failed}
use leblibc.Multibyte.Utf16.Pairs.{high_unit, low_unit, c16rtomb-mbrtoc16}

-- A first unit is followed by a second one, or the pair is refused.
half_pair : c16rtomb false true 0x41 (c16rtomb false true 0xd83d 0).1 ≡ (failed, 0)
unfolding c16rtomb
half_pair = refl

-- A second unit by itself is no character.
lone_unit : c16rtomb false true 0xde00 0 ≡ (failed, 0)
unfolding c16rtomb c16_write wcrtomb
lone_unit = refl

abbrev euro : List ℕ
euro = 0xe2 ∷ 0x82 ∷ 0xac ∷ []

c16rtomb-mbrtoc16_example :
    (bs : List ℕ) × (mbrtoc16 false (some (bs ++ euro)) 0 ≡ record {
      state = low_unit 0x1f600;
      stored = some (high_unit 0x1f600);
      ret = decoded (length_of (length bs));
    })
    × (mbrtoc16 false (some euro) (low_unit 0x1f600)
        ≡ record { state = 0; stored = some (low_unit 0x1f600); ret = second_unit })
    × ((c16rtomb false true (high_unit 0x1f600) 0).0 ≡ bytes [])
    × (c16rtomb false true (low_unit 0x1f600) (c16rtomb false true (high_unit 0x1f600) 0).1
        ≡ (bytes bs, 0))
c16rtomb-mbrtoc16_example =
    c16rtomb-mbrtoc16 0x1f600 euro (omega arith) (omega arith)
      (omega arith, (omega arith, (omega arith, tt)))
