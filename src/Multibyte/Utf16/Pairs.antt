-- ===== src/Multibyte/Utf16/Pairs.antt =====
-- A character outside of the basic plane is two units, and comes back from them.
use leblibc.Prelude.{
  ℕ, ◌+◌, ◌-◌, ◌*◌, ◌/◌, ◌%◌, ◌^◌, ◌≤◌, ◌<◌, ◌≡◌, refl, ap, ◌∙◌, List, [], ◌++◌, true, false, ltb,
  leb, ◌==◌, if◌then◌else◌, some, length, arith, inr,
}
use leblibc.Prelude.Bits.{bit_and_low}
use leblibc.Multibyte.Decode.{length_of}
use leblibc.Multibyte.Decode.Loop.{finished}
use leblibc.Multibyte.Utf8.Agrees.{IsBytes}
use leblibc.Multibyte.RoundTrip.{mbrtowc-wcrtomb}
use leblibc.Multibyte.Utf16.{bytes, c16_write, c16rtomb, second_unit, decoded, c16_store, mbrtoc16}

abbrev pub high_unit : ℕ → ℕ
high_unit wc = 0xd7c0 + wc / 2 ^ 10

abbrev pub low_unit : ℕ → ℕ
low_unit wc = wc % 2 ^ 10 + 0xdc00

c16_store-pair :
    (n wc : ℕ)
    → 0x10000 ≤ wc
    → c16_store (finished n wc)
      ≡ record { state = low_unit wc; stored = some (high_unit wc); ret = decoded (length_of n) }
unfolding c16_store
c16_store-pair n wc h =
    let large : leb 0x10000 wc ≡ true = ground arith in rw (large, bit_and_low 10 wc) refl

c16rtomb-high :
    (wc : ℕ)
    → 0x10000 ≤ wc
    → wc < 0x110000
    → c16rtomb false true (high_unit wc) 0 ≡ (bytes [], wc / 2 ^ 10 * 2 ^ 10)
unfolding c16rtomb
c16rtomb-high wc lo hi =
    let inside : ltb ((high_unit wc + 2 ^ 32 - 0xd800) % 2 ^ 32) 0x400 ≡ true = ground arith in
    let state : high_unit wc - 0xd7c0 ≡ wc / 2 ^ 10 = omega arith in
    rw inside (ap (λ k. (bytes [], k * 2 ^ 10)) state)

c16rtomb-low :
    (wc : ℕ)
    → 0x10000 ≤ wc
    → wc < 0x110000
    → c16rtomb false true (low_unit wc) (wc / 2 ^ 10 * 2 ^ 10) ≡ c16_write false wc
unfolding c16rtomb
c16rtomb-low wc lo hi =
    let begun : (wc / 2 ^ 10 * 2 ^ 10 == 0) ≡ false = ground arith in
    let inside : leb 0x400 ((low_unit wc + 2 ^ 32 - 0xdc00) % 2 ^ 32) ≡ false = ground arith in
    let joined : wc / 2 ^ 10 * 2 ^ 10 + low_unit wc - 0xdc00 ≡ wc = omega arith in
    rw (begun, inside) (ap (λ c. c16_write false c) joined)

-- For every character from 0x10000 up to 0x10ffff, mbrtoc16 stores the two units of its pair in two
-- calls, the second of which reads nothing, and c16rtomb, given them one after the other, stores the
-- bytes that were read; both are in the initial state then.
pub c16rtomb-mbrtoc16 :
    (wc : ℕ) (rest : List ℕ)
    → 0x10000 ≤ wc
    → wc < 0x110000
    → IsBytes rest
    → (bs : List ℕ) × (mbrtoc16 false (some (bs ++ rest)) 0 ≡ record {
      state = low_unit wc;
      stored = some (high_unit wc);
      ret = decoded (length_of (length bs));
    })
      × (mbrtoc16 false (some rest) (low_unit wc)
          ≡ record { state = 0; stored = some (low_unit wc); ret = second_unit })
      × ((c16rtomb false true (high_unit wc) 0).0 ≡ bytes [])
      × (c16rtomb false true (low_unit wc) (c16rtomb false true (high_unit wc) 0).1 ≡ (bytes bs, 0))
unfolding mbrtoc16 c16_write
c16rtomb-mbrtoc16 wc rest lo hi h =
    let (bs, encoded, read) = mbrtowc-wcrtomb wc rest (inr (omega arith)) h in
    let nonzero : (wc == 0) ≡ false = ground arith in
    let waiting : (low_unit wc == 0) ≡ false = ground arith in
    let small : ltb (low_unit wc) (2 ^ 31) ≡ true = ground arith in
    let unit : low_unit wc % 2 ^ 16 ≡ low_unit wc = omega arith in
    let high = c16rtomb-high wc lo hi in
    (
      bs,
      ap c16_store (read ∙ ap (λ t. finished (if t then 0 else length bs) wc) nonzero)
          ∙ c16_store-pair (length bs) wc lo,
      rw (waiting, small, unit) refl,
      ap (λ p. p.0) high,
      ap (λ p. c16rtomb false true (low_unit wc) p.1) high
          ∙ c16rtomb-low wc lo hi
          ∙ rw encoded refl,
    )
