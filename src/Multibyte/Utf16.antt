-- ===== src/Multibyte/Utf16.antt =====
-- `c16rtomb.c` and `mbrtoc16.c`: UTF-16 units, of which a pair stands for one character.
pub mod Pairs
mod Examples
use leblibc.Prelude.{
  ℕ, zero, suc, ◌+◌, ◌-◌, ◌*◌, ◌/◌, ◌%◌, ◌^◌, List, [], ◌∷◌, Bool, not, ltb, leb, ◌==◌, ◌&&◌,
  if◌then◌else◌, bit_and, Option, none, some,
}
use leblibc.Multibyte.{word_mod}
use leblibc.Multibyte.Encode.{wcrtomb}
use leblibc.Multibyte.Decode.{Decoded, Ret, length_of, incomplete, ilseq, mbrtowc}

-- What `c16rtomb` returns: the count of the bytes that it stores, 1 without a buffer, or -1.
pub data Wrote : Type 0 where
  bytes : List ℕ → Wrote
  initial : Wrote
  failed : Wrote

abbrev written : Option (List ℕ) → Wrote
written none = failed
written (some bs) = bytes bs

-- The last line of `c16rtomb`.
unfoldable pub c16_write : Bool → ℕ → Wrote × ℕ
unfolding wcrtomb
c16_write single wc = (written (wcrtomb single wc), 0)

-- `buffer` is false for a null `s`; with the result comes the state `*x`.
unfoldable pub c16rtomb : Bool → Bool → ℕ → ℕ → Wrote × ℕ
unfolding c16_write
c16rtomb single buffer c16 x =
    if not buffer
    then (if not (x == 0) then (failed, 0) else (initial, x))
    else if (x == 0) && ltb ((c16 + word_mod - 0xd800) % word_mod) 0x400
    then (bytes [], (c16 - 0xd7c0) * 2 ^ 10)
    else if not (x == 0)
    then (if leb 0x400 ((c16 + word_mod - 0xdc00) % word_mod)
        then (failed, 0)
        else c16_write single (x + c16 - 0xdc00))
    else c16_write single c16

-- What `mbrtoc16` returns: -3 for the second unit of a pair, or what `mbrtowc` returns.
pub data Ret16 : Type 0 where
  second_unit : Ret16
  decoded : Ret → Ret16

pub record Units : Type 0 where
  pub state : ℕ
  pub stored : Option ℕ
  pub ret : Ret16

-- What follows `mbrtowc` in `mbrtoc16`.
unfoldable pub c16_store : Decoded → Units
c16_store d = split d.stored
  where
    split : Option ℕ → Units
    split none = record { state = d.state; stored = none; ret = decoded d.ret }
    split (some wc) =
        if leb 0x10000 wc
        then record {
          state = bit_and wc 0x3ff + 0xdc00;
          stored = some (0xd7c0 + wc / 2 ^ 10);
          ret = decoded d.ret;
        }
        else record { state = d.state; stored = some wc; ret = decoded d.ret }

-- `none` is a null `s`, which reads a null byte.
unfoldable pub mbrtoc16 : Bool → Option (List ℕ) → ℕ → Units
unfolding c16_store mbrtowc
mbrtoc16 single s pending =
    if not (pending == 0) && ltb pending (2 ^ 31)
    then record { state = 0; stored = some (pending % 2 ^ 16); ret = second_unit }
    else c16_store (mbrtowc single pending (some (input s)))
  where
    input : Option (List ℕ) → List ℕ
    input none = 0 ∷ []
    input (some s) = s
