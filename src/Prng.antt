-- ===== src/Prng.antt =====
-- `src/prng/random.c`: the additive generator behind `random`, with its states that a program may
-- switch between.
pub mod Linear
pub mod View
pub mod Bounds
pub mod Switch
mod Examples
use leblibc.Prelude.{
  ℕ, zero, suc, ◌+◌, ◌*◌, ◌/◌, ◌%◌, ◌^◌, ◌≡◌, List, [], ◌∷◌, Bool, true, false, Option, none, some,
  ◌>>=◌, ltb, ◌==◌, ◌||◌, if◌then◌else◌, get_elem?, bit_or, bit_and,
}

-- An array of state: the word `x[-1]`, and the words from `x[0]` on.
pub record Buffer : Type 0 where
  pub header : ℕ
  pub words : List ℕ

-- The static variables, with the address in `x` and the arrays in memory.
pub record Random : Type 0 where
  pub n : ℕ
  pub i : ℕ
  pub j : ℕ
  pub x : ℕ
  pub store : ℕ → Buffer

abbrev pub word_mod : ℕ
word_mod = 2 ^ 32

unfoldable pub lcg31 : ℕ → ℕ
lcg31 x = bit_and ((1103515245 * x + 12345) % word_mod) 0x7fffffff

unfoldable pub lcg64 : ℕ → ℕ
lcg64 x = (6364136223846793005 * x + 1) % 2 ^ 64

-- A write; `none` is past the end of the array.
unfoldable pub set_elem? : List ℕ → ℕ → ℕ → Option (List ℕ)
set_elem? [] k v = none
set_elem? (w ∷ ws) zero v = some (v ∷ ws)
set_elem? (w ∷ ws) (suc k) v = set_elem? ws k v >>= λ ws'. some (w ∷ ws')

unfoldable pub put_buffer : (ℕ → Buffer) → ℕ → Buffer → ℕ → Buffer
put_buffer store a b c = if c == a then b else store c

unfoldable pub current : Random → List ℕ
current r = (r.store r.x).words

unfoldable pub set_words : Random → List ℕ → Random
unfolding put_buffer
set_words r ws = record r { store = put_buffer r.store r.x (record (r.store r.x) { words = ws }) }

-- `x[k]` and `x[k] = v`.
unfoldable pub read : Random → ℕ → Option ℕ
unfolding current
read r k = get_elem? (current r) k

unfoldable pub put : Random → ℕ → ℕ → Option Random
unfolding current set_words set_elem?
put r k v = set_elem? (current r) k v >>= λ ws. some (set_words r ws)

-- The state as it is afterwards, and the address returned.
unfoldable pub savestate : Random → ℕ × Random
unfolding put_buffer
savestate r =
    let header = bit_or (bit_or (r.n * 2 ^ 16 % word_mod) (r.i * 2 ^ 8)) r.j in
    (r.x, record r { store = put_buffer r.store r.x (record (r.store r.x) { header = header }) })

unfoldable pub loadstate : ℕ → Random → Random
loadstate state r =
    let header = (r.store state).header in
    record r {
      x = state;
      n = header / 2 ^ 16;
      i = bit_and (header / 2 ^ 8) 0xff;
      j = bit_and header 0xff;
    }

-- The loop of `__srandom`, with `count` turns left.
unfoldable pub seed_loop : ℕ → ℕ → ℕ → Random → Option Random
unfolding lcg64 put
seed_loop zero k s r = some r
seed_loop (suc count) k s r =
    let s' = lcg64 s in put r k (s' / 2 ^ 32) >>= λ r'. seed_loop count (suc k) s' r'

-- `__srandom`, where `seed` is an unsigned int.
unfoldable pub srandom : ℕ → Random → Option Random
unfolding put seed_loop read
srandom seed r =
    if r.n == 0
    then put r 0 seed
    else (let first = if (r.n == 31) || (r.n == 7) then 3 else 1 in
        seed_loop r.n 0 seed (record r { i = first; j = 0 }) >>= λ r'.
        read r' 0 >>= λ w. put r' 0 (bit_or w 1))

-- The number of words that a size in bytes gives.
unfoldable pub degree : ℕ → ℕ
degree size =
    if ltb size 32
    then 0
    else if ltb size 64
    then 7
    else if ltb size 128
    then 15
    else if ltb size 256
    then 31
    else 63

-- A null pointer is `none` inside.
unfoldable pub initstate : ℕ → ℕ → ℕ → Random → Option (Option ℕ × Random)
unfolding savestate degree srandom
initstate seed state size r =
    let (old, saved) = savestate r in
    let begun = srandom seed (record saved { n = degree size; x = state }) in
    if ltb size 8 then some (none, r) else begun >>= λ r'. some (some old, (savestate r').1)

unfoldable pub setstate : ℕ → Random → ℕ × Random
unfolding savestate loadstate
setstate state r = let (old, saved) = savestate r in (old, loadstate state saved)

-- `if (++i == n) i = 0;`
unfoldable pub next : ℕ → ℕ → ℕ
next n i = if suc i == n then 0 else suc i

unfoldable pub random : Random → Option (ℕ × Random)
unfolding read put lcg31 next
random r =
    if r.n == 0
    then (read r 0 >>= λ w. let k = lcg31 w in put r 0 k >>= λ r'. some (k, r'))
    else (read r r.i >>= λ a. read r r.j >>= λ b.
        let v = (a + b) % word_mod in
        put r r.i v >>= λ r'. some (v / 2, record r' { i = next r'.n r'.i; j = next r'.n r'.j }))

-- `init`, without its header.
abbrev pub init_words : List ℕ
init_words =
    1481765933 ∷ 3232861391 ∷ 3417699910 ∷ 3338875177 ∷ 812669700 ∷ 553475508 ∷ 2592833400
    ∷ 1344887256 ∷ 2877900904 ∷ 1812158119 ∷ 2295183359 ∷ 3027751999 ∷ 1889772843 ∷ 2833562353
    ∷ 4253237756 ∷ 2330030041 ∷ 1949118330 ∷ 220137366 ∷ 1979932169 ∷ 1089957932 ∷ 1873226917
    ∷ 2863153495 ∷ 1486937972 ∷ 3343516516 ∷ 2924690628 ∷ 68706223 ∷ 1843638549 ∷ 212567592
    ∷ 4030971812 ∷ 964776169 ∷ 928126551 ∷ []

-- The static variables at the start, with `init` at the address 0, and no other array.
abbrev pub initial : Random
initial = record {
  n = 31;
  i = 3;
  j = 0;
  x = 0;
  store = λ a.
      if a == 0
      then record { header = 0; words = init_words }
      else record { header = 0; words = [] };
}
