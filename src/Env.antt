-- ===== src/Env.antt =====
-- `src/env`: the environment of a process, with the strings that `setenv` allocates and frees.
pub mod Matches
pub mod Lookup
pub mod Set
mod Examples
use leblibc.Prelude.{
  ℕ, zero, suc, ◌+◌, ◌-◌, List, [], ◌∷◌, ◌++◌, Bool, true, false, not, ◌&&◌, ◌||◌, Option, none,
  some, ◌==◌, if◌then◌else◌, length, get_or, map, ◌>>=◌,
}
use leblibc.Prelude.Slices.{take, drop}
use leblibc.Prelude.Int.{ℤ, pos, negsuc, sub_ℕ}

-- A string is the list of its bytes before the null; `first s` is `*s`.
unfoldable pub first : List ℕ → ℕ
first [] = 0
first (c ∷ s) = c

-- `__strchrnul(s, c) - s`.
unfoldable pub strchrnul : List ℕ → ℕ → ℕ
strchrnul [] c = 0
strchrnul (d ∷ s) c = let rest = strchrnul s c in if d == c then 0 else suc rest

-- The loop of `strncmp`, after `n--`.
unfoldable pub strncmp_loop : List ℕ → List ℕ → ℕ → ℤ
unfolding first
strncmp_loop [] r n = sub_ℕ 0 (first r)
strncmp_loop (c ∷ l) [] n = sub_ℕ c 0
strncmp_loop (c ∷ l) (d ∷ r) zero = sub_ℕ c d
strncmp_loop (c ∷ l) (d ∷ r) (suc n) =
    let rest = strncmp_loop l r n in if c == d then rest else sub_ℕ c d

unfoldable pub strncmp : List ℕ → List ℕ → ℕ → ℤ
unfolding strncmp_loop
strncmp l r zero = pos 0
strncmp l r (suc n) = strncmp_loop l r n

abbrev pub is_some : {A : Type 0} → Option A → Bool
is_some none = false
is_some (some a) = true

-- `!x`.
abbrev pub is_zero : ℤ → Bool
is_zero (pos zero) = true
is_zero (pos (suc n)) = false
is_zero (negsuc n) = false

-- A string in memory.
pub record Entry : Type 0 where
  pub at : ℕ
  pub text : List ℕ

-- The array that `__environ` points to, with its contents; the static variables; what was freed, and
-- errno. An address of 0 is the null pointer. An entry keeps the text of a string that was freed: a use
-- after free is not seen.
pub record Env : Type 0 where
  pub environ : ℕ
  pub entries : List Entry
  pub oldenv : ℕ
  pub env_alloced : List ℕ
  pub freed : List ℕ
  pub errno : ℕ

-- The entries up to the null pointer that ends the array.
unfoldable pub current : Env → List Entry
current e = if e.environ == 0 then [] else e.entries

abbrev pub einval : ℕ
einval = 22

-- The loop of `__env_rm_add`: the slots, and `new` if no slot was given to it and `old` was not found,
-- and whether it was found.
unfoldable pub rm_add_loop : ℕ → ℕ → List ℕ → List ℕ × ℕ × Bool
rm_add_loop old new [] = ([], new, false)
rm_add_loop old new (slot ∷ slots) =
    let (kept, left, found) = rm_add_loop old new slots in
    let (filled, none_left, found') = rm_add_loop old 0 slots in
    if slot == old
    then (new ∷ slots, 0, true)
    else if (slot == 0) && not (new == 0)
    then (new ∷ filled, none_left, found')
    else (slot ∷ kept, left, found)

-- `grows` says whether realloc succeeds.
unfoldable pub env_rm_add : Bool → ℕ → ℕ → Env → Env
unfolding rm_add_loop
env_rm_add grows old new e =
    let (slots, left, found) = rm_add_loop old new e.env_alloced in
    if found
    then record e { env_alloced = slots; freed = old ∷ e.freed }
    else if (left == 0) || not grows
    then record e { env_alloced = slots }
    else record e { env_alloced = slots ++ left ∷ [] }

-- `return *e + l+1;` at the first entry that has the name.
unfoldable pub getenv_loop : List ℕ → ℕ → List Entry → Option (List ℕ)
unfolding strncmp
getenv_loop name l [] = none
getenv_loop name l (e ∷ es) =
    let rest = getenv_loop name l es in
    if is_zero (strncmp name e.text l) && (get_or e.text l 0 == 61)
    then some (drop (l + 1) e.text)
    else rest

unfoldable pub getenv : List ℕ → Env → Option (List ℕ)
unfolding getenv_loop strchrnul current
getenv name e =
    let l = strchrnul name 61 in
    if not (l == 0) && (get_or name l 0 == 0) then getenv_loop name l (current e) else none

-- The first loop of `__putenv`: the address that was replaced, and the entries.
unfoldable pub replace : Entry → ℕ → List Entry → Option (ℕ × List Entry)
unfolding strncmp
replace s l [] = none
replace s l (e ∷ es) =
    let rest = replace s l es >>= λ (tmp, es'). some (tmp, e ∷ es') in
    if is_zero (strncmp s.text e.text (l + 1)) then some (e.at, s ∷ es) else rest

-- The answers of the allocator in one call: the new array, and the growth of `env_alloced`.
pub record Memory : Type 0 where
  pub array : Option ℕ
  pub grows : Bool

-- `newenv`, once it is allocated at the address `a`.
unfoldable pub grown : Bool → ℕ → Entry → ℕ → Env → Env
unfolding env_rm_add current
grown grows a s r e =
    let released = if e.environ == e.oldenv then e.freed else e.oldenv ∷ e.freed in
    let e' : Env = record e {
      environ = a;
      oldenv = a;
      entries = current e ++ s ∷ [];
      freed = released;
    } in
    if r == 0 then e' else env_rm_add grows 0 r e'

-- What follows the loop of `__putenv`, by whether it replaced an entry.
unfoldable pub stored : Memory → Entry → ℕ → Env → Option (ℕ × List Entry) → ℤ × Env
unfolding env_rm_add grown
stored mem s r e (some (tmp, es)) = (pos 0, env_rm_add mem.grows tmp r (record e { entries = es }))
stored mem s r e none = elim mem.array [
  | none ↦ (negsuc 0, record e { freed = r ∷ e.freed })
  | some a ↦ (pos 0, grown mem.grows a s r e)
]

-- `__putenv`, where `r` is 0 or the address of the string.
unfoldable pub put_entry : Memory → Entry → ℕ → ℕ → Env → ℤ × Env
unfolding replace stored current
put_entry mem s l r e = stored mem s r e (replace s l (current e))

-- The loop of `unsetenv`: the entries that stay, and the addresses of the others.
unfoldable pub unset_loop : List ℕ → ℕ → List Entry → List Entry × List ℕ
unfolding strncmp
unset_loop name l [] = ([], [])
unset_loop name l (e ∷ es) =
    let (kept, dropped) = unset_loop name l es in
    if is_zero (strncmp name e.text l) && (get_or e.text l 0 == 61)
    then (kept, e.at ∷ dropped)
    else (e ∷ kept, dropped)

-- `__env_rm_add(*e, 0)` for each of the addresses.
unfoldable pub remove_all : List ℕ → Env → Env
unfolding env_rm_add
remove_all [] e = e
remove_all (a ∷ addresses) e = remove_all addresses (env_rm_add false a 0 e)

unfoldable pub unsetenv : List ℕ → Env → ℤ × Env
unfolding strchrnul unset_loop remove_all current
unsetenv name e =
    let l = strchrnul name 61 in
    let (kept, dropped) = unset_loop name l (current e) in
    if (l == 0) || not (get_or name l 0 == 0)
    then (negsuc 0, record e { errno = einval })
    else (pos 0, remove_all dropped (record e { entries = kept }))

unfoldable pub putenv : Memory → Entry → Env → ℤ × Env
unfolding strchrnul put_entry unsetenv
putenv mem s e =
    let l = strchrnul s.text 61 in
    if (l == 0) || (get_or s.text l 0 == 0) then unsetenv s.text e else put_entry mem s l 0 e

-- A null `var` is `none`; `string` is what malloc returns for the new string.
unfoldable pub setenv : Memory → Option ℕ → Option (List ℕ) → List ℕ → Bool → Env → ℤ × Env
unfolding strchrnul getenv put_entry
setenv mem string none value overwrite e = (negsuc 0, record e { errno = einval })
setenv mem string (some var) value overwrite e =
    let l1 = strchrnul var 61 in
    if (l1 == 0) || not (get_or var l1 0 == 0)
    then (negsuc 0, record e { errno = einval })
    else if not overwrite && is_some (getenv var e)
    then (pos 0, e)
    else elim string [
      | none ↦ (negsuc 0, e)
      | some a ↦ put_entry mem (record { at = a; text = take l1 var ++ 61 ∷ value }) l1 a e
    ]

unfoldable pub clearenv : Env → ℤ × Env
unfolding remove_all current
clearenv e =
    (pos 0, remove_all (map (λ e. e.at) (current e)) (record e { environ = 0; entries = [] }))

-- `secure` is `libc.secure`.
unfoldable pub secure_getenv : Bool → List ℕ → Env → Option (List ℕ)
unfolding getenv
secure_getenv secure name e = if secure then none else getenv name e
