-- ===== src/Env/Lookup.antt =====
-- What a program sees of the environment: the value of the first entry of a name.
use leblibc.Prelude.{
  ℕ, ◌+◌, ◌≤◌, ◌≡◌, ◌≢◌, refl, sym, ◌∙◌, List, [], ◌∷◌, ◌++◌, Bool, false, not, ◌||◌, Option, none,
  some, ◌==◌, if◌then◌else◌, length, arith, inl, inr, ◌⊎◌, Bool-cases,
}
use leblibc.Prelude.Slices.{drop}
use leblibc.Env.{
  Entry, Env, strncmp, is_zero, getenv_loop, getenv, replace, unset_loop, current, rm_add_loop,
  env_rm_add, remove_all,
}
use leblibc.Env.Matches.{
  IsName, has_name, strncmp-has_name, strncmp-same_name, has_name-own, drop-own, has_name-other,
  has_name_split, strchrnul_name, get_or_end,
}

-- The contract: the value behind the first `name=`.
unfoldable pub lookup : List ℕ → List Entry → Option (List ℕ)
lookup name [] = none
lookup name (e ∷ es) =
    let rest = lookup name es in
    if has_name name e.text then some (drop (length name + 1) e.text) else rest

getenv_loop-lookup :
    (name : List ℕ) (es : List Entry)
    → IsName name
    → getenv_loop name (length name) es ≡ lookup name es
unfolding getenv_loop lookup
getenv_loop-lookup name [] h = refl
getenv_loop-lookup name (e ∷ es) h =
    rw (strncmp-has_name name e.text h, getenv_loop-lookup name es h) refl

-- getenv of a name returns the value behind the first entry of that name, if there is one.
pub getenv-lookup :
    (name : List ℕ) (e : Env) → IsName name → getenv name e ≡ lookup name (current e)
unfolding getenv
getenv-lookup name e h =
    let nonempty : (length name == 0) ≡ false = ground arith in
    rw (strchrnul_name name h.0, get_or_end name, getenv_loop-lookup name (current e) h, nonempty)
      refl

-- The entry that `name=v` makes.
abbrev pub IsEntry : List ℕ → List ℕ → Entry → Type 0
IsEntry name v s = s.text ≡ name ++ 61 ∷ v

lookup-own :
    (name v : List ℕ) (s : Entry) (es : List Entry)
    → IsEntry name v s
    → lookup name (s ∷ es) ≡ some v
unfolding lookup
lookup-own name v s es e = rw (e, has_name-own name v, drop-own name v) refl

lookup-other :
    (m name v : List ℕ) (s : Entry) (es : List Entry)
    → IsName m
    → IsName name
    → m ≢ name
    → IsEntry name v s
    → lookup m (s ∷ es) ≡ lookup m es
unfolding lookup
lookup-other m name v s es h k d e = rw (e, has_name-other m name v h k d) refl

-- Every other name has the value that it had.
abbrev pub OthersKept : List ℕ → List Entry → List Entry → Type 0
OthersKept name es es' = (m : List ℕ) → IsName m → m ≢ name → lookup m es' ≡ lookup m es

abbrev Sets : List ℕ → List ℕ → List Entry → List Entry → Type 0
Sets name v es es' = (lookup name es' ≡ some v) × OthersKept name es es'

-- A name is replaced where it stands, and only then found.
pub replace-Sets :
    (name v : List ℕ) (s : Entry) (es : List Entry)
    → IsName name
    → IsEntry name v s
    → ((replace s (length name) es ≡ none) × (lookup name es ≡ none))
      ⊎ ((tmp : ℕ) × (es' : List Entry) × (replace s (length name) es ≡ some (tmp, es'))
          × (1 ≤ length es)
          × (lookup name es' ≡ some v)
          × OthersKept name es es')
unfolding replace lookup
replace-Sets name v s [] h e = inl (refl, refl)
replace-Sets name v s (d ∷ es) h e =
    let test : is_zero (strncmp s.text d.text (length name + 1)) ≡ has_name name d.text =
      rw e (strncmp-same_name name v d.text h) in
    elim (Bool-cases (has_name name d.text)) [
      | inl same ↦ inr (
        d.at,
        s ∷ es,
        rw (test, same) refl,
        omega arith,
        lookup-own name v s es e,
        λ m k other.
            lookup-other m name v s es k h other e
            ∙ sym (
                lookup-other m name (drop (length name + 1) d.text) d es k h other
                  (has_name_split name d.text same)),
      )
      | inr other ↦ elim (replace-Sets name v s es h e) [
        | inl (f, g) ↦ inl (rw (test, other, f) refl, rw (other, g) refl)
        | inr (tmp, es', f, some_left, own, kept) ↦ inr (
          tmp,
          d ∷ es',
          rw (test, other, f) refl,
          omega arith,
          rw (other, own) refl,
          λ m k differs. rw (kept m k differs) refl,
        )
      ]
    ]

-- A name that is not found is found behind all others.
pub lookup-append :
    (name v : List ℕ) (s : Entry) (es : List Entry)
    → IsName name
    → IsEntry name v s
    → lookup name es ≡ none
    → (lookup name (es ++ s ∷ []) ≡ some v) × OthersKept name es (es ++ s ∷ [])
unfolding lookup
lookup-append name v s [] h e f =
    (lookup-own name v s [] e, λ m k differs. lookup-other m name v s [] k h differs e)
lookup-append name v s (d ∷ es) h e f = elim (Bool-cases (has_name name d.text)) [
  | inl same ↦ absurd (ground arith)
  | inr other ↦
      let rest : lookup name es ≡ none = ground arith in
      let (own, kept) = lookup-append name v s es h e rest in
      (rw (other, own) refl, λ m k differs. rw (kept m k differs) refl)
]

-- `unsetenv` drops every entry of the name, and no other.
pub unset_loop-lookup :
    (name : List ℕ) (es : List Entry)
    → IsName name
    → (lookup name (unset_loop name (length name) es).0 ≡ none)
      × OthersKept name es (unset_loop name (length name) es).0
unfolding unset_loop lookup
unset_loop-lookup name [] h = (refl, λ m k differs. refl)
unset_loop-lookup name (d ∷ es) h =
    let (gone, kept) = unset_loop-lookup name es h in
    let test = strncmp-has_name name d.text h in
    elim (Bool-cases (has_name name d.text)) [
      | inl same ↦ (
        rw (test, same) gone,
        λ m k differs.
            rw (test, same)
              (kept m k differs
                ∙ sym (
                    lookup-other m name (drop (length name + 1) d.text) d es k h differs
                      (has_name_split name d.text same))),
      )
      | inr other ↦ (
        rw (test, other) (rw other gone),
        λ m k differs. rw (test, other) (rw (kept m k differs) refl),
      )
    ]

-- What is freed or kept of the allocated strings, the entries stay.
abbrev pub SameEntries : Env → Env → Type 0
SameEntries e e' = (e'.environ ≡ e.environ) × (e'.entries ≡ e.entries)

pub env_rm_add-SameEntries :
    (grows : Bool) (old new : ℕ) (e : Env) → SameEntries e (env_rm_add grows old new e)
unfolding env_rm_add
env_rm_add-SameEntries grows old new e =
    let (slots, left, found) = rm_add_loop old new e.env_alloced in
    elim (Bool-cases found) [
      | inl given ↦ rw given (refl, refl)
      | inr spare ↦ elim (Bool-cases ((left == 0) || not grows)) [
        | inl full ↦ rw (spare, full) (refl, refl)
        | inr room ↦ rw (spare, room) (refl, refl)
      ]
    ]

pub remove_all-SameEntries : (addresses : List ℕ) (e : Env) → SameEntries e (remove_all addresses e)
unfolding remove_all
remove_all-SameEntries [] e = (refl, refl)
remove_all-SameEntries (a ∷ addresses) e =
    let first = env_rm_add-SameEntries false a 0 e in
    let rest = remove_all-SameEntries addresses (env_rm_add false a 0 e) in
    (rest.0 ∙ first.0, rest.1 ∙ first.1)

pub SameEntries-current : (e e' : Env) → SameEntries e e' → current e' ≡ current e
unfolding current
SameEntries-current e e' (a, b) = rw (a, b) refl
