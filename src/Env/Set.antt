-- ===== src/Env/Set.antt =====
-- What `setenv`, `putenv` and `unsetenv` do to the values that `getenv` returns.
use leblibc.Prelude.{
  ℕ, ◌≤◌, ◌≡◌, ◌≢◌, refl, sym, ap, ◌∙◌, List, [], ◌∷◌, ◌++◌, Bool, true, false, not, ◌&&◌, ◌||◌,
  Option, none, some, ◌==◌, if◌then◌else◌, length, get_or, arith, inl, inr, Bool-cases,
  Option-cases, append-nil,
}
use leblibc.Prelude.Int.{ℤ, pos, negsuc, is_negative}
use leblibc.Prelude.Slices.{take, take-append_self}
use leblibc.Env.{
  Entry, Env, Memory, strchrnul, getenv, replace, unset_loop, current, env_rm_add, remove_all,
  grown, stored, put_entry, putenv, setenv, unsetenv, is_some,
}
use leblibc.Env.Matches.{IsName, strchrnul_name, strchrnul_entry, get_or_end, get_or_entry}
use leblibc.Env.Lookup.{
  lookup, getenv-lookup, IsEntry, OthersKept, replace-Sets, lookup-append, unset_loop-lookup,
  env_rm_add-SameEntries, remove_all-SameEntries, SameEntries-current,
}

-- The values after a call: that of the name, and every other as before.
abbrev pub Sees : List ℕ → Option (List ℕ) → Env → Env → Type 0
Sees name v e e' =
    (getenv name e' ≡ v) × ((m : List ℕ) → IsName m → m ≢ name → getenv m e' ≡ getenv m e)

Sees-of :
    (name : List ℕ) (v : Option (List ℕ)) (e e' : Env)
    → IsName name
    → lookup name (current e') ≡ v
    → OthersKept name (current e) (current e')
    → Sees name v e e'
Sees-of name v e e' h own kept = (
  getenv-lookup name e' h ∙ own,
  λ m k other. getenv-lookup m e' k ∙ kept m k other ∙ sym (getenv-lookup m e k),
)

grown-current :
    (grows : Bool) (a : ℕ) (s : Entry) (r : ℕ) (e : Env)
    → a ≢ 0
    → current (grown grows a s r e) ≡ current e ++ s ∷ []
unfolding grown current
grown-current grows a s r e nonzero =
    let released = if e.environ == e.oldenv then e.freed else e.oldenv ∷ e.freed in
    let e' : Env = record e {
      environ = a;
      oldenv = a;
      entries = current e ++ s ∷ [];
      freed = released;
    } in
    let shown : current e' ≡ current e ++ s ∷ [] = ground arith in
    elim (Bool-cases (r == 0)) [
      | inl given ↦ rw given shown
      | inr own ↦ rw own (
          SameEntries-current e' (env_rm_add grows 0 r e') (env_rm_add-SameEntries grows 0 r e')
          ∙ shown)
    ]

-- With entries, the array is not null.
current_replaced :
    (e : Env) (es : List Entry) → 1 ≤ length (current e) → current (record e { entries = es }) ≡ es
unfolding current
current_replaced e es h = elim (Bool-cases (e.environ == 0)) [
  | inl null ↦ absurd (ground arith)
  | inr array ↦ rw array refl
]

current_unset :
    (name : List ℕ) (e : Env)
    → let kept = (unset_loop name (length name) (current e)).0 in
      current (record e { entries = kept }) ≡ kept
unfolding current unset_loop
current_unset name e = elim (Bool-cases (e.environ == 0)) [
  | inl null ↦ rw null refl
  | inr array ↦ rw array refl
]

put_entry-Sees :
    (mem : Memory) (a : ℕ) (s : Entry) (r : ℕ) (name v : List ℕ) (e : Env)
    → mem.array ≡ some a
    → a ≢ 0
    → IsName name
    → IsEntry name v s
    → ((put_entry mem s (length name) r e).0 ≡ pos 0)
      × Sees name (some v) e (put_entry mem s (length name) r e).1
unfolding put_entry stored
put_entry-Sees mem a s r name v e array nonzero h k = elim (replace-Sets name v s (current e) h k) [
  | inl (f, missing) ↦
      let (own, kept) = lookup-append name v s (current e) h k missing in
      let shown = grown-current mem.grows a s r e nonzero in
      rw (f, array)
        (refl, Sees-of name (some v) e (grown mem.grows a s r e) h (rw shown own) (rw shown kept))
  | inr (tmp, es, f, some_left, own, kept) ↦
      let mid : Env = record e { entries = es } in
      let e' = env_rm_add mem.grows tmp r mid in
      let shown =
        SameEntries-current mid e' (env_rm_add-SameEntries mem.grows tmp r mid)
        ∙ current_replaced e es some_left in
      rw f (refl, Sees-of name (some v) e e' h (rw shown own) (rw shown kept))
]

-- The value of a variable that `setenv` sets: without `overwrite`, the one it has, if it has one.
abbrev pub value_set : Bool → List ℕ → Option (List ℕ) → List ℕ
value_set true v old = v
value_set false v none = v
value_set false v (some w) = w

-- The branches of `setenv` at a name.
setenv_name :
    (mem : Memory) (b : ℕ) (name v : List ℕ) (overwrite : Bool) (e : Env)
    → IsName name
    → setenv mem (some b) (some name) v overwrite e ≡ (
        if not overwrite && is_some (getenv name e)
        then (pos 0, e)
        else put_entry mem
            (record { at = b; text = take (length name) name ++ 61 ∷ v })
            (length name)
            b
            e)
unfolding setenv
setenv_name mem b name v overwrite e h =
    let nonempty : (length name == 0) ≡ false = ground arith in
    rw (strchrnul_name name h.0, get_or_end name, nonempty) refl

-- Where memory suffices, setenv of a name returns 0; getenv then returns the new value, or the one
-- that the name had, if it had one and overwriting is not allowed; every other name keeps its value.
pub setenv_sets :
    (mem : Memory) (a b : ℕ) (name v : List ℕ) (overwrite : Bool) (e : Env)
    → mem.array ≡ some a
    → a ≢ 0
    → IsName name
    → ((setenv mem (some b) (some name) v overwrite e).0 ≡ pos 0)
      × Sees name
          (some (value_set overwrite v (getenv name e)))
          e
          (setenv mem (some b) (some name) v overwrite e).1
setenv_sets mem a b name v overwrite e array nonzero h =
    let text : take (length name) name ++ 61 ∷ v ≡ name ++ 61 ∷ v =
      ap (λ q. q ++ 61 ∷ v)
        (ap (λ q. take (length name) q) (sym (append-nil name))
          ∙ take-append_self name [] (length name) refl) in
    let s : Entry = record { at = b; text = take (length name) name ++ 61 ∷ v } in
    let put = put_entry-Sees mem a s b name v e array nonzero h text in
    let branches = setenv_name mem b name v overwrite e h in
    elim (Bool-cases overwrite) [
      | inl over ↦ rw (branches, over) put
      | inr keep ↦ elim (Option-cases (getenv name e)) [
        | inl unset ↦ rw (branches, keep, unset) put
        | inr (w, set) ↦ rw (branches, keep, set) (refl, (set, λ m k differs. refl))
      ]
    ]

-- Where memory suffices, putenv of a string that begins with a name and '=' returns 0; getenv then
-- returns what follows in the string, and every other name keeps its value.
pub putenv_sets :
    (mem : Memory) (a : ℕ) (s : Entry) (name v : List ℕ) (e : Env)
    → mem.array ≡ some a
    → a ≢ 0
    → IsName name
    → IsEntry name v s
    → ((putenv mem s e).0 ≡ pos 0) × Sees name (some v) e (putenv mem s e).1
unfolding putenv
putenv_sets mem a s name v e array nonzero h k =
    let nonempty : (length name == 0) ≡ false = ground arith in
    let l : strchrnul s.text 61 ≡ length name = rw k (strchrnul_entry name v h.0) in
    let c : get_or s.text (length name) 0 ≡ 61 = rw k (get_or_entry name v) in
    rw (l, c, nonempty) (put_entry-Sees mem a s 0 name v e array nonzero h k)

-- unsetenv of a name returns 0; getenv then finds no value, and every other name keeps its value.
pub unsetenv_unsets :
    (name : List ℕ) (e : Env)
    → IsName name
    → ((unsetenv name e).0 ≡ pos 0) × Sees name none e (unsetenv name e).1
unfolding unsetenv
unsetenv_unsets name e h =
    let nonempty : (length name == 0) ≡ false = ground arith in
    let (kept, dropped) = unset_loop name (length name) (current e) in
    let mid : Env = record e { entries = kept } in
    let e' = remove_all dropped mid in
    let (gone, others) = unset_loop-lookup name (current e) h in
    let shown =
      SameEntries-current mid e' (remove_all-SameEntries dropped mid) ∙ current_unset name e in
    rw (strchrnul_name name h.0, get_or_end name, nonempty)
      (refl, Sees-of name none e e' h (rw shown gone) (rw shown others))

-- A result of 0 is not one of -1.
success_not_failure :
    {A : Type 0} (r : ℤ × Env) (e e' : Env) → r ≡ (pos 0, e) → r ≡ (negsuc 0, e') → A
success_not_failure r e e' h k =
    let clash : false ≡ true = ap (λ p. is_negative p.0) (sym h ∙ k) in ground arith

put_entry_fails :
    (mem : Memory) (s : Entry) (l r : ℕ) (e e' : Env)
    → put_entry mem s l r e ≡ (negsuc 0, e')
    → (m : List ℕ) → getenv m e' ≡ getenv m e
unfolding put_entry stored getenv current
put_entry_fails mem s l r e e' h m = elim (Option-cases (replace s l (current e))) [
  | inr ((tmp, es), f) ↦ success_not_failure _ _ e' refl (rw f at h)
  | inl f ↦ elim (Option-cases mem.array) [
    | inr (a, g) ↦ success_not_failure _ _ e' refl (rw (f, g) at h)
    | inl g ↦ ap (λ p. getenv m p.1) (sym (rw (f, g) at h))
  ]
]

-- Where setenv returns -1, getenv of every string returns what it returned before.
pub setenv_fails :
    (mem : Memory) (string : Option ℕ) (var : Option (List ℕ)) (v : List ℕ) (overwrite : Bool)
    (e e' : Env)
    → setenv mem string var v overwrite e ≡ (negsuc 0, e')
    → (m : List ℕ) → getenv m e' ≡ getenv m e
unfolding setenv getenv current
setenv_fails mem string none v overwrite e e' h m = ap (λ p. getenv m p.1) (sym h)
setenv_fails mem string (some var) v overwrite e e' h m =
    let l1 = strchrnul var 61 in
    elim (Bool-cases ((l1 == 0) || not (get_or var l1 0 == 0))) [
      | inl refused ↦ ap (λ p. getenv m p.1) (sym (rw refused at h))
      | inr taken ↦ elim (Bool-cases (not overwrite && is_some (getenv var e))) [
        | inl keep ↦ success_not_failure _ e e' refl (rw (taken, keep) at h)
        | inr put ↦ elim (Option-cases string) [
          | inl g ↦ ap (λ p. getenv m p.1) (sym (rw (taken, put, g) at h))
          | inr (b, g) ↦
              put_entry_fails mem (record { at = b; text = take l1 var ++ 61 ∷ v }) l1 b e e'
                (rw (taken, put, g) at h) m
        ]
      ]
    ]
