-- ===== src/Env/Matches.antt =====
-- The tests of a name against an entry, which two calls of `strncmp` make in different ways.
use leblibc.Prelude.{
  ℕ, zero, suc, ◌+◌, ◌≤◌, ◌≡◌, ◌≢◌, refl, sym, ap, ◌∙◌, List, [], ◌∷◌, ◌++◌, Bool, true, false,
  ◌&&◌, ◌==◌, if◌then◌else◌, length, get_or, All, arith, inl, inr, Bool-cases, append-nil,
  append_assoc, ==_iff,
}
use leblibc.Prelude.Slices.{drop}
use leblibc.Prelude.Int.{sub_ℕ}
use leblibc.Env.{strncmp, strncmp_loop, strchrnul, is_zero}

-- A name: not empty, and without the bytes 0 and '='.
abbrev pub IsName : List ℕ → Type 0
IsName name = All (λ c. (c ≢ 0) × (c ≢ 61)) name × (1 ≤ length name)

unfoldable pub starts : List ℕ → List ℕ → Bool
starts [] t = true
starts (c ∷ p) [] = false
starts (c ∷ p) (d ∷ t) = if c == d then starts p t else false

-- Does a text begin with the name and '='?
abbrev pub has_name : List ℕ → List ℕ → Bool
has_name name t = starts (name ++ 61 ∷ []) t

sub_differ : (c d : ℕ) → (c == d) ≡ false → is_zero (sub_ℕ c d) ≡ false
sub_differ c d e = ground arith

sub_same : (c d : ℕ) → (c == d) ≡ true → is_zero (sub_ℕ c d) ≡ true
sub_same c d e = ground arith

sub_zero : (c : ℕ) → c ≢ 0 → is_zero (sub_ℕ c 0) ≡ false
sub_zero c h = ground arith

-- What `strncmp` says of a text and all of a prefix without a null.
strncmp_loop-starts :
    (q v t : List ℕ) (n : ℕ)
    → All (λ c. c ≢ 0) q
    → length q ≡ suc n
    → is_zero (strncmp_loop (q ++ v) t n) ≡ starts q t
unfolding strncmp_loop starts
strncmp_loop-starts [] v t n h e = absurd (omega arith)
strncmp_loop-starts (c ∷ q) v [] n h e = sub_zero c h.0
strncmp_loop-starts (c ∷ []) v (d ∷ t) zero h e = elim (Bool-cases (c == d)) [
  | inl same ↦ rw same (sub_same c d same)
  | inr other ↦ rw other (sub_differ c d other)
]
strncmp_loop-starts (c ∷ []) v (d ∷ t) (suc n) h e = absurd (omega arith)
strncmp_loop-starts (c ∷ c' ∷ q) v (d ∷ t) zero h e = absurd (omega arith)
strncmp_loop-starts (c ∷ c' ∷ q) v (d ∷ t) (suc n) h e = elim (Bool-cases (c == d)) [
  | inl same ↦ rw same (strncmp_loop-starts (c' ∷ q) v t n h.1 (omega (arith, e)))
  | inr other ↦ rw other (sub_differ c d other)
]

strncmp-starts :
    (q v t : List ℕ) (n : ℕ)
    → All (λ c. c ≢ 0) q
    → length q ≡ n
    → is_zero (strncmp (q ++ v) t n) ≡ starts q t
unfolding strncmp starts
strncmp-starts [] v t zero h e = refl
strncmp-starts (c ∷ q) v t zero h e = absurd (omega arith)
strncmp-starts q v t (suc n) h e = strncmp_loop-starts q v t n h e

starts-end :
    (name t : List ℕ) → (starts name t && (get_or t (length name) 0 == 61)) ≡ has_name name t
unfolding starts
starts-end [] [] = refl
starts-end [] (d ∷ t) = ground arith
starts-end (c ∷ name) [] = refl
starts-end (c ∷ name) (d ∷ t) = elim (Bool-cases (c == d)) [
  | inl same ↦ rw same (starts-end name t)
  | inr other ↦ rw other refl
]

no_null : (name : List ℕ) → All (λ c. (c ≢ 0) × (c ≢ 61)) name → All (λ c. c ≢ 0) name
no_null [] h = tt
no_null (c ∷ name) h = (h.0.0, no_null name h.1)

no_null_end :
    (name : List ℕ) → All (λ c. (c ≢ 0) × (c ≢ 61)) name → All (λ c. c ≢ 0) (name ++ 61 ∷ [])
no_null_end [] h = (λ e. ground arith, tt)
no_null_end (c ∷ name) h = (h.0.0, no_null_end name h.1)

length_end : (name : List ℕ) → length (name ++ 61 ∷ []) ≡ length name + 1
length_end [] = omega arith
length_end (c ∷ name) = omega (arith, length_end name)

-- The test of `getenv` and `unsetenv`.
pub strncmp-has_name :
    (name t : List ℕ)
    → IsName name
    → (is_zero (strncmp name t (length name)) && (get_or t (length name) 0 == 61)) ≡ has_name name t
strncmp-has_name name t h =
    let whole = ap (λ q. is_zero (strncmp q t (length name))) (sym (append-nil name)) in
    let test = strncmp-starts name [] t (length name) (no_null name h.0) refl in
    ap (λ b. b && (get_or t (length name) 0 == 61)) (whole ∙ test) ∙ starts-end name t

-- The test of `putenv`.
pub strncmp-same_name :
    (name v t : List ℕ)
    → IsName name
    → is_zero (strncmp (name ++ 61 ∷ v) t (length name + 1)) ≡ has_name name t
strncmp-same_name name v t h =
    ap (λ q. is_zero (strncmp q t (length name + 1))) (sym (append_assoc name (61 ∷ []) v))
    ∙ strncmp-starts (name ++ 61 ∷ []) v t (length name + 1) (no_null_end name h.0)
        (length_end name)

-- What a name is, it is of its own entries and of no others.
pub has_name-own : (name v : List ℕ) → has_name name (name ++ 61 ∷ v) ≡ true
unfolding starts
has_name-own [] v = refl
has_name-own (c ∷ name) v = ground (arith, has_name-own name v)

pub drop-own : (name v : List ℕ) → drop (length name + 1) (name ++ 61 ∷ v) ≡ v
unfolding drop
drop-own [] v = refl
drop-own (c ∷ name) v =
    let moved : suc (length name) + 1 ≡ suc (length name + 1) = omega arith in
    ap (λ i. drop i (c ∷ (name ++ 61 ∷ v))) moved ∙ drop-own name v

starts-other :
    (m n v : List ℕ)
    → All (λ c. (c ≢ 0) × (c ≢ 61)) m
    → All (λ c. (c ≢ 0) × (c ≢ 61)) n
    → m ≢ n
    → starts (m ++ 61 ∷ []) (n ++ 61 ∷ v) ≡ false
unfolding starts
starts-other [] [] v h k e = absurd (e refl)
starts-other [] (d ∷ n) v h k e = ground arith
starts-other (c ∷ m) [] v h k e = ground arith
starts-other (c ∷ m) (d ∷ n) v h k e = elim (Bool-cases (c == d)) [
  | inr other ↦ rw other refl
  | inl same ↦
      let equal : c ≡ d = (==_iff c d).0 same in
      rw same (starts-other m n v h.1 k.1 (λ f. e (ap (λ x. x ∷ m) equal ∙ ap (λ xs. d ∷ xs) f)))
]

pub has_name-other :
    (m n v : List ℕ) → IsName m → IsName n → m ≢ n → has_name m (n ++ 61 ∷ v) ≡ false
has_name-other m n v h k e = starts-other m n v h.0 k.0 e

-- A text that begins with the name is an entry of it.
pub has_name_split :
    (name t : List ℕ) → has_name name t ≡ true → t ≡ name ++ 61 ∷ drop (length name + 1) t
unfolding starts drop
has_name_split [] [] h = absurd (ground arith)
has_name_split [] (d ∷ t) h = elim (Bool-cases (61 == d)) [
  | inl same ↦ ap (λ x. x ∷ t) (sym ((==_iff 61 d).0 same))
  | inr other ↦ absurd (ground arith)
]
has_name_split (c ∷ name) [] h = absurd (ground arith)
has_name_split (c ∷ name) (d ∷ t) h = elim (Bool-cases (c == d)) [
  | inr other ↦ absurd (ground arith)
  | inl same ↦
      let equal : c ≡ d = (==_iff c d).0 same in
      let rest = has_name_split name t (ground arith) in
      let moved : suc (length name) + 1 ≡ suc (length name + 1) = omega arith in
      ap (λ x. x ∷ t) (sym equal)
      ∙ ap (λ xs. c ∷ xs) rest
      ∙ ap (λ i. c ∷ (name ++ 61 ∷ drop i (d ∷ t))) (sym moved)
]

pub strchrnul_name :
    (name : List ℕ) → All (λ c. (c ≢ 0) × (c ≢ 61)) name → strchrnul name 61 ≡ length name
unfolding strchrnul
strchrnul_name [] h = refl
strchrnul_name (c ∷ name) h = ground (arith, strchrnul_name name h.1)

pub strchrnul_entry :
    (name v : List ℕ)
    → All (λ c. (c ≢ 0) × (c ≢ 61)) name
    → strchrnul (name ++ 61 ∷ v) 61 ≡ length name
unfolding strchrnul
strchrnul_entry [] v h = refl
strchrnul_entry (c ∷ name) v h = ground (arith, strchrnul_entry name v h.1)

pub get_or_end : (s : List ℕ) → get_or s (length s) 0 ≡ 0
get_or_end [] = refl
get_or_end (c ∷ s) = get_or_end s

pub get_or_entry : (name v : List ℕ) → get_or (name ++ 61 ∷ v) (length name) 0 ≡ 61
get_or_entry [] v = refl
get_or_entry (c ∷ name) v = get_or_entry name v
