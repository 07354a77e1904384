-- ===== src/Search/Hash/Strings.antt =====
-- The keys of hsearch.c are strings: `keyhash`, and `strcmp` of string/strcmp.c. A string is the list of
-- its bytes; a zero byte or the end of the list terminates it.
use leblibc.Prelude.{
  ℕ, ◌+◌, ◌*◌, ◌%◌, ◌<◌, ◌≡◌, ◌≢◌, refl, sym, ap, ◌∙◌, Bool, true, false, not, ◌&&◌, ◌==◌,
  if◌then◌else◌, List, [], ◌∷◌, arith,
}
use leblibc.Prelude.Int.{ℤ, pos, negsuc, sub_ℕ}
use native.Mathlib.Decide.{ℕ_discrete}
use leblibc.Search.Hash.{size_mod}
use leblibc.Search.Hash.Placed.{IsKeys}

unfoldable pub keyhash_from : ℕ → List ℕ → ℕ
keyhash_from h [] = h
keyhash_from h (c ∷ k) =
    let rest = keyhash_from ((31 * h + c) % size_mod) k in if c == 0 then h else rest

unfoldable pub keyhash : List ℕ → ℕ
unfolding keyhash_from
keyhash k = keyhash_from 0 k

unfoldable pub strcmp : List ℕ → List ℕ → ℤ
strcmp [] [] = sub_ℕ 0 0
strcmp [] (y ∷ r) = sub_ℕ 0 y
strcmp (x ∷ l) [] = sub_ℕ x 0
strcmp (x ∷ l) (y ∷ r) =
    let rest = strcmp l r in if (x == y) && not (x == 0) then rest else sub_ℕ x y

abbrev pub is_zero : ℤ → Bool
is_zero (pos n) = n == 0
is_zero (negsuc n) = false

-- `strcmp(…) == 0`.
unfoldable pub same_string : List ℕ → List ℕ → Bool
unfolding strcmp
same_string l r = is_zero (strcmp l r)

-- The bytes before the terminator.
unfoldable pub content : List ℕ → List ℕ
content [] = []
content (c ∷ k) = let rest = content k in if c == 0 then [] else c ∷ rest

is_zero_sub : (x y : ℕ) → is_zero (sub_ℕ x y) ≡ true → x ≡ y
is_zero_sub x y h = ground arith

sub_same : (x : ℕ) → is_zero (sub_ℕ x x) ≡ true
sub_same x = ground arith

content_zero : (k : List ℕ) → content (0 ∷ k) ≡ []
unfolding content
content_zero k = refl

content_cons : (c : ℕ) (k : List ℕ) → c ≢ 0 → content (c ∷ k) ≡ c ∷ content k
unfolding content
content_cons c k h = ground arith

strcmp_cons : (x : ℕ) (l r : List ℕ) → x ≢ 0 → strcmp (x ∷ l) (x ∷ r) ≡ strcmp l r
unfolding strcmp
strcmp_cons x l r h = ground arith

strcmp_differs : (x y : ℕ) (l r : List ℕ) → x ≢ y → strcmp (x ∷ l) (y ∷ r) ≡ sub_ℕ x y
unfolding strcmp
strcmp_differs x y l r h = ground arith

same_content : (l r : List ℕ) → is_zero (strcmp l r) ≡ true → content l ≡ content r
unfolding strcmp content
same_content [] [] h = refl
same_content [] (y ∷ r) h =
    let e : 0 ≡ y = is_zero_sub 0 y h in sym (ap (λ c. content (c ∷ r)) (sym e) ∙ content_zero r)
same_content (x ∷ l) [] h =
    let e : x ≡ 0 = is_zero_sub x 0 h in ap (λ c. content (c ∷ l)) e ∙ content_zero l
same_content (x ∷ l) (y ∷ r) h = elim (ℕ_discrete x y) [
  | no other ↦
      absurd (other (is_zero_sub x y (sym (ap is_zero (strcmp_differs x y l r other)) ∙ h)))
  | yes e ↦ elim (ℕ_discrete y 0) [
    | yes z ↦
        ap (λ c. content (c ∷ l)) (e ∙ z)
        ∙ content_zero l
        ∙ sym (ap (λ c. content (c ∷ r)) z ∙ content_zero r)
    | no some_byte ↦
        let level = ap (λ c. strcmp (c ∷ l) (y ∷ r)) e ∙ strcmp_cons y l r some_byte in
        let rest = same_content l r (sym (ap is_zero level) ∙ h) in
        ap (λ c. content (c ∷ l)) e
        ∙ content_cons y l some_byte
        ∙ ap (λ t. y ∷ t) rest
        ∙ sym (content_cons y r some_byte)
  ]
]

first_or : ℕ → List ℕ → ℕ
first_or d [] = d
first_or d (x ∷ l) = x

others : List ℕ → List ℕ
others [] = []
others (x ∷ l) = l

first_content : (c : ℕ) (k : List ℕ) → first_or 0 (content (c ∷ k)) ≡ c
unfolding content first_or
first_content c k = ground arith

content_same : (l r : List ℕ) → content l ≡ content r → is_zero (strcmp l r) ≡ true
unfolding strcmp content first_or others
content_same [] [] h = refl
content_same [] (y ∷ r) h =
    let e : 0 ≡ y = ap (first_or 0) h ∙ first_content y r in ap (λ c. is_zero (sub_ℕ 0 c)) (sym e)
content_same (x ∷ l) [] h =
    let e : x ≡ 0 = sym (first_content x l) ∙ ap (first_or 0) h in ap (λ c. is_zero (sub_ℕ c 0)) e
content_same (x ∷ l) (y ∷ r) h =
    let e : x ≡ y = sym (first_content x l) ∙ ap (first_or 0) h ∙ first_content y r in
    elim (ℕ_discrete y 0) [
      | yes z ↦
          ap is_zero (ap (λ c. strcmp (c ∷ l) (y ∷ r)) (e ∙ z) ∙ ap (λ c. strcmp (0 ∷ l) (c ∷ r)) z)
      | no some_byte ↦
          let tails : content l ≡ content r = ap others (
            sym (ap (λ c. content (c ∷ l)) e ∙ content_cons y l some_byte)
            ∙ h
            ∙ content_cons y r some_byte) in
          ap is_zero (ap (λ c. strcmp (c ∷ l) (y ∷ r)) e ∙ strcmp_cons y l r some_byte)
          ∙ content_same l r tails
    ]

keyhash_cons :
    (h c : ℕ) (k : List ℕ)
    → c ≢ 0
    → keyhash_from h (c ∷ k) ≡ keyhash_from ((31 * h + c) % size_mod) k
unfolding keyhash_from
keyhash_cons h c k some_byte = ground arith

keyhash_content : (h : ℕ) (k : List ℕ) → keyhash_from h k ≡ keyhash_from h (content k)
unfolding keyhash_from content
keyhash_content h [] = refl
keyhash_content h (c ∷ k) = elim (ℕ_discrete c 0) [
  | yes z ↦ ap (λ d. keyhash_from h (d ∷ k)) z ∙ sym (ap (λ d. keyhash_from h (content (d ∷ k))) z)
  | no some_byte ↦
      keyhash_cons h c k some_byte
      ∙ keyhash_content ((31 * h + c) % size_mod) k
      ∙ sym (
          ap (keyhash_from h) (content_cons c k some_byte) ∙ keyhash_cons h c (content k) some_byte)
]

keyhash_range : (h : ℕ) (k : List ℕ) → h < size_mod → keyhash_from h k < size_mod
unfolding keyhash_from
keyhash_range h [] lt = lt
keyhash_range h (c ∷ k) lt =
    let next : (31 * h + c) % size_mod < size_mod = omega arith in
    let rest = keyhash_range ((31 * h + c) % size_mod) k next in ground arith

pub same_string-IsKeys : IsKeys same_string keyhash
unfolding same_string keyhash
same_string-IsKeys = record {
  same_refl = λ a. content_same a a refl;
  same_sym = λ a b h. content_same b a (sym (same_content a b h));
  same_trans = λ a b c h k. content_same a c (same_content a b h ∙ same_content b c k);
  hash_same = λ a b h.
      keyhash_content 0 a ∙ ap (keyhash_from 0) (same_content a b h) ∙ sym (keyhash_content 0 b);
  hash_range = λ a. keyhash_range 0 a (omega arith);
}
