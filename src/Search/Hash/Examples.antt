-- ===== src/Search/Hash/Examples.antt =====
-- A table of strings with 8 places, up to the seventh entry.
use leblibc.Prelude.{
  ℕ, zero, suc, ◌+◌, ◌^◌, ◌≤◌, ◌<◌, ◌≡◌, refl, sym, ◌∙◌, true, false, List, [], ◌∷◌, Option, none,
  some, arith,
}
use leblibc.Search.Hash.{Item, Table, find, enter, max_size, probe, stops, lookup, hcreate, hsearch}
use leblibc.Search.Hash.Insert.{some_inj}
use leblibc.Search.Hash.Contract.{view, IsHash}
use leblibc.Search.Hash.Refine.{Outcome, hsearch_lem}
use leblibc.Search.Hash.Laws.{
  lookup_halts, hsearch-IsHash, find-hsearch, hsearch-refused, hcreate_lem,
}
use leblibc.Search.Hash.Strings.{keyhash, same_string, same_string-IsKeys}

abbrev Name : Type 0
Name = List ℕ

unfoldable call : Item Name → Table Name → Table Name
unfolding hsearch
call item t = elim (hsearch same_string keyhash true item enter t) [ none ↦ t | some (r, t') ↦ t' ]

abbrev item : ℕ → Item Name
item n = record { key = n ∷ 98 ∷ []; val = n }

abbrev empty : Table Name
empty = record { entries = λ p. none; mask = 7; used = 0 }

unfoldable filled : ℕ → Table Name
unfolding call
filled zero = empty
filled (suc n) = call (item (97 + n)) (filled n)

used_six : (filled 6).used ≡ 6
unfolding filled keyhash
used_six = refl

-- The seventh entry makes the table grow.
grown_mask : (filled 7).mask ≡ 15
unfolding filled keyhash same_string
grown_mask = refl

unused : view same_string keyhash (filled 6) (103 ∷ 98 ∷ []) ≡ none
unfolding filled view keyhash same_string
unused = refl

-- Later bytes do not count.
terminated : view same_string keyhash (filled 6) (99 ∷ 98 ∷ 0 ∷ 1 ∷ []) ≡ some (item 99)
unfolding filled view keyhash same_string
terminated = refl

hcreate-empty : hcreate true true 3 ≡ some empty
unfolding hcreate
hcreate-empty = refl

empty-IsHash : IsHash same_string keyhash empty
empty-IsHash =
    let (t, made, h, none_yet, fits) = hcreate_lem same_string keyhash same_string-IsKeys 3 in
    rw (some_inj (sym made ∙ hcreate-empty)) at h

call-IsHash :
    {t : Table Name} (h : IsHash same_string keyhash t)
    → t.used < 2 ^ 62
    → (i : Item Name) → IsHash same_string keyhash (call i t)
unfolding call
call-IsHash {t} h few i =
    let (r, t', run, outcome) =
      hsearch_lem same_string keyhash same_string-IsKeys h few true i enter in
    rw (call, run) (hsearch-IsHash same_string keyhash same_string-IsKeys h few true i enter run)

filled-IsHash : IsHash same_string keyhash (filled 6)
unfolding filled keyhash
filled-IsHash =
    call-IsHash
      (call-IsHash
        (call-IsHash
          (call-IsHash
            (call-IsHash (call-IsHash empty-IsHash (omega arith) (item 97)) (omega arith) (item 98))
            (omega arith) (item 99))
          (omega arith) (item 100))
        (omega arith) (item 101))
      (omega arith) (item 102)

hsearch_lem_example :
    (r : Option ℕ) × (t' : Table Name) × (hsearch same_string keyhash true
        (item 103)
        enter
        (filled 6)
      ≡ some (r, t'))
    × Outcome same_string keyhash true (item 103) (filled 6) enter r t'
hsearch_lem_example =
    hsearch_lem same_string keyhash same_string-IsKeys filled-IsHash (omega (arith, used_six)) true
      (item 103) enter

mask_six : (filled 6).mask ≡ 7
unfolding filled keyhash
mask_six = refl

run_seven : hsearch same_string keyhash true (item 103) enter (filled 6) ≡ some (some 11, filled 7)
unfolding filled keyhash same_string hsearch
run_seven = refl

hsearch-IsHash_example : IsHash same_string keyhash (filled 7)
hsearch-IsHash_example =
    hsearch-IsHash same_string keyhash same_string-IsKeys filled-IsHash (omega (arith, used_six))
      true (item 103) enter run_seven

-- The same name, with other bytes behind its terminator.
abbrev again : Item Name
again = record { key = 103 ∷ 98 ∷ 0 ∷ 7 ∷ []; val = 0 }

again_same : same_string (103 ∷ 98 ∷ []) (103 ∷ 98 ∷ 0 ∷ 7 ∷ []) ≡ true
unfolding same_string
again_same = refl

find-hsearch_example :
    hsearch same_string keyhash false again find (filled 7) ≡ some (some 11, filled 7)
find-hsearch_example =
    find-hsearch same_string keyhash same_string-IsKeys filled-IsHash (omega (arith, used_six)) true
      false (item 103) again enter 11 run_seven again_same

hsearch-refused_example :
    hsearch same_string keyhash false (item 103) enter (filled 6) ≡ some (none, filled 6)
hsearch-refused_example =
    hsearch-refused same_string keyhash same_string-IsKeys filled-IsHash (omega (arith, used_six))
      (item 103) unused (omega (arith, mask_six, used_six))

lookup_halts_example :
    (p : ℕ) × (p ≤ (filled 6).mask)
    × (probe
          (stops same_string (103 ∷ []))
          (filled 6).entries
          (filled 6).mask
          20
          (keyhash (103 ∷ []))
          1
        ≡ some p)
    × (lookup same_string keyhash (filled 6) (103 ∷ []) ≡ some p)
lookup_halts_example =
    lookup_halts same_string keyhash same_string-IsKeys filled-IsHash (103 ∷ []) 20
      (omega (arith, mask_six))

hcreate_lem_example :
    (t : Table Name) × (hcreate true true 100 ≡ some t)
    × IsHash same_string keyhash t
    × ((key : Name) → view same_string keyhash t key ≡ none)
    × (100 ≤ max_size → 100 ≤ t.mask + 1)
hcreate_lem_example = hcreate_lem same_string keyhash same_string-IsKeys 100
