-- ===== src/Env/Examples.antt =====
-- A small environment, and the theorems at it.
use leblibc.Prelude.{ℕ, ◌≡◌, refl, List, [], ◌∷◌, none, some, true, false, arith}
use leblibc.Prelude.Int.{pos}
use leblibc.Prelude.Slices.{drop, take}
use leblibc.Env.{
  Entry, Env, Memory, first, strchrnul, strncmp, strncmp_loop, getenv, getenv_loop, current, setenv,
  unsetenv, put_entry, stored, grown, replace, env_rm_add, rm_add_loop,
}
use leblibc.Env.Matches.{IsName, starts}
use leblibc.Env.Lookup.{getenv-lookup, lookup}
use leblibc.Env.Set.{Sees, value_set, setenv_sets, unsetenv_unsets, setenv_fails}

-- "A=1" and "AB=2", in an array at 100 that the program was given.
abbrev start : Env
start = record {
  environ = 100;
  entries =
      record { at = 101; text = 65 ∷ 61 ∷ 49 ∷ [] }
      ∷ record { at = 102; text = 65 ∷ 66 ∷ 61 ∷ 50 ∷ [] }
      ∷ [];
  oldenv = 0;
  env_alloced = [];
  freed = [];
  errno = 0;
}

abbrev name_ab : List ℕ
name_ab = 65 ∷ 66 ∷ []

abbrev name_c : List ℕ
name_c = 67 ∷ []

abbrev memory : Memory
memory = record { array = some 200; grows = true }

name_ab-IsName : IsName name_ab
name_ab-IsName = (
  ((λ e. ground arith, λ e. ground arith), ((λ e. ground arith, λ e. ground arith), tt)),
  omega arith,
)

name_c-IsName : IsName name_c
name_c-IsName = (((λ e. ground arith, λ e. ground arith), tt), omega arith)

-- Setting "AB" twice frees the first string that setenv allocated.
set_twice :
    (setenv memory
      (some 302)
      (some name_ab)
      (53 ∷ [])
      true
      (setenv memory (some 301) (some name_ab) (52 ∷ []) true start).1).1.freed
    ≡ 301 ∷ []
unfolding setenv getenv getenv_loop put_entry stored grown replace env_rm_add rm_add_loop strchrnul
    strncmp strncmp_loop first current take
set_twice = refl

getenv-lookup_example : getenv name_ab start ≡ some (50 ∷ [])
unfolding lookup current drop starts
getenv-lookup_example = getenv-lookup name_ab start name_ab-IsName

setenv_sets_example :
    ((setenv memory (some 301) (some name_c) (52 ∷ []) false start).0 ≡ pos 0)
    × Sees name_c
        (some (value_set false (52 ∷ []) (getenv name_c start)))
        start
        (setenv memory (some 301) (some name_c) (52 ∷ []) false start).1
setenv_sets_example =
    setenv_sets memory 200 301 name_c (52 ∷ []) false start refl (λ e. ground arith) name_c-IsName

abbrev own_string : Entry
own_string = record { at = 400; text = 65 ∷ 66 ∷ 61 ∷ 57 ∷ [] }

unsetenv_unsets_example :
    ((unsetenv name_ab start).0 ≡ pos 0) × Sees name_ab none start (unsetenv name_ab start).1
unsetenv_unsets_example = unsetenv_unsets name_ab start name_ab-IsName

-- With no memory for the array, the string of "C" is released.
abbrev full : Memory
full = record { array = none; grows = true }

abbrev after_failure : Env
after_failure = record start { freed = 301 ∷ [] }

setenv_fails_example : getenv name_ab after_failure ≡ getenv name_ab start
unfolding setenv getenv getenv_loop put_entry stored grown replace env_rm_add strchrnul strncmp
    strncmp_loop first current take
setenv_fails_example =
    setenv_fails full (some 301) (some name_c) (52 ∷ []) true start after_failure refl name_ab
