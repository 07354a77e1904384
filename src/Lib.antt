-- ===== src/Lib.antt =====
-- leblibc, a C library: models of parts of it, and theorems about them.
--
-- Prelude holds what the parts share: names of the libraries, Boolean tests and list functions over
-- the native numbers, signed integers (Prelude/Int) and bit operations (Prelude/Bits).
--
-- Search is `src/search`, the functions of `search.h`. Search/Tree models `tsearch.h`, `tsearch.c`,
-- `tfind.c` and `tdelete.c`; a node owns its two subtrees, the array `a` of links is a list of
-- frames, the loops down are `descend` and `rightmost`, and the loop up is `climb`, over `balance`
-- and `rot`. A read through a null link is `none`, so that its absence is proved. Search/Tree/Walk
-- models `twalk.c` and `tdestroy.c` by the calls that they make. Search/Order states what POSIX asks
-- of the comparison, and Search/SortedList is the contract: a sorted list. The model lets malloc
-- succeed or fail, and does not record free. The array of links is bounded in Search/Tree/Bound, for
-- an address space of 64 bits. Search/Array models `lsearch.c` and `stdlib/bsearch.c` on arrays given
-- by their elements; the loop of `bsearch` takes as fuel the number of elements, which at least
-- halves in every turn.
--
-- Search/Hash models `hsearch.c`, with the comparison and the hash of the keys as parameters;
-- Search/Hash/Strings has `keyhash` and `string/strcmp.c`. A table is its entries by index, a null key
-- is `none`, and each answer of `calloc` is a Boolean. Search/Hash/Triangle shows that the steps 1, 2,
-- 3, … meet every place, Search/Hash/Probe that the loops end there, Search/Hash/Rehash what `resize`
-- moves, and Search/Hash/Refine is the contract. The fuel of a probe is the number of places, of which
-- one is empty, and that of the loop over the sizes is 64, for the 61 powers of 2 from `MINSIZE` to
-- `MAXSIZE`. `hdestroy_r` and the wrappers around the static table are not modelled.
--
-- Network is `network/dn_expand.c`, the names of the domain name system. Addresses are indices into
-- the message, and an access outside of the message or the buffer is `none`. A turn of the loop is
-- `turn`; the fuel is the length of the message and one, where the counter grows by 2 in each turn.
--
-- Thread is `thread/__lock.c`, as steps of single threads on the shared word that are interleaved in
-- any order. The atomic operations, and the wait and the wake of the kernel, are one step each;
-- `libc.need_locks` is taken as 1, so that the return for a process of one thread is left out.
--
-- Multibyte is `src/multibyte`: the table and the macros of `internal.h` and `internal.c`, `mbrtowc`,
-- `mbrlen` and `mbsinit` in Multibyte/Decode, `wcrtomb`, `wctob` and `btowc` in Multibyte/Encode.
-- Unsigned words wrap at 2 ^ 32. Multibyte/Utf8 is an independent decoder by the table of RFC 3629.
-- Multibyte/Whole is `mbtowc` and `mblen`, which have no state; a read past the bytes given is `none`.
-- Multibyte/Utf16 is `mbrtoc16` and `c16rtomb`. The functions on whole strings and those of UTF-32 are
-- not modelled.
--
-- Time is `src/time`: `__month_to_secs.c`, `__year_to_secs.c`, `__tm_to_secs.c`, `__secs_to_tm.c`,
-- `gmtime_r.c` and `timegm.c`. Where an `int` could leave its range it takes the low 32 bits
-- (`to_int`), and the theorems have the bounds that exclude this; a `long long` has no bound.
-- Time/Year and Time/Given have the Gregorian calendar that the functions are compared with. Time
-- zones, the formats and the clocks are not modelled.
--
-- Crypt is part of `src/crypt`. The three hash functions share how a buffer of one block is filled and
-- padded, so that Crypt/Stream states it once; Crypt/Sha256 (`crypt_sha256.c`), Crypt/Sha512
-- (`crypt_sha512.c`) and Crypt/Md5 (`crypt_md5.c`) have the state, the rounds and the sums. A word
-- wraps at 2 ^ 32 or 2 ^ 64. The loop over whole blocks takes as fuel the length of the message and
-- the loop over the bits of a length the length, which are more than the turns. Crypt/Password models
-- `sha256crypt`, `sha512crypt` and `md5crypt`, with `strtoul` and the printing of a number as
-- parameters, and their callers, which also run a known answer. DES and blowfish are copies of other
-- projects. The rounds of the hash functions are executable, and are not compared with the standards.
--
-- Prng is `src/prng`. Prng models `random.c`, with the arrays of state as a store from addresses to
-- a header and words, and a read or write outside of an array as `none`; the lock is left out, since
-- every operation runs as a whole under it. Prng/View is the generator without the memory. Prng/Linear
-- models `rand.c`, `rand_r.c` and the integer functions of the rand48 family; `drand48` and `erand48`
-- return floating point, and `arc4random_buf` asks the kernel.
--
-- Env is `src/env`: `getenv.c`, `putenv.c`, `setenv.c`, `unsetenv.c`, `clearenv.c`, `secure_getenv.c`,
-- with `strncmp` and the byte loop of `__strchrnul` from `src/string`. A string is its bytes before the
-- null; the environment is a list of strings with their addresses, the state has the static variables
-- and what was freed, and the answers of the allocator are arguments of each call. An entry keeps the
-- text of a string that was freed, so that a use after free is not excluded. Env/Lookup is the
-- contract: the value of the first entry of a name.
--
-- Every other loop follows the structure of a list or a tree, without fuel. Not modelled are the other
-- directories: those that pass arguments to the kernel, floating point, the allocator and the dynamic
-- linker, which work on raw memory, the other files of `src/thread`, and generated tables.
pub mod Prelude
pub mod Search
pub mod Multibyte
pub mod Network
pub mod Prng
pub mod Env
pub mod Thread
pub mod Time
pub mod Crypt
