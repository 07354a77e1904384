-- ===== src/Crypt/Stream/Padding.antt =====
-- `pad` against the padding that the standards prescribe.
use leblibc.Prelude.{
  ℕ, zero, suc, ◌+◌, ◌-◌, ◌*◌, ◌%◌, ◌≤◌, ◌<◌, ◌≡◌, refl, sym, ap, ◌∙◌, List, [], ◌∷◌, ◌++◌, ltb,
  length, length-append, All-append, arith, append_assoc, append-nil, Bool-cases, inl, inr, ltb→lt,
}
use mathlib.Core.List.{foldl, foldl-append}
use leblibc.Prelude.Slices.{
  drop, replicate, write, flatten, length-drop, drop_all, write-append, flatten-append, AreBlocks,
  length-replicate,
}
use leblibc.Crypt.Stream.{Scheme, Context, IsScheme, close, pad, size_mod}
use leblibc.Crypt.Stream.Absorb.{Absorbed, used, append_blocks, flatten_one}

write_end :
    (buf xs junk zs : List ℕ) (n : ℕ)
    → buf ≡ xs ++ junk
    → n ≡ length xs
    → length zs ≡ length junk
    → write buf n zs ≡ xs ++ zs
write_end buf xs junk zs n e en size =
    ap (λ b. write b n zs) e
    ∙ write-append xs junk zs n en
    ∙ ap (λ back. xs ++ (zs ++ back)) (drop_all junk (length zs) (omega arith))
    ∙ ap (λ back. xs ++ back) (append-nil zs)

write_mid :
    (buf xs junk zs : List ℕ) (n : ℕ)
    → buf ≡ xs ++ junk
    → n ≡ length xs
    → write buf n zs ≡ (xs ++ zs) ++ drop (length zs) junk
write_mid buf xs junk zs n e en =
    ap (λ b. write b n zs) e
    ∙ write-append xs junk zs n en
    ∙ sym (append_assoc xs zs (drop (length zs) junk))

replicate-add : (n m : ℕ) → replicate {A = ℕ} n 0 ++ replicate m 0 ≡ replicate (n + m) 0
unfolding replicate
replicate-add zero m = ap (λ k. replicate k 0) (omega arith)
replicate-add (suc n) m =
    let one_more : suc n + m ≡ suc (n + m) = omega arith in
    ap (λ xs. 0 ∷ xs) (replicate-add n m) ∙ ap (λ k. replicate k 0) (sym one_more)

regroup :
    (front tail : List ℕ) (c : ℕ) (back : List ℕ)
    → (front ++ tail) ++ c ∷ back ≡ front ++ ((tail ++ c ∷ []) ++ back)
regroup front tail c back = simp append_assoc

regroup_two :
    (mark zeros more code : List ℕ)
    → mark ++ ((zeros ++ more) ++ code) ≡ (mark ++ zeros) ++ (more ++ code)
regroup_two mark zeros more code = simp append_assoc

flatten_two : (b c : List ℕ) → flatten (b ∷ c ∷ []) ≡ b ++ c
unfolding flatten
flatten_two b c = ap (λ back. b ++ back) (append-nil c)

-- The zeros behind the byte 0x80: so many that the length ends a block, and those of the length's own
-- upper half where the field is longer than what is stored.
abbrev pub zero_count : {H : Type 0} → Scheme H → ℕ → ℕ
zero_count S n = (S.block + S.limit - 1 - n % S.block) % S.block + (S.length_at - S.limit)

abbrev pub padding : {H : Type 0} → Scheme H → ℕ → List ℕ
padding S n = 0x80 ∷ (replicate (zero_count S n) 0 ++ S.encode (n * 8 % size_mod))

module _ {H : Type 0} (S : Scheme H) (ok : IsScheme S) where
  length_kept : (n m : ℕ) → n ≡ m % size_mod → n * 8 % size_mod ≡ m * 8 % size_mod
  length_kept n m e = omega arith

  close_lem :
      (len : ℕ) (h : H) (buf xs junk : List ℕ) (r : ℕ)
      → buf ≡ xs ++ junk
      → r ≡ length xs
      → r ≤ S.length_at
      → length xs + length junk ≡ S.block
      → close S len h buf r
        ≡ S.process h (xs ++ (replicate (S.length_at - r) 0 ++ S.encode (len * 8 % size_mod)))
  unfolding close
  close_lem len h buf xs junk r e er le full =
      let zeros = replicate {A = ℕ} (S.length_at - r) 0 in
      let count = length-replicate {A = ℕ} (S.length_at - r) 0 in
      let code = S.encode (len * 8 % size_mod) in
      let left = length-drop (length zeros) junk in
      let front = write_mid buf xs junk zeros r e er in
      ap (λ b. S.process h b)
        (write_end (write buf r zeros) (xs ++ zeros) (drop (length zeros) junk) code S.length_at
            front (omega (arith, length-append xs zeros, count))
            (omega (arith, left, count, ok.eight (len * 8 % size_mod), ok.length_last))
          ∙ append_assoc xs zeros code)

  -- The number of zeros by where the message ends.
  zero_count_short :
      (n r : ℕ) → n % S.block ≡ r → suc r ≤ S.limit → zero_count S n ≡ S.length_at - suc r
  zero_count_short n r e le =
      let once : S.block + S.limit - 1 - r ≡ 1 * S.block + (S.limit - suc r) = omega arith in
      let less : S.limit - suc r < S.block = omega (arith, ok.limit_fits, ok.length_last) in
      ap (λ k. (S.block + S.limit - 1 - k) % S.block + (S.length_at - S.limit)) e
      ∙ ap (λ k. k % S.block + (S.length_at - S.limit)) once
      ∙ ap (λ k. k + (S.length_at - S.limit)) (ok.splits 1 (S.limit - suc r) less)
      ∙ omega (arith, ok.limit_fits)

  zero_count_long :
      (n r : ℕ)
      → n % S.block ≡ r
      → S.limit < suc r
      → r < S.block
      → zero_count S n ≡ S.block - suc r + S.length_at
  zero_count_long n r e lt small =
      let never : S.block + S.limit - 1 - r ≡ 0 * S.block + (S.block + S.limit - 1 - r) =
        omega arith in
      ap (λ k. (S.block + S.limit - 1 - k) % S.block + (S.length_at - S.limit)) e
      ∙ ap (λ k. k % S.block + (S.length_at - S.limit)) never
      ∙ ap (λ k. k + (S.length_at - S.limit))
          (ok.splits 0 (S.block + S.limit - 1 - r) (omega arith))
      ∙ omega (arith, ok.limit_fits, ok.length_last)

  -- The hash of a text that is all blocks.
  pub record IsHash (start : H) (text : List ℕ) (h : H) : Type 0 where
    pub bs : List (List ℕ)
    pub joined : text ≡ flatten bs
    pub sizes : AreBlocks S.block bs
    pub hashed : h ≡ foldl S.process start bs

  module _ (start : H) (s : Context H) (message : List ℕ) (a : Absorbed S ok start s message) where
    code : List ℕ
    code = S.encode (s.len * 8 % size_mod)

    mark : List ℕ
    mark = a.tail ++ 0x80 ∷ []

    marked : write s.buf (length a.tail) (0x80 ∷ []) ≡ mark ++ drop 1 a.junk
    unfolding mark
    marked = write_mid s.buf a.tail a.junk (0x80 ∷ []) (length a.tail) a.stored refl

    mark_size : length mark ≡ suc (length a.tail)
    unfolding mark
    mark_size = omega (arith, length-append a.tail (0x80 ∷ []))

    mark_room : length mark + length (drop 1 a.junk) ≡ S.block
    mark_room = omega (arith, mark_size, length-drop 1 a.junk, a.full, a.cut.small)

    code_size : length code ≡ 8
    unfolding code
    code_size = ok.eight (s.len * 8 % size_mod)

    -- The padded message, from the zeros on.
    padded :
        (zeros : List ℕ)
        → zeros ≡ replicate (zero_count S (length message)) 0
        → message ++ padding S (length message) ≡ flatten a.bs ++ (mark ++ (zeros ++ code))
    unfolding mark code
    padded zeros e =
        let rest = λ (z : List ℕ) (n : ℕ). z ++ S.encode n in
        ap (λ front. front ++ padding S (length message)) a.cut.joined
        ∙ ap (λ z. (flatten a.bs ++ a.tail) ++ 0x80 ∷ rest z (length message * 8 % size_mod))
            (sym e)
        ∙ ap (λ n. (flatten a.bs ++ a.tail) ++ 0x80 ∷ rest zeros n)
            (sym (length_kept s.len (length message) a.counted))
        ∙ regroup (flatten a.bs) a.tail 0x80 (zeros ++ S.encode (s.len * 8 % size_mod))

    at_end : length message % S.block ≡ length a.tail
    at_end =
        sym (ok.wraps (length message))
        ∙ ap (λ n. n % S.block) (sym a.counted)
        ∙ used S ok start s message a

    pad_short :
        suc (length a.tail) ≤ S.limit
        → IsHash start
            (message ++ padding S (length message))
            (close S s.len s.h (write s.buf (length a.tail) (0x80 ∷ [])) (suc (length a.tail)))
    unfolding code
    pad_short le =
        let r = length a.tail in
        let zeros = replicate {A = ℕ} (S.length_at - suc r) 0 in
        let count = length-replicate {A = ℕ} (S.length_at - suc r) 0 in
        let b = mark ++ (zeros ++ code) in
        let fits : suc r ≤ S.length_at = omega (arith, ok.limit_fits) in
        let closed =
          close_lem s.len s.h _ mark (drop 1 a.junk) (suc r) marked (sym mark_size) fits
            mark_room in
        let size : length b ≡ S.block = omega (
          arith,
          length-append mark (zeros ++ code),
          length-append zeros code,
          count,
          code_size,
          mark_size,
          ok.length_last,
        ) in
        record {
          bs = a.bs ++ b ∷ [];
          joined =
              padded zeros
                (ap (λ k. replicate k 0) (sym (zero_count_short (length message) r at_end le)))
              ∙ ap (λ back. flatten a.bs ++ back) (sym (flatten_one S ok b))
              ∙ sym (flatten-append a.bs (b ∷ []));
          sizes = append_blocks S ok a.bs b size a.cut.sizes;
          hashed =
              closed
              ∙ ap (λ g. S.process g b) a.hashed
              ∙ sym (foldl-append S.process start a.bs (b ∷ []));
        }

    pad_long :
        S.limit < suc (length a.tail)
        → let filled =
            write
              (write s.buf (length a.tail) (0x80 ∷ []))
              (suc (length a.tail))
              (replicate (S.block - suc (length a.tail)) 0) in
          IsHash start
            (message ++ padding S (length message))
            (close S s.len (S.process s.h filled) filled 0)
    unfolding code
    pad_long lt =
        let r = length a.tail in
        let zeros = replicate {A = ℕ} (S.block - suc r) 0 in
        let more = replicate {A = ℕ} (S.length_at - 0) 0 in
        let count = length-replicate {A = ℕ} (S.block - suc r) 0 in
        let counted = length-replicate {A = ℕ} (S.length_at - 0) 0 in
        let filled = write (write s.buf r (0x80 ∷ [])) (suc r) zeros in
        let b = mark ++ zeros in
        let c = more ++ code in
        let written : filled ≡ b =
          write_end _ mark (drop 1 a.junk) zeros (suc r) marked (sym mark_size)
            (omega (arith, count, mark_room, mark_size)) in
        let size : length b ≡ S.block =
          omega (arith, length-append mark zeros, count, mark_size, a.cut.small) in
        let size' : length c ≡ S.block =
          omega (arith, length-append more code, counted, code_size, ok.length_last) in
        let closed =
          close_lem s.len (S.process s.h filled) filled [] filled 0 refl refl (omega arith)
            (omega (arith, ap length written, size)) in
        let all_zeros : zeros ++ more ≡ replicate (zero_count S (length message)) 0 =
          replicate-add (S.block - suc r) (S.length_at - 0)
          ∙ ap (λ k. replicate k 0)
              (omega (arith, zero_count_long (length message) r at_end lt a.cut.small)) in
        record {
          bs = a.bs ++ b ∷ c ∷ [];
          joined =
              padded (zeros ++ more) all_zeros
              ∙ ap (λ back. flatten a.bs ++ back)
                  (regroup_two mark zeros more code ∙ sym (flatten_two b c))
              ∙ sym (flatten-append a.bs (b ∷ c ∷ []));
          sizes = All-append _ a.bs (b ∷ c ∷ []) a.cut.sizes (size, (size', tt));
          hashed =
              closed
              ∙ ap (λ g. S.process (S.process s.h g) c) written
              ∙ ap (λ g. S.process (S.process g b) c) a.hashed
              ∙ sym (foldl-append S.process start a.bs (b ∷ c ∷ []));
        }

    -- `pad` puts the message with the prescribed padding into the hash, block by block.
    pub pad-IsHash : IsHash start (message ++ padding S (length message)) (pad S s)
    unfolding pad
    pad-IsHash =
        rw (used S ok start s message a) (elim (Bool-cases (ltb S.limit (suc (length a.tail)))) [
          | inl long ↦ rw long (pad_long (ltb→lt _ _ long))
          | inr short ↦ rw short (pad_short (ground arith))
        ])
