-- ===== src/Crypt/Stream/Absorb.antt =====
-- A context that was given a message, in whatever pieces, holds its full blocks in the hash and the
-- rest in the buffer.
use leblibc.Prelude.{
  ℕ, zero, suc, ◌+◌, ◌-◌, ◌*◌, ◌%◌, ◌≤◌, ◌<◌, ◌≡◌, refl, sym, ap, ◌∙◌, List, [], ◌∷◌, ◌++◌, ltb,
  ◌==◌, length, length-append, All-append, arith, append_assoc, append-nil, Bool-cases, inl, inr,
  ltb→lt, ==_iff,
}
use mathlib.Core.Path.{subst}
use mathlib.Core.List.{foldl, foldl-append}
use leblibc.Prelude.Slices.{
  take, drop, write, flatten, take-append-drop, length-take, length-drop, drop_all, write-append,
  flatten-append, AreBlocks, length-flatten, nil_of_length,
}
use leblibc.Crypt.Stream.{Scheme, Context, IsScheme, whole_blocks, fill, update, size_mod}

module _ {H : Type 0} (S : Scheme H) (ok : IsScheme S) where
  -- The blocks of a text, and what is left.
  pub record IsCut (text : List ℕ) (bs : List (List ℕ)) (tail : List ℕ) : Type 0 where
    pub joined : text ≡ flatten bs ++ tail
    pub sizes : AreBlocks S.block bs
    pub small : length tail < S.block

  pub record Fed (h : H) (p : List ℕ) (got : H × List ℕ) : Type 0 where
    pub bs : List (List ℕ)
    pub cut : IsCut p bs got.1
    pub hashed : got.0 ≡ foldl S.process h bs

  pub whole_blocks_lem :
      (fuel : ℕ) (h : H) (p : List ℕ) → length p ≤ fuel → Fed h p (whole_blocks S fuel h p)
  unfolding whole_blocks flatten
  whole_blocks_lem zero h p enough = record {
    bs = [];
    cut = record { joined = refl; sizes = tt; small = omega (arith, ok.positive) };
    hashed = refl;
  }
  whole_blocks_lem (suc fuel) h p enough = elim (Bool-cases (ltb (length p) S.block)) [
    | inl short ↦ rw short (record {
      bs = [];
      cut = record { joined = refl; sizes = tt; small = ltb→lt _ _ short };
      hashed = refl;
    })
    | inr long ↦
        let many : S.block ≤ length p = ground arith in
        let rest =
          whole_blocks_lem fuel (S.process h (take S.block p)) (drop S.block p)
            (omega (arith, length-drop S.block p, ok.positive)) in
        rw long (record {
          bs = take S.block p ∷ rest.bs;
          cut = record {
            joined =
                sym (take-append-drop S.block p)
                ∙ ap (λ back. take S.block p ++ back) rest.cut.joined
                ∙ sym (append_assoc (take S.block p) (flatten rest.bs) _);
            sizes = (length-take S.block p many, rest.cut.sizes);
            small = rest.cut.small;
          };
          hashed = rest.hashed;
        })
  ]

  -- The context after the message, from the hash `start`.
  pub record Absorbed (start : H) (s : Context H) (message : List ℕ) : Type 0 where
    pub bs : List (List ℕ)
    pub tail : List ℕ
    pub junk : List ℕ
    pub cut : IsCut message bs tail
    pub hashed : s.h ≡ foldl S.process start bs
    pub stored : s.buf ≡ tail ++ junk
    pub full : length tail + length junk ≡ S.block
    pub counted : s.len ≡ length message % size_mod

  -- Where the next byte goes.
  pub used :
      (start : H) (s : Context H) (message : List ℕ) (a : Absorbed start s message)
      → s.len % S.block ≡ length a.tail
  used start s message a =
      let total : length message ≡ length a.bs * S.block + length a.tail =
        ap length a.cut.joined
        ∙ omega
            (arith, length-append (flatten a.bs) a.tail, length-flatten S.block a.bs a.cut.sizes) in
      ap (λ n. n % S.block) a.counted
      ∙ ok.wraps (length message)
      ∙ ap (λ n. n % S.block) total
      ∙ ok.splits (length a.bs) (length a.tail) a.cut.small

  IsCut-append :
      (xs ys : List ℕ) (bs cs : List (List ℕ)) (tail : List ℕ)
      → xs ≡ flatten bs
      → AreBlocks S.block bs
      → IsCut ys cs tail
      → IsCut (xs ++ ys) (bs ++ cs) tail
  IsCut-append xs ys bs cs tail e sizes c = record {
    joined =
        ap (λ front. front ++ ys) e
        ∙ ap (λ back. flatten bs ++ back) c.joined
        ∙ sym (append_assoc (flatten bs) (flatten cs) tail)
        ∙ ap (λ front. front ++ tail) (sym (flatten-append bs cs));
    sizes = All-append _ bs cs sizes c.sizes;
    small = c.small;
  }

  -- `fill` behind full blocks.
  fill-Absorbed :
      (start : H) (len : ℕ) (h : H) (buf xs p : List ℕ) (bs : List (List ℕ))
      → xs ≡ flatten bs
      → AreBlocks S.block bs
      → h ≡ foldl S.process start bs
      → length buf ≡ S.block
      → len ≡ length (xs ++ p) % size_mod
      → Absorbed start (fill S len h buf p) (xs ++ p)
  unfolding fill
  fill-Absorbed start len h buf xs p bs e sizes hashed room counted =
      let fed = whole_blocks_lem (length p) h p (omega arith) in
      let rest = (whole_blocks S (length p) h p).1 in
      record {
        bs = bs ++ fed.bs;
        tail = rest;
        junk = drop (length rest) buf;
        cut = IsCut-append xs p bs fed.bs rest e sizes fed.cut;
        hashed =
            fed.hashed
            ∙ ap (λ g. foldl S.process g fed.bs) hashed
            ∙ sym (foldl-append S.process start bs fed.bs);
        stored = write-append [] buf rest 0 refl;
        full = omega (arith, length-drop (length rest) buf, fed.cut.small);
        counted = counted;
      }

  pub append_blocks :
      (bs : List (List ℕ)) (b : List ℕ)
      → length b ≡ S.block
      → AreBlocks S.block bs
      → AreBlocks S.block (bs ++ b ∷ [])
  append_blocks bs b size sizes = All-append _ bs (b ∷ []) sizes (size, tt)

  pub flatten_one : (b : List ℕ) → flatten (b ∷ []) ≡ b
  unfolding flatten
  flatten_one b = append-nil b

  mod_sum : (n m k : ℕ) → n ≡ m % size_mod → (n + k) % size_mod ≡ (m + k) % size_mod
  mod_sum n m k e = omega arith

  module _ (start : H) (s : Context H) (message p : List ℕ) (a : Absorbed start s message) where
    new_len : (s.len + length p) % size_mod ≡ length (message ++ p) % size_mod
    new_len =
        mod_sum s.len (length message) (length p) a.counted
        ∙ ap (λ n. n % size_mod) (sym (length-append message p))

    buf_full : length s.buf ≡ S.block
    buf_full = ap length a.stored ∙ length-append a.tail a.junk ∙ a.full

    -- With an empty buffer.
    from_start :
        length a.tail ≡ 0
        → Absorbed start (fill S ((s.len + length p) % size_mod) s.h s.buf p) (message ++ p)
    from_start e =
        let whole : message ≡ flatten a.bs =
          a.cut.joined
          ∙ ap (λ back. flatten a.bs ++ back) (nil_of_length a.tail e)
          ∙ append-nil (flatten a.bs) in
        fill-Absorbed start _ s.h s.buf message p a.bs whole a.cut.sizes a.hashed buf_full new_len

    -- Where the piece does not fill the buffer.
    within :
        length p < S.block - length a.tail
        → Absorbed start
            (record {
              len = (s.len + length p) % size_mod;
              h = s.h;
              buf = write s.buf (length a.tail) p;
            })
            (message ++ p)
    within few = record {
      bs = a.bs;
      tail = a.tail ++ p;
      junk = drop (length p) a.junk;
      cut = record {
        joined = ap (λ front. front ++ p) a.cut.joined ∙ append_assoc (flatten a.bs) a.tail p;
        sizes = a.cut.sizes;
        small = omega (arith, length-append a.tail p, a.cut.small);
      };
      hashed = a.hashed;
      stored =
          ap (λ buf. write buf (length a.tail) p) a.stored
          ∙ write-append a.tail a.junk p (length a.tail) refl
          ∙ sym (append_assoc a.tail p (drop (length p) a.junk));
      full = omega (arith, length-append a.tail p, length-drop (length p) a.junk, a.full);
      counted = new_len;
    }

    -- Where it does: the buffer is the next block.
    past :
        S.block - length a.tail ≤ length p
        → let room = S.block - length a.tail in
          let buf = write s.buf (length a.tail) (take room p) in
          Absorbed start
            (fill S ((s.len + length p) % size_mod) (S.process s.h buf) buf (drop room p))
            (message ++ p)
    past many =
        let room = S.block - length a.tail in
        let taken = length-take room p many in
        let b = a.tail ++ take room p in
        let rest_gone : drop (length (take room p)) a.junk ≡ [] =
          drop_all a.junk (length (take room p)) (omega (arith, taken, a.full)) in
        let written : write s.buf (length a.tail) (take room p) ≡ b =
          ap (λ buf. write buf (length a.tail) (take room p)) a.stored
          ∙ write-append a.tail a.junk (take room p) (length a.tail) refl
          ∙ ap (λ back. a.tail ++ (take room p ++ back)) rest_gone
          ∙ ap (λ back. a.tail ++ back) (append-nil (take room p)) in
        let size : length b ≡ S.block =
          omega (arith, length-append a.tail (take room p), taken, a.cut.small) in
        let blocks : message ++ take room p ≡ flatten (a.bs ++ b ∷ []) =
          ap (λ front. front ++ take room p) a.cut.joined
          ∙ append_assoc (flatten a.bs) a.tail (take room p)
          ∙ ap (λ back. flatten a.bs ++ back) (sym (flatten_one b))
          ∙ sym (flatten-append a.bs (b ∷ [])) in
        let pieces : (message ++ take room p) ++ drop room p ≡ message ++ p =
          append_assoc message (take room p) (drop room p)
          ∙ ap (λ back. message ++ back) (take-append-drop room p) in
        let counted = new_len ∙ ap (λ text. length text % size_mod) (sym pieces) in
        rw written (
          subst
            (λ text.
              Absorbed start
                (fill S ((s.len + length p) % size_mod) (S.process s.h b) b (drop room p)) text)
            pieces
            (fill-Absorbed start _ (S.process s.h b) b (message ++ take room p) (drop room p)
              (a.bs ++ b ∷ []) blocks (append_blocks a.bs b size a.cut.sizes)
              (ap (λ g. S.process g b) a.hashed ∙ sym (foldl-append S.process start a.bs (b ∷ [])))
              size counted))

  -- However a message is cut into pieces, `update` takes a piece in.
  pub update-Absorbed :
      (start : H) (s : Context H) (message p : List ℕ)
      → Absorbed start s message
      → Absorbed start (update S s p) (message ++ p)
  unfolding update
  update-Absorbed start s message p a =
      rw (used start s message a) (elim (Bool-cases (length a.tail == 0)) [
        | inl none_left ↦ rw none_left (from_start start s message p a ((==_iff _ 0).0 none_left))
        | inr some_left ↦ elim (Bool-cases (ltb (length p) (S.block - length a.tail))) [
          | inl few ↦ rw (some_left, few) (within start s message p a (ltb→lt _ _ few))
          | inr many ↦ rw (some_left, many) (past start s message p a (ground arith))
        ]
      ])
