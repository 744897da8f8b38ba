-- ===== src/Send/Memory.antt =====
-- What the loop of mq-send.c that reads the input leaves alone, and the one block that it takes.
use libmq.Base.{
  ℕ, suc, ◌+◌, ◌≤◌, ◌≡◌, refl, ◌∙◌, ap, sym, inl, inr, false, List, [], ◌∷◌, ◌++◌, Option, some,
  ◌==◌, ltb, arith, length, Bool-cases,
}
use libmq.Base.CString.{CString}
use libmq.Libc.{Libc, exhausted, after_alloc, after_realloc}
use libmq.World.{World}
use libmq.Send.{size_sub, after_growth, read_input}
use libmq.Send.Input.{AllShort, joined, read_input-Reads}

growth_lem :
    (n : ℕ) (c : Libc)
    → ((after_growth n c).refuses ≡ c.refuses)
      × ((n == 0) ≡ false → (after_growth n c).blocks ≡ c.blocks)
unfolding after_alloc after_realloc
growth_lem n c = (ground arith, λ some_left. ground arith)

module _ {E : Type 0} where
  -- The parts of the process that the loop does not touch; it takes no block but the first.
  pub record Kept (bufsize : ℕ) (w w' : World E) : Type 0 where
    pub heap : w'.heap ≡ w.heap
    pub enginelock : w'.enginelock ≡ w.enginelock
    pub refuses : w'.libc.refuses ≡ w.libc.refuses
    pub blocks : (bufsize == 0) ≡ false → w'.libc.blocks ≡ w.libc.blocks

  abbrev grown : (bufsize : ℕ) → World E → World E
  grown bufsize w = record w { libc = after_growth bufsize w.libc }

  grown-Kept : (bufsize : ℕ) (w : World E) → Kept bufsize w (grown bufsize w)
  grown-Kept bufsize w =
      let (refuses, blocks) = growth_lem bufsize w.libc in
      record { heap = refl; enginelock = refl; refuses = refuses; blocks = blocks }

  enlarged-Kept :
      (bufsize : ℕ) (w w' : World E)
      → Kept (bufsize + 1024) (grown bufsize w) w'
      → Kept bufsize w w'
  enlarged-Kept bufsize w w' k =
      let (refuses, blocks) = growth_lem bufsize w.libc in
      record {
        heap = k.heap;
        enginelock = k.enginelock;
        refuses = k.refuses ∙ refuses;
        blocks = λ some_left. k.blocks (ground arith) ∙ blocks some_left;
      }

  pub read_input-Kept :
      (chunks : List CString) (bufsize : ℕ) (buffer : CString) (w : World E)
      {input : Option CString} {w' : World E}
      → read_input chunks bufsize buffer w ≡ some (input, w')
      → Kept bufsize w w'
  unfolding read_input
  read_input-Kept [] bufsize buffer w run = record {
    heap = ground (arith, run);
    enginelock = ground (arith, run);
    refuses = ground (arith, run);
    blocks = λ _. ground (arith, run);
  }
  read_input-Kept (chunk ∷ chunks) bufsize buffer w {input} {w'} run =
      let small = ltb (size_sub bufsize (length buffer)) 1024 in
      elim (Bool-cases small) [
        | inl grows ↦ elim (Bool-cases (exhausted w.libc)) [
          | inl full ↦
              let e : w' ≡ grown bufsize w = ground (arith, run) in rw e (grown-Kept bufsize w)
          | inr room ↦ enlarged-Kept bufsize w w' (
              read_input-Kept chunks (bufsize + 1024) (buffer ++ chunk) (grown bufsize w)
                {input = input} (ground (arith, run)))
        ]
        | inr fits ↦
            read_input-Kept chunks bufsize (buffer ++ chunk) w {input = input} (ground (arith, run))
      ]

  -- The first round, which makes the buffer.
  first_round :
      (chunk : CString) (chunks : List CString) (w : World E)
      → length chunk ≤ 1023
      → exhausted w.libc ≡ false
      → read_input (chunk ∷ chunks) 0 [] w ≡ read_input chunks 1024 chunk (grown 0 w)
  unfolding read_input
  first_round chunk chunks w short room = ground (arith, short, room)

  made-blocks :
      (w : World E) → exhausted w.libc ≡ false → (grown 0 w).libc.blocks ≡ suc w.libc.blocks
  unfolding after_alloc
  made-blocks w room = ground arith

  -- All of the input, read by an allocator that refuses nothing into a buffer that is one block.
  pub read_input-whole :
      (chunk : CString) (chunks : List CString) (w : World E)
      → AllShort (chunk ∷ chunks)
      → ((n : ℕ) → w.libc.refuses n ≡ false)
      → (w' : World E) × (read_input (chunk ∷ chunks) 0 [] w
          ≡ some (some (joined (chunk ∷ chunks)), w'))
        × (w'.libc.blocks ≡ suc w.libc.blocks)
        × Kept 0 w w'
  read_input-whole chunk chunks w short room =
      let r = read_input-Reads (chunk ∷ chunks) 0 [] w short (omega arith) in
      let granted = room w.libc.requests in
      let rest =
        read_input-Kept chunks 1024 chunk (grown 0 w) {input = r.input}
          (sym (first_round chunk chunks w short.0 granted) ∙ r.run) in
      elim r.complete [
        | inl all ↦ (
          r.after,
          r.run ∙ ap (λ (i : Option CString). some (i, r.after)) all,
          rest.blocks refl ∙ made-blocks w granted,
          read_input-Kept (chunk ∷ chunks) 0 [] w {input = r.input} r.run,
        )
        | inr (_, (n, refused)) ↦ cc (refused, room n)
      ]
