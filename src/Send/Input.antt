-- ===== src/Send/Input.antt =====
-- The buffer of mq-send.c has room for all that is read.
use libmq.Base.{
  ℕ, ◌+◌, ◌≤◌, ◌≡◌, refl, ◌∙◌, ap, sym, ◌⊎◌, inl, inr, true, List, [], ◌∷◌, ◌++◌, Option, none,
  some, ltb, leb, append-nil, arith, length, length-append, append_assoc, Bool-cases,
}
use libmq.Base.CString.{CString}
use libmq.Libc.{Libc, exhausted, after_alloc, after_realloc}
use libmq.World.{World}
use libmq.Send.{size_sub, after_growth, read_input}

-- `fread` is asked for 1023 bytes.
abbrev pub AllShort : List CString → Type 0
AllShort [] = Unit {0}
AllShort (chunk ∷ chunks) = (length chunk ≤ 1023) × AllShort chunks

abbrev pub joined : List CString → CString
joined [] = []
joined (chunk ∷ chunks) = chunk ++ joined chunks

growth-refuses : (n : ℕ) (c : Libc) → (after_growth n c).refuses ≡ c.refuses
unfolding after_alloc after_realloc
growth-refuses n c = ground arith

module _ {E : Type 0} where
  -- All of the input, or a refused request.
  pub record Reads (chunks : List CString) (bufsize : ℕ) (buffer : CString) (w : World E)
      : Type 0 where
    pub input : Option CString
    pub after : World E
    pub run : read_input chunks bufsize buffer w ≡ some (input, after)
    pub complete :
        (input ≡ some (buffer ++ joined chunks))
        ⊎ (input ≡ none) × ((n : ℕ) × (w.libc.refuses n ≡ true))

  -- The other chunks, once one is in the buffer.
  continued :
      (chunk : CString) (chunks : List CString) (bufsize bufsize' : ℕ) (buffer : CString)
      (w w' : World E)
      → w'.libc.refuses ≡ w.libc.refuses
      → read_input (chunk ∷ chunks) bufsize buffer w
        ≡ read_input chunks bufsize' (buffer ++ chunk) w'
      → Reads chunks bufsize' (buffer ++ chunk) w'
      → Reads (chunk ∷ chunks) bufsize buffer w
  continued chunk chunks bufsize bufsize' buffer w w' same step r = record {
    input = r.input;
    after = r.after;
    run = step ∙ r.run;
    complete = elim r.complete [
      | inl all ↦ inl (all ∙ ap some (append_assoc buffer chunk (joined chunks)))
      | inr (nothing, (n, refused)) ↦ inr (nothing, (n, rw (sym same) refused))
    ];
  }

  -- If each call of fread returns at most 1023 bytes and the buffer holds no more than its size,
  -- the loop of mq-send that reads the input never writes outside the buffer, the NUL included, and
  -- returns the buffer's bytes followed by all that was read, or nothing, and then some request to
  -- the allocator is one that it refuses.
  pub read_input-Reads :
      (chunks : List CString) (bufsize : ℕ) (buffer : CString) (w : World E)
      → AllShort chunks
      → length buffer ≤ bufsize
      → Reads chunks bufsize buffer w
  unfolding read_input
  read_input-Reads [] bufsize buffer w short fits = record {
    input = some buffer;
    after = w;
    run = refl;
    complete = inl (ap some (sym (append-nil buffer)));
  }
  read_input-Reads (chunk ∷ chunks) bufsize buffer w short fits =
      elim (Bool-cases (ltb (size_sub bufsize (length buffer)) 1024)) [
        | inl small ↦ elim (Bool-cases (exhausted w.libc)) [
          | inl full ↦ record {
            input = none;
            after = record w { libc = after_growth bufsize w.libc };
            run = rw (small, full, read_input) refl;
            complete = inr (refl, (w.libc.requests, full));
          }
          | inr room ↦
              let w' = record w { libc = after_growth bufsize w.libc } in
              let fit : leb (length buffer + length chunk + 1) (bufsize + 1024) ≡ true =
                ground (arith, short.0, fits) in
              continued chunk chunks bufsize (bufsize + 1024) buffer w w'
                (growth-refuses bufsize w.libc) (rw (small, room, fit, read_input) refl)
                (read_input-Reads chunks (bufsize + 1024) (buffer ++ chunk) w' short.1
                  (omega (arith, short.0, fits, length-append buffer chunk)))
        ]
        | inr large ↦
            let fit : leb (length buffer + length chunk + 1) bufsize ≡ true =
              ground (arith, short.0, fits, large) in
            continued chunk chunks bufsize bufsize buffer w w refl
              (rw (large, fit, read_input) refl)
              (read_input-Reads chunks bufsize (buffer ++ chunk) w short.1
                (ground (arith, short.0, fits, fit, length-append buffer chunk)))
      ]
