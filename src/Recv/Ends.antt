-- ===== src/Recv/Ends.antt =====
-- The loop of mq-recv.c on a connection of the random engine ends at the first message that there
-- is no memory for.
use libmq.Base.{
  ℕ, zero, suc, ◌+◌, ◌%◌, ◌^◌, ◌<◌, ◌≡◌, ◌∙◌, ap, true, false, List, [], ◌∷◌, Option, none, some,
  arith,
}
use libmq.Base.CString.{CString}
use libmq.Base.Cells.{get_put}
use libmq.Libc.{Libc, exhausted, after_alloc}
use libmq.Cmd.{>>=-some}
use libmq.Engine.{Ptr}
use libmq.Connection
use libmq.Random.{RandomMq, RandomWorld, write_mq, on_mq}
use libmq.Random.Connections
use libmq.Random.Messages
use libmq.Random.Receiving.{upcoming, not_made, out_of_memory, next-refused}
use libmq.Random.ErrorTexts.{errmsg-blocks}
use libmq.Random.Connecting.{on_mq_lem}
use libmq.Random.Sessions.{connection, frame}
use libmq.Recv.{Report, receive}
use libmq.Recv.Rounds.{shown, Listening, round, after_round_lem}

-- What is printed for the numbers that follow a seed.
abbrev pub numbers : (sequence : ℕ → ℕ) → (drawn count : ℕ) → List Report
numbers sequence drawn zero = []
numbers sequence drawn (suc n) = shown (sequence drawn % 2 ^ 31) ∷ numbers sequence (suc drawn) n

-- The allocator grants `m` requests from now on, and refuses the next one.
pub record Grants (m : ℕ) (c : Libc) : Type 0 where
  pub granted : (i : ℕ) → i < m → c.refuses (c.requests + i) ≡ false
  pub refused : c.refuses (c.requests + m) ≡ true

-- After a request that was granted.
pub Grants-next :
    (m : ℕ) (c c' : Libc)
    → c'.refuses ≡ c.refuses
    → c'.requests ≡ suc c.requests
    → Grants (suc m) c
    → Grants m c'
Grants-next m c c' same next g =
    let moved : (i : ℕ) → c'.refuses (c'.requests + i) ≡ c.refuses (c.requests + suc i) = λ i.
      let count : c'.requests + i ≡ c.requests + suc i = omega (arith, next) in
      λ j. same j (count j) in
    record {
      granted = λ i lt. moved i ∙ g.granted (suc i) (omega arith);
      refused = moved m ∙ g.refused;
    }

refused-blocks : (c : Libc) → exhausted c ≡ true → (after_alloc c).blocks ≡ c.blocks
unfolding after_alloc
refused-blocks c full = ground (arith, full)

module _ (cluster_partition : Option ℕ → Option CString) (self : Ptr) where
  next_fails :
      (w : RandomWorld) {q : RandomMq}
      → w.heap.conns self ≡ some q
      → exhausted w.libc ≡ true
      → Connection.next (connection cluster_partition self) w
        ≡ some (
          none,
          write_mq self
              (frame (not_made self q w) (out_of_memory (after_alloc w.libc) q))
              (not_made self q w),
        )
  unfolding Connection.next Connections.error
  next_fails w {q} live full =
      let mq = connection cluster_partition self in
      let w₁ = not_made self q w in
      >>=-some (mq.impl.next self) _
        (>>=-some (Messages.next self) _ (next-refused self w live full))
      ∙ >>=-some (on_mq self Connections.error) _ (
          on_mq_lem w₁ self Connections.error
            (get_put self (some (out_of_memory (after_alloc w.libc) q)) w.heap.conns))

  last_round :
      (n base : ℕ) (w : RandomWorld)
      → Listening base self w
      → exhausted w.libc ≡ true
      → (w' : RandomWorld) × (receive (suc n) (connection cluster_partition self) w
          ≡ some ((true, []), w'))
        × Listening base self w'
  unfolding receive Connection.errmsg
  last_round n base w listening full =
      let mq = connection cluster_partition self in
      let q = out_of_memory (after_alloc w.libc) listening.mq in
      let w₁ = not_made self listening.mq w in
      let w₂ = write_mq self (frame w₁ q) w₁ in
      let r = Connections.errmsg (frame w₂ q) in
      (
        write_mq self r.1 w₂,
        >>=-some (Connection.next mq) _ (next_fails w listening.live full)
            ∙ >>=-some (on_mq self Connections.errmsg) _
                (on_mq_lem w₂ self Connections.errmsg (get_put self (some q) w₁.heap.conns)),
        record {
          mq = r.1.mq;
          live = get_put self (some r.1.mq) w₂.heap.conns;
          blocks =
              omega
                (arith, errmsg-blocks (frame w₂ q), refused-blocks w.libc full, listening.blocks);
        },
      )

  pub receive-ends :
      (m base : ℕ) (w : RandomWorld)
      → Listening base self w
      → Grants m w.libc
      → (w' : RandomWorld) × (receive (suc m) (connection cluster_partition self) w
          ≡ some ((true, numbers (w.libc.sequence w.libc.seed) w.libc.drawn m), w'))
        × Listening base self w'
  receive-ends zero base w listening g =
      last_round 0 base w listening (ap w.libc.refuses (omega arith) ∙ g.refused)
  receive-ends (suc m) base w listening g =
      let mq = connection cluster_partition self in
      let (w₁, e, libc, l₁) =
        round cluster_partition self (suc m) base w listening
          (ap w.libc.refuses (omega arith) ∙ g.granted 0 (omega arith)) in
      let (same, next, sequence, seed, drawn) =
        after_round_lem w.libc (ap w.libc.refuses (omega arith) ∙ g.granted 0 (omega arith)) in
      let sequence' = ap (λ (c : Libc). c.sequence) libc ∙ sequence in
      let seed' = ap (λ (c : Libc). c.seed) libc ∙ seed in
      let drawn' = ap (λ (c : Libc). c.drawn) libc ∙ drawn in
      let (w₂, e₂, l₂) = receive-ends m base w₁ l₁ (
        Grants-next m w.libc w₁.libc (ap (λ (c : Libc). c.refuses) libc ∙ same)
          (ap (λ (c : Libc). c.requests) libc ∙ next) g) in
      (
        w₂,
        e
            ∙ >>=-some (receive (suc m) mq) _ e₂
            ∙ ap (λ ns. some ((true, shown (upcoming w.libc) ∷ ns), w₂))
                (λ j. numbers (sequence' j (seed' j)) (drawn' j) m),
        l₂,
      )
