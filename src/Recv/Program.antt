-- ===== src/Recv/Program.antt =====
-- mq-recv.c as a whole, with a URI of the random engine.
use libmq.Base.{
  ℕ, suc, ◌+◌, ◌%◌, ◌^◌, ◌≡◌, refl, ◌∙◌, ap, true, false, [], ◌∷◌, Option, none, some, ℤ, pos,
  arith,
}
use libmq.Base.CString.{CString}
use libmq.Base.Cells.{get_put}
use libmq.Libc.{Libc, exhausted, after_alloc, after_free, after_free?, srandom}
use libmq.Cmd.{>>=-some}
use libmq.World.Locks.{idle}
use libmq.Engine.{Ptr, Mq}
use libmq.Engine.Errors.{ErrorBuffer}
use libmq.Registry.{Build}
use libmq.Registry.Table.{table}
use libmq.Registry.Dispatch.{AllColonless, via, scheme_of}
use libmq.Connection
use libmq.Random.{RandomWorld, Heap, Frame, write_mq}
use libmq.Random.Connections
use libmq.Random.Impl.{construct}
use libmq.Random.Partitions.{owned}
use libmq.Random.Connecting.{
  HasRoom, Opened, seeded, connect_recv-Opened, on_mq_lem, release_lem, dropped,
}
use libmq.Random.Sessions.{connection, frame}
use libmq.Recv.{receive, exited, listen, main}
use libmq.Recv.Rounds.{Listening}
use libmq.Recv.Ends.{numbers, Grants, Grants-next, receive-ends}

-- A request that is granted.
after_alloc_lem :
    (c : Libc)
    → exhausted c ≡ false
    → let c' = after_alloc c in
      (c'.refuses ≡ c.refuses)
      × (c'.requests ≡ suc c.requests)
      × (c'.blocks ≡ suc c.blocks)
      × (c'.sequence ≡ c.sequence)
      × (c'.time ≡ c.time)
unfolding after_alloc
after_alloc_lem c room = ground arith

Grants-exhausted : (m : ℕ) (c : Libc) → Grants (suc m) c → exhausted c ≡ false
Grants-exhausted m c g = ap c.refuses (omega arith) ∙ g.granted 0 (omega arith)

-- The C library once the two requests for the connection have been granted.
record Seeded (m : ℕ) (c c' : Libc) : Type 0 where
  room : HasRoom c
  grants : Grants m c'
  blocks : c'.blocks ≡ c.blocks + 2
  sequence : c'.sequence c'.seed ≡ c.sequence (c.time % 2 ^ 32)
  drawn : c'.drawn ≡ 0

seeded-Seeded : (m : ℕ) (c : Libc) → Grants (suc (suc m)) c → Seeded m c (seeded c)
unfolding srandom
seeded-Seeded m c g =
    let first = Grants-exhausted (suc m) c g in
    let c₁ = after_alloc c in
    let (r₁, n₁, b₁, s₁, t₁) = after_alloc_lem c first in
    let g₁ = Grants-next (suc m) c c₁ r₁ n₁ g in
    let second = Grants-exhausted m c₁ g₁ in
    let (r₂, n₂, b₂, s₂, t₂) = after_alloc_lem c₁ second in
    let g₂ = Grants-next m c₁ (after_alloc c₁) r₂ n₂ g₁ in
    record {
      room = record { object = first; uri = second };
      grants = record { granted = g₂.granted; refused = g₂.refused };
      blocks = omega (arith, b₁, b₂);
      sequence = λ j. (s₂ ∙ s₁) j ((t₂ ∙ t₁) j % 2 ^ 32);
      drawn = refl;
    }

released-blocks :
    (base : ℕ) (c : Libc) (errmsg : Option ErrorBuffer)
    → c.blocks ≡ (base + 2) + owned errmsg
    → (after_free (after_free (after_free? errmsg c))).blocks ≡ base
unfolding after_free after_free?
released-blocks base c none h = omega (arith, h)
released-blocks base c (some s) h = omega (arith, h)

module _ (cluster_partition : Option ℕ → Option CString) (self : Ptr) where
  -- The release of the connection gives its blocks back.
  disconnect_lem :
      (base : ℕ) (w : RandomWorld)
      → Listening (base + 2) self w
      → (w' : RandomWorld) × (Connection.disconnect (connection cluster_partition self) w
          ≡ some (pos 0, w'))
        × (w'.libc.blocks ≡ base)
        × (w'.heap.conns self ≡ none)
  unfolding Connection.disconnect
  disconnect_lem base w l = (
    dropped self l.mq w,
    >>=-some (Connections.release self) _ (release_lem w self l.live),
    released-blocks base w.libc l.mq.errmsg l.blocks,
    get_put self none w.heap.conns,
  )

  pub listen-ends :
      (m base : ℕ) (w : RandomWorld)
      → Listening (base + 2) self w
      → Grants m w.libc
      → (w' : RandomWorld) × (listen (suc m) (connection cluster_partition self) w
          ≡ some ((exited (pos 0), numbers (w.libc.sequence w.libc.seed) w.libc.drawn m), w'))
        × (w'.libc.blocks ≡ base)
        × (w'.heap.conns self ≡ none)
  unfolding listen
  listen-ends m base w l g =
      let mq = connection cluster_partition self in
      let (w₁, e₁, l₁) = receive-ends cluster_partition self m (base + 2) w l g in
      let (w₂, e₂, blocks, gone) = disconnect_lem base w₁ l₁ in
      (
        w₂,
        >>=-some (receive (suc m) mq) _ e₁ ∙ >>=-some (Connection.disconnect mq) _ e₂,
        blocks,
        gone,
      )

no_error : (f : Frame) → f.mq.errcode ≡ pos 0 → f.mq.syserr ≡ 0 → Connections.error f ≡ (pos 0, f)
unfolding Connections.error
no_error f code system = ground arith

module _ (cluster_partition : Option ℕ → Option CString) (uri : CString) (w w₁ : RandomWorld)
    (o : Opened uri w w₁) (m : ℕ) (s : Seeded m w.libc (seeded w.libc)) where
  -- The connection after the test for an error.
  abbrev tested : RandomWorld
  tested = write_mq w.heap.fresh (frame w₁ o.mq) w₁

  error_lem : Connection.error (connection cluster_partition w.heap.fresh) w₁ ≡ some (pos 0, tested)
  unfolding Connection.error
  error_lem =
      on_mq_lem w₁ w.heap.fresh Connections.error o.live
      ∙ ap (λ (x : ℤ × Frame). some (x.0, write_mq w.heap.fresh x.1 w₁))
          (no_error (frame w₁ o.mq) o.errcode o.syserr)

  opened-ends :
      (w' : RandomWorld) × (listen (suc m) (connection cluster_partition w.heap.fresh) tested
        ≡ some ((exited (pos 0), numbers (w.libc.sequence (w.libc.time % 2 ^ 32)) 0 m), w'))
      × (w'.libc.blocks ≡ w.libc.blocks)
      × (w'.heap.conns w.heap.fresh ≡ none)
  opened-ends =
      let (w', e, blocks, gone) =
        listen-ends cluster_partition w.heap.fresh m w.libc.blocks tested
          (record {
            mq = o.mq;
            live = get_put w.heap.fresh (some o.mq) w₁.heap.conns;
            blocks =
                ap (λ (c : Libc). c.blocks) o.libc ∙ s.blocks ∙ omega (arith, ap owned o.errmsg);
          })
          (record {
            granted = λ i lt.
                ap (λ (c : Libc). c.refuses (c.requests + i)) o.libc ∙ s.grants.granted i lt;
            refused = ap (λ (c : Libc). c.refuses (c.requests + m)) o.libc ∙ s.grants.refused;
          }) in
      (
        w',
        e
            ∙ ap (λ ns. some ((exited (pos 0), ns), w'))
                (ap (λ (c : Libc). numbers (c.sequence c.seed) c.drawn m) o.libc ∙ λ j.
                  numbers (s.sequence j) (s.drawn j) m),
        blocks,
        gone,
      )

module _ (cluster_partition : Option ℕ → Option CString) (uri : CString)
    (b : Build Heap (Mq RandomWorld)) (w : RandomWorld) {k : ℕ}
    (linked : (w : RandomWorld)
      → b.call k uri none none w ≡ construct cluster_partition uri none none w)
    (ready : w.initialised ≡ true) (unlocked : w.enginelock ≡ idle) (plain : AllColonless w.engines)
    (found : via (table w) (scheme_of uri) ≡ some k) where
  -- In a build whose constructor at address k is the random engine's, with a URI whose scheme is
  -- bound to k, in an initialised process with a free lock and schemes without a colon, if the
  -- allocator grants m + 2 requests and refuses the next one, then mq-recv ends within m + 1 rounds
  -- with the status 0; it has printed the first m numbers that random() gives after srandom with
  -- the time, each as a decimal with its length, and the connection and all blocks have been given
  -- back.
  pub main-ends :
      (m : ℕ)
      → Grants (suc (suc m)) w.libc
      → (w' : RandomWorld) × (main b (suc m) (uri ∷ []) w
          ≡ some ((exited (pos 0), numbers (w.libc.sequence (w.libc.time % 2 ^ 32)) 0 m), w'))
        × (w'.libc.blocks ≡ w.libc.blocks)
        × (w'.heap.conns w.heap.fresh ≡ none)
  unfolding main
  main-ends m g =
      let p = w.heap.fresh in
      let mq = connection cluster_partition p in
      let s = seeded-Seeded m w.libc g in
      let (w₁, e₁, o) =
        connect_recv-Opened cluster_partition uri none none b w {k = k} linked ready unlocked plain
          found s.room in
      let (w', e, blocks, gone) = opened-ends cluster_partition uri w w₁ o m s in
      (
        w',
        >>=-some (Connection.connect_recv b uri none none) _ e₁
            ∙ >>=-some (Connection.error mq) _ (error_lem cluster_partition uri w w₁ o m s)
            ∙ e,
        blocks,
        gone,
      )
