-- ===== src/Startup/Opening.antt =====
-- The first call of `mq_connect_recv` in a process: it initialises the library, which loads the
-- engine that the call then uses.
use libmq.Base.{ℕ, ℤ, suc, ◌≡◌, refl, sym, ◌∙◌, ap, true, false, [], Option, none, some, arith}
use libmq.Base.CString.{CString, codes, same_self}
use libmq.Libc.{Libc, after_alloc}
use libmq.Cmd.{>>=-some, >>=-same}
use libmq.World.{World}
use libmq.Engine.{Mq}
use libmq.Registry.{Build, builtins, init, init_once, dispatch, create}
use libmq.Registry.Table.{Table, lookup, table, bind}
use libmq.Registry.Dispatch.{Colonless, AllColonless, via, scheme_of}
use libmq.Connection
use libmq.Plugin.{Loader, plugin_init}
use libmq.Random.{Heap, RandomWorld}
use libmq.Random.Impl.{construct, entry}
use libmq.Random.Sessions.{connection}
use libmq.Random.Connecting.{HasRoom, Opened, connect_recv-Opened}
use libmq.Startup.Tables.{
  builtin_table, Ready, builtins-Built, AllColonless-of_table, bind-Colonless,
}
use libmq.Startup.Loads.{Installed, Registers, plugin_init-Loaded}

module _ {E M : Type 0} (b : Build E M) (scheme : CString) (k handle : ℕ) where
  -- The library after its initialisation: the table holds the plug-in and what is compiled in.
  pub record Started (w w₁ : World E) : Type 0 where
    pub run : init_once b w ≡ some (tt, w₁)
    pub initialised : w₁.initialised ≡ true
    pub ready : Ready 0 w₁
    pub entries : table w₁ ≡ bind scheme k handle (builtin_table b.proton (table w))
    pub heap : w₁.heap ≡ w.heap

module _ {E M : Type 0} (b : Build E M) (l : Loader E)
    (linked : (w : World E) → b.plugin_init w ≡ plugin_init l w) (scheme : CString) (k handle : ℕ)
    {enter : ℕ → World E → ℤ × World E} (i : Installed l enter handle)
    (registers : Registers enter scheme k handle) where
  -- In a process whose library is not initialised, with an allocator that refuses nothing and room
  -- for three more slots, the first call of pthread_once with mq_init_ ends with the library
  -- initialised, its invariant kept, and the table extended by amqp and amqps if Proton is compiled
  -- in and by the scheme of the plug-in, if the directory holds one plug-in that can be loaded and
  -- registers one scheme.
  init_once-Started :
      (w : World E)
      → w.initialised ≡ false
      → Ready 3 w
      → (w₁ : World E) × Started b scheme k handle w w₁
  unfolding init_once init
  init_once-Started w fresh v =
      let m = builtins-Built b w v in
      let (w₂, r) = plugin_init-Loaded l scheme k handle i registers (builtins b w) m.ready in
      (
        record w₂ { initialised = true },
        record {
          run = simp (fresh, linked (builtins b w) ∙ r.run, init_once, init);
          initialised = refl;
          ready = record {
            inv = record { unlocked = r.ready.inv.unlocked; distinct = r.ready.inv.distinct };
            room = r.ready.room;
            small = r.ready.small;
          };
          entries = r.entry ∙ ap (bind scheme k handle) m.entries;
          heap = r.heap ∙ m.heap;
        },
      )

  -- Once it has run, `pthread_once` does nothing.
  pub create-Started :
      (uri : CString) (reserved1 reserved2 : Option CString) (w w₁ : World E)
      → Started b scheme k handle w w₁
      → create b uri reserved1 reserved2 w ≡ create b uri reserved1 reserved2 w₁
  unfolding create init_once
  create-Started uri reserved1 reserved2 w w₁ s =
      let again : init_once b w₁ ≡ some (tt, w₁) = simp (s.initialised, init_once) in
      >>=-some (init_once b) (λ _. dispatch b uri reserved1 reserved2) s.run
      ∙ sym (>>=-some (init_once b) (λ _. dispatch b uri reserved1 reserved2) again)

-- No engine is called by a scheme with a colon in it.
builtin_table-Colonless :
    (proton : Option ℕ) (u : CString) (p : ℕ × ℕ)
    → builtin_table proton (λ _. none) u ≡ some p
    → Colonless u
builtin_table-Colonless none u p found = cc
builtin_table-Colonless (some address) u p found =
    bind-Colonless (codes "amqps") address 0 (bind (codes "amqp") address 0 (λ _. none))
      (refl, (refl, (refl, (refl, (refl, tt)))))
      (bind-Colonless (codes "amqp") address 0 (λ _. none) (refl, (refl, (refl, (refl, tt))))
        (λ u p found. cc))
      u p found

empty_table : {E : Type 0} (w : World E) → w.engines ≡ [] → table w ≡ (λ _. none)
unfolding lookup
empty_table w empty = ap (λ es s. lookup s es) empty

HasRoom-of_room : (c : Libc) → ((n : ℕ) → c.refuses n ≡ false) → HasRoom c
unfolding after_alloc
HasRoom-of_room c room = record {
  object = room c.requests;
  uri = ground (arith, room c.requests, room (suc c.requests));
}

module _ (b : Build Heap (Mq RandomWorld)) (l : Loader Heap)
    (linked : (w : RandomWorld) → b.plugin_init w ≡ plugin_init l w) (k handle : ℕ)
    (i : Installed l (entry k) handle) (cluster_partition : Option ℕ → Option CString)
    (uri : CString) (reserved1 reserved2 : Option CString)
    (calls : (w : RandomWorld)
      → b.call k uri reserved1 reserved2 w ≡ construct cluster_partition uri reserved1 reserved2 w)
    (random_uri : scheme_of uri ≡ some (codes "random")) where
  -- What `mq_entry` of queues/random.c does.
  entry-Registers : Registers (entry k) (codes "random") k handle
  unfolding entry
  entry-Registers w = refl

  -- In a process that has not used the library yet, whose table is empty and whose allocator
  -- refuses nothing, with a directory that holds one plug-in, whose entry point is the mq_entry of
  -- queues/random.c, the first mq_connect_recv with a URI of the scheme random initialises the
  -- library, which registers that engine and the ones that are compiled in, and returns a new
  -- connection that is receiving.
  pub connect_recv-Started :
      (w : RandomWorld)
      → w.engines ≡ []
      → w.initialised ≡ false
      → Ready 3 w
      → (w₁ : RandomWorld) × Started b (codes "random") k handle w w₁
        × (w' : RandomWorld) × (Connection.connect_recv b uri reserved1 reserved2 w
            ≡ some (some (connection cluster_partition w₁.heap.fresh), w'))
        × Opened uri w₁ w'
  unfolding Connection.connect_recv
  connect_recv-Started w empty fresh v =
      let (w₁, s) =
        init_once-Started b l linked (codes "random") k handle i entry-Registers w fresh v in
      let entry : table w₁ (codes "random") ≡ some (k, handle) =
        ap (λ (t : Table). t (codes "random")) s.entries ∙ rw (same_self (codes "random")) refl in
      let known : table w₁ ≡ bind (codes "random") k handle (builtin_table b.proton (λ _. none)) =
        s.entries
        ∙ ap (λ (t : Table). bind (codes "random") k handle (builtin_table b.proton t))
            (empty_table w empty) in
      let plain : AllColonless w₁.engines = AllColonless-of_table w₁.engines (λ u p found.
        bind-Colonless (codes "random") k handle (builtin_table b.proton (λ _. none))
          (refl, (refl, (refl, (refl, (refl, (refl, tt)))))) (builtin_table-Colonless b.proton) u p
          (sym (ap (λ (t : Table). t u) known) ∙ found)) in
      let (w', e, o) =
        connect_recv-Opened cluster_partition uri reserved1 reserved2 b w₁ {k = k} calls
          s.initialised s.ready.inv.unlocked plain (rw (random_uri, via) (rw entry))
          (HasRoom-of_room w₁.libc s.ready.room) in
      (
        w₁,
        s,
        w',
        >>=-same (create b uri reserved1 reserved2) _ (
              create-Started b l linked (codes "random") k handle i entry-Registers uri reserved1
                reserved2 w w₁ s)
            ∙ e,
        o,
      )
