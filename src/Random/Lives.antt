-- ===== src/Random/Lives.antt =====
-- The contract of libmq-engine.h for the engine of queues/random.c: partitions, and the start and the
-- end of a message.
use libmq.Base.{
  ℕ, ◌≡◌, refl, ◌∙◌, ap, inl, inr, false, [], ◌∷◌, Option, none, some, ◌==◌, pos, minus_one, arith,
  Bool-cases, Option-cases,
}
use libmq.Base.Cells.{put, get_put}
use libmq.Base.CString.{CString}
use libmq.Libc.{Libc, exhausted, after_alloc, after_free?}
use libmq.Cmd.{>>=-some}
use libmq.Cmd.Ends.{Ends, Ends-eq}
use libmq.Engine.Errors.{reset_error}
use libmq.Engine.{Ptr, Message}
use libmq.Engine.Contract.{Steady, Makes, Frees}
use libmq.Random.{RandomMessage, RandomWorld, update, on_mq}
use libmq.Random.Messages
use libmq.Random.Messages.{put_message}
use libmq.Random.Sessions.{connection, handle, frame, freed, release_lem as message_release_lem}
use libmq.Random.Receiving.{
  after_next, arrived, not_made, out_of_memory, next-arrived, next-refused,
}
use libmq.Random.Contract.{Held, Live, put-Live, moved-Live, on_mq-Keeps}

module _ (self : Ptr) where
  -- A write to the message at `p`, with another state of the C library.
  abbrev wrote : Ptr → RandomMessage → Libc → RandomWorld → RandomWorld
  wrote p x c w = put_message p (some x) (record w { libc = c })

  wrote-Steady :
      (p : Ptr) (x : RandomMessage) (c : Libc) (w : RandomWorld)
      → x.connection ≡ self
      → Held self w
      → Steady (Held self) (Live self) w (wrote p x c w)
  wrote-Steady p x c w its held = (held, λ m h. put-Live self p x m w (wrote p x c w) its refl h)

  pub set_partition-Steady :
      (s : Option CString) (p : Ptr) (x : RandomMessage) (w : RandomWorld)
      → Held self w
      → w.heap.msgs p ≡ some x
      → x.connection ≡ self
      → Ends (Messages.set_partition p s w) (λ _ w'. Steady (Held self) (Live self) w w')
  unfolding Messages.set_partition
  set_partition-Steady none p x w held live its = record {
    result = pos 0;
    after = wrote p (record x { partition = none }) (after_free? x.partition w.libc) w;
    run = ground arith;
    holds =
        wrote-Steady p (record x { partition = none }) (after_free? x.partition w.libc) w its held;
  }
  set_partition-Steady (some s) p x w held live its = elim (Bool-cases (exhausted w.libc)) [
    | inl full ↦ record {
      result = minus_one;
      after = record w { libc = after_alloc w.libc };
      run = ground arith;
      holds = (held, λ m h. moved-Live self m w (record w { libc = after_alloc w.libc }) refl h);
    }
    | inr room ↦
        let c = after_free? x.partition (after_alloc w.libc) in
        let y = record x { partition = some s } in
        record {
          result = pos 0;
          after = wrote p y c w;
          run = ground arith;
          holds = wrote-Steady p y c w its held;
        }
  ]

  -- A partition of the message's own.
  own_partition :
      (s : CString) (p : Ptr) {x : RandomMessage} (w : RandomWorld)
      → w.heap.msgs p ≡ some x
      → x.partition ≡ some s
      → (r : Option CString) × (Messages.partition p w ≡ some (r, w))
  unfolding Messages.partition
  own_partition [] p w live own = (none, ground arith)
  own_partition (c ∷ s) p w live own = (some (c ∷ s), ground arith)

  no_partition :
      (p : Ptr) {x : RandomMessage} (w : RandomWorld)
      → w.heap.msgs p ≡ some x
      → x.partition ≡ none
      → x.connection ≡ self
      → Messages.partition p w ≡ on_mq self (λ f. (f.mq.partition, f)) w
  unfolding Messages.partition
  no_partition p w live bare its = rw (live, Messages.partition) (rw bare (rw its))

  pub partition-Steady :
      (p : Ptr) (x : RandomMessage) (w : RandomWorld)
      → Held self w
      → w.heap.msgs p ≡ some x
      → x.connection ≡ self
      → Ends (Messages.partition p w) (λ _ w'. Steady (Held self) (Live self) w w')
  partition-Steady p x w held live its = elim (Option-cases x.partition) [
    | inl bare ↦
        Ends-eq (no_partition p w live bare its)
          (on_mq-Keeps self (λ f. (f.mq.partition, f)) w held)
    | inr (s, own) ↦
        let (r, e) = own_partition s p w live own in
        record { result = r; after = w; run = e; holds = (held, λ m h. h) }
  ]

  -- A message that is freed; the messages at other addresses stay.
  freed-Live :
      (p : Ptr) (m : Message RandomWorld) (w w' : RandomWorld)
      → (m.self == p) ≡ false
      → w'.heap.msgs ≡ put p none w.heap.msgs
      → Live self m w
      → Live self m w'
  freed-Live p m w w' other written h =
      let e : m.self ≡ h.p = ap (λ (m : Message RandomWorld). m.self) h.same in
      record {
        p = h.p;
        x = h.x;
        same = h.same;
        live =
            ap (λ (f : Ptr → Option RandomMessage). f h.p) written
            ∙ ground (arith, e, other, h.live);
        its = h.its;
      }

  released :
      (p : Ptr) (x : RandomMessage) (w : RandomWorld)
      → Held self w
      → w.heap.msgs p ≡ some x
      → x.connection ≡ self
      → Ends (Messages.release p w) (λ _ w'.
        Held self w'
        × ((o : Message RandomWorld) → (o.self == p) ≡ false → Live self o w → Live self o w'))
  released p x w (q, held) live its =
      let f = update reset_error (frame w q) in
      record {
        result = 0;
        after = freed p x f w;
        run = message_release_lem w p {m = x} {q = q} live (ap w.heap.conns its ∙ held);
        holds = (
          (
            f.mq,
            ap (λ (s : Ptr). put s (some f.mq) w.heap.conns self) its
                ∙ get_put self (some f.mq) w.heap.conns,
          ),
          λ o other h. freed-Live p o w (freed p x f w) other refl h,
        );
      }

  pub release-Frees : Frees (Held self) (Live self) (λ m. m.impl.release m.self)
  release-Frees m w held h = rw h.same (released h.p h.x w held h.live h.its)

  -- A message that is new, with its text.
  pub next-Makes :
      (cluster_partition : Option ℕ → Option CString)
      → Makes (Held self) (Live self) ((connection cluster_partition self).impl.next self)
  next-Makes cluster_partition w (q, held) = elim (Bool-cases (exhausted w.libc)) [
    | inl full ↦ record {
      result = (minus_one, none);
      after = not_made self q w;
      run = >>=-some (Messages.next self) _ (next-refused self w held full);
      holds = (
        (
          (out_of_memory (after_alloc w.libc) q, get_put self _ w.heap.conns),
          λ m h. moved-Live self m w (not_made self q w) refl h,
        ),
        λ bad. cc bad,
      );
    }
    | inr room ↦
        let p = w.heap.fresh in
        let x = arrived self (after_alloc w.libc) in
        let w₁ = after_next self w in
        record {
          result = (pos 0, some (handle p));
          after = w₁;
          run = >>=-some (Messages.next self) _ (next-arrived self w room);
          holds = (
            ((q, held), λ m h. put-Live self p x m w w₁ refl refl h),
            λ _. (
              handle p,
              refl,
              record {
                p = p;
                x = x;
                same = refl;
                live = get_put p (some x) w.heap.msgs;
                its = refl;
              },
            ),
          );
        }
  ]
