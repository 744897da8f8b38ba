-- ===== src/Random/Receiving.antt =====
-- `mq_next` on the random engine: what the new message holds, and what can be read from it.
use libmq.Base.{
  ℕ, suc, ◌%◌, ◌^◌, ◌<◌, ◌≡◌, ◌∙◌, true, false, none, some, pos, minus_one, arith, length, take_all,
}
use libmq.Base.Decimal.{decimal, value, value-decimal, length-decimal}
use libmq.Libc.{Libc, exhausted, after_alloc, random}
use libmq.Cmd.{>>=-some}
use libmq.Engine.{Ptr, incoming}
use libmq.Engine.Errors.{set_from_errno}
use libmq.Random.{RandomMq, RandomMessage, RandomWorld, on_mq}
use libmq.Base.Cells.{put, put_twice}
use libmq.Random.Messages
use libmq.Random.Messages.{draw, fill}

-- The number that `random` is about to return.
abbrev pub upcoming : Libc → ℕ
upcoming c = c.sequence c.seed c.drawn % 2 ^ 31

pub draw-decimal : (c : Libc) → (draw c).0 ≡ decimal (upcoming c)
unfolding draw random
draw-decimal c = take_all 31 (decimal (upcoming c)) (omega (arith, length-decimal (upcoming c)))

pub value-draw : (c : Libc) → value (draw c).0 ≡ upcoming c
value-draw c = rw (draw-decimal c) (value-decimal (upcoming c) (omega arith))

pub length-draw : (c : Libc) → length (draw c).0 < 32
length-draw c = rw (draw-decimal c) (omega (arith, length-decimal (upcoming c)))

-- The message that `mq_random_next_` makes on a connection.
abbrev pub arrived : Ptr → Libc → RandomMessage
arrived self c = record { connection = self; kind = incoming; buf = (draw c).0; partition = none }

-- The state behind it.
abbrev pub after_next : Ptr → RandomWorld → RandomWorld
after_next self w =
    let c = after_alloc w.libc in
    record w {
      libc = (draw c).1;
      heap = record (w.heap) {
        msgs = put w.heap.fresh (some (arrived self c)) w.heap.msgs;
        fresh = suc w.heap.fresh;
      };
    }

-- The state behind a successful `mq_random_message_construct_`.
abbrev made : Ptr → RandomWorld → RandomWorld
made self w = record w {
  libc = after_alloc w.libc;
  heap = record (w.heap) {
    msgs = put w.heap.fresh (some (Messages.blank self)) w.heap.msgs;
    fresh = suc w.heap.fresh;
  };
}

-- A connection after `SET_ERRNO`.
abbrev pub out_of_memory : Libc → RandomMq → RandomMq
out_of_memory c q = record q { members = set_from_errno c q.members }

abbrev pub not_made : Ptr → RandomMq → RandomWorld → RandomWorld
not_made self q w =
    let c = after_alloc w.libc in
    record w {
      libc = c;
      heap = record (w.heap) { conns = put self (some (out_of_memory c q)) w.heap.conns };
    }

construct-made :
    (self : Ptr) (w : RandomWorld)
    → exhausted w.libc ≡ false
    → Messages.construct self w ≡ some (some w.heap.fresh, made self w)
unfolding Messages.construct
construct-made self w room = ground arith

construct-not_made :
    (self : Ptr) (q : RandomMq) (w : RandomWorld)
    → w.heap.conns self ≡ some q
    → exhausted w.libc ≡ true
    → Messages.construct self w ≡ some (none, not_made self q w)
unfolding Messages.construct on_mq after_alloc
construct-not_made self q w live full = ground arith

fill_lem :
    (p : Ptr) {m : RandomMessage} (w : RandomWorld)
    → w.heap.msgs p ≡ some m
    → fill p w
      ≡ some (
        (pos 0, some p),
        Messages.put_message p
            (some (record m { kind = incoming; buf = (draw w.libc).0 }))
            (record w { libc = (draw w.libc).1 }),
      )
unfolding fill
fill_lem p w live = rw (live, fill)

module _ (self : Ptr) (w : RandomWorld) where
  pub next-arrived :
      exhausted w.libc ≡ false
      → Messages.next self w ≡ some ((pos 0, some w.heap.fresh), after_next self w)
  unfolding Messages.next
  next-arrived room =
      >>=-some (Messages.construct self) _ (construct-made self w room)
      ∙ fill_lem w.heap.fresh {m = Messages.blank self} (made self w) (ground arith)
      ∙ rw (
          put_twice w.heap.fresh (some (Messages.blank self))
            (some (arrived self (after_alloc w.libc))) w.heap.msgs)

  pub next-refused :
      {q : RandomMq}
      → w.heap.conns self ≡ some q
      → exhausted w.libc ≡ true
      → Messages.next self w ≡ some ((minus_one, none), not_made self q w)
  unfolding Messages.next
  next-refused {q} live full =
      >>=-some (Messages.construct self) _ (construct-not_made self q w live full)
