-- ===== src/Recv/Writing.antt =====
-- The bytes that mq-recv.c writes of a body.
use libmq.Base.{
  ℕ, ◌≡◌, refl, true, Option, none, some, ◌==◌, ◌&&◌, not, length, take, take_all, arith,
}
use libmq.Base.CString.{CString}
use libmq.Cmd.Ends.{Ends}
use libmq.Registry.Slots.{size_max}
use libmq.Engine.Contract.{Covers}
use libmq.Recv.{write}

module _ {W : Type 0} where
  -- A body whose length is known is written as a whole.
  pub write_all : (s : CString) (w : W) → write (length s) (some s) w ≡ some (some s, w)
  unfolding write
  write_all s w =
      let all : take (length s) s ≡ s = take_all (length s) s (omega arith) in ground (arith, all)

  -- The bytes are there, if the length is neither 0 nor `(size_t) -1`.
  pub write-Ends :
      (len : ℕ) (start : Option CString) (w : W)
      → Covers len start
      → (not (len == 0) && not (len == size_max)) ≡ true
      → Ends (write len start w) (λ _ w'. w' ≡ w)
  unfolding write Covers size_max
  write-Ends len none w covers asked = ground (arith, covers)
  write-Ends len (some s) w covers asked = record {
    result = some (take len s);
    after = w;
    run = ground (arith, covers, asked);
    holds = refl;
  }
