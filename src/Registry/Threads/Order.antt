-- ===== src/Registry/Threads/Order.antt =====
-- The order of the changes of engine.c, and what the threads in its loop find in the table.
use libmq.Base.{
  ℕ, ◌+◌, ◌≤◌, ◌<◌, ◌≡◌, refl, ◌∙◌, ap, sym, false, List, [], ◌∷◌, ◌++◌, append-nil, arith, length,
  length-append,
}
use libmq.Base.CString.{CString}
use libmq.World.{Slot, World}
use libmq.World.Locks.{Lock, idle, writing, wrlock}
use libmq.Registry.{
  Build, register, unregister, unregister_where, unregister_constructor, unregister_all, lock_write,
  lock_read, release_lock,
}
use libmq.Registry.Slots.{size_max}
use libmq.Registry.Table.{Table, table, lookup, Distinct}
use libmq.Registry.Dispatch.{AllColonless, via, scheme_of, choose-lookup}
use libmq.Registry.History.{
  Call, registers, unregisters, unregisters_constructor, unregisters_all, step, meaning, meanings,
  Inv, step-Keeps, step-meaning,
}
use libmq.Registry.Threads.{
  outside, returned, scanning, Phase, changing, chosen, change, Quiet, System, Move, Step, Run,
}
use libmq.Registry.Threads.Reading.{Right, AllRight}
use libmq.Registry.Threads.Exclusion.{Safe, run-Safe, changing-writing}
use libmq.Registry.Threads.Schemes.{Plain, step-AllColonless}

abbrev pub AllPlain : List Call → Type 0
AllPlain [] = Unit {0}
AllPlain (c ∷ cs) = Plain c × AllPlain cs

AllPlain-split : (cs ds : List Call) → AllPlain (cs ++ ds) → AllPlain cs × AllPlain ds
AllPlain-split [] ds h = (tt, h)
AllPlain-split (c ∷ cs) ds h = let (l, r) = AllPlain-split cs ds h.1 in ((h.0, l), r)

meanings-append :
    (cs : List Call) (c : Call) (t : Table) → meanings (cs ++ c ∷ []) t ≡ meaning c (meanings cs t)
unfolding meanings
meanings-append [] c t = refl
meanings-append (d ∷ cs) c t = meanings-append cs c (meaning d t)

module _ {E : Type 0} where
  -- With the lock taken, a change is what the whole function does on a free lock.
  change-step :
      (c : Call) (w : World E)
      → w.enginelock ≡ writing
      → change c w ≡ (step c (record w { enginelock = idle })).1
  unfolding change step register unregister unregister_where unregister_constructor unregister_all
      wrlock
  change-step (registers s construct handle) w held =
      ap (λ (l : Lock). change (registers s construct handle) (record w { enginelock = l })) held
  change-step (unregisters s handle) w held =
      ap (λ (l : Lock). change (unregisters s handle) (record w { enginelock = l })) held
  change-step (unregisters_constructor construct) w held =
      ap (λ (l : Lock). change (unregisters_constructor construct) (record w { enginelock = l }))
        held
  change-step (unregisters_all handle) w held =
      ap (λ (l : Lock). change (unregisters_all handle) (record w { enginelock = l })) held

  -- The world behind some changes of a table.
  pub record Serial (size : ℕ) (t : Table) (log : List Call) (w : World E) : Type 0 where
    pub distinct : Distinct w.engines
    pub plain : AllColonless w.engines
    pub roomy : (n : ℕ) → w.libc.refuses n ≡ false
    pub small : length w.engines ≤ size + length log
    pub meaning : table w ≡ meanings log t

  module _ {size : ℕ} {t : Table} {log : List Call} {w : World E} (v : Serial size t log w) where
    kept :
        (w' : World E)
        → w'.engines ≡ w.engines
        → w'.libc.refuses ≡ w.libc.refuses
        → Serial size t (log ++ []) w'
    kept w' same answers = rw append-nil (record {
      distinct = rw same v.distinct;
      plain = rw same v.plain;
      roomy = rw answers v.roomy;
      small = rw same v.small;
      meaning = ap {B = Table} (λ (es : List Slot) s. lookup s es) same ∙ v.meaning;
    })

    changed :
        (c : Call)
        → w.enginelock ≡ writing
        → Plain c
        → size + length (log ++ c ∷ []) < size_max
        → Serial size t (log ++ c ∷ []) (change c w)
    changed c held plain bound =
        let w₀ = record w { enginelock = idle } in
        let i : Inv w₀ = record { unlocked = refl; distinct = v.distinct } in
        let longer = length-append {0} log (c ∷ []) in
        let few : length w.engines < size_max = omega (arith, v.small, bound, longer) in
        let k = step-Keeps w₀ i c few in
        rw (change-step c w held) (record {
          distinct = k.inv.distinct;
          plain = step-AllColonless w₀ v.plain c plain few;
          roomy = λ n. rw k.refuses (v.roomy n);
          small = omega (arith, v.small, k.size, longer);
          meaning =
              step-meaning c w₀ i v.roomy few
              ∙ ap (meaning c) v.meaning
              ∙ sym (meanings-append log c t);
        })

module _ {E Mq : Type 0} (b : Build E Mq) (quiet : Quiet b) (size : ℕ) (t : Table) where
  move-Serial :
      {w w' : World E} {p p' : Phase} {log new : List Call}
      → Move b w p new w' p'
      → ((c : Call) → p ≡ changing c → w.enginelock ≡ writing)
      → AllPlain new
      → size + length (log ++ new) < size_max
      → Serial size t log w
      → Serial size t (log ++ new) w'
  move-Serial {w} (Move.lock c free) held plain bound v = kept v (lock_write w) refl refl
  move-Serial (Move.changes c) held plain bound v = changed v c (held c refl) plain.0 bound
  move-Serial {w} (Move.enter uri free) held plain bound v = kept v (lock_read w) refl refl
  move-Serial {w} (Move.looks uri c) held plain bound v = kept v w refl refl
  move-Serial {w} {w'} (Move.calls uri k {mq} made) held plain bound v =
      let a = quiet k uri w mq w' made in kept v w' a.engines a.refuses
  move-Serial {w} Move.leave held plain bound v = kept v (release_lock w) refl refl
  move-Serial {w} {w'} (Move.fails uri) held plain bound v = kept v w' refl refl
  move-Serial {w} {w'} (Move.elsewhere a) held plain bound v = kept v w' a.engines a.refuses

  step-Serial :
      {s u : System E} {log new : List Call}
      → Step b s new u
      → Safe s
      → AllPlain new
      → size + length (log ++ new) < size_max
      → Serial size t log s.world
      → Serial size t (log ++ new) u.world
  step-Serial {s} (Step.moves xs ys at m) safe plain bound v =
      move-Serial m
        (λ c now. changing-writing s xs ys c safe (at ∙ ap (λ (p : Phase). xs ++ p ∷ ys) now)) plain
        bound v

  pub run-Serial :
      {s u : System E} {log : List Call}
      → Run b s log u
      → Safe s
      → AllPlain log
      → size + length log < size_max
      → Serial size t [] s.world
      → Serial size t log u.world
  run-Serial Run.start safe plain bound v = v
  run-Serial (Run.later {log} {new} r m) safe plain bound v =
      let (before, now) = AllPlain-split log new plain in
      let longer = length-append {0} log new in
      step-Serial m (run-Safe b quiet r safe) now bound
        (run-Serial r safe before (omega (arith, bound, longer)) v)

-- What a thread behind the loop of `mq_create_` has found, by the table.
abbrev pub Found : Table → Phase → Type 0
Found t outside = Unit {0}
Found t returned = Unit {0}
Found t (changing c) = Unit {0}
Found t (scanning uri c) = Unit {0}
Found t (chosen uri k) = k ≡ via t (scheme_of uri)

abbrev pub AllFound : Table → List Phase → Type 0
AllFound t [] = Unit {0}
AllFound t (p ∷ ps) = Found t p × AllFound t ps

Right-Found :
    (es : List Slot) (t : Table) (p : Phase)
    → AllColonless es
    → (λ (s : CString). lookup s es) ≡ t
    → Right es p
    → Found t p
unfolding Right
Right-Found es t outside plain same h = tt
Right-Found es t returned plain same h = tt
Right-Found es t (changing c) plain same h = tt
Right-Found es t (scanning uri c) plain same h = tt
Right-Found es t (chosen uri k) plain same h =
    sym h ∙ choose-lookup uri es plain ∙ ap (λ (t : Table). via t (scheme_of uri)) same

AllRight-AllFound :
    (es : List Slot) (t : Table) (ps : List Phase)
    → AllColonless es
    → (λ (s : CString). lookup s es) ≡ t
    → AllRight es ps
    → AllFound t ps
AllRight-AllFound es t [] plain same h = tt
AllRight-AllFound es t (p ∷ ps) plain same h =
    (Right-Found es t p plain same h.0, AllRight-AllFound es t ps plain same h.1)

-- A safe process with no scheme in two slots, none with a colon, and an allocator that refuses
-- nothing.
pub record Fresh {E : Type 0} (s : System E) : Type 0 where
  pub safe : Safe s
  pub distinct : Distinct s.world.engines
  pub plain : AllColonless s.world.engines
  pub roomy : (n : ℕ) → s.world.libc.refuses n ≡ false

module _ {E Mq : Type 0} (b : Build E Mq) (quiet : Quiet b) where
  -- However the steps of any number of threads that use engine.c are interleaved, the table is what
  -- `bind` and `drop_where` make of it for the calls that changed it, in the order in which they
  -- held the write lock, and each thread behind the loop of mq_create_ has what that table says of
  -- the scheme of its URI. The process starts in a safe state with distinct schemes without a
  -- colon, the calls register no scheme with a colon, the constructors leave the table alone, the
  -- allocator refuses nothing, and the array stays below SIZE_MAX slots.
  pub run-meanings_threads :
      {s u : System E} {log : List Call}
      → Run b s log u
      → Fresh s
      → AllPlain log
      → length s.world.engines + length log < size_max
      → let t = meanings log (table s.world) in (table u.world ≡ t) × AllFound t u.threads
  unfolding meanings
  run-meanings_threads {s} {u} {log} r f plain bound =
      let v =
        run-Serial b quiet (length s.world.engines) (table s.world) r f.safe plain bound (record {
          distinct = f.distinct;
          plain = f.plain;
          roomy = f.roomy;
          small = omega arith;
          meaning = refl;
        }) in
      let found =
        AllRight-AllFound u.world.engines (meanings log (table s.world)) u.threads v.plain v.meaning
          (run-Safe b quiet r f.safe).right in
      (v.meaning, found)
