-- ===== src/Random/Partitions.antt =====
-- The partition of a connection, of a message, and of the cluster that a connection joins.
use libmq.Base.{
  ℕ, ◌+◌, ◌≤◌, ◌≡◌, refl, ap, [], ◌∷◌, Bool, true, false, Option, none, some, pos, minus_one,
  if◌then◌else◌, arith, ◌&&◌,
}
use libmq.Base.CString.{CString}
use libmq.Libc.{Libc, exhausted, after_alloc, after_free?}
use libmq.Engine.{Ptr}
use libmq.Engine.Errors.{Members}
use libmq.Random.{RandomMq, RandomMessage, RandomWorld, Frame, update, on_mq}
use libmq.Base.Cells.{put_self}
use libmq.Random.Connections
use libmq.Random.Messages
use libmq.Random.Messages.{effective}

-- NULL and the empty string stand for no partition.
abbrev pub named : Option CString → Option CString
named none = none
named (some []) = none
named (some (c ∷ s)) = some (c ∷ s)

-- What a partition owns on the heap.
abbrev pub owned : {A : Type 0} → Option A → ℕ
owned none = 0
owned (some _) = 1

abbrev pub is_some : Option CString → Bool
is_some none = false
is_some (some _) = true

-- Whether `strdup` is called, and fails.
abbrev pub fails_on : Option CString → Libc → Bool
fails_on p c = exhausted c && is_some (named p)

pub set_partition-named :
    (p : Option CString) (f : Frame)
    → let (r, f') = Connections.set_partition p f in
      (r ≡ (if fails_on p f.libc then minus_one else pos 0))
      × (f'.mq.partition ≡ (if fails_on p f.libc then f.mq.partition else named p))
      × (f'.mq.members ≡ f.mq.members)
unfolding Connections.set_partition after_alloc after_free?
set_partition-named none f = ground arith
set_partition-named (some []) f = ground arith
set_partition-named (some (c ∷ s)) f = ground arith

-- If the allocator counts the copy of the old partition, set_partition on a connection of the
-- random engine changes the count of blocks exactly as it changes what the connection owns, whether
-- it succeeds or not.
pub set_partition-blocks :
    (p : Option CString) (f : Frame)
    → owned f.mq.partition ≤ f.libc.blocks
    → let (r, f') = Connections.set_partition p f in
      f'.libc.blocks + owned f.mq.partition ≡ f.libc.blocks + owned f'.mq.partition
unfolding Connections.set_partition after_alloc after_free?
set_partition-blocks none f h = ground arith
set_partition-blocks (some []) f h = ground arith
set_partition-blocks (some (c ∷ s)) f h = ground arith

-- set_cluster on a connection of the random engine always returns 0 and keeps the cluster; the
-- partition becomes the one that libcluster names, with the empty name for none, but if the copy of
-- that name is refused it stays the old one.
pub set_cluster-named :
    (cluster_partition : Option ℕ → Option CString) (cluster : Option ℕ) (f : Frame)
    → let (r, f') = Connections.set_cluster cluster_partition cluster f in
      let p = cluster_partition cluster in
      (r ≡ pos 0)
      × (f'.mq.cluster ≡ cluster)
      × (f'.mq.partition ≡ (if fails_on p f.libc then f.mq.partition else named p))
unfolding Connections.set_cluster
set_cluster-named cluster_partition cluster f =
    let joined : Frame = update (λ c. record c { cluster = cluster }) f in
    let done = set_partition-named (cluster_partition cluster) joined in
    (refl, ap (λ (c : Members). c.cluster) done.2, done.1)

module _ (w : RandomWorld) (self : Ptr) {m : RandomMessage} {q : RandomMq}
    (live : w.heap.msgs self ≡ some m) (owner : w.heap.conns m.connection ≡ some q) where
  pub partition-effective : Messages.partition self w ≡ some (effective m.partition q.partition, w)
  unfolding Messages.partition on_mq
  partition-effective = ground (arith, put_self m.connection w.heap.conns owner)

  set_partition_writes :
      (p : Option CString) {w' : RandomWorld}
      → Messages.set_partition self p w ≡ some (pos 0, w')
      → (w'.heap.msgs self ≡ some (record m { partition = p })) × (w'.heap.conns ≡ w.heap.conns)
  unfolding Messages.set_partition
  set_partition_writes none done = ground arith
  set_partition_writes (some s) done = ground arith

module _ (w : RandomWorld) (self : Ptr) {m : RandomMessage} {q : RandomMq}
    (live : w.heap.msgs self ≡ some m) (owner : w.heap.conns m.connection ≡ some q) where
  -- If set_partition on a live message of the random engine with a live connection succeeds, the
  -- message's partition is then the name that was set; the empty name gives no partition, and NULL
  -- gives the partition of the connection.
  pub partition-set_partition :
      (p : Option CString) {w' : RandomWorld}
      → Messages.set_partition self p w ≡ some (pos 0, w')
      → Messages.partition self w' ≡ some (effective p q.partition, w')
  partition-set_partition p {w'} done =
      let (now, same) = set_partition_writes w self live owner p done in
      partition-effective w' self {q = q} now (rw same owner)
