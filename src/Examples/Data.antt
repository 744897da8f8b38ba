-- ===== src/Examples/Data.antt =====
-- Data for the examples: a C library whose allocator never refuses, one that is exhausted after
-- one request, and processes with two slots in their table of engines.
use libmq.Base.{ℕ, ◌≡◌, refl, Bool, true, false, List, [], ◌∷◌, some, leb}
use libmq.Base.CString.{CString, codes}
use libmq.Libc.{Libc}
use libmq.World.{Slot, World}
use libmq.World.Locks.{idle}
use libmq.Registry.Scanning.{entry}
use libmq.Registry.Slots.{vacant}
use libmq.Registry.Table.{lookup, Distinct}
use libmq.Registry.Dispatch.{Colonless, AllColonless}

abbrev pub libc_with : (ℕ → Bool) → Libc
libc_with refuses = record {
  errno = 0;
  blocks = 5;
  requests = 0;
  refuses = refuses;
  time = 1000;
  seed = 0;
  drawn = 0;
  sequence = λ seed n. 42;
  strerror = λ e. codes "error";
}

abbrev pub roomy : Libc
roomy = libc_with (λ _. false)

-- Only the first request is granted.
abbrev pub tight : Libc
tight = libc_with (λ n. leb 1 n)

-- Every request is refused.
abbrev pub full : Libc
full = libc_with (λ _. true)

abbrev pub random_scheme : CString
random_scheme = codes "random"

abbrev pub amqp : CString
amqp = codes "amqp"

abbrev pub random_uri : CString
random_uri = codes "random:x"

-- One engine, with constructor 7 and handle 3, and a vacant slot.
abbrev pub slots : List Slot
slots = entry random_scheme 7 3 ∷ vacant ∷ []

abbrev pub process : {E : Type 0} → Libc → List Slot → E → World E
process libc engines heap = record {
  libc = libc;
  engines = engines;
  enginelock = idle;
  initialised = true;
  heap = heap;
}

pub slots-Distinct : Distinct slots
unfolding lookup
slots-Distinct = ((λ s e. refl), ((λ s e. refl), tt))

Colonless-eq : (t s : CString) → Colonless t → some t ≡ some s → Colonless s
Colonless-eq t s h e = let q : s ≡ t = cc in rw q h

pub slots-AllColonless : AllColonless slots
slots-AllColonless = (
  (λ s e. Colonless-eq random_scheme s (refl, (refl, (refl, (refl, (refl, (refl, tt)))))) e),
  ((λ s e. cc), tt),
)
