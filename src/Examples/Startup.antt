-- ===== src/Examples/Startup.antt =====
-- Examples for the first use of the library.
use libmq.Base.{◌≡◌, refl, false, [], ◌∷◌, none, some, arith}
use libmq.Base.CString.{codes}
use libmq.World.Locks.{idle}
use libmq.Engine.{Mq}
use libmq.Registry.{Build}
use libmq.Registry.Slots.{size_max}
use libmq.Registry.Dispatch.{scheme_of}
use libmq.Connection
use libmq.Plugin.{Loader, is_plugin, plugin_init}
use libmq.Random.{RandomWorld, Heap}
use libmq.Random.Impl.{construct, entry}
use libmq.Random.Sessions.{connection}
use libmq.Random.Connecting.{Opened}
use libmq.Startup.Tables.{Ready}
use libmq.Startup.Loads.{Installed}
use libmq.Startup.Opening.{Started, connect_recv-Started}
use libmq.Examples.Data.{roomy, random_uri}

-- A directory with a README and the random engine, whose handle is 3 and constructor 7.
abbrev directory : Loader Heap
directory = record {
  plugindir = codes "/mq";
  opendir = λ w. (some (codes "README" ∷ codes "random.so" ∷ []), w);
  dlopen = λ path w. (some 3, w);
  dlsym = λ handle w. some 9;
  dlclose = λ handle w. w;
  entry = λ address handle w. entry 7 handle w;
  unspecified = λ i. 170;
}

installed : Installed directory (entry 7) 3
unfolding is_plugin
installed = record {
  before = codes "README" ∷ [];
  name = codes "random.so";
  after = [];
  listed = λ w. refl;
  plain = (
    (refl, (refl, (refl, (refl, (refl, (refl, tt)))))),
    ((refl, (refl, (refl, (refl, (refl, (refl, (refl, (refl, (refl, tt))))))))), tt),
  );
  dir = (refl, (refl, (refl, tt)));
  plugin = refl;
  first = (refl, tt);
  last = tt;
  opens = λ w. refl;
  address = 9;
  symbol = λ w. refl;
  enters = λ w. refl;
}

-- A build with Proton at address 5, and the random engine behind address 7.
abbrev complete : Build Heap (Mq RandomWorld)
complete = record {
  proton = some 5;
  plugin_init = plugin_init directory;
  call = λ k uri reserved1 reserved2 w. construct (λ _. none) uri reserved1 reserved2 w;
}

abbrev untouched : RandomWorld
untouched = record {
  libc = roomy;
  engines = [];
  enginelock = idle;
  initialised = false;
  heap = record { conns = λ _. none; msgs = λ _. none; fresh = 1 };
}

untouched-Ready : Ready 3 untouched
unfolding size_max
untouched-Ready = record {
  inv = record { unlocked = refl; distinct = tt };
  room = λ n. refl;
  small = omega arith;
}

connect_recv-Started_example :
    (w₁ : RandomWorld) × Started complete (codes "random") 7 3 untouched w₁
    × (w' : RandomWorld) × (Connection.connect_recv complete random_uri none none untouched
        ≡ some (some (connection (λ _. none) w₁.heap.fresh), w'))
    × Opened random_uri w₁ w'
unfolding scheme_of
connect_recv-Started_example =
    connect_recv-Started complete directory (λ w. refl) 7 3 installed (λ _. none) random_uri none
      none (λ w. refl) refl untouched refl refl untouched-Ready
