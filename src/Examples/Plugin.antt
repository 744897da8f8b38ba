-- ===== src/Examples/Plugin.antt =====
-- Examples for plugin.c.
use libmq.Base.{ℕ, suc, ◌≡◌, refl, true, false, List, [], ◌∷◌, some, pos}
use libmq.Base.CString.{CString, codes}
use libmq.Libc.{after_alloc}
use libmq.World.{World}
use libmq.Plugin.{Loader, is_plugin, load, plugin_init}
use libmq.Plugin.Loading.{load_files}
use libmq.Plugin.Refinement.{plugin_init-load_files}
use libmq.Examples.Data.{roomy, process}

-- A directory with two plug-ins, and a linker that counts what is loaded.
abbrev names : List CString
names = codes "." ∷ codes ".." ∷ codes "a.so" ∷ codes "README" ∷ codes "longer.DLL" ∷ []

abbrev directory : Loader ℕ
directory = record {
  plugindir = codes "/lib/mq";
  opendir = λ w. (some names, w);
  dlopen = λ path w. (some 1, record w { heap = suc w.heap });
  dlsym = λ handle w. some 2;
  dlclose = λ handle w. w;
  entry = λ address handle w. (pos 0, w);
  unspecified = λ i. 170;
}

abbrev started : World ℕ
started = process roomy [] 0

plugin_init-load_files_example :
    plugin_init directory started ≡ some (load_files directory names 0 started)
plugin_init-load_files_example =
    plugin_init-load_files directory started {names = names} refl
      (refl, (refl, (refl, (refl, (refl, (refl, (refl, tt)))))))
      (
        (refl, tt),
        (
          (refl, (refl, tt)),
          (
            (refl, (refl, (refl, (refl, tt)))),
            (
              (refl, (refl, (refl, (refl, (refl, (refl, tt)))))),
              (
                (refl, (refl, (refl, (refl, (refl, (refl, (refl, (refl, (refl, (refl, tt)))))))))),
                tt,
              ),
            ),
          ),
        ),
      )

-- Which names are taken for plug-ins.
test_plugin : is_plugin (codes "longer.DLL") ≡ true
unfolding is_plugin
test_plugin = refl

test_hidden : is_plugin (codes ".so") ≡ false
unfolding is_plugin
test_hidden = refl

test_loaded : (load_files directory names 0 started).1.heap ≡ 2
unfolding load_files is_plugin load after_alloc
test_loaded = refl
