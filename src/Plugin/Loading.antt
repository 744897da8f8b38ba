-- ===== src/Plugin/Loading.antt =====
-- `mq_plugin_init_` without its buffer: which files it loads, in which order, and when it stops.
-- The size of the buffer is kept, since it decides what the allocator is asked.
use libmq.Base.{ℕ, true, false, List, [], ◌∷◌, ◌++◌, ◌==◌, ltb, if◌then◌else◌, ℤ, pos, minus_one}
use libmq.Base.CString.{CString}
use libmq.Libc.{Libc, exhausted, after_alloc, after_realloc, after_free}
use libmq.World.{World}
use libmq.Plugin.{Loader, is_plugin, load, size, needed}
use libmq.Plugin.Bounds.{NoNul}

abbrev pub AllNoNul : List CString → Type 0
AllNoNul [] = Unit {0}
AllNoNul (s ∷ ss) = NoNul s × AllNoNul ss

module _ {E : Type 0} (l : Loader E) where
  abbrev pub folder : CString
  folder = l.plugindir ++ b'/' ∷ []

  -- The buffer is a block if its size is not 0.
  abbrev pub released : (size : ℕ) → World E → World E
  released size w = if size == 0 then w else record w { libc = after_free w.libc }

  abbrev pub resizing : (size : ℕ) → Libc → Libc
  resizing size c = if size == 0 then after_alloc c else after_realloc c

  -- What `mq_plugin_init_` promises.
  unfoldable pub load_files : List CString → (size : ℕ) → World E → ℤ × World E
  load_files [] size w = (pos 0, released size w)
  load_files (name ∷ names) size w = elim (is_plugin name) [
    | false ↦ load_files names size w
    | true ↦ elim (ltb size (needed l name)) [
      | false ↦ load_files names size (load l (folder ++ name) w)
      | true ↦ elim (exhausted w.libc) [
        | true ↦ (minus_one, released size (record w { libc = resizing size w.libc }))
        | false ↦
            load_files names (needed l name)
              (load l (folder ++ name) (record w { libc = resizing size w.libc }))
      ]
    ]
  ]
