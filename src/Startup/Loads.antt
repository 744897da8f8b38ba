-- ===== src/Startup/Loads.antt =====
-- A directory with one engine in it, and the initialisation that loads it.
use libmq.Base.{
  ℕ, ◌≡◌, refl, ◌∙◌, ap, true, false, List, [], ◌∷◌, ◌++◌, Option, some, ◌==◌, ltb, arith, pos,
  minus_one, ℤ, nonzero, if◌then◌else◌, Bool-cases, inl, inr,
}
use libmq.Base.CString.{CString}
use libmq.Libc.{exhausted, after_alloc, after_free}
use libmq.World.{World}
use libmq.Registry.{register}
use libmq.Registry.Table.{table, bind}
use libmq.Plugin.{Loader, is_plugin, load, needed, plugin_init}
use libmq.Plugin.Bounds.{NoNul}
use libmq.Plugin.Loading.{AllNoNul, folder, released, load_files}
use libmq.Plugin.Refinement.{plugin_init-load_files}
use libmq.Startup.Tables.{Ready, register-Registered}

abbrev pub NoPlugins : List CString → Type 0
NoPlugins [] = Unit {0}
NoPlugins (s ∷ ss) = (is_plugin s ≡ false) × NoPlugins ss

-- The directory holds one plug-in, which can be loaded. `enter` is the function `mq_entry` of the
-- plug-in, which is given the handle.
pub record Installed {E : Type 0} (l : Loader E) (enter : ℕ → World E → ℤ × World E) (handle : ℕ)
    : Type 0 where
  pub before : List CString
  pub name : CString
  pub after : List CString
  pub listed : (w : World E) → l.opendir w ≡ (some (before ++ name ∷ after), w)
  pub plain : AllNoNul (before ++ name ∷ after)
  pub dir : NoNul l.plugindir
  pub plugin : is_plugin name ≡ true
  pub first : NoPlugins before
  pub last : NoPlugins after
  pub opens : (w : World E) → l.dlopen (folder l ++ name) w ≡ (some handle, w)
  pub address : ℕ
  pub symbol : (w : World E) → l.dlsym handle w ≡ some address
  pub enters : (w : World E) → l.entry address handle w ≡ enter handle w

-- An entry point that registers a constructor by a scheme, and reports whether it could.
abbrev pub Registers :
    {E : Type 0} → (ℕ → World E → ℤ × World E) → CString → (construct handle : ℕ) → Type 0
Registers {E} enter scheme construct handle =
    (w : World E)
    → enter handle w ≡ (
        let (r, w') = register scheme construct handle w in
        (if nonzero r then minus_one else pos 0, w'))

module _ {E : Type 0} (l : Loader E) where
  load_files_skip :
      (names rest : List CString) (size : ℕ) (w : World E)
      → NoPlugins names
      → load_files l (names ++ rest) size w ≡ load_files l rest size w
  unfolding load_files
  load_files_skip [] rest size w h = refl
  load_files_skip (name ∷ names) rest size w h =
      rw (h.0, load_files) (load_files_skip names rest size w h.1)

  load_files_none :
      (names : List CString) (size : ℕ) (w : World E)
      → NoPlugins names
      → load_files l names size w ≡ (pos 0, released l size w)
  unfolding load_files
  load_files_none [] size w h = refl
  load_files_none (name ∷ names) size w h = rw (h.0, load_files) (load_files_none names size w h.1)

  load_files_one :
      (name : CString) (names : List CString) (w : World E)
      → is_plugin name ≡ true
      → exhausted w.libc ≡ false
      → NoPlugins names
      → load_files l (name ∷ names) 0 w ≡ (
        pos 0,
        released l
            (needed l name)
            (load l (folder l ++ name) (record w { libc = after_alloc w.libc })),
      )
  unfolding load_files
  load_files_one name names w it room none_left =
      let small : ltb 0 (needed l name) ≡ true = ground arith in
      rw (it, small, room, load_files) (load_files_none names (needed l name) _ none_left)

  -- A buffer that is freed, or was never made, is nothing to the table of engines.
  released-Ready : (n size : ℕ) (w : World E) → Ready n w → Ready n (released l size w)
  unfolding after_free
  released-Ready n size w v = elim (Bool-cases (size == 0)) [
    | inl none_made ↦ rw none_made v
    | inr made ↦ rw made (record {
      inv = record { unlocked = v.inv.unlocked; distinct = v.inv.distinct };
      room = v.room;
      small = v.small;
    })
  ]

  released_others :
      (size : ℕ) (w : World E)
      → (table (released l size w) ≡ table w) × ((released l size w).heap ≡ w.heap)
  released_others size w = elim (Bool-cases (size == 0)) [
    | inl none_made ↦ rw none_made (refl, refl)
    | inr made ↦ rw made (refl, refl)
  ]

  module _ (scheme : CString) (construct handle : ℕ) {enter : ℕ → World E → ℤ × World E}
      (i : Installed l enter handle) (registers : Registers enter scheme construct handle) where
    load_lem :
        (w : World E)
        → (register scheme construct handle w).0 ≡ pos 0
        → load l (folder l ++ i.name) w ≡ (register scheme construct handle w).1
    unfolding load
    load_lem w result = ground (arith, i.opens w, i.symbol w, i.enters w, registers w, result)

    -- `mq_plugin_init_` registers the engine.
    pub record Loaded (w w' : World E) : Type 0 where
      pub run : plugin_init l w ≡ some (pos 0, w')
      pub ready : Ready 0 w'
      pub entry : table w' ≡ bind scheme construct handle (table w)
      pub heap : w'.heap ≡ w.heap

    pub plugin_init-Loaded : (w : World E) → Ready 1 w → (w' : World E) × Loaded w w'
    unfolding after_alloc
    plugin_init-Loaded w v =
        let w₁ : World E = record w { libc = after_alloc w.libc } in
        let v₁ : Ready 1 w₁ = record {
          inv = record { unlocked = v.inv.unlocked; distinct = v.inv.distinct };
          room = λ n. ground (arith, v.room n, v.room w.libc.requests);
          small = v.small;
        } in
        let r = register-Registered 0 scheme construct handle w₁ v₁ in
        let w₂ = (register scheme construct handle w₁).1 in
        let size = needed l i.name in
        let names = i.before ++ i.name ∷ i.after in
        (
          released l size w₂,
          record {
            run =
                plugin_init-load_files l w
                  (ap (λ (x : Option (List CString) × World E). x.0) (i.listed w)) i.dir i.plain
                ∙ ap (λ (x : Option (List CString) × World E). some (load_files l names 0 x.1))
                    (i.listed w)
                ∙ ap some (
                    load_files_skip i.before (i.name ∷ i.after) 0 w i.first
                    ∙ load_files_one i.name i.after w i.plugin (v.room w.libc.requests) i.last
                    ∙ ap (λ (x : World E). (pos 0, released l size x)) (load_lem w₁ r.result));
            ready = released-Ready 0 size w₂ r.ready;
            entry = (released_others size w₂).0 ∙ r.entry;
            heap = (released_others size w₂).1 ∙ r.heap;
          },
        )
