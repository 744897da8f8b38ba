-- ===== src/Plugin/Refinement.antt =====
-- The loop of plugin.c with its buffer does what the loop without it does.
use libmq.Base.{
  ◌≤◌, ◌≡◌, refl, ◌∙◌, ap, sym, true, false, List, [], ◌∷◌, ◌++◌, Option, none, some, ltb, pos,
  minus_one, arith, length, length-append, Bool-cases, inl, inr,
}
use libmq.Base.CString.{CString}
use libmq.Libc.{exhausted}
use libmq.World.{World}
use libmq.Plugin.{Loader, is_plugin, load, size, needed, room_for, load_all, plugin_init}
use libmq.Plugin.Buffer.{Bytes, text}
use libmq.Plugin.Bounds.{NoNul}
use libmq.Plugin.Loading.{AllNoNul, folder, released, resizing, load_files}
use libmq.Plugin.Room.{
  Begun, length-folder, name_in_lem, free-released, room_for_lem, room_for_full, room_for_same,
}

module _ {E : Type 0} (l : Loader E) where
  -- One file, in a buffer with room for its name, and then the others.
  load_next :
      (name : CString) (names : List CString) (buf : Option Bytes) (w w₁ : World E) (rest : Bytes)
      → NoNul l.plugindir
      → NoNul name
      → ((b : Bytes) (w : World E)
          → Begun l (some b)
          → load_all l names (some b) w ≡ some (load_files l names (length b) w))
      → is_plugin name ≡ true
      → room_for l name buf w ≡ some (some ((folder l) ++ rest), w₁)
      → needed l name ≤ length ((folder l) ++ rest)
      → load_all l (name ∷ names) buf w
        ≡ some (load_files l names (length ((folder l) ++ rest)) (load l ((folder l) ++ name) w₁))
  unfolding load_all
  load_next name names buf w w₁ rest dir plain others it room fits =
      let (b, e, t, begun, k) =
        name_in_lem l name rest dir plain
          (omega (arith, fits, length-append (folder l) rest, length-folder l)) in
      let step : load_all l (name ∷ names) buf w ≡ load_all l names (some b) (load l (text b) w₁) =
        rw (it, room, e, load_all) refl in
      step
      ∙ others b (load l (text b) w₁) begun
      ∙ ap (λ (p : CString). some (load_files l names (length b) (load l p w₁))) t
      ∙ ap (λ n. some (load_files l names n (load l ((folder l) ++ name) w₁))) k

  module _ (name : CString) (names : List CString) (w : World E) (dir : NoNul l.plugindir)
      (plain : NoNul name) (it : is_plugin name ≡ true)
      (others : (b : Bytes) (w : World E)
        → Begun l (some b)
        → load_all l names (some b) w ≡ some (load_files l names (length b) w)) where
    load_same :
        (buf : Option Bytes)
        → Begun l buf
        → ltb (size l buf) (needed l name) ≡ false
        → load_all l (name ∷ names) buf w ≡ some (load_files l (name ∷ names) (size l buf) w)
    unfolding load_files
    load_same none begun large = absurd (ground arith)
    load_same (some b) (rest, e) large =
        let room : room_for l name (some b) w ≡ some (some ((folder l) ++ rest), w) =
          room_for_same l name (some b) w large ∙ ap (λ (x : Bytes). some (some x, w)) e in
        let loaded =
          load_next name names (some b) w w rest dir plain others it room
            (ground (arith, large, ap length e)) in
        let files : load_files l (name ∷ names) (length b) w
            ≡ load_files l names (length b) (load l ((folder l) ++ name) w) =
          rw (it, large, load_files) refl in
        loaded
        ∙ ap (λ (x : Bytes). some (load_files l names (length x) (load l ((folder l) ++ name) w)))
            (sym e)
        ∙ ap some (sym files)

    load_grown :
        (buf : Option Bytes)
        → Begun l buf
        → exhausted w.libc ≡ false
        → ltb (size l buf) (needed l name) ≡ true
        → load_all l (name ∷ names) buf w ≡ some (load_files l (name ∷ names) (size l buf) w)
    unfolding load_files
    load_grown buf begun room small =
        let w₁ = record w { libc = resizing l (size l buf) w.libc } in
        let (rest, e, k) = room_for_lem l name buf w begun room small in
        let loaded = load_next name names buf w w₁ rest dir plain others it e (omega (arith, k)) in
        let files : load_files l (name ∷ names) (size l buf) w
            ≡ load_files l names (needed l name) (load l ((folder l) ++ name) w₁) =
          rw (it, small, room, load_files) refl in
        loaded
        ∙ ap (λ n. some (load_files l names n (load l ((folder l) ++ name) w₁))) k
        ∙ ap some (sym files)

    load_full :
        (buf : Option Bytes)
        → Begun l buf
        → exhausted w.libc ≡ true
        → ltb (size l buf) (needed l name) ≡ true
        → load_all l (name ∷ names) buf w ≡ some (load_files l (name ∷ names) (size l buf) w)
    unfolding load_all load_files
    load_full buf begun full small =
        let w₁ = record w { libc = resizing l (size l buf) w.libc } in
        let files : load_files l (name ∷ names) (size l buf) w
            ≡ (minus_one, released l (size l buf) w₁) =
          rw (it, small, full, load_files) refl in
        rw (it, room_for_full l name buf w begun full small, load_all)
          (ap (λ (v : World E). some (minus_one, v)) (free-released l buf w₁ begun)
            ∙ ap some (sym files))

  -- The loop with its buffer and the loop without it agree.
  pub load_all-load_files :
      (names : List CString) (buf : Option Bytes) (w : World E)
      → NoNul l.plugindir
      → AllNoNul names
      → Begun l buf
      → load_all l names buf w ≡ some (load_files l names (size l buf) w)
  unfolding load_all load_files
  load_all-load_files [] buf w dir plain begun =
      ap (λ (v : World E). some (pos 0, v)) (free-released l buf w begun)
  load_all-load_files (name ∷ names) buf w dir plain begun =
      let others = λ (b : Bytes) (v : World E) (g : Begun l (some b)).
        load_all-load_files names (some b) v dir plain.1 g in
      elim (Bool-cases (is_plugin name)) [
        | inr other ↦
            rw (other, load_all, load_files) (load_all-load_files names buf w dir plain.1 begun)
        | inl it ↦ elim (Bool-cases (ltb (size l buf) (needed l name))) [
          | inr large ↦ load_same name names w dir plain.0 it others buf begun large
          | inl small ↦ elim (Bool-cases (exhausted w.libc)) [
            | inl full ↦ load_full name names w dir plain.0 it others buf begun full small
            | inr room ↦ load_grown name names w dir plain.0 it others buf begun room small
          ]
        ]
      ]

  -- If the directory of plug-ins can be opened, and neither its path nor the names in it hold a
  -- NUL, then mq_plugin_init_ never writes outside its path buffer, whatever the allocator answers,
  -- and does what `load_files` does without a buffer: it loads each file whose name passes the
  -- tests, in order, by the path that joins the directory, a slash and the name, and stops with -1,
  -- its buffer freed, at the first file for which the buffer cannot be enlarged.
  pub plugin_init-load_files :
      (w : World E) {names : List CString}
      → (l.opendir w).0 ≡ some names
      → NoNul l.plugindir
      → AllNoNul names
      → plugin_init l w ≡ some (load_files l names 0 (l.opendir w).1)
  unfolding plugin_init
  plugin_init-load_files w {names} opened dir plain =
      rw (opened, plugin_init) (load_all-load_files names none (l.opendir w).1 dir plain tt)
