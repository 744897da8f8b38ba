-- ===== src/Plugin/Room.antt =====
-- The buffer of plugin.c has room for each path that is written to it.
use libmq.Base.{
  ℕ, suc, ◌+◌, ◌-◌, ◌≤◌, ◌≡◌, refl, ◌∙◌, ap, sym, true, false, [], ◌∷◌, ◌++◌, Option, none, some,
  ◌==◌, ltb, arith, length, length-append, append_assoc,
}
use libmq.Base.CString.{CString}
use libmq.Libc.{exhausted, after_free?}
use libmq.World.{World}
use libmq.Plugin.{Loader, size, needed, resized, name_in, room_for}
use libmq.Plugin.Buffer.{Bytes, poke, text, strncpy, garbage}
use libmq.Plugin.Bounds.{
  NoNul, NoNul-append, poke_end, text_end, strncat_fits, strncpy_fits, length-garbage,
}
use libmq.Plugin.Loading.{folder, released, resizing}

module _ {E : Type 0} (l : Loader E) where
  -- A buffer that was made begins with the directory and a slash.
  abbrev pub Begun : Option Bytes → Type 0
  Begun none = Unit {0}
  Begun (some b) = (rest : Bytes) × (b ≡ (folder l) ++ rest)

  pub length-folder : length (folder l) ≡ suc (length l.plugindir)
  length-folder = omega (arith, length-append l.plugindir (b'/' ∷ []))

  resized_new :
      (n : ℕ) (z : Bytes)
      → strncpy l.plugindir n (garbage l.unspecified n) ≡ some (l.plugindir ++ z)
      → length l.plugindir + length z ≡ n
      → suc (length l.plugindir) ≤ n
      → (rest : Bytes) × (resized l n none ≡ some ((folder l) ++ rest))
        × (length ((folder l) ++ rest) ≡ n)
  unfolding resized
  resized_new n [] e k fits = absurd (omega arith)
  resized_new n (b ∷ rest) e k fits = (
    rest,
    rw (e, resized)
        (poke_end l.plugindir b'/' b rest
          ∙ ap some (sym (append_assoc l.plugindir (b'/' ∷ []) rest))),
    omega (arith, length-append (folder l) rest, length-folder),
  )

  resized_lem :
      (n : ℕ) (buf : Option Bytes)
      → Begun buf
      → size l buf ≤ n
      → suc (length l.plugindir) ≤ n
      → (rest : Bytes) × (resized l n buf ≡ some ((folder l) ++ rest))
        × (length ((folder l) ++ rest) ≡ n)
  unfolding resized
  resized_lem n none begun grows fits =
      let (z, e, k) =
        strncpy_fits l.plugindir n (garbage l.unspecified n) (length-garbage l.unspecified n)
          (omega arith) in
      resized_new n z e k fits
  resized_lem n (some b) (rest, e) grows fits =
      let g = garbage l.unspecified (n - length b) in
      (
        rest ++ g,
        ap (λ (x : Bytes). some (x ++ g)) e ∙ ap some (append_assoc (folder l) rest g),
        omega (
          arith,
          length-append (folder l) (rest ++ g),
          length-append rest g,
          length-append (folder l) rest,
          ap length e,
          length-garbage l.unspecified (n - length b),
        ),
      )

  folder-NoNul : NoNul l.plugindir → NoNul (folder l)
  folder-NoNul h = NoNul-append l.plugindir (b'/' ∷ []) h (refl, tt)

  cut :
      (r : ℕ) (rest : Bytes)
      → poke (suc (length l.plugindir)) 0 ((folder l) ++ r ∷ rest) ≡ some ((folder l) ++ 0 ∷ rest)
  cut r rest = rw (sym length-folder) (poke_end (folder l) 0 r rest)

  pub name_in_lem :
      (name : CString) (rest : Bytes)
      → NoNul l.plugindir
      → NoNul name
      → suc (length name) ≤ length rest
      → (b : Bytes) × (name_in l name ((folder l) ++ rest) ≡ some b)
        × (text b ≡ (folder l) ++ name)
        × Begun (some b)
        × (length b ≡ length ((folder l) ++ rest))
  unfolding name_in
  name_in_lem name [] dir plain fits = absurd (omega arith)
  name_in_lem name (r ∷ rest) dir plain fits =
      let (end, e, k) =
        strncat_fits (folder l) name (needed l name) rest (folder-NoNul dir) (omega arith)
          (omega arith) in
      (
        (folder l) ++ (name ++ 0 ∷ end),
        rw (cut r rest, name_in) e,
        rw (sym (append_assoc (folder l) name (0 ∷ end))) (
            text_end ((folder l) ++ name) end
              (NoNul-append (folder l) name (folder-NoNul dir) plain)),
        (name ++ 0 ∷ end, refl),
        omega (
          arith,
          length-append (folder l) (name ++ 0 ∷ end),
          length-append name (0 ∷ end),
          length-append (folder l) (r ∷ rest),
        ),
      )

  Begun-size : (b : Bytes) → Begun (some b) → (length b == 0) ≡ false
  Begun-size b (rest, e) = ground (arith, length-append (folder l) rest, length-folder, ap length e)

  pub free-released :
      (buf : Option Bytes) (w : World E)
      → Begun buf
      → record w { libc = after_free? buf w.libc } ≡ released l (size l buf) w
  unfolding after_free?
  free-released none w begun = refl
  free-released (some b) w begun = rw (Begun-size b begun)

  pub room_for_lem :
      (name : CString) (buf : Option Bytes) (w : World E)
      → Begun buf
      → exhausted w.libc ≡ false
      → ltb (size l buf) (needed l name) ≡ true
      → (rest : Bytes) × (room_for l name buf w
          ≡ some (some ((folder l) ++ rest), record w { libc = resizing l (size l buf) w.libc }))
        × (length ((folder l) ++ rest) ≡ needed l name)
  unfolding room_for
  room_for_lem name none w begun room small =
      let (rest, e, k) = resized_lem (needed l name) none begun (omega arith) (omega arith) in
      (rest, rw (small, room, e, room_for) refl, k)
  room_for_lem name (some b) w begun room small =
      let (rest, e, k) =
        resized_lem (needed l name) (some b) begun (ground (arith, small)) (omega arith) in
      (rest, rw (small, room, e, Begun-size b begun, room_for) refl, k)

  pub room_for_full :
      (name : CString) (buf : Option Bytes) (w : World E)
      → Begun buf
      → exhausted w.libc ≡ true
      → ltb (size l buf) (needed l name) ≡ true
      → room_for l name buf w ≡ some (none, record w { libc = resizing l (size l buf) w.libc })
  unfolding room_for
  room_for_full name none w begun full small = rw (small, full, room_for) refl
  room_for_full name (some b) w begun full small =
      rw (small, full, Begun-size b begun, room_for) refl

  pub room_for_same :
      (name : CString) (buf : Option Bytes) (w : World E)
      → ltb (size l buf) (needed l name) ≡ false
      → room_for l name buf w ≡ some (buf, w)
  unfolding room_for
  room_for_same name buf w large = rw (large, room_for) refl
