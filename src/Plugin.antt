-- ===== src/Plugin.antt =====
-- plugin.c: `mq_plugin_init_`, which loads the engines from the files of a directory.
pub mod Buffer
pub mod Bounds
pub mod Loading
pub mod Room
pub mod Refinement
use libmq.Base.{
  ℕ, suc, ◌+◌, ◌-◌, Bool, true, false, ◌&&◌, ◌||◌, List, [], ◌∷◌, ◌++◌, Option, none, some, ◌==◌,
  not, leb, ltb, nonzero, if◌then◌else◌, ℤ, pos, minus_one, length,
}
use libmq.Base.CString.{CString, codes, same, char_at}
use libmq.Libc.{Libc, exhausted, after_alloc, after_realloc, after_free?}
use libmq.Cmd.{Cmd, pure, ◌>>=◌, ◌>>◌}
use libmq.World.{World}
use Buffer.{Bytes, poke, text, strncat, strncpy, garbage}

abbrev enoent : ℕ
enoent = 2

-- `tolower` of the C locale, and `!strcasecmp(a, b)`.
abbrev lower : ℕ → ℕ
lower c = if leb b'A' c && leb c b'Z' then c + 32 else c

abbrev lowered : CString → CString
lowered [] = []
lowered (c ∷ s) = lower c ∷ lowered s

abbrev pub same_case : CString → CString → Bool
same_case s t = same (lowered s) (lowered t)

-- `strrchr(s, '.')`
abbrev pub last_dot : CString → Option CString
last_dot [] = none
last_dot (c ∷ s) = elim (last_dot s) [
  | some t ↦ some t
  | none ↦ if c == b'.' then some (c ∷ s) else none
]

-- The tests on the name of a file.
unfoldable pub is_plugin : CString → Bool
unfolding same
is_plugin name = elim (last_dot name) [
  | none ↦ false
  | some t ↦
      not (char_at name 0 == b'.')
      && (same_case t (codes ".so")
          || (same_case t (codes ".dylib")
              || (same_case t (codes ".bundle") || same_case t (codes ".dll"))))
]

-- The directory, the dynamic linker, and the call of an entry point by its address. A file's
-- names are what `readdir_r` returns up to its end or its first error.
pub record Loader (E : Type 0) : Type 0 where
  pub plugindir : CString
  pub opendir : World E → Option (List CString) × World E
  pub dlopen : CString → World E → Option ℕ × World E
  pub dlsym : ℕ → World E → Option ℕ
  pub dlclose : ℕ → World E → World E
  pub entry : (address : ℕ) → (handle : ℕ) → World E → ℤ × World E
  pub unspecified : ℕ → ℕ

module _ {E : Type 0} (l : Loader E) where
  -- `dlopen`, `dlsym` and the call of the entry point.
  unfoldable pub load : CString → World E → World E
  load path w =
      let (h, w₁) = l.dlopen path w in
      elim h [
        | none ↦ w₁
        | some handle ↦ elim (l.dlsym handle w₁) [
          | none ↦ l.dlclose handle w₁
          | some address ↦
              let (r, w₂) = l.entry address handle w₁ in
              if nonzero r then l.dlclose handle w₂ else w₂
        ]
      ]

  abbrev pub size : Option Bytes → ℕ
  size none = 0
  size (some b) = length b

  abbrev pub needed : CString → ℕ
  needed name = length l.plugindir + length name + 2

  -- What the allocator does for `realloc(buf, namelen)`.
  abbrev pub after_resize : Option Bytes → Libc → Libc
  after_resize none c = after_alloc c
  after_resize (some _) c = after_realloc c

  -- The bytes behind a `realloc` that succeeds. A new buffer gets the directory and a slash.
  unfoldable pub resized : (namelen : ℕ) → Option Bytes → Option Bytes
  resized namelen none = elim (strncpy l.plugindir namelen (garbage l.unspecified namelen)) [
    | none ↦ none
    | some b ↦ poke (length l.plugindir) b'/' b
  ]
  resized namelen (some b) = some (b ++ garbage l.unspecified (namelen - length b))

  -- `buf[baselen + 1] = 0; strncat(buf, de->d_name, namelen);`
  unfoldable pub name_in : CString → Bytes → Option Bytes
  name_in name b = elim (poke (suc (length l.plugindir)) 0 b) [
    | none ↦ none
    | some b₁ ↦ strncat name (needed name) b₁
  ]

  abbrev freed : Option Bytes → World E → World E
  freed buf w = record w { libc = after_free? buf w.libc }

  -- The buffer for a file: none where there is no memory for it.
  unfoldable pub room_for : CString → Option Bytes → Cmd (World E) (Option Bytes)
  room_for name buf w =
      if ltb (size buf) (needed name)
      then (let w₁ = record w { libc = after_resize buf w.libc } in
          if exhausted w.libc
          then some (none, w₁)
          else elim (resized (needed name) buf) [ none ↦ none | some b ↦ some (some b, w₁) ])
      else some (buf, w)

  -- The loop over the names, and what follows it.
  unfoldable pub load_all : List CString → Option Bytes → Cmd (World E) ℤ
  load_all [] buf w = some (pos 0, freed buf w)
  load_all (name ∷ names) buf w = elim (is_plugin name) [
    | false ↦ load_all names buf w
    | true ↦ elim (room_for name buf w) [
      | none ↦ none
      | some (none, w₁) ↦ some (minus_one, freed buf w₁)
      | some (some b, w₁) ↦ elim (name_in name b) [
        | none ↦ none
        | some b' ↦ load_all names (some b') (load (text b') w₁)
      ]
    ]
  ]

  -- `mq_plugin_init_`
  unfoldable pub plugin_init : Cmd (World E) ℤ
  plugin_init w =
      let (d, w₁) = l.opendir w in
      elim d [
        | none ↦ some (if w₁.libc.errno == enoent then pos 0 else minus_one, w₁)
        | some names ↦ load_all names none w₁
      ]
