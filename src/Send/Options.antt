-- ===== src/Send/Options.antt =====
-- The options of mq-send.c.
use libmq.Base.{
  ℕ, ◌≡◌, refl, inl, inr, ◌||◌, List, [], ◌∷◌, Option, none, some, ◌==◌, if◌then◌else◌, pos, arith,
  Option-cases,
}
use libmq.Base.CString.{CString}
use libmq.World.{World}
use libmq.Engine.{Mq}
use libmq.Registry.{Build}
use libmq.Send.{Opt, Parsed, usage, options, parse, session, main}

-- The first option other than -t and -s.
unfoldable pub first_other : List Opt → Option ℕ
first_other [] = none
first_other (o ∷ opts) = if o.c == b't' || o.c == b's' then first_other opts else some o.c

-- The last option c.
unfoldable pub last_option : (c : ℕ) → List Opt → Option Opt
last_option c [] = none
last_option c (o ∷ opts) = elim (last_option c opts) [
  | some p ↦ some p
  | none ↦ if o.c == c then some o else none
]

-- The argument of an option, or a text that stands for it.
abbrev argument : Option Opt → Option CString → Option CString
argument none s = s
argument (some o) s = o.optarg

-- What the options ask for, with a type and a subject to begin with.
abbrev pub asked : List Opt → (type subj : Option CString) → Parsed
asked opts type subj = elim (first_other opts) [
  | none ↦ options (argument (last_option b't' opts) type) (argument (last_option b's' opts) subj)
  | some c ↦ usage (if c == b'h' then pos 0 else pos 1)
]

-- The loop of mq-send over its options ends with the usage if there is an option other than -t and
-- -s, and then with the status 0 if the first of these is -h and 1 if not; else with the argument
-- of the last -t as the type and that of the last -s as the subject, or with what they were before
-- the loop.
pub parse-asked :
    (opts : List Opt) (type subj : Option CString) → parse opts type subj ≡ asked opts type subj
unfolding parse first_other last_option
parse-asked [] type subj = refl
parse-asked (o ∷ opts) type subj =
    let t = parse-asked opts o.optarg subj in
    let s = parse-asked opts type o.optarg in
    elim (Option-cases (last_option b't' opts)) [
      | inl no_t ↦ elim (Option-cases (last_option b's' opts)) [
        | inl no_s ↦ ground (arith, t, s)
        | inr (p, has_s) ↦ ground (arith, t, s)
      ]
      | inr (p, has_t) ↦ elim (Option-cases (last_option b's' opts)) [
        | inl no_s ↦ ground (arith, t, s)
        | inr (q, has_s) ↦ ground (arith, t, s)
      ]
    ]

-- With options and a URI, the program is the session with that URI.
pub main-session :
    {E : Type 0} (b : Build E (Mq (World E))) (opts : List Opt) (uri : CString)
    (args chunks : List CString) (w : World E) {type subj : Option CString}
    → parse opts none none ≡ options type subj
    → main b opts (uri ∷ args) chunks w ≡ session b uri type subj chunks w
unfolding main
main-session b opts uri args chunks w parsed = rw (parsed, main)
