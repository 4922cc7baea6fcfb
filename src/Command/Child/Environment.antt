-- ===== src/Command/Child/Environment.antt =====
-- How the child of src/core/command_runner.cpp ends, and the environment of the program.
use fedora_firewall_control.Command.Child.{
  write_child_error, child_environment, child, Child, ChildSystem, exits_with, exits, becomes,
}
use fedora_firewall_control.Common.{
  ◌≡◌, inl, inr, true, ◌||◌, Option, none, some, List, [], ◌∷◌, arith, if◌then◌else◌, Bool-cases,
  Option-cases,
}
use fedora_firewall_control.Dict.{lookup, assign}
use fedora_firewall_control.Dict.Laws.{lookup-assign}
use fedora_firewall_control.Text.{Text, lit, text_eq}

-- The environment as it should be: three fixed variables, and the rest inherited.
abbrev pub IsPinned : List (Text × Text) → List (Text × Text) → Type 0
IsPinned inherited environment =
    (k : Text)
    → lookup k environment ≡ (
        if text_eq (lit "LANG") k || text_eq (lit "LC_ALL") k
        then some (lit "C")
        else if text_eq (lit "PATH") k
        then some (lit "/usr/sbin:/usr/bin:/sbin:/bin")
        else lookup k inherited)

child_environment-IsPinned :
    (inherited : List (Text × Text)) → IsPinned inherited (child_environment inherited)
unfolding child_environment
child_environment-IsPinned inherited k =
    let path = assign (lit "PATH") (lit "/usr/sbin:/usr/bin:/sbin:/bin") inherited in
    let all = assign (lit "LC_ALL") (lit "C") path in
    ground (
      arith,
      lookup-assign (lit "LANG") k (lit "C") all,
      lookup-assign (lit "LC_ALL") k (lit "C") path,
      lookup-assign (lit "PATH") k (lit "/usr/sbin:/usr/bin:/sbin:/bin") inherited,
    )

-- How a child may end.
pub data Ends (command : Text) (more : List Text) (inherited : List (Text × Text))
    (sys : ChildSystem) (e : Child) : Type 0 where
  early : (message : Text) → e ≡ exits 127 message → Ends command more inherited sys e
  started :
      (environment : List (Text × Text))
      → sys.duplicated ≡ true
      → sys.group_error ≡ none
      → sys.exec_error ≡ none
      → e ≡ becomes (command ∷ more) environment
      → IsPinned inherited environment
      → Ends command more inherited sys e

module _ (command : Text) (more : List Text) (inherited : List (Text × Text)) (sys : ChildSystem)
    (e : Child) where
  exits_with-Ends : (o : Option Text) → exits_with o ≡ some e → Ends command more inherited sys e
  exits_with-Ends none h = ground arith
  exits_with-Ends (some t) h = early t (ground arith)

  -- A child that ends before it is the program ends with 127. One that becomes the program has all
  -- three `dup2`, the process group and `execvp` behind it, runs the arguments as they were given,
  -- and has PATH, LC_ALL and LANG pinned and every other variable as inherited.
  pub child-Ends : child command more inherited sys ≡ some e → Ends command more inherited sys e
  unfolding child
  child-Ends h = elim (Bool-cases sys.duplicated) [
    | inr shut ↦ early [] (ground arith)
    | inl duplicated ↦ elim (Option-cases sys.group_error) [
      | inr (why, refused) ↦
          exits_with-Ends
            (write_child_error command (lit "could not isolate command process") why sys.writes)
            (ground (arith, refused))
      | inl grouped ↦ elim (Option-cases sys.exec_error) [
        | inr (why, refused) ↦
            exits_with-Ends
              (write_child_error command (lit "could not execute command") why sys.writes)
              (ground (arith, refused))
        | inl executed ↦
            started (child_environment inherited) duplicated grouped executed
              (ground (arith, grouped, executed)) (child_environment-IsPinned inherited)
      ]
    ]
  ]
