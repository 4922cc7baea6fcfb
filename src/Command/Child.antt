-- ===== src/Command/Child.antt =====
-- The child of src/core/command_runner.cpp, from the fork to `execvp`. Its environment is three
-- assignments before the command is looked up.
pub mod Environment
use fedora_firewall_control.Common.{
  ℕ, Bool, Option, none, some, List, [], ◌∷◌, ◌++◌, if◌then◌else◌, ◌>>=◌, take, drop, not,
}
use fedora_firewall_control.Text.{Text, lit}
use fedora_firewall_control.Dict.{assign}
use fedora_firewall_control.Command.Communicate.{WriteResult, room, write_interrupted}

-- What reaches standard error, and the answers left; `none` where they run out. An interrupted
-- write is tried again, and any other failure gives up.
unfoldable pub write_child_diagnostic : Text → List WriteResult → Option (Text × List WriteResult)
write_child_diagnostic [] ws = some ([], ws)
write_child_diagnostic (b ∷ bs) [] = none
write_child_diagnostic (b ∷ bs) (write_interrupted ∷ ws) = write_child_diagnostic (b ∷ bs) ws
write_child_diagnostic (b ∷ bs) (room n ∷ ws) = elim (write_child_diagnostic (drop n bs) ws) [
  | none ↦ none
  | some (t, left) ↦ some ((b ∷ take n bs) ++ t, left)
]
write_child_diagnostic (b ∷ bs) (w ∷ ws) = some ([], ws)

-- The parts of the message, one after the other, each given up by itself.
unfoldable pub write_parts : List Text → List WriteResult → Option Text
unfolding write_child_diagnostic
write_parts [] ws = some []
write_parts (part ∷ parts) ws = do
  (t, left) ← write_child_diagnostic part ws
  more ← write_parts parts left
  some (t ++ more)

unfoldable pub write_child_error : Text → Text → Text → List WriteResult → Option Text
unfolding write_parts
write_child_error command context detail ws =
    write_parts (context ∷ lit " '" ∷ command ∷ lit "': " ∷ detail ∷ lit "\n" ∷ []) ws

-- The child ends with a status and the text of its standard error, or it becomes the program with
-- the arguments and the environment.
pub data Child : Type 0 where
  exits : ℕ → Text → Child
  becomes : List Text → List (Text × Text) → Child

-- The answers to the child: whether the three `dup2` succeed, and the errors of the two calls.
pub record ChildSystem : Type 0 where
  pub duplicated : Bool
  pub group_error : Option Text
  pub exec_error : Option Text
  pub writes : List WriteResult

unfoldable pub child_environment : List (Text × Text) → List (Text × Text)
unfolding assign
child_environment inherited = assign (lit "LANG") (lit "C") (
    assign (lit "LC_ALL") (lit "C")
      (assign (lit "PATH") (lit "/usr/sbin:/usr/bin:/sbin:/bin") inherited))

abbrev exits_with : Option Text → Option Child
exits_with none = none
exits_with (some message) = some (exits 127 message)

-- `command` is the first of the arguments.
unfoldable pub child : Text → List Text → List (Text × Text) → ChildSystem → Option Child
unfolding write_child_error child_environment
child command more inherited sys =
    if not sys.duplicated then some (exits 127 []) else elim sys.group_error [
      | some why ↦
          exits_with
            (write_child_error command (lit "could not isolate command process") why sys.writes)
      | none ↦ elim sys.exec_error [
        | some why ↦
            exits_with (write_child_error command (lit "could not execute command") why sys.writes)
        | none ↦ some (becomes (command ∷ more) (child_environment inherited))
      ]
    ]
