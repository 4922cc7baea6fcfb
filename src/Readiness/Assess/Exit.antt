-- ===== src/Readiness/Assess/Exit.antt =====
-- What the exit code of `ffc --readiness` says of the checks.
use fedora_firewall_control.Common.{
  ◌≡◌, ◌≢◌, Bool, true, false, ◌||◌, List, [], ◌∷◌, arith, if◌then◌else◌, any, All, ◌≤◌,
}
use fedora_firewall_control.Readiness.{ReadinessCheck, warn, fail}
use fedora_firewall_control.Readiness.Assess.{exit_code_of}

-- Neither a warning nor a failure.
abbrev pub IsClean : ReadinessCheck → Type 0
IsClean c = (c.level ≢ warn) × (c.level ≢ fail)

pub exit_code_of-zero :
    (w : Bool) (cs : List ReadinessCheck) → exit_code_of w cs ≡ 0 → (w ≡ false) × All IsClean cs
unfolding exit_code_of
exit_code_of-zero w [] h = ground arith
exit_code_of-zero w (c ∷ cs) h = ground (arith, exit_code_of-zero w cs, exit_code_of-zero true cs)

-- The three codes, by whether some check failed and whether some check warned.
abbrev is_fail : ReadinessCheck → Bool
is_fail c = elim c.level [ fail ↦ true | _ ↦ false ]

abbrev is_warn : ReadinessCheck → Bool
is_warn c = elim c.level [ warn ↦ true | _ ↦ false ]

pub exit_code_of_lem :
    (w : Bool) (cs : List ReadinessCheck)
    → exit_code_of w cs ≡ (if any is_fail cs then 2 else if w || any is_warn cs then 1 else 0)
unfolding exit_code_of
exit_code_of_lem w [] = ground arith
exit_code_of_lem w (c ∷ cs) = ground (arith, exit_code_of_lem w cs, exit_code_of_lem true cs)

pub exit_code_of-bounds :
    (w : Bool) (cs : List ReadinessCheck)
    → (exit_code_of w cs ≤ 2) × (exit_code_of w cs ≤ exit_code_of true cs)
unfolding exit_code_of
exit_code_of-bounds w [] = ground arith
exit_code_of-bounds w (c ∷ cs) =
    ground (arith, exit_code_of-bounds w cs, exit_code_of-bounds true cs)
