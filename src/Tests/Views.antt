-- ===== src/Tests/Views.antt =====
-- The diagnostics, the credentials, the log summary and the terminal text at concrete inputs.
use fedora_firewall_control.Network.Mtr.Sound.{IsHop}
use fedora_firewall_control.Storage.{regular}
use fedora_firewall_control.Logging.Summary
use fedora_firewall_control.Network.Diagnostics.{inspect, has_unavailable_tools, is_missing}
use fedora_firewall_control.Credentials.{load, save, Saved}
use fedora_firewall_control.Command.{CommandRunner, pos, negsuc}
use fedora_firewall_control.Common.{
  ℕ, ◌+◌, ◌≤◌, ◌≡◌, refl, true, false, none, some, [], ◌∷◌, arith, ltb, ◌==◌, if◌then◌else◌, length,
  any, All,
}
use fedora_firewall_control.Credentials.RoundTrip.{file_of, load-save}
use fedora_firewall_control.Logging.{LogChannel, operations}
use fedora_firewall_control.Logging.Summary.{LogAnalysis, ChannelLog, pathless, found}
use fedora_firewall_control.Logging.Summary.Counts.{inspect-IsShown, IsShown}
use fedora_firewall_control.Network.Address.{AddressParser}
use fedora_firewall_control.Network.Diagnostics.Tools.{commands, has_unavailable_tools-inspect}
use fedora_firewall_control.Network.Mtr.{parse_mtr_hops, Floats}
use fedora_firewall_control.Network.Mtr.Sound.{parse_mtr_hops-All}
use fedora_firewall_control.Storage.Reading.{read_private_file}
use fedora_firewall_control.Storage.Writing.{WriteSystem, taken}
use fedora_firewall_control.Terminal.Displayable.{IsDisplayable}
use fedora_firewall_control.Terminal.Styles.{
  styled, styled-IsDisplayable, TerminalUi, industrial, muted,
}
use fedora_firewall_control.Text.{Text, lit, text_eq}

-- `strtod` on the texts that occur here, in tenths.
abbrev tenths : Floats ℕ
tenths = record {
  strtod = λ t.
      if text_eq t (lit "100.0")
      then (1000, 5)
      else if text_eq t (lit "0.5%")
      then (5, 3)
      else (0, 0);
  is_finite = λ d. true;
  is_below_zero = λ d. false;
  is_above_hundred = λ d. ltb 1000 d;
  is_hundred = λ d. d == 1000;
}

abbrev loopback_only : AddressParser
loopback_only = record {
  parse_v4 = λ t. if text_eq t (lit "127.0.0.1") then some 2130706433 else none;
  parse_v6 = λ t. none;
  print_v4 = λ bytes. none;
}

abbrev mtr_report : Text
mtr_report = lit "HOST: here\n 1.|-- 127.0.0.1 0.5% 5\n 2.|-- ??? 100.0 5\n 3.|-- ??? 0.5% 5\n"

two_hops :
    length (
      parse_mtr_hops tenths loopback_only
        (lit "1. 127.0.0.1 0.5% 5\n2. ??? 100.0 5\n3. ??? 0.5% 5\n"))
    ≡ 2
unfolding parse_mtr_hops lit
two_hops = refl

parse_mtr_hops-All_example :
    All (IsHop tenths loopback_only) (parse_mtr_hops tenths loopback_only mtr_report)
parse_mtr_hops-All_example = parse_mtr_hops-All tenths loopback_only mtr_report

-- Only ping is installed.
abbrev ping_only : CommandRunner
ping_only arguments = record {
  exit_code = elim arguments [
    | [] ↦ negsuc 0
    | tool ∷ _ ↦ if text_eq tool (lit "ping") then pos 0 else pos 127
  ];
  stdout_text = [];
  stderr_text = [];
}

has_unavailable_tools-inspect_example :
    has_unavailable_tools (inspect tenths loopback_only ping_only false false)
    ≡ any (λ command. is_missing (ping_only command)) (commands false false)
has_unavailable_tools-inspect_example =
    has_unavailable_tools-inspect tenths loopback_only ping_only false false

traceroute_missing :
    has_unavailable_tools (inspect tenths loopback_only ping_only false false) ≡ true
unfolding has_unavailable_tools inspect lit text_eq
traceroute_missing = refl

abbrev one_write : WriteSystem
one_write = record {
  open_error = none;
  stat_error = none;
  fchmod_error = none;
  truncate_error = none;
  seek_error = none;
  writes = taken 99 ∷ [];
  fsync_error = none;
  close_error = none;
}

abbrev saved : Saved
saved = record {
  succeeded = true;
  result = lit "/k";
  file =
      some (record {
        status = record { kind = regular; owned = true; links = 1 };
        text = lit "key-1";
      });
}

saves : save (lit "key-1") (lit "/k", []) one_write none ≡ some saved
unfolding save lit
saves = refl

load-save_example : load none (lit "/k") (read_private_file 1000 (file_of saved.file)) ≡ lit "key-1"
load-save_example =
    load-save (lit "key-1") (lit "/k") [] one_write none 1000 saved none saves refl (omega arith)

abbrev one_log : LogChannel → ChannelLog
one_log operations = found (record {
  succeeded = true;
  text =
      lit
        "2025-01-01T00:00:00Z\tERROR\toperations\tinspect\tx\nbroken\n2025-01-01T00:00:01Z\tERROR\toperations\tinspect\ty\n";
  error = [];
})
one_log _ = pathless

summary : LogAnalysis
unfolding lit
summary = record {
  logs_available = true;
  entries = 2;
  warnings = 0;
  errors = 2;
  most_recent_utc = lit "2025-01-01T00:00:01Z";
  frequent_events = record { channel = operations; event = lit "inspect"; count = 2 } ∷ [];
  recurring_failures = record { channel = operations; event = lit "inspect"; count = 2 } ∷ [];
  diagnostic = lit "local log storage is unavailable";
}

summarized : Summary.inspect one_log ≡ summary
unfolding Summary.inspect summary lit
summarized = refl

inspect-IsShown_example :
    let a = Summary.inspect one_log in
    (a.warnings + a.errors ≤ a.entries)
    × (a.logs_available ≡ false → a.entries ≡ 0)
    × IsShown 1 a.entries a.frequent_events
    × IsShown 2 a.errors a.recurring_failures
inspect-IsShown_example = inspect-IsShown one_log

abbrev color_terminal : TerminalUi
color_terminal = record { color = true; clear_screen = false; width = 72; theme = industrial }

abbrev hostile_text : Text
hostile_text = 0x1b ∷ b']' ∷ b'0' ∷ b';' ∷ 7 ∷ 0xc2 ∷ 0x9b ∷ 0xff ∷ []

shown_text :
    styled color_terminal muted hostile_text ≡ lit "\u{1b}[2;37m\\x1B]0;\\x07\\u009B\\xFF\u{1b}[0m"
unfolding styled lit
shown_text = refl

styled-IsDisplayable_example : IsDisplayable (styled color_terminal muted hostile_text)
styled-IsDisplayable_example = styled-IsDisplayable color_terminal muted hostile_text (omega arith)
