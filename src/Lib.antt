-- ===== src/Lib.antt =====
-- fedora-firewall-control (`ffc`): a read-only review of a Fedora host's firewall. Collectors run
-- local tools and parse what they print; the posture collector composes one `FirewallState`; the
-- readiness assessment, the threat review and the dashboard snapshot judge that state; the command
-- line turns the judgement into an exit code; logs, the network history and the assessment mode
-- are kept in small private files. Each part of the C++ code is a module here.
--
-- Common: the libraries' names, Boolean tests and lists over the native numbers.
-- Text: std::string as a list of bytes with the library functions that the code uses, and
--   src/core/text_utils.cpp. Dict: std::map as an association list in key order.
-- Command: include/ffc/command_runner.hpp. A runner is a function from a command line to its
--   result, so each collector is a function of the tools' answers. Below it, src/core/
--   command_runner.cpp: Communicate (the handlers of one descriptor), Rounds (the loop of
--   `communicate_with_process`), Run (`ProcessCommandRunner::run_with_input`) and Child (from the
--   fork to `execvp`), all over what the system calls answer.
-- Storage: src/core/secure_storage.cpp: the checks, Paths (`secure_local_path`), Reading, Writing
--   (`write_private_file`) and Replacement (`replace_private_file_atomically`, as the sequence of
--   the directory's states).
-- Firewall: include/ffc/firewall_state.hpp and src/firewall/firewall_state.cpp: ZoneParser
--   (`parse_zone_info`, `parse_all_zone_info`), ActiveZones, ZonePolicy, Applicable.
-- Backend: src/firewall/firewalld_backend.cpp, one function for each query, chained by `inspect`.
-- Posture: src/firewall/posture_inspector.cpp and src/security/evidence_quality.cpp.
-- Readiness: src/firewall/readiness.cpp, one function for each check in the source's order, and
--   `readiness_exit_code` of src/app/command_executor.cpp.
-- Threat: src/security/threat_assessment.cpp, one function for each block of
--   `assess_threat_evidence`, appended in the source's order.
-- Snapshot: src/ui/dashboard_state.cpp. Json: src/ui/dashboard_json_support.hpp.
-- Sockets: src/security/socket_inspector.cpp. Signals: src/security/security_signals.cpp.
-- Mode: src/security/operating_mode.cpp. Ports: src/firewall/port_intelligence.cpp and
--   src/firewall/port_catalog.cpp. CommandLine: src/app/command_line.cpp, and the exit codes of
--   `CommandExecutor::execute`.
-- Logging: src/logging/core/logging_core.cpp, src/logging/utils/logging_utils.cpp,
--   src/logging/analysis/log_analysis.cpp (Analysis, the entry parser, and Summary, the counts and
--   the ranking), and `LoggingEngine::record` of
--   src/logging/engine/logging_engine.cpp over one file.
-- Network: src/network/network_address.cpp, network_manager.cpp, vpn.cpp, network_history.cpp,
--   network_path_parser.cpp (Hops and Mtr), network_diagnostics.cpp, network_evidence.cpp with the
--   history's `append` over the private directory, and two parsers of network_metadata.cpp.
-- Credentials: src/security/credentials.cpp, over the storage functions.
-- Terminal: `sanitize_terminal_text` and the styles of src/ui/terminal_ui.cpp.
-- Tests: concrete states, runs and the theorems at them.
--
-- How the code corresponds: a loop that fills an object is a function by recursion on the lines or
-- the elements, with a record for what the loop carries; references that a function fills are part
-- of its result; `push_back` of findings is a list appended in order; an early return is the branch
-- of an `if`. `none` stands for `npos`, for a failed `from_chars` and for an absent value. Counts
-- are natural numbers, since the source's `size_t` sums are over lists in memory; a number that the
-- source reads into an `unsigned int` is refused above 2 ^ 32 - 1.
--
-- Loops over system calls take the list of the answers: `rounds` one for each pass of the loop,
-- `write_from` and `read_from` one for each call, `wait_for` one for each `waitpid`; `none` means
-- that the answers ran out. `allocate` makes 128 attempts, as the source does. For
-- `secure_local_path`, `none` is the exception of `exists`, which its callers do not catch.
--
-- Fuel: `classify` recurs on the text of a mapped address, two rounds are enough where printed IPv4
-- text is read as IPv4; `sanitize_rest` takes a byte of the value in each round, so the length of
-- the value is enough; `print_digits` writes one digit in a round, so `n + 1` rounds print `n`;
-- `sanitize_from` takes a byte at least in each round, so the length of the text is enough.
--
-- Parameters: the tools' answers (a runner, or the results of the collectors), `getservbyport`,
-- `inet_pton`, `inet_ntop` and `strtod`, what the system calls answer, and the clock. Where a theorem
-- needs something of these it is a hypothesis of the theorem.
--
-- Not modelled: the closing of the pipes' other ends and the signal mask of
-- src/core/command_runner.cpp, terminal output and menus (src/ui, src/app/interactive_session.cpp),
-- the JSON documents (src/ui/dashboard_json.cpp, src/ui/dashboard_json_v2.cpp), the advisories, the
-- lock of the log files, the collection of network metadata, and the web front end
-- (web/).
mod Common
pub mod Text
pub mod Dict
pub mod Command
pub mod Mode
pub mod Firewall
pub mod Sockets
pub mod Signals
pub mod Readiness
pub mod Ports
pub mod Threat
pub mod Snapshot
pub mod Backend
pub mod Posture
pub mod CommandLine
pub mod Json
pub mod Logging
pub mod Network
pub mod Storage
pub mod Terminal
pub mod Credentials
pub mod Tests
