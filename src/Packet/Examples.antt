-- ===== src/Packet/Examples.antt =====
-- The theorem on `packet_handler` at a packet of zeros, and tests.
use orchid_linux.Automaton.Examples.Tables.{letter, rows_with}
use orchid_linux.Matcher.Found.{MatchState}
use orchid_linux.Matcher.Check.{Report}
use orchid_linux.Base.{ℕ, true, List, ◌∷◌, ◌++◌, replicate, Run, []}
use orchid_linux.Session.Defs.{SessionTable, create_session_table, no_table}
use orchid_linux.Packet.Handler.{http_scan}

-- A TCP packet without options, on a machine with `u_long` of 8 bytes.
abbrev tcp_packet : List ℕ
tcp_packet = replicate 12 0 ++ (8 ∷ 0 ∷ 0x45 ∷ (replicate 8 0 ++ (6 ∷ replicate 90 0)))

abbrev started : SessionTable
started = (create_session_table true no_table).1

-- The automaton of the letter A, and tables without signatures.
abbrev scan : List ℕ → List Report × MatchState → Run (ℕ × (List Report × MatchState))
scan = http_scan 0 (rows_with letter) (record { apps = []; sigs = []; eles = [] })
