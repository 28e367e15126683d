-- ===== src/Program/Examples.antt =====
-- The theorem on `main` at a capture of two packets.
use orchid_linux.Automaton.Examples.Tables.{letter, rows_with}
use orchid_linux.Matcher.Found.{MatchState}
use orchid_linux.Matcher.Check.{Report}
use orchid_linux.Packet.Handler.{http_scan}
use orchid_linux.Base.{ℕ, List, [], ◌∷◌, ◌++◌, replicate, Run}

-- A UDP packet without options, and one that is no IP packet.
abbrev packets : List (List ℕ)
packets =
    (replicate 12 0 ++ (8 ∷ 0 ∷ 0x45 ∷ (replicate 8 0 ++ (17 ∷ replicate 90 0))))
    ∷ replicate 110 0
    ∷ []

-- The automaton of the letter A, and tables without signatures.
abbrev scan : List ℕ → List Report × MatchState → Run (ℕ × (List Report × MatchState))
scan = http_scan 0 (rows_with letter) (record { apps = []; sigs = []; eles = [] })
