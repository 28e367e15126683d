-- ===== src/Automaton/Scan.antt =====
-- `httpParse2` of app_identify/searcher/http_search.c on the automaton: the search of acsmx2.c with
-- `MatchFound` as its callback, where Matcher.Found takes the calls as a parameter.
pub mod Parsed
pub mod Installed
use orchid_linux.Base.{
  ℕ, ◌<◌, ◌≡◌, refl, List, [], ◌∷◌, Run, ok, ◌>>=◌, take, bind_congr, bind_assoc, ◌∙◌, ap, length,
}
use orchid_linux.Loader.Types.{AppInfo}
use orchid_linux.Matcher.Check.{Report, pattern_check}
use orchid_linux.Matcher.Found.{Match, MatchState, match_found, matches_found, http_parse2}
use orchid_linux.Automaton.Types.{Acsm, acf_banded, fsa_dfa}
use orchid_linux.Automaton.Search.Choice.{acsm_search, acsm_search-search_banded}
use orchid_linux.Automaton.Search.Runs.{
  IsTable, banded_matches, going_on, each, found_at, search_banded-runs,
}

-- `httpParse2` with the search itself; `rounds` bounds walks that a deterministic automaton does not
-- make.
unfoldable pub http_parse2_on :
    ℕ → Acsm → AppInfo → List ℕ → MatchState → Run (ℕ × (List Report × MatchState))
http_parse2_on rounds acsm info text s = do
  found ←
      acsm_search (going_on (match_found text)) rounds acsm text 0 (record s { pattern_count = 0 })
  reports ← pattern_check info (take found.globals.pattern_count found.globals.pattern)
  ok (0, (reports, found.globals))

each-matches_found :
    (text : List ℕ) (ms : List Match) (s : MatchState)
    → each (match_found text) ms s ≡ matches_found text ms s
unfolding matches_found
each-matches_found text [] s = refl
each-matches_found text (m ∷ ms) s =
    bind_congr (match_found text m s) (each (match_found text) ms) (matches_found text ms)
      (each-matches_found text ms)

-- For a deterministic automaton of banded rows, with a table of transitions from state 0:
-- `httpParse2` with its search does what `httpParse2` does on the calls along the text, so that what
-- is shown of any list of calls holds for those of the automaton.
pub http_parse2_on-http_parse2 :
    (rounds : ℕ) (acsm : Acsm) (next : ℕ → ℕ → ℕ) (size : ℕ) (info : AppInfo) (text : List ℕ)
    (s : MatchState)
    → IsTable acsm next size
    → 0 < size
    → acsm.fsa ≡ fsa_dfa
    → acsm.format ≡ acf_banded
    → http_parse2_on rounds acsm info text s ≡ http_parse2 (banded_matches acsm next 0) info text s
unfolding http_parse2_on http_parse2
http_parse2_on-http_parse2 rounds acsm next size info text s t h dfa banded =
    let start = record s { pattern_count = 0 } in
    let calls = banded_matches acsm next 0 text in
    let searched : acsm_search (going_on (match_found text)) rounds acsm text 0 start
        ≡ (matches_found text calls start >>= found_at 0 (length calls)) =
      acsm_search-search_banded (going_on (match_found text)) rounds acsm text 0 start dfa banded
      ∙ search_banded-runs (match_found text) acsm next size text 0 start t h
      ∙ ap (λ r. r >>= found_at 0 (length calls)) (each-matches_found text calls start) in
    rw searched (bind_assoc (matches_found text calls start) (found_at 0 (length calls)) _)
