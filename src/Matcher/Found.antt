-- ===== src/Matcher/Found.antt =====
-- `MatchFound` and `httpParse2` of app_identify/searcher/http_search.c: what is kept of the matches
-- that the automaton finds in a payload.
--
-- `search` gives the calls of `MatchFound` that `acsmSearch2` makes for a text, in order;
-- Automaton.Scan puts the search of the automaton there. `MatchFound` returns 0 always, so the search never stops at a call.
pub mod Selected
use orchid_linux.Base.{
  ℕ, zero, suc, ◌+◌, Bool, true, false, List, [], ◌∷◌, Option, none, some, ◌==◌, if◌then◌else◌, set,
  take, drop, Run, ok, fault, Fault, ◌>>=◌, or_fault, read, replicate,
}
use orchid_linux.Loader.Types.{AppInfo}
use orchid_linux.Matcher.Ids.{is_http_element, http_element_id}
use orchid_linux.Matcher.Check.{Report, pattern_check}

-- The globals `pattern`, `pattern_count` and `elementlast`.
pub record MatchState : Type 0 where
  pub pattern : List ℕ
  pub pattern_count : ℕ
  pub elementlast : ℕ

abbrev pub pattern_size : ℕ
pattern_size = 100

-- The globals before the first packet.
abbrev pub no_matches : MatchState
no_matches = record { pattern = replicate pattern_size 0; pattern_count = 0; elementlast = 0 }

-- The arguments of a call; `position` is that of `data` in the text, `none` a null pointer.
pub record Match : Type 0 where
  pub id : ℕ
  pub index : ℕ
  pub position : Option ℕ

-- `*((char*)(data - 1)) == '\n'`.
unfoldable pub after_newline : List ℕ → Option ℕ → Run Bool
after_newline text none = fault Fault.null_pointer
after_newline text (some zero) = fault Fault.out_of_bounds
after_newline text (some (suc p)) = read text p >>= λ c. ok (c == 10)

-- The bytes of a text that `printf` with `%.<n>s` reads: up to `n` of them, or to a NUL in front.
unfoldable pub c_prefix : ℕ → List ℕ → Run (List ℕ)
c_prefix zero text = ok []
c_prefix (suc n) [] = fault Fault.out_of_bounds
c_prefix (suc n) (zero ∷ text) = ok []
c_prefix (suc n) (suc c ∷ text) = c_prefix n text >>= λ cs. ok (suc c ∷ cs)

-- What the `printf` of `data` reads. The line it prints is not kept.
unfoldable pub print_data : ℕ → List ℕ → Option ℕ → Run (List ℕ)
unfolding c_prefix
print_data n text none = fault Fault.null_pointer
print_data n text (some p) = c_prefix n (drop p text)

-- `pattern[pattern_count++] = match_id`.
unfoldable pub push_pattern : ℕ → MatchState → Run MatchState
push_pattern match_id s = do
  old ← read s.pattern s.pattern_count
  ok (record s {
    pattern = set s.pattern s.pattern_count match_id;
    pattern_count = s.pattern_count + 1;
  })

-- The two branches of `MatchFound`: for a header, with `begins` for its condition, and for an element
-- under the header that was met last. Each prints `data` after its assignments.
unfoldable pub header_found : List ℕ → Match → MatchState → Bool → Run MatchState
header_found text m s false = ok s
header_found text m s true =
    print_data 8 text m.position >>= λ printed. ok (record s { elementlast = http_element_id m.id })

unfoldable pub element_found : List ℕ → Match → MatchState → Run MatchState
element_found text m s = do s' ← push_pattern m.id s; printed ← print_data 12 text m.position; ok s'

-- `MatchFound`.
unfoldable pub match_found : List ℕ → Match → MatchState → Run MatchState
unfolding after_newline
match_found text m s =
    if is_http_element m.id
    then (do
      begins ← if m.index == 0 then ok true else after_newline text m.position
      header_found text m s begins)
    else if http_element_id m.id == s.elementlast
    then element_found text m s
    else ok s

-- The calls, one after the other.
unfoldable pub matches_found : List ℕ → List Match → MatchState → Run MatchState
matches_found text [] s = ok s
matches_found text (m ∷ ms) s = match_found text m s >>= matches_found text ms

-- `httpParse2`: its result, what `pattern_check` prints, and the globals. `elementlast` is not
-- reset.
unfoldable pub http_parse2 :
    (List ℕ → List Match) → AppInfo → List ℕ → MatchState → Run (ℕ × (List Report × MatchState))
http_parse2 search info text s = do
  s' ← matches_found text (search text) (record s { pattern_count = 0 })
  reports ← pattern_check info (take s'.pattern_count s'.pattern)
  ok (0, (reports, s'))
