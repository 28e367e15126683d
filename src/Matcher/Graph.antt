-- ===== src/Matcher/Graph.antt =====
-- `dfaSearch` of app_identify/searcher/searcher.c and `httpParse` of http_search.c: the runs over
-- the table of a `struct dfa_graph_t` (include/regexParse.h). A state is the position of its row.
pub mod Runs
use orchid_linux.Base.{
  ℕ, ◌+◌, ◌-◌, ◌*◌, ◌^◌, Bool, true, List, [], ◌∷◌, ◌==◌, ltb, if◌then◌else◌, Run, ok, fault, Fault,
  ◌>>=◌, read, u32,
}
use orchid_linux.Matcher.Ids.{is_http_element, http_element_id, http_element_length}
use orchid_linux.Matcher.Found.{MatchState, push_pattern}

-- `struct dfa_graph_t`.
pub record DfaGraph : Type 0 where
  pub state_num : ℕ
  pub alphabet_size : ℕ
  pub start_offset : ℕ
  pub alphabet_table : List ℕ
  pub next_table : List ℕ

-- `curState = beginstate + alphabetSize * curState[offset + alphabetTable[*cur]]`.
unfoldable pub next_row : DfaGraph → ℕ → ℕ → Run ℕ
next_row graph row c = do
  a ← read graph.alphabet_table c
  next ← read graph.next_table (row + (graph.start_offset + a))
  ok (graph.alphabet_size * next)

-- The loop of `dfaSearch`, from a row on.
unfoldable pub search_from : DfaGraph → ℕ → List ℕ → Run ℕ
unfolding next_row
search_from graph row [] = ok 0
search_from graph row (c ∷ text) = next_row graph row c >>= λ row'.
    let rest = search_from graph row' text in
    read graph.next_table row' >>= λ end_state.
    if end_state == 0 then rest else read graph.next_table (row' + 1)

-- `dfaSearch`; what it prints is not modelled.
unfoldable pub dfa_search : DfaGraph → List ℕ → Run ℕ
unfolding search_from
dfa_search graph text = search_from graph 0 text

-- `*((u_int*)(curState+1))`, with the low half first.
unfoldable pub row_match_id : DfaGraph → ℕ → Run ℕ
row_match_id graph row = do
  low ← read graph.next_table (row + 1)
  high ← read graph.next_table (row + 2)
  ok (low + high * 2 ^ 16)

-- What `httpParse` does at a match that ends behind `offset` bytes.
unfoldable pub parse_match : List ℕ → ℕ → ℕ → ℕ → ℕ → MatchState → Run (ℕ × MatchState)
parse_match text offset low match_id element_last s =
    if is_http_element match_id
    then (do
      start ←
          if ltb offset (http_element_length match_id)
          then fault Fault.assertion
          else ok (offset - http_element_length match_id)
      begins ← if start == 0 then ok true else (read text (start - 1) >>= λ c. ok (c == 10))
      ok (if begins then http_element_id match_id else element_last, s))
    else if http_element_id match_id == element_last
    then (push_pattern low s >>= λ s'. ok (element_last, s'))
    else ok (element_last, s)

-- The loop of `httpParse`; `offset` is `cur - Text`.
unfoldable pub parse_from : DfaGraph → List ℕ → ℕ → ℕ → List ℕ → ℕ → MatchState → Run MatchState
unfolding next_row row_match_id
parse_from graph text offset row [] element_last s = ok s
parse_from graph text offset row (c ∷ later) element_last s = do
  row' ← next_row graph row c
  end_state ← read graph.next_table row'
  (last', s') ← if end_state == 0 then ok (element_last, s) else (do
    match_id ← row_match_id graph row'
    low ← read graph.next_table (row' + 1)
    parse_match text (offset + 1) low match_id element_last s)
  parse_from graph text (offset + 1) row' later last' s'

-- `httpParse`: its result, and the globals; the count of the patterns goes on from packet to packet.
unfoldable pub http_parse : DfaGraph → List ℕ → MatchState → Run (ℕ × MatchState)
http_parse graph text s = parse_from graph text 0 0 text 0 s >>= λ s'. ok (0, s')
