-- ===== src/Automaton/Search/Nfa.antt =====
-- The search over the automaton that may fail: `SparseGetNextStateNFA` and `acsmSearchSparseNFA`.
use orchid_linux.Base.{
  ℕ, zero, suc, ◌+◌, ◌-◌, Bool, List, [], ◌∷◌, ◌==◌, ◌||◌, ltb, leb, if◌then◌else◌, drop, Run, ok,
  fault, Fault, ◌>>=◌, read, u32, ◌^◌, none,
}
use orchid_linux.Matcher.Found.{Match}
use orchid_linux.Automaton.Types.{
  Acsm, Pattern, acsm_fail_state, acf_full, acf_sparse, acf_banded, acf_sparsebands, acf_fullq,
}
use orchid_linux.Automaton.Compile.{xlatcase}
use orchid_linux.Automaton.Search.{Found}

-- Where a state has no transition: state 0 stays, another one fails.
abbrev pub no_transition : ℕ → ℕ
no_transition state = if state == 0 then 0 else acsm_fail_state

-- A transition that is stored: 0 is none.
abbrev pub stored_transition : ℕ → ℕ → ℕ
stored_transition state next = if next == 0 then no_transition state else next

-- The loop over the pairs of a sparse row; below the first pair it fails in state 0 too.
unfoldable pub find_pair_nfa : ℕ → List ℕ → ℕ → ℕ → Run ℕ
find_pair_nfa zero ps state input = ok (no_transition state)
find_pair_nfa (suc n) [] state input = fault Fault.out_of_bounds
find_pair_nfa (suc n) (key ∷ []) state input =
    if ltb input key then ok acsm_fail_state else fault Fault.out_of_bounds
find_pair_nfa (suc n) (key ∷ next ∷ ps) state input =
    let later = find_pair_nfa n ps state input in
    if ltb input key then ok acsm_fail_state else if key == input then ok next else later

-- The loop over the bands of a row.
unfoldable pub find_band_nfa : ℕ → List ℕ → ℕ → ℕ → Run ℕ
find_band_nfa zero ps state input = ok (no_transition state)
find_band_nfa (suc nb) ps state input = do
  n ← read ps 0
  index ← read ps 1
  if ltb input index
      then ok (no_transition state)
      else if ltb input (u32 (index + n))
      then (read ps (2 + input - index) >>= λ next. ok (stored_transition state next))
      else find_band_nfa nb (drop (2 + n) ps) state input

-- `SparseGetNextStateNFA`.
unfoldable pub sparse_get_next_state_nfa : List ℕ → ℕ → ℕ → Run ℕ
unfolding find_pair_nfa find_band_nfa
sparse_get_next_state_nfa ps state input = read ps 0 >>= λ fmt.
    if fmt == acf_banded
    then (do
      n ← read ps 2
      index ← read ps 3
      if ltb input index
          then ok (no_transition state)
          else if leb (u32 (index + n)) input
          then ok (no_transition state)
          else (read ps (2 + input - index) >>= λ next. ok (stored_transition state next)))
    else if fmt == acf_sparse
    then (read ps 2 >>= λ n. find_pair_nfa n (drop 3 ps) state input)
    else if fmt == acf_sparsebands
    then (read ps 2 >>= λ nb. find_band_nfa nb (drop 3 ps) state input)
    else if fmt == acf_full || fmt == acf_fullq
    then (read ps (2 + input) >>= λ next. ok (stored_transition state next))
    else ok 0

-- The walk along the failure states, for at most `rounds` states.
unfoldable pub next_nfa : ℕ → Acsm → ℕ → ℕ → Run ℕ
next_nfa zero acsm state input = fault Fault.no_fuel
next_nfa (suc rounds) acsm state input = do
  ps ← read acsm.next_state state
  nstate ← sparse_get_next_state_nfa ps state input
  if nstate == acsm_fail_state
      then (read acsm.fail_state state >>= λ state'. next_nfa rounds acsm state' input)
      else ok nstate

-- `index = T - mlist->n - Tx` as a word: the last byte is not counted, so it is -1 for a pattern at
-- the start of the text.
abbrev pub nfa_index : ℕ → Pattern → ℕ
nfa_index at px = u32 (at + 2 ^ 32 - px.n)

module _ {S : Type 0} (match : Match → S → Run (Bool × S)) where
  -- `acsmSearchSparseNFA`, after `at` bytes; `kept` is `*current_state`, which is left as it was
  -- where the callback does not end the search.
  unfoldable pub search_nfa : ℕ → Acsm → ℕ → List ℕ → ℕ → ℕ → ℕ → S → Run (Found S)
  search_nfa rounds acsm kept [] at state nfound s =
      ok (record { nfound = nfound; state = kept; globals = s })
  search_nfa rounds acsm kept (c ∷ text) at state nfound s = do
    state' ← next_nfa rounds acsm state (xlatcase c)
    mlist ← read acsm.match_list state'
    elim mlist [
      | [] ↦ search_nfa rounds acsm kept text (suc at) state' nfound s
      | ◌∷◌ px rest ↦ (do
        (stop, s') ←
            match (record { id = u32 px.udata; index = nfa_index at px; position = none }) s
        if stop
            then ok (record { nfound = nfound + 1; state = state'; globals = s' })
            else search_nfa rounds acsm kept text (suc at) state' (nfound + 1) s')
    ]
