-- ===== src/Automaton/Build.antt =====
-- The states: `AddMatchListEntry`, `CopyMatchListEntry`, `AddPatternStates`, `Build_NFA` and
-- `Convert_NFA_To_DFA`.
--
-- The two loops over a queue run for at most `rounds` states, and the walk along the failure states
-- for as many steps: a run that needs more is the fault `no_fuel`.
pub mod Failure
pub mod Trie
pub mod Patterns
pub mod Nfa
pub mod Dfa
pub mod Words
use orchid_linux.Base.{
  ℕ, zero, suc, ◌+◌, ◌||◌, List, [], ◌∷◌, ◌==◌, if◌then◌else◌, Run, ok, fault, Fault, ◌>>=◌, read,
  write,
}
use orchid_linux.Automaton.Types.{Acsm, Pattern, acsm_fail_state}
use orchid_linux.Automaton.Queue.{Queue, queue_init, queue_add, queue_remove, queue_count}
use orchid_linux.Automaton.Lists.{get_next_state, get_next_state2, put_next_state}

-- `AddMatchListEntry`.
unfoldable pub add_match_list_entry : Acsm → ℕ → Pattern → Run Acsm
add_match_list_entry acsm state px = do
  p ← read acsm.match_list state
  match_list ← write acsm.match_list state (px ∷ p)
  ok (record acsm { match_list = match_list })

-- The first loop of `AddPatternStates`: the state that existing transitions lead to, and the rest of
-- the pattern.
unfoldable pub match_up : Acsm → ℕ → List ℕ → Run (ℕ × List ℕ)
match_up acsm state [] = ok (state, [])
match_up acsm state (c ∷ pattern) = get_next_state acsm state c >>= λ next.
    let rest = match_up acsm next pattern in
    if next == acsm_fail_state || next == 0 then ok (state, c ∷ pattern) else rest

-- The second loop: one new state for each byte.
unfoldable pub add_states : Acsm → ℕ → List ℕ → Run (ℕ × Acsm)
add_states acsm state [] = ok (state, acsm)
add_states acsm state (c ∷ pattern) =
    let new = acsm.num_states + 1 in
    put_next_state (record acsm { num_states = new }) state c new >>= λ acsm'.
    add_states acsm' new pattern

-- `AddPatternStates`.
unfoldable pub add_pattern_states : Acsm → Pattern → Run Acsm
add_pattern_states acsm p = do
  (state, rest) ← match_up acsm 0 p.patrn
  (state', acsm') ← add_states acsm state rest
  add_match_list_entry acsm' state' p

-- The first loop of `Build_NFA`, for the inputs from `i` on.
unfoldable pub first_layer : ℕ → ℕ → Acsm → Queue → Run (Acsm × Queue)
first_layer zero i acsm queue = ok (acsm, queue)
first_layer (suc left) i acsm queue = get_next_state2 acsm 0 i >>= λ s.
    let skip = first_layer left (i + 1) acsm queue in
    if s == 0
    then skip
    else (write acsm.fail_state s 0 >>= λ fail_state.
        first_layer left (i + 1) (record acsm { fail_state = fail_state }) (queue_add queue s))

-- The walk along the failure states to one with a transition: where it leads.
unfoldable pub next_valid : ℕ → Acsm → ℕ → ℕ → Run ℕ
next_valid zero acsm fs i = fault Fault.no_fuel
next_valid (suc rounds) acsm fs i = get_next_state acsm fs i >>= λ next.
    if next == acsm_fail_state
    then (read acsm.fail_state fs >>= λ fs'. next_valid rounds acsm fs' i)
    else ok next

-- `CopyMatchListEntry` for each pattern of the list, each put at the front.
unfoldable pub copy_entries : List Pattern → List Pattern → List Pattern
copy_entries [] list = list
copy_entries (px ∷ mlist) list = copy_entries mlist (px ∷ list)

-- The body of the loop over the inputs, for a state `s` that `r` leads to.
unfoldable pub set_failure : ℕ → Acsm → ℕ → ℕ → ℕ → Run Acsm
unfolding copy_entries
set_failure rounds acsm r s i = do
  fs ← read acsm.fail_state r
  next ← next_valid rounds acsm fs i
  fail_state ← write acsm.fail_state s next
  mlist ← read acsm.match_list next
  list ← read acsm.match_list s
  match_list ← write acsm.match_list s (copy_entries mlist list)
  ok (record acsm { fail_state = fail_state; match_list = match_list })

unfoldable pub nfa_inputs : ℕ → ℕ → ℕ → ℕ → Acsm → Queue → Run (Acsm × Queue)
nfa_inputs rounds zero i r acsm queue = ok (acsm, queue)
nfa_inputs rounds (suc left) i r acsm queue = get_next_state acsm r i >>= λ s.
    let skip = nfa_inputs rounds left (i + 1) r acsm queue in
    if s == acsm_fail_state
    then skip
    else (set_failure rounds acsm r s i >>= λ acsm'.
        nfa_inputs rounds left (i + 1) r acsm' (queue_add queue s))

unfoldable pub nfa_loop : ℕ → Acsm → Queue → Run Acsm
nfa_loop zero acsm queue = if queue_count queue == 0 then ok acsm else fault Fault.no_fuel
nfa_loop (suc rounds) acsm queue =
    let removed = queue_remove queue in
    let later = nfa_inputs (suc rounds) acsm.alphabet_size 0 removed.0 acsm removed.1 >>= λ r.
    nfa_loop rounds r.0 r.1 in
    if queue_count queue == 0 then ok acsm else later

-- `Build_NFA`.
unfoldable pub build_nfa : ℕ → Acsm → Run Acsm
build_nfa rounds acsm =
    first_layer acsm.alphabet_size 0 acsm queue_init >>= λ r. nfa_loop rounds r.0 r.1

-- The first loop of `Convert_NFA_To_DFA`.
unfoldable pub dfa_first_layer : ℕ → ℕ → Acsm → Queue → Run Queue
dfa_first_layer zero i acsm queue = ok queue
dfa_first_layer (suc left) i acsm queue = get_next_state acsm 0 i >>= λ s.
    dfa_first_layer left (i + 1) acsm (if s == 0 then queue else queue_add queue s)

-- The state at an input: a transition of its failure state is taken over where it has none.
unfoldable pub dfa_inputs : ℕ → ℕ → ℕ → Acsm → Queue → Run (Acsm × Queue)
dfa_inputs zero i r acsm queue = ok (acsm, queue)
dfa_inputs (suc left) i r acsm queue = get_next_state acsm r i >>= λ s.
    if s == acsm_fail_state || s == 0
    then (do
      fs ← read acsm.fail_state r
      c_fail_state ← get_next_state acsm fs i
      acsm' ←
          if c_fail_state == 0 || c_fail_state == acsm_fail_state
          then ok acsm
          else put_next_state acsm r i c_fail_state
      dfa_inputs left (i + 1) r acsm' queue)
    else dfa_inputs left (i + 1) r acsm (queue_add queue s)

unfoldable pub dfa_loop : ℕ → Acsm → Queue → Run Acsm
dfa_loop zero acsm queue = if queue_count queue == 0 then ok acsm else fault Fault.no_fuel
dfa_loop (suc rounds) acsm queue =
    let removed = queue_remove queue in
    let later =
      dfa_inputs acsm.alphabet_size 0 removed.0 acsm removed.1 >>= λ r. dfa_loop rounds r.0 r.1 in
    if queue_count queue == 0 then ok acsm else later

-- `Convert_NFA_To_DFA`.
unfoldable pub convert_nfa_to_dfa : ℕ → Acsm → Run Acsm
convert_nfa_to_dfa rounds acsm =
    dfa_first_layer acsm.alphabet_size 0 acsm queue_init >>= λ queue. dfa_loop rounds acsm queue
