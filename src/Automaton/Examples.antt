-- ===== src/Automaton/Examples.antt =====
-- Tests of the automaton.
pub mod Tables
mod Built
mod Memory
mod Installed
use orchid_linux.Base.{
  ℕ, ◌≡◌, arith, refl, Bool, false, List, [], ◌∷◌, ◌++◌, none, some, Run, ok, write, ◌>>=◌,
}
use orchid_linux.Base.CString.{codes}
use orchid_linux.Loader.Types.{AppEntryT}
use orchid_linux.Matcher.Found.{Match}
use orchid_linux.Automaton.Queue.{
  Queue, IsQueue, with_state, queue_lem, queue_free, queue_init, queue_add, queue_find, find_node,
  queue_remove, queue_count,
}
use orchid_linux.Automaton.Lists.{
  find_key, get_next_state, get_next_state2, reset_key, put_next_state, fill_row, conv_to_full,
  state_cast, free_trans_table,
}
use orchid_linux.Automaton.Build.{
  add_match_list_entry, match_up, add_states, add_pattern_states, first_layer, next_valid,
  copy_entries, set_failure, nfa_inputs, nfa_loop, build_nfa, dfa_first_layer, dfa_inputs, dfa_loop,
  convert_nfa_to_dfa,
}
use orchid_linux.Automaton.Rows.Banded.{IsTotal}
use orchid_linux.Automaton.Rows.Agree.{sparse_get_next_state_dfa-rows}
use orchid_linux.Automaton.Rows.{
  full_row, sparse_row, sparse_bands_row, sparse_get_next_state_dfa, conv_states, banded_row,
  band_ends, conv_full_dfa_to_banded,
}
use orchid_linux.Automaton.Compile.{
  xlatcase, convert_case, acsm_new, acsm_add_pattern, add_apps, sig_parse_adapter_ac, acsm_compile,
  compile_states, compile_rows, count_states, add_all_patterns, flag_state, update_match_states,
  size_of_state,
}
use orchid_linux.Automaton.Search.{
  search_banded, search_loop, test_match, call_inside, call_at_end, search_end, banded_step, finish,
}

-- Two patterns, of which the second ends the first.
abbrev apps : List AppEntryT
apps = record { app_id = 10; regex = codes "ab" } ∷ record { app_id = 20; regex = codes "B" } ∷ []

-- A callback that keeps its calls.
abbrev keep : Match → List Match → Run (Bool × List Match)
keep m ms = ok (false, ms ++ m ∷ [])

abbrev run : List ℕ → Run (List Match)
run text = sig_parse_adapter_ac 3 (λ app. app.app_id) apps >>= λ acsm.
    (search_banded keep acsm text 0 [] >>= λ f. ok f.globals)

-- Where both patterns end, only the second one is reported: the automaton calls for the first entry
-- of the list of a state alone. At the end of the text it gives the address and no place.
shadowed :
    run (codes "xabB")
    ≡ ok (
        record { id = 20; index = 2; position = some 2 }
        ∷ record { id = 20; index = 3; position = none }
        ∷ [])
unfolding write queue_init queue_add queue_find find_node queue_remove queue_count find_key
    get_next_state get_next_state2 reset_key put_next_state fill_row conv_to_full state_cast
    free_trans_table add_match_list_entry match_up add_states add_pattern_states first_layer
    next_valid copy_entries set_failure nfa_inputs nfa_loop build_nfa dfa_first_layer dfa_inputs
    dfa_loop convert_nfa_to_dfa conv_states banded_row band_ends conv_full_dfa_to_banded xlatcase
    convert_case acsm_new acsm_add_pattern add_apps sig_parse_adapter_ac acsm_compile compile_states
    compile_rows count_states add_all_patterns flag_state update_match_states size_of_state
    search_banded search_loop test_match call_inside call_at_end search_end banded_step finish
shadowed = refl

-- A queue and a row, for the theorems on them.
abbrev two_states : Queue
two_states = record { nodes = 5 ∷ 9 ∷ []; count = 2 }

queue_lem_example :
    ((state : ℕ)
      → ((queue_add two_states state).nodes ≡ with_state two_states.nodes state)
        × IsQueue (queue_add two_states state))
    × ((state : ℕ) (rest : List ℕ)
        → two_states.nodes ≡ state ∷ rest
        → ((queue_remove two_states).0 ≡ state)
          × ((queue_remove two_states).1.nodes ≡ rest)
          × IsQueue (queue_remove two_states).1)
    × ((queue_free (queue_count two_states) two_states).nodes ≡ [])
queue_lem_example =
    queue_lem two_states
      (record { counted = refl; distinct = ((λ e. omega (arith, e), tt), (tt, tt)) })

abbrev small_row : List ℕ
small_row = 0 ∷ 7 ∷ 0 ∷ 0 ∷ 8 ∷ 0 ∷ []

sparse_get_next_state_dfa-rows_example :
    (sparse_get_next_state_dfa (full_row small_row) 4 ≡ ok 8)
    × (sparse_get_next_state_dfa (sparse_row 3 1 small_row) 4 ≡ ok 8)
    × (sparse_get_next_state_dfa (banded_row small_row) 4 ≡ ok 8)
    × (sparse_get_next_state_dfa (sparse_bands_row 1 small_row) 4 ≡ ok 8)
sparse_get_next_state_dfa-rows_example =
    let total : IsTotal small_row = (
      λ e. omega (arith, e),
      (
        λ e. omega (arith, e),
        (
          λ e. omega (arith, e),
          (λ e. omega (arith, e), (λ e. omega (arith, e), (λ e. omega (arith, e), tt))),
        ),
      ),
    ) in
    sparse_get_next_state_dfa-rows small_row 3 1 1 4 total (omega arith) (omega arith)
