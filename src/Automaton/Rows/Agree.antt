-- ===== src/Automaton/Rows/Agree.antt =====
-- The storage formats against one another: every row of a state gives the same transitions.
use orchid_linux.Base.{ℕ, ◌<◌, ◌^◌, ◌≡◌, List, ok, length, get_or}
use orchid_linux.Automaton.Rows.{
  full_row, sparse_row, banded_row, sparse_bands_row, sparse_get_next_state_dfa,
}
use orchid_linux.Automaton.Rows.Banded.{
  IsTotal, banded_row-IsBanded, sparse_get_next_state_dfa-IsBanded,
}
use orchid_linux.Automaton.Rows.Sparse.{full_row_lookup, sparse_row_lookup}
use orchid_linux.Automaton.Rows.SparseBands.{sparse_bands_row_lookup}

-- For a row of less than 2 ^ 31 transitions, none of which is the failure state: the full, the
-- sparse, the banded and the sparse band row that are made of it, whatever the limits `max_row_nodes`
-- and `zmax` and the state `k`, all give at each of its inputs the row's own transition.
pub sparse_get_next_state_dfa-rows :
    (full : List ℕ) (max_row_nodes zmax k input : ℕ)
    → IsTotal full
    → length full < 2 ^ 31
    → input < length full
    → (sparse_get_next_state_dfa (full_row full) input ≡ ok (get_or full input 0))
      × (sparse_get_next_state_dfa (sparse_row max_row_nodes k full) input
          ≡ ok (get_or full input 0))
      × (sparse_get_next_state_dfa (banded_row full) input ≡ ok (get_or full input 0))
      × (sparse_get_next_state_dfa (sparse_bands_row zmax full) input ≡ ok (get_or full input 0))
sparse_get_next_state_dfa-rows full max_row_nodes zmax k input total short inside = (
  full_row_lookup full input inside,
  sparse_row_lookup max_row_nodes k full input total inside,
  sparse_get_next_state_dfa-IsBanded full (banded_row full) input
      (banded_row-IsBanded full total short),
  sparse_bands_row_lookup zmax full input total short,
)
