-- ===== src/Automaton/Compile/Table.antt =====
-- The banded tables of `_acsmCompile2`, with the flags of `acsmUpdateMatchStates`, are what the
-- banded search runs on.
use orchid_linux.Base.{
  ℕ, ◌<◌, ◌≤◌, ◌≡◌, refl, ap, sym, ◌∙◌, true, false, List, [], ◌∷◌, none, arith, length, get_or,
  get_elem?-eq-get_or, ok, ◌>>=◌, Returns, read, read-set_self, leb, ◌==◌, Option-cases, inl, inr,
}
use mathlib.Core.Path.{subst}
use orchid_linux.Automaton.Types.{Acsm, Pattern, max_alphabet_size, acf_banded, acf_sparse}
use orchid_linux.Automaton.Lists.{free_trans_table}
use orchid_linux.Automaton.Rows.{
  banded_row, band_ends, conv_states, conv_by_array, conv_full_dfa_to_banded,
  sparse_get_next_state_dfa,
}
use orchid_linux.Automaton.Rows.Banded.{
  IsBanded, banded_row-IsBanded, set-IsBanded, sparse_get_next_state_dfa-IsBanded,
}
use orchid_linux.Automaton.Rows.Transitions.{
  IsConvertible, IsRowOf, HasRow, next_of, conv_states_lem,
}
use orchid_linux.Automaton.Compile.{xlatcase, compile_rows, update_match_states}
use orchid_linux.Automaton.Compile.Flags.{flagged, update_match_states_lem}
use orchid_linux.Automaton.Search.{banded_step}
use orchid_linux.Automaton.Search.Runs.{IsTable, flag_of}

-- The step of the search is the lookup.
banded_step-IsBanded :
    (full row : List ℕ) (input : ℕ)
    → IsBanded full row
    → banded_step row input ≡ ok (get_or full input 0)
unfolding banded_step sparse_get_next_state_dfa
banded_step-IsBanded full row input b =
    subst (λ w. banded_step w input ≡ sparse_get_next_state_dfa w input) (sym b.words) refl
    ∙ sparse_get_next_state_dfa-IsBanded full row input b

banded_row_start :
    (full : List ℕ) → (read (banded_row full) 1 ≡ ok 0) × (4 ≤ length (banded_row full))
unfolding banded_row
banded_row_start full = elim (Option-cases (band_ends 0 full none)) [
  | inl e ↦ rw (e, banded_row) (refl, omega arith)
  | inr (ends, e) ↦ rw (e, banded_row) (refl, omega arith)
]

flagged-IsBanded :
    (mlist : List Pattern) (full : List ℕ)
    → IsBanded full (banded_row full)
    → IsBanded full (flagged mlist (banded_row full))
flagged-IsBanded [] full b = b
flagged-IsBanded (px ∷ rest) full b = set-IsBanded full (banded_row full) 1 b

flagged_flag :
    (mlist : List Pattern) (full : List ℕ)
    → read (flagged mlist (banded_row full)) 1 ≡ ok (flag_of mlist)
flagged_flag [] full = (banded_row_start full).0
flagged_flag (px ∷ rest) full =
    read-set_self (banded_row full) 1 1 (omega (arith, (banded_row_start full).1))

step_of :
    (acsm : Acsm) (state input : ℕ) (full : List ℕ) (mlist : List Pattern)
    → IsRowOf acsm state full
    → acsm.alphabet_size ≤ max_alphabet_size
    → banded_step (flagged mlist (banded_row full)) input ≡ ok (next_of acsm state input)
step_of acsm state input full mlist r short =
    let b = banded_row-IsBanded full r.total (omega (arith, r.width, short)) in
    banded_step-IsBanded full (flagged mlist (banded_row full)) input
      (flagged-IsBanded mlist full b)
    ∙ ap ok (r.entries input)

compile_rows-banded :
    (acsm : Acsm)
    → acsm.format ≡ acf_banded
    → acsm.alphabet_size ≤ max_alphabet_size
    → compile_rows acsm ≡ conv_states (λ k. banded_row) acsm.num_states 0 acsm
unfolding compile_rows conv_full_dfa_to_banded conv_by_array
compile_rows-banded acsm e short =
    let narrow : leb acsm.alphabet_size max_alphabet_size ≡ true = ground (arith, short) in
    let not_sparse : (acsm.format == acf_sparse) ≡ false = ap (λ f. f == acf_sparse) e in
    let banded : (acsm.format == acf_banded) ≡ true = ap (λ f. f == acf_banded) e in
    rw (not_sparse, banded, narrow) refl

-- The table with the rows alone changed.
pub record IsTableOf (acsm f : Acsm) : Type 0 where
  pub rows : List (List ℕ)
  pub same : f ≡ record acsm { next_state = rows }
  pub table : IsTable (free_trans_table f) (next_of acsm) acsm.num_states

pub compile_rows-IsTable :
    (acsm : Acsm)
    → IsConvertible acsm
    → acsm.format ≡ acf_banded
    → acsm.alphabet_size ≤ max_alphabet_size
    → acsm.num_states ≤ length acsm.trans_table
    → acsm.num_states ≤ length acsm.next_state
    → acsm.num_states ≤ length acsm.match_list
    → ((state input : ℕ) → state < acsm.num_states → next_of acsm state input < acsm.num_states)
    → Returns (compile_rows acsm >>= λ a. update_match_states a.num_states 0 a) (IsTableOf acsm)
unfolding free_trans_table
compile_rows-IsTable acsm c banded short room space listed closed =
    let n = acsm.num_states in
    let (a, run, (same, len, before, after)) =
      conv_states_lem (λ k. banded_row) n 0 acsm c (omega (arith, room)) (omega (arith, space)) in
    let rows = a.next_state in
    let run2 : compile_rows acsm ≡ ok (record acsm { next_state = rows }) =
      compile_rows-banded acsm banded short ∙ run ∙ ap ok same in
    let has_row : (state : ℕ) → state < n → HasRow (λ k. banded_row) acsm rows state =
      λ state h. after state (omega arith) (omega (arith, h)) in
    let (rows', run', before', after') =
      update_match_states_lem n 0 (record acsm { next_state = rows }) (omega (arith, listed))
        (omega (arith, space, len))
        (λ j ge lt.
          let (full, is_row, found) = has_row j (omega (arith, lt)) in
          (banded_row full, found, omega (arith, (banded_row_start full).1))) in
    (
      record acsm { next_state = rows' },
      rw run2 run',
      record {
        rows = rows';
        same = refl;
        table = record {
          listed = λ state h.
              rw (get_elem?-eq-get_or acsm.match_list state [] (omega (arith, h, listed))) refl;
          row =
              λ state h. flagged (get_or acsm.match_list state []) (banded_row (has_row state h).0);
          rows = λ state h.
              after' state (banded_row (has_row state h).0) (omega arith) (omega (arith, h))
                (has_row state h).2;
          flags = λ state h. flagged_flag (get_or acsm.match_list state []) (has_row state h).0;
          steps = λ state h c'.
              step_of acsm state (xlatcase c') (has_row state h).0 (get_or acsm.match_list state [])
                (has_row state h).1 short;
          closed = λ state input h. closed state input h;
        };
      },
    )

-- For at most MAX_ALPHABET_SIZE inputs, banded rows, lists with different inputs as keys whose
-- transitions lead to states, states of 4 bytes, and tables with an entry for each state: the banded rows and their flags are made without an access
-- outside an array, and the search on them runs over the transitions and the patterns of the lists.
pub update_match_states-IsTable :
    (acsm : Acsm)
    → IsConvertible acsm
    → acsm.format ≡ acf_banded
    → acsm.alphabet_size ≤ max_alphabet_size
    → acsm.num_states ≤ length acsm.trans_table
    → acsm.num_states ≤ length acsm.next_state
    → acsm.num_states ≤ length acsm.match_list
    → ((state input : ℕ) → state < acsm.num_states → next_of acsm state input < acsm.num_states)
    → Returns
        (compile_rows acsm >>= λ a. update_match_states a.num_states 0 a)
        (λ f. IsTable (free_trans_table f) (next_of acsm) acsm.num_states)
update_match_states-IsTable acsm c banded short room space listed closed =
    let (f, run, t) = compile_rows-IsTable acsm c banded short room space listed closed in
    (f, run, t.table)
