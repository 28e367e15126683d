-- ===== src/Automaton/Compile/Transitions.antt =====
-- The choice of the storage format in `_acsmCompile2`: whichever it is, the rows give the transitions
-- of the lists.
use orchid_linux.Base.{
  ℕ, ◌<◌, ◌≤◌, ◌^◌, ◌≡◌, refl, inl, inr, true, Bool-cases, List, arith, length, Run, ok, ◌>>=◌,
  Returns, read, leb, ◌==◌, ◌||◌, [],
}
use orchid_linux.Automaton.Types.{
  Acsm, max_alphabet_size, acf_full, acf_sparse, acf_banded, acf_sparsebands, acf_fullq,
}
use orchid_linux.Automaton.Lists.{get_next_state2}
use orchid_linux.Automaton.Rows.{
  conv_states, conv_by_array, conv_list_to_full, conv_full_dfa_to_sparse, conv_full_dfa_to_banded,
  conv_full_dfa_to_sparse_bands, sparse_get_next_state_dfa, full_row, sparse_row, banded_row,
  sparse_bands_row,
}
use orchid_linux.Automaton.Rows.Banded.{IsTotal}
use orchid_linux.Automaton.Rows.Agree.{sparse_get_next_state_dfa-rows}
use orchid_linux.Automaton.Rows.Transitions.{
  IsConvertible, IsFormat, HasRow-GivesTransitions, conv_states_lem,
}
use orchid_linux.Automaton.Compile.{compile_rows}

-- What the conversion leaves.
abbrev pub AllGive : Acsm → Acsm → Type 0
AllGive acsm a =
    (state input : ℕ)
    → state < acsm.num_states
    → input < acsm.alphabet_size
    → (read a.next_state state >>= λ ps. sparse_get_next_state_dfa ps input)
      ≡ get_next_state2 acsm state input

formats :
    (size max_row_nodes zmax : ℕ)
    → size < 2 ^ 31
    → IsFormat size (λ k. full_row)
      × IsFormat size (sparse_row max_row_nodes)
      × IsFormat size (λ k. banded_row)
      × IsFormat size (λ k. sparse_bands_row zmax)
formats size max_row_nodes zmax short =
    let all =
      λ (k : ℕ) (full : List ℕ) (input : ℕ) (total : IsTotal full) (e : length full ≡ size)
          (inside : input < size).
        sparse_get_next_state_dfa-rows full max_row_nodes zmax k input total
          (omega (arith, e, short)) (omega (arith, e, inside)) in
    (
      λ k full input total e inside. (all k full input total e inside).0,
      λ k full input total e inside. (all k full input total e inside).1,
      λ k full input total e inside. (all k full input total e inside).2,
      λ k full input total e inside. (all k full input total e inside).3,
    )

converted :
    (acsm : Acsm) (row : ℕ → List ℕ → List ℕ)
    → IsConvertible acsm
    → IsFormat acsm.alphabet_size row
    → acsm.num_states ≤ length acsm.trans_table
    → acsm.num_states ≤ length acsm.next_state
    → Returns (conv_states row acsm.num_states 0 acsm) (AllGive acsm)
converted acsm row c format room space =
    let (a, run, (same, len, before, after)) =
      conv_states_lem row acsm.num_states 0 acsm c (omega (arith, room)) (omega (arith, space)) in
    (
      a,
      run,
      λ state input lt inside.
          HasRow-GivesTransitions row acsm a.next_state state format (omega (arith, room, lt))
            (after state (omega arith) (omega (arith, lt))) input inside,
    )

then_ok :
    {A B : Type 0} (run : Run A) (f : A → B) (P : A → Type 0) (Q : B → Type 0)
    → ((a : A) → P a → Q (f a))
    → Returns run P
    → Returns (run >>= λ a. ok (f a)) Q
then_ok run f P Q h (a, e, p) = (f a, rw e refl, h a p)

-- For at most MAX_ALPHABET_SIZE inputs, lists with different inputs as keys that lead to no failure
-- state, states of 4 bytes, and tables with an entry for each state: whichever format is chosen, the conversion makes no access
-- outside its arrays, and the row of each state gives at every input the transition of its list.
pub compile_rows-get_next_state2 :
    (acsm : Acsm)
    → IsConvertible acsm
    → acsm.format ≤ acf_fullq
    → acsm.alphabet_size ≤ max_alphabet_size
    → acsm.num_states ≤ length acsm.trans_table
    → acsm.num_states ≤ length acsm.next_state
    → Returns (compile_rows acsm) (AllGive acsm)
unfolding compile_rows conv_list_to_full conv_full_dfa_to_sparse conv_full_dfa_to_banded
    conv_full_dfa_to_sparse_bands conv_by_array
compile_rows-get_next_state2 acsm c known short room space =
    let narrow : leb acsm.alphabet_size max_alphabet_size ≡ true = ground (arith, short) in
    let (full, sparse, banded, bands) =
      formats acsm.alphabet_size acsm.sparse_max_row_nodes acsm.sparse_max_zcnt
        (omega (arith, short)) in
    let run = λ (row : ℕ → List ℕ → List ℕ) (format : IsFormat acsm.alphabet_size row).
      converted acsm row c format room space in
    elim (Bool-cases (acsm.format == acf_sparse)) [
      | inl e ↦ rw (e, narrow) (run (sparse_row acsm.sparse_max_row_nodes) sparse)
      | inr e ↦ elim (Bool-cases (acsm.format == acf_banded)) [
        | inl e1 ↦ rw (e, e1, narrow) (run (λ k. banded_row) banded)
        | inr e1 ↦ elim (Bool-cases (acsm.format == acf_sparsebands)) [
          | inl e2 ↦ rw (e, e1, e2, narrow) (run (λ k. sparse_bands_row acsm.sparse_max_zcnt) bands)
          | inr e2 ↦
              let whole : (acsm.format == acf_full || acsm.format == acf_fullq) ≡ true =
                ground (arith, known, e, e1, e2) in
              rw (e, e1, e2, whole)
                (then_ok (conv_states (λ k. full_row) acsm.num_states 0 acsm)
                  (λ a. record a { fail_state = [] }) (AllGive acsm) (AllGive acsm) (λ a give. give)
                  (run (λ k. full_row) full))
        ]
      ]
    ]
