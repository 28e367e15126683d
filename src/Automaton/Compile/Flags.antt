-- ===== src/Automaton/Compile/Flags.antt =====
-- `acsmUpdateMatchStates`, and the banded tables that come out of it: what the search runs on.
use orchid_linux.Base.{
  ℕ, zero, suc, ◌+◌, ◌<◌, ◌≤◌, ◌≡◌, ◌≢◌, refl, ap, sym, ◌∙◌, List, [], ◌∷◌, arith, length,
  length-set, set, get_or, get_elem?-eq-get_or, ok, read, read-set_self, read-set_ne, write-inside,
  ok_injective,
}
use mathlib.Core.Path.{subst}
use native.Mathlib.Decide.{ℕ_discrete}
use orchid_linux.Automaton.Types.{Acsm, Pattern}
use orchid_linux.Automaton.Compile.{flag_state, update_match_states}

-- The row of a state after the flags are set.
abbrev pub flagged : List Pattern → List ℕ → List ℕ
flagged [] ps = ps
flagged (px ∷ rest) ps = set ps 1 1

abbrev IsRow : List (List ℕ) → ℕ → Type 0
IsRow rows state = (ps : List ℕ) × (read rows state ≡ ok ps) × (2 ≤ length ps)

flag_state_lem :
    (acsm : Acsm) (k : ℕ) (mlist : List Pattern) (ps : List ℕ)
    → read acsm.match_list k ≡ ok mlist
    → read acsm.next_state k ≡ ok ps
    → 2 ≤ length ps
    → k < length acsm.next_state
    → (rows : List (List ℕ)) × (flag_state acsm k ≡ ok (record acsm { next_state = rows }))
      × (length rows ≡ length acsm.next_state)
      × (read rows k ≡ ok (flagged mlist ps))
      × ((j : ℕ) → k ≢ j → read rows j ≡ read acsm.next_state j)
unfolding flag_state
flag_state_lem acsm k [] ps listed found long inside =
    (acsm.next_state, rw listed refl, refl, found, λ j ne. refl)
flag_state_lem acsm k (px ∷ rest) ps listed found long inside =
    let p' = set ps 1 1 in
    (
      set acsm.next_state k p',
      rw
          (
            listed,
            found,
            write-inside ps 1 1 (omega (arith, long)),
            write-inside acsm.next_state k p' inside,
          )
          refl,
      length-set acsm.next_state k p',
      read-set_self acsm.next_state k p' inside,
      λ j ne. read-set_ne acsm.next_state k j p' ne,
    )

-- From state `k` on, each row gets the flag of its state.
pub update_match_states_lem :
    (left k : ℕ) (acsm : Acsm)
    → k + left ≤ length acsm.match_list
    → k + left ≤ length acsm.next_state
    → ((j : ℕ) → k ≤ j → j < k + left → IsRow acsm.next_state j)
    → (rows : List (List ℕ)) × (update_match_states left k acsm
        ≡ ok (record acsm { next_state = rows }))
      × ((j : ℕ) → j < k → read rows j ≡ read acsm.next_state j)
      × ((j : ℕ) (ps : List ℕ)
          → k ≤ j
          → j < k + left
          → read acsm.next_state j ≡ ok ps
          → read rows j ≡ ok (flagged (get_or acsm.match_list j []) ps))
unfolding update_match_states
update_match_states_lem zero k acsm listed space are_rows =
    (acsm.next_state, refl, (λ j lt. refl), λ j ps ge lt e. absurd (omega (arith, ge, lt)))
update_match_states_lem (suc left) k acsm listed space are_rows =
    let mlist = get_or acsm.match_list k [] in
    let here : read acsm.match_list k ≡ ok mlist =
      rw (get_elem?-eq-get_or acsm.match_list k [] (omega (arith, listed))) refl in
    let (ps, found, long) = are_rows k (omega arith) (omega arith) in
    let (rows, run, len, self, others) =
      flag_state_lem acsm k mlist ps here found long (omega (arith, space)) in
    let (rows', run', before, after) =
      update_match_states_lem left (k + 1) (record acsm { next_state = rows })
        (omega (arith, listed)) (omega (arith, space, len))
        (λ j ge lt.
          let (ps', found', long') = are_rows j (omega (arith, ge)) (omega (arith, lt)) in
          (ps', others j (λ e. omega (arith, e, ge)) ∙ found', long')) in
    (
      rows',
      rw run run',
      (λ j lt. before j (omega (arith, lt)) ∙ others j (λ e. omega (arith, e, lt))),
      λ j ps' ge lt e. elim (ℕ_discrete k j) [
        | yes same ↦
            subst
              (λ s.
                (q : List ℕ)
                → read acsm.next_state s ≡ ok q
                → read rows' s ≡ ok (flagged (get_or acsm.match_list s []) q))
              same
              (λ q e'.
                before k (omega arith)
                ∙ self
                ∙ ap (λ p. ok (flagged mlist p)) (ok_injective (sym found ∙ e')))
              ps' e
        | no ne ↦ after j ps' (omega (arith, ge, ne)) (omega (arith, lt)) (others j ne ∙ e)
      ],
    )
