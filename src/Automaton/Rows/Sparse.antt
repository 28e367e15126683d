-- ===== src/Automaton/Rows/Sparse.antt =====
-- The full and the sparse format: the pairs of a row hold every transition.
use orchid_linux.Base.{
  ℕ, zero, suc, ◌+◌, ◌<◌, ◌≡◌, refl, inl, inr, false, List, [], ◌∷◌, arith, length, get_or,
  get_elem?-eq-get_or, ok, ltb, Bool-cases, ◌==◌, ==_ne, ==_refl, if◌then◌else◌, lt→ltb, ◌||◌,
}
use orchid_linux.Automaton.Types.{acf_sparse}
use orchid_linux.Automaton.Rows.{
  is_dead, count_live, sparse_pairs, sparse_row, full_row, find_pair, sparse_get_next_state_dfa,
}
use orchid_linux.Automaton.Rows.Banded.{IsTotal, is_dead_zero}

-- The number of live states.
abbrev pub live_states : List ℕ → ℕ
live_states [] = 0
live_states (s ∷ full) = if is_dead s then live_states full else suc (live_states full)

count_live_lem : (full : List ℕ) (cnt : ℕ) → count_live full cnt ≡ cnt + live_states full
unfolding count_live
count_live_lem [] cnt = omega arith
count_live_lem (s ∷ full) cnt = elim (Bool-cases (is_dead s)) [
  | inl dead ↦ rw dead (omega (arith, count_live_lem full cnt))
  | inr live ↦ rw live (omega (arith, count_live_lem full (cnt + 1)))
]

-- An input below the first pair has no transition.
find_pair_below :
    (off : ℕ) (full : List ℕ) (input : ℕ)
    → input < off
    → find_pair (live_states full) (sparse_pairs off full) input ≡ ok 0
unfolding find_pair sparse_pairs
find_pair_below off [] input h = refl
find_pair_below off (s ∷ full) input h = elim (Bool-cases (is_dead s)) [
  | inl dead ↦ rw dead (find_pair_below (off + 1) full input (omega arith))
  | inr live ↦ rw (live, lt→ltb input off h)
]

not_below : (n : ℕ) → ltb n n ≡ false
not_below n = ground arith

find_pair_lem :
    (off : ℕ) (full : List ℕ) (j input : ℕ)
    → IsTotal full
    → off + j ≡ input
    → find_pair (live_states full) (sparse_pairs off full) input ≡ ok (get_or full j 0)
unfolding find_pair sparse_pairs
find_pair_lem off [] j input total e = refl
find_pair_lem off (s ∷ full) zero input total e = elim (Bool-cases (is_dead s)) [
  | inl dead ↦
      rw (dead, is_dead_zero s total.0 dead) (find_pair_below (off + 1) full input (omega arith))
  | inr live ↦
      let here : off ≡ input = omega arith in rw (live, here, not_below input, ==_refl input)
]
find_pair_lem off (s ∷ full) (suc j) input total e = elim (Bool-cases (is_dead s)) [
  | inl dead ↦ rw dead (find_pair_lem (off + 1) full j input total.1 (omega arith))
  | inr live ↦
      let above : ltb input off ≡ false = ground (arith, e) in
      rw (live, above, ==_ne off input (λ h. omega (arith, e, h)))
        (find_pair_lem (off + 1) full j input total.1 (omega arith))
]

pub full_row_lookup :
    (full : List ℕ) (input : ℕ)
    → input < length full
    → sparse_get_next_state_dfa (full_row full) input ≡ ok (get_or full input 0)
unfolding sparse_get_next_state_dfa full_row
full_row_lookup full input h =
    let place : 2 + input ≡ suc (suc input) = omega arith in
    rw (place, get_elem?-eq-get_or full input 0 h)

pairs_lookup :
    (full : List ℕ) (input : ℕ)
    → IsTotal full
    → sparse_get_next_state_dfa (acf_sparse ∷ 0 ∷ live_states full ∷ sparse_pairs 0 full) input
      ≡ ok (get_or full input 0)
unfolding sparse_get_next_state_dfa
pairs_lookup full input total = find_pair_lem 0 full input input total (omega arith)

-- The lookup in a sparse row.
pub sparse_row_lookup :
    (max_row_nodes k : ℕ) (full : List ℕ) (input : ℕ)
    → IsTotal full
    → input < length full
    → sparse_get_next_state_dfa (sparse_row max_row_nodes k full) input ≡ ok (get_or full input 0)
unfolding sparse_row
sparse_row_lookup max_row_nodes k full input total h =
    let count : count_live full 0 ≡ live_states full = omega (arith, count_live_lem full 0) in
    elim (Bool-cases (k == 0 || ltb max_row_nodes (live_states full))) [
      | inl whole ↦ rw (count, whole) (full_row_lookup full input h)
      | inr pairs ↦ rw (count, pairs) (pairs_lookup full input total)
    ]
