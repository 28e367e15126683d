-- ===== src/Automaton/Rows.antt =====
-- The storage formats: `Conv_List_To_Full`, `Conv_Full_DFA_To_Sparse`, `Conv_Full_DFA_To_Banded` and
-- `Conv_Full_DFA_To_SparseBands` make a row of each state, and `SparseGetNextStateDFA` reads one.
--
-- A row is the list of its words. Where the source finds no transition, `first` is -1: as a word of
-- 32 bits it is 0xffffffff, and the band has no words. A word is a state of 4 bytes; with states of 1
-- or 2 bytes, which the program does not choose, only the rows of the full format are those of the
-- source.
pub mod Banded
pub mod Sparse
pub mod SparseBands
pub mod Agree
pub mod Stored
pub mod Transitions
use orchid_linux.Base.{
  ℕ, zero, suc, ◌+◌, ◌-◌, ◌*◌, Bool, true, false, ◌||◌, List, [], ◌∷◌, ◌++◌, Option, none, some,
  ◌==◌, ltb, leb, if◌then◌else◌, length, take, drop, map, Run, ok, fault, Fault, ◌>>=◌, read, write,
  u32,
}
use orchid_linux.Automaton.Types.{
  Acsm, max_alphabet_size, acsm_fail_state, acf_full, acf_sparse, acf_banded, acf_sparsebands,
}
use orchid_linux.Automaton.Lists.{conv_to_full}

-- `state != 0 && state != ACSM_FAIL_STATE2`, negated.
abbrev pub is_dead : ℕ → Bool
is_dead state = state == 0 || state == acsm_fail_state

-- The row of the full format.
unfoldable pub full_row : List ℕ → List ℕ
full_row full = acf_full ∷ 0 ∷ full

-- The loop that counts, and the pairs of input and state from input `i` on.
unfoldable pub count_live : List ℕ → ℕ → ℕ
count_live [] cnt = cnt
count_live (state ∷ full) cnt = count_live full (if is_dead state then cnt else cnt + 1)

unfoldable pub sparse_pairs : ℕ → List ℕ → List ℕ
sparse_pairs i [] = []
sparse_pairs i (state ∷ full) =
    let rest = sparse_pairs (i + 1) full in if is_dead state then rest else i ∷ state ∷ rest

-- The row that `Conv_Full_DFA_To_Sparse` makes for state `k`.
unfoldable pub sparse_row : ℕ → ℕ → List ℕ → List ℕ
unfolding full_row count_live sparse_pairs
sparse_row max_row_nodes k full =
    let cnt = count_live full 0 in
    if k == 0 || ltb max_row_nodes cnt
    then full_row full
    else acf_sparse ∷ 0 ∷ cnt ∷ sparse_pairs 0 full

-- The loop that finds the band: `none` where `first` is still -1.
unfoldable pub band_ends : ℕ → List ℕ → Option (ℕ × ℕ) → Option (ℕ × ℕ)
band_ends i [] ends = ends
band_ends i (state ∷ full) ends =
    band_ends (i + 1) full
      (if is_dead state then ends else elim ends [ none ↦ some (i, i) | some e ↦ some (e.0, i) ])

-- The row that `Conv_Full_DFA_To_Banded` makes.
unfoldable pub banded_row : List ℕ → List ℕ
unfolding band_ends
banded_row full = elim (band_ends 0 full none) [
  | none ↦ acf_banded ∷ 0 ∷ 0 ∷ 0xffff_ffff ∷ []
  | some e ↦ let cnt = e.1 - e.0 + 1 in acf_banded ∷ 0 ∷ cnt ∷ e.0 ∷ take cnt (drop e.0 full)
]

-- The band in which the inner loop of `calcSparseBands` is: where it begins, its last state so far,
-- and the dead states behind that.
pub record OpenBand : Type 0 where
  pub begin : ℕ
  pub last : ℕ
  pub zcnt : ℕ

-- `calcSparseBands` from input `i` on, outside a band or in one: the begins and ends.
unfoldable pub calc_sparse_bands : ℕ → ℕ → Option OpenBand → List ℕ → List (ℕ × ℕ)
calc_sparse_bands zmax i none [] = []
calc_sparse_bands zmax i (some b) [] = (b.begin, b.last) ∷ []
calc_sparse_bands zmax i none (state ∷ next) =
    calc_sparse_bands zmax (i + 1)
      (if is_dead state then none else some (record { begin = i; last = i; zcnt = 0 })) next
calc_sparse_bands zmax i (some b) (state ∷ next) =
    let ended = (b.begin, b.last) ∷ calc_sparse_bands zmax (i + 1) none next in
    let dead = calc_sparse_bands zmax (i + 1) (some (record b { zcnt = b.zcnt + 1 })) next in
    let live = calc_sparse_bands zmax (i + 1) (some (record b { last = i; zcnt = 0 })) next in
    if is_dead state then (if ltb zmax (b.zcnt + 1) then ended else dead) else live

-- The words of one band, and of all.
abbrev pub band_words : List ℕ → ℕ × ℕ → List ℕ
band_words full e = let cnt = e.1 - e.0 + 1 in cnt ∷ e.0 ∷ take cnt (drop e.0 full)

abbrev pub bands_words : List ℕ → List (ℕ × ℕ) → List ℕ
bands_words full [] = []
bands_words full (e ∷ bands) = band_words full e ++ bands_words full bands

-- The row that `Conv_Full_DFA_To_SparseBands` makes.
unfoldable pub sparse_bands_row : ℕ → List ℕ → List ℕ
unfolding calc_sparse_bands
sparse_bands_row zmax full =
    let bands = calc_sparse_bands zmax 0 none full in
    acf_sparsebands ∷ 0 ∷ length bands ∷ bands_words full bands

-- The loop over the states of each of the four functions, from state `k` on.
unfoldable pub conv_states : (ℕ → List ℕ → List ℕ) → ℕ → ℕ → Acsm → Run Acsm
conv_states row zero k acsm = ok acsm
conv_states row (suc left) k acsm = do
  full ← conv_to_full acsm k
  next_state ← write acsm.next_state k (row k full.1)
  conv_states row left (k + 1) (record acsm { next_state = next_state })

unfoldable pub conv_list_to_full : Acsm → Run Acsm
conv_list_to_full acsm = conv_states (λ k. full_row) acsm.num_states 0 acsm

-- The other three fill an array `full` on the stack, of MAX_ALPHABET_SIZE words, for each state: a
-- larger alphabet is written past its end.
unfoldable pub conv_by_array : (ℕ → List ℕ → List ℕ) → Acsm → Run Acsm
conv_by_array row acsm =
    if leb acsm.alphabet_size max_alphabet_size
    then conv_states row acsm.num_states 0 acsm
    else if acsm.num_states == 0
    then ok acsm
    else fault Fault.out_of_bounds

unfoldable pub conv_full_dfa_to_sparse : Acsm → Run Acsm
unfolding conv_by_array
conv_full_dfa_to_sparse acsm = conv_by_array (sparse_row acsm.sparse_max_row_nodes) acsm

unfoldable pub conv_full_dfa_to_banded : Acsm → Run Acsm
unfolding conv_by_array
conv_full_dfa_to_banded acsm = conv_by_array (λ k. banded_row) acsm

-- There are fewer bands than inputs, so `band_begin` and `band_end`, of MAX_ALPHABET_SIZE words too,
-- have room where `full` has, and the check of `j` that returns -1 is never met.
unfoldable pub conv_full_dfa_to_sparse_bands : Acsm → Run Acsm
unfolding conv_by_array
conv_full_dfa_to_sparse_bands acsm = conv_by_array (λ k. sparse_bands_row acsm.sparse_max_zcnt) acsm

-- The loop over the pairs of a sparse row, with `n` of them left.
unfoldable pub find_pair : ℕ → List ℕ → ℕ → Run ℕ
find_pair zero ps input = ok 0
find_pair (suc n) [] input = fault Fault.out_of_bounds
find_pair (suc n) (key ∷ []) input = if ltb input key then ok 0 else fault Fault.out_of_bounds
find_pair (suc n) (key ∷ next ∷ ps) input =
    let later = find_pair n ps input in
    if ltb input key then ok 0 else if key == input then ok next else later

-- The loop over the bands of a row, with `nb` of them left.
unfoldable pub find_band : ℕ → List ℕ → ℕ → Run ℕ
find_band zero ps input = ok 0
find_band (suc nb) ps input = do
  n ← read ps 0
  index ← read ps 1
  if ltb input index
      then ok 0
      else if ltb input (u32 (index + n))
      then read ps (2 + input - index)
      else find_band nb (drop (2 + n) ps) input

-- `SparseGetNextStateDFA`.
unfoldable pub sparse_get_next_state_dfa : List ℕ → ℕ → Run ℕ
unfolding find_pair find_band
sparse_get_next_state_dfa ps input = read ps 0 >>= λ fmt.
    if fmt == acf_banded
    then (do
      index ← read ps 3
      n ← read ps 2
      if ltb input index
          then ok 0
          else if leb (u32 (index + n)) input
          then ok 0
          else read ps (4 + input - index))
    else if fmt == acf_full
    then read ps (2 + input)
    else if fmt == acf_sparse
    then (read ps 2 >>= λ n. find_pair n (drop 3 ps) input)
    else if fmt == acf_sparsebands
    then (read ps 2 >>= λ nb. find_band nb (drop 3 ps) input)
    else ok 0
