-- ===== src/Regex/Graph.antt =====
-- The graph of `reassemble` as the automaton that `dfaSearch` and `httpParse` run over.
use orchid_linux.Base.{
  ℕ, zero, suc, ◌+◌, ◌-◌, ◌*◌, ◌/◌, ◌%◌, ◌<◌, ◌≤◌, ◌^◌, ◌≡◌, refl, ap, sym, ◌∙◌, true, false, List,
  [], ◌∷◌, some, arith, length, get_or, get_elem?-eq-get_or, drop, length-drop, ok, Returns, read,
  u16, u8, ltb, ◌==◌, ==_ne, lt→ltb,
}
use mathlib.Core.Path.{subst}
use native.Mathlib.Nat.{add-mul-mod_self_left, mod-eq_of_lt, mul-suc, add-zero, zero-add}
use orchid_linux.Matcher.Graph.{DfaGraph, next_row, row_match_id}
use orchid_linux.Regex.{Internals, dead_state_index, alphabet_from, reassemble}
use orchid_linux.Regex.Reassembled.{IsPlaced, put_entries_lem}

-- The entry of a state in a column.
abbrev pub cell : Internals → ℕ → ℕ → ℕ
cell sm state column = get_or sm.dfa (sm.dfa_alphabet * state + column) 0

abbrev pub class_of : Internals → ℕ → ℕ
class_of sm c = get_or sm.lookup c 0

-- What lexertl builds: the six first columns and at least one class of bytes, and states and numbers
-- that fit their places in the graph.
pub record IsMachine (sm : Internals) : Type 0 where
  pub columns : 7 ≤ sm.dfa_alphabet
  pub narrow : sm.dfa_alphabet < 2 ^ 16
  pub whole : sm.dfa_alphabet ≤ length sm.dfa
  pub few : length sm.dfa / sm.dfa_alphabet < 65535
  pub lookups : length sm.lookup ≡ 256
  pub classes_low : (c : ℕ) → c < 256 → 6 ≤ class_of sm c
  pub classes_high : (c : ℕ) → c < 256 → class_of sm c < sm.dfa_alphabet
  pub classes_byte : (c : ℕ) → c < 256 → class_of sm c < 262
  pub targets :
      (state column : ℕ) → 6 ≤ column → column < sm.dfa_alphabet → cell sm state column ≤ 2 ^ 16
  pub ids : (state : ℕ) → cell sm state 1 < 2 ^ 32

-- What the row of the graph for the state `suc row` says.
pub record IsGraphRow (sm : Internals) (graph : DfaGraph) (row : ℕ) : Type 0 where
  pub step :
      (c : ℕ)
      → c < 256
      → next_row graph (sm.dfa_alphabet * row) c
        ≡ ok (sm.dfa_alphabet * (cell sm (suc row) (class_of sm c) - 1))
  pub end_state : read graph.next_table (sm.dfa_alphabet * row) ≡ ok (u16 (cell sm (suc row) 0))
  pub match_id : row_match_id graph (sm.dfa_alphabet * row) ≡ ok (cell sm (suc row) 1)

table_from :
    (lookup xs : List ℕ) (left a : ℕ)
    → ((j : ℕ) → j < left → read xs j ≡ ok (u8 (get_or lookup (a + 1 + j) 0 + 2 ^ 16 - 6)))
    → (j : ℕ) → j < suc left
    → read (u8 (get_or lookup a 0 + 2 ^ 16 - 6) ∷ xs) j
      ≡ ok (u8 (get_or lookup (a + j) 0 + 2 ^ 16 - 6))
table_from lookup xs left a rest zero lt =
    ap (λ k. ok (u8 (get_or lookup k 0 + 2 ^ 16 - 6))) (sym (add-zero a))
table_from lookup xs left a rest (suc j) lt =
    let place : a + 1 + j ≡ a + suc j = omega arith in
    rest j (omega (arith, lt)) ∙ ap (λ k. ok (u8 (get_or lookup k 0 + 2 ^ 16 - 6))) place

alphabet_from_lem :
    (lookup : List ℕ) (left a : ℕ)
    → a + left ≤ length lookup
    → Returns
        (alphabet_from lookup left a)
        (λ xs. (j : ℕ) → j < left → read xs j ≡ ok (u8 (get_or lookup (a + j) 0 + 2 ^ 16 - 6)))
unfolding alphabet_from
alphabet_from_lem lookup zero a room = ([], refl, λ j lt. absurd (omega (arith, lt)))
alphabet_from_lem lookup (suc left) a room =
    let (xs, run, rest) = alphabet_from_lem lookup left (a + 1) (omega (arith, room)) in
    let x = get_or lookup a 0 in
    (
      u8 (x + 2 ^ 16 - 6) ∷ xs,
      rw (get_elem?-eq-get_or lookup a 0 (omega (arith, room)), run) refl,
      table_from lookup xs left a rest,
    )

get_or-drop : (xs : List ℕ) (n i : ℕ) → get_or (drop n xs) i 0 ≡ get_or xs (n + i) 0
get_or-drop xs zero i = ap (λ k. get_or xs k 0) (sym (zero-add i))
get_or-drop [] (suc n) i = refl
get_or-drop (x ∷ xs) (suc n) i =
    let place : suc n + i ≡ suc (n + i) = omega arith in
    get_or-drop xs n i ∙ ap (λ k. get_or (x ∷ xs) k 0) (sym place)

module _ (sm : Internals) (m : IsMachine sm) (row : ℕ) where
  size : ℕ
  size = sm.dfa_alphabet

  -- The place of a column of the row.
  place_mod : (column : ℕ) → column < size → (column + size * row) % size ≡ column
  unfolding size
  place_mod column h = add-mul-mod_self_left column size row ∙ mod-eq_of_lt h

  place_entry :
      (column : ℕ) → get_or (drop size sm.dfa) (column + size * row) 0 ≡ cell sm (suc row) column
  unfolding size
  place_entry column =
      let place : size + (column + size * row) ≡ size * suc row + column =
        omega (arith, mul-suc size row) in
      get_or-drop sm.dfa size (column + size * row) ∙ ap (λ k. get_or sm.dfa k 0) place

  -- What the graph is made of: its alphabet and its table, and the row inside the machine.
  module _ (alpha table : List ℕ)
      (bytes : (j : ℕ) → j < 256 → read alpha j ≡ ok (u8 (class_of sm j + 2 ^ 16 - 6)))
      (room : length sm.dfa ≤ length table)
      (placed : (j : ℕ)
        → j < length (drop size sm.dfa)
        → IsPlaced size j (get_or (drop size sm.dfa) j 0) table)
      (inside : size * suc row + size ≤ length sm.dfa) where
    at_column :
        (column : ℕ)
        → column < size
        → IsPlaced size (column + size * row) (cell sm (suc row) column) table
    unfolding size
    at_column column h =
        subst (λ e. IsPlaced size (column + size * row) e table) (place_entry column)
          (placed (column + size * row)
            (omega (arith, h, inside, mul-suc size row, length-drop size sm.dfa)))

    read_column :
        (column v : ℕ)
        → column < size
        → get_or table (column + size * row) 0 ≡ v
        → read table (column + size * row) ≡ ok v
    unfolding size
    read_column column v h e =
        rw
          (
            get_elem?-eq-get_or table (column + size * row) 0
                (omega (arith, h, inside, mul-suc size row, room)),
            e,
          )
          refl

    graph_row :
        IsGraphRow sm
          (record {
            state_num = u16 (length sm.dfa / size - 1);
            alphabet_size = u16 size;
            start_offset = dead_state_index;
            alphabet_table = alpha;
            next_table = table;
          })
          row
    unfolding size next_row row_match_id
    graph_row = record {
      step = λ c lt.
          let k = class_of sm c in
          let low = m.classes_low c lt in
          let high = m.classes_high c lt in
          let byte : u8 (k + 2 ^ 16 - 6) ≡ k - 6 = omega (arith, low, m.classes_byte c lt) in
          let place : size * row + (6 + (k - 6)) ≡ k + size * row = omega (arith, low) in
          let target = cell sm (suc row) k in
          let small : u16 (target - 1) ≡ target - 1 =
            omega (arith, m.targets (suc row) k low high) in
          let same : u16 size ≡ size = omega (arith, m.narrow) in
          let there : get_or table (k + size * row) 0 ≡ target - 1 =
            (at_column k high).transition (omega (arith, low, place_mod k high)) ∙ small in
          rw (bytes c lt, byte, place, read_column k (target - 1) high there, same) refl;
      end_state =
          let first : size * row ≡ 0 + size * row = omega arith in
          let value = u16 (cell sm (suc row) 0) in
          let column : 0 < size = omega (arith, m.columns) in
          ap (λ p. read table p) first
          ∙ read_column 0 value column
              ((at_column 0 column).low (omega (arith, place_mod 0 column)));
      match_id =
          let entry = cell sm (suc row) 1 in
          let column1 : 1 < size = omega (arith, m.columns) in
          let column2 : 2 < size = omega (arith, m.columns) in
          let place1 : size * row + 1 ≡ 1 + size * row = omega arith in
          let place2 : size * row + 2 ≡ 2 + size * row = omega arith in
          let next : 1 + size * row + 1 ≡ 2 + size * row = omega arith in
          let high : get_or table (2 + size * row) 0 ≡ u16 (entry / 2 ^ 16) =
            ap (λ p. get_or table p 0) (sym next)
            ∙ (at_column 1 column1).high (place_mod 1 column1)
                (ap (λ p. p % size) next ∙ place_mod 2 column2) in
          let low : get_or table (1 + size * row) 0 ≡ u16 entry =
            (at_column 1 column1).low (omega (arith, place_mod 1 column1)) in
          let both : u16 entry + u16 (entry / 2 ^ 16) * 2 ^ 16 ≡ entry =
            omega (arith, m.ids (suc row)) in
          rw
            (
              place1,
              read_column 1 (u16 entry) column1 low,
              place2,
              read_column 2 (u16 (entry / 2 ^ 16)) column2 high,
            )
            (ap ok both);
    }

-- For a machine as lexertl builds it (six columns and at least one of transitions, fewer than 2 ^ 16
-- columns, a row at least and fewer than 65535, a column of transitions, at most 261, for each byte,
-- transitions of at most 2 ^ 16 and numbers below 2 ^ 32; the user's numbers may be `npos`) and memory
-- for its table and one entry more: `reassemble` gives
-- a graph, and the row of the graph for each state behind state 0 steps with every byte to the row
-- of the machine's next state, or to row 0 where the machine has none, and holds its end flag and
-- its number.
pub reassemble-IsGraphRow :
    (sm : Internals) (entries : List ℕ)
    → IsMachine sm
    → length sm.dfa < length entries
    → Returns (reassemble (some entries) sm) (λ graph.
      (row : ℕ)
      → sm.dfa_alphabet * suc row + sm.dfa_alphabet ≤ length sm.dfa
      → IsGraphRow sm graph row)
unfolding reassemble size
reassemble-IsGraphRow sm entries m room =
    let (alpha, run, bytes) = alphabet_from_lem sm.lookup 256 0 (omega (arith, m.lookups)) in
    let (table, run', (width, others, second, placed)) =
      put_entries_lem sm.dfa_alphabet 0 (drop sm.dfa_alphabet sm.dfa) entries
        (omega (arith, room, length-drop sm.dfa_alphabet sm.dfa)) in
    let divides : (sm.dfa_alphabet == 0) ≡ false =
      ==_ne sm.dfa_alphabet 0 (λ e. omega (arith, e, m.columns)) in
    let long : ltb (length sm.dfa) sm.dfa_alphabet ≡ false = ground (arith, m.whole) in
    let few : ltb (length sm.dfa / sm.dfa_alphabet) 65535 ≡ true =
      lt→ltb (length sm.dfa / sm.dfa_alphabet) 65535 m.few in
    (
      record {
        state_num = u16 (length sm.dfa / sm.dfa_alphabet - 1);
        alphabet_size = u16 sm.dfa_alphabet;
        start_offset = dead_state_index;
        alphabet_table = alpha;
        next_table = table;
      },
      rw (divides, long, few, run, run') refl,
      λ row inside.
          graph_row sm m row alpha table
            (λ j lt.
              bytes j lt ∙ ap (λ k. ok (u8 (get_or sm.lookup k 0 + 2 ^ 16 - 6))) (zero-add j))
            (omega (arith, room, width))
            (λ j lt.
              subst
                (λ p. IsPlaced sm.dfa_alphabet p (get_or (drop sm.dfa_alphabet sm.dfa) j 0) table)
                (zero-add j) (placed j lt))
            inside,
    )
