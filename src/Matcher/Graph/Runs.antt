-- ===== src/Matcher/Graph/Runs.antt =====
-- `dfaSearch` is the run of the automaton that the table holds.
use orchid_linux.Base.{
  ℕ, ◌+◌, ◌*◌, ◌<◌, ◌≤◌, ◌≡◌, refl, List, [], ◌∷◌, ok, arith, length, get_or, get_elem?-eq-get_or,
  All, read, ◌==◌, if◌then◌else◌, Bool, true, false, Run,
}
use orchid_linux.Matcher.Graph.{DfaGraph, next_row, search_from, dfa_search}

-- The next state of state `q` at a byte.
abbrev pub delta : DfaGraph → ℕ → ℕ → ℕ
delta g q c =
    get_or g.next_table (g.alphabet_size * q + (g.start_offset + get_or g.alphabet_table c 0)) 0

-- Whether a state is an end state, and the number that it reports.
abbrev pub end_flag : DfaGraph → ℕ → ℕ
end_flag g q = get_or g.next_table (g.alphabet_size * q) 0

abbrev pub reported_id : DfaGraph → ℕ → ℕ
reported_id g q = get_or g.next_table (g.alphabet_size * q + 1) 0

-- The number of the first end state on the run from state `q`; 0 where there is none.
abbrev pub first_match : DfaGraph → ℕ → List ℕ → ℕ
first_match g q [] = 0
first_match g q (c ∷ text) =
    if end_flag g (delta g q c) == 0
    then first_match g (delta g q c) text
    else reported_id g (delta g q c)

-- A table whose rows have the alphabet's width, and whose transitions go to its states.
pub record IsGraph (g : DfaGraph) : Type 0 where
  pub wide : 2 ≤ g.alphabet_size
  pub rows :
      (q i : ℕ)
      → q < g.state_num
      → i < g.alphabet_size
      → g.alphabet_size * q + i < length g.next_table
  pub bytes : length g.alphabet_table ≡ 256
  pub columns : (c : ℕ) → c < 256 → g.start_offset + get_or g.alphabet_table c 0 < g.alphabet_size
  pub closed : (q c : ℕ) → q < g.state_num → c < 256 → delta g q c < g.state_num

read_at : (xs : List ℕ) (i : ℕ) → i < length xs → read xs i ≡ ok (get_or xs i 0)
read_at xs i h = rw (get_elem?-eq-get_or xs i 0 h)

next_row-delta :
    (g : DfaGraph) (q c : ℕ)
    → IsGraph g
    → q < g.state_num
    → c < 256
    → next_row g (g.alphabet_size * q) c ≡ ok (g.alphabet_size * delta g q c)
unfolding next_row
next_row-delta g q c graph hq hc = rw (
  read_at g.alphabet_table c (omega (arith, graph.bytes)),
  read_at g.next_table (g.alphabet_size * q + (g.start_offset + get_or g.alphabet_table c 0))
      (graph.rows q (g.start_offset + get_or g.alphabet_table c 0) hq (graph.columns c hc)),
)

ok_if : (b : Bool) (x y : ℕ) → ◌≡◌ {A = Run ℕ} (if b then ok x else ok y) (ok (if b then x else y))
ok_if true x y = refl
ok_if false x y = refl

search_from-first_match :
    (g : DfaGraph) (q : ℕ) (text : List ℕ)
    → IsGraph g
    → q < g.state_num
    → All (λ c. c < 256) text
    → search_from g (g.alphabet_size * q) text ≡ ok (first_match g q text)
unfolding search_from
search_from-first_match g q [] graph hq hs = refl
search_from-first_match g q (c ∷ text) graph hq hs =
    let q' = delta g q c in
    let hq' = graph.closed q c hq hs.0 in
    let flag = graph.rows q' 0 hq' (omega (arith, graph.wide)) in
    rw
      (
        next_row-delta g q c graph hq hs.0,
        read_at g.next_table (g.alphabet_size * q') (omega (arith, flag)),
        read_at g.next_table (g.alphabet_size * q' + 1)
            (graph.rows q' 1 hq' (omega (arith, graph.wide))),
        search_from-first_match g q' text graph hq' hs.1,
      )
      (ok_if (end_flag g q' == 0) (first_match g q' text) (reported_id g q'))

-- On a table with a state, whose transitions stay in it, and on a text of bytes, `dfaSearch` makes
-- no access outside the table, and its result is the number of the first end state that the automaton reaches, and 0 without one.
pub dfa_search-first_match :
    (g : DfaGraph) (text : List ℕ)
    → IsGraph g
    → 0 < g.state_num
    → All (λ c. c < 256) text
    → dfa_search g text ≡ ok (first_match g 0 text)
unfolding dfa_search
dfa_search-first_match g text graph some_state bytes =
    let start : g.alphabet_size * 0 ≡ 0 = omega arith in
    rw start at (search_from-first_match g 0 text graph some_state bytes)
