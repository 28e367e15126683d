-- ===== src/Automaton/Compile/Correct.antt =====
-- `_acsmCompile2` as a whole.
use orchid_linux.Base.{
  ℕ, ◌+◌, ◌*◌, ◌<◌, ◌≤◌, ◌≡◌, ap, sym, ◌∙◌, List, [], ◌∷◌, true, ◌==◌, arith, length-replicate,
  get_or, All, All-map, ok, ok_injective, ◌>>=◌, bind_assoc,
}
use mathlib.Core.Path.{subst}
use native.Mathlib.Decide.{dec_lt}
use orchid_linux.Automaton.Types.{Acsm, Pattern, acsm_fail_state, fsa_dfa}
use orchid_linux.Automaton.Lists.{free_trans_table}
use orchid_linux.Automaton.Build.Trie.{Spells, Spells-Extends}
use orchid_linux.Automaton.Build.Nfa.{with_lists}
use orchid_linux.Automaton.Build.Nfa.Correct.{IsNfa, build_nfa-IsNfa}
use orchid_linux.Automaton.Build.Dfa.{IsProper, target_of, with_rows}
use orchid_linux.Automaton.Build.Dfa.Correct.{IsDfa, convert_nfa_to_dfa-IsDfa}
use orchid_linux.Automaton.Build.Patterns.{settings}
use orchid_linux.Automaton.Compile.{compile_states, compile_rows, update_match_states, acsm_compile}
use orchid_linux.Automaton.Compile.Patterns.{HasPattern, total_bytes, compile_states-HasPattern}
use orchid_linux.Automaton.Compile.Ready.{
  prepared, prepared-IsTreeOf, IsNfa-HasTrie, IsDfa-IsConvertible, next_of-target,
  size_of_state_wide,
}
use orchid_linux.Automaton.Compile.Table.{IsTableOf, compile_rows-IsTable}
use orchid_linux.Automaton.Compile.Tree.{IsLoaded, IsCompiled, tree_of, compile_states-IsCompiled}
use orchid_linux.Automaton.Rows.Transitions.{next_of, find_key-beyond}
use orchid_linux.Automaton.Tree.{Tree}
use orchid_linux.Automaton.Compile.Finds.{IsCompilable}
use orchid_linux.Automaton.Build.Trie.{IsTrie, stays, moves}

-- A text leads to a state.
pub Spells-inside :
    (acsm : Acsm) (s n : ℕ) (text : List ℕ)
    → IsTrie acsm
    → s ≤ acsm.num_states
    → Spells acsm s text n
    → n ≤ acsm.num_states
Spells-inside acsm s n [] t inside stays = inside
Spells-inside acsm s n (c ∷ text) t inside (moves {next = next} h rest) =
    Spells-inside acsm next n text t (t.targets s c next h).1 rest

-- The last parts of `_acsmCompile2`.
rows_and_flags :
    (d f : Acsm)
    → (compile_rows d >>= λ a. update_match_states a.num_states 0 a) ≡ ok f
    → (compile_rows d >>= λ e.
        update_match_states e.num_states 0 e >>= λ f. ok (free_trans_table f))
      ≡ ok (free_trans_table f)
rows_and_flags d f e =
    sym (
      bind_assoc (compile_rows d) (λ e. update_match_states e.num_states 0 e)
        (λ f. ok (free_trans_table f)))
    ∙ ap (λ run. run >>= λ f. ok (free_trans_table f)) e

-- The parts of a compilation one after the other.
pub record IsRun (rounds : ℕ) (acsm : Acsm) : Type 0 where
  pub tables : Acsm
  pub loaded : IsLoaded acsm.alphabet_size acsm.patterns tables
  pub settings_kept : settings tables ≡ settings acsm
  pub few : tables.num_states + 1 ≤ acsm_fail_state
  pub has : All (HasPattern tables) acsm.patterns
  pub nfa : Acsm
  pub is_nfa :
      IsNfa (prepared tables) (tree_of acsm.alphabet_size tables loaded.trie loaded.words) nfa
  pub dfa : Acsm
  pub is_dfa :
      IsDfa
        (with_lists (prepared tables) is_nfa.fails is_nfa.lists)
        (tree_of acsm.alphabet_size tables loaded.trie loaded.words)
        dfa
  pub rows : Acsm
  pub is_table :
      IsTableOf
        (with_rows
          (with_lists (prepared tables) is_nfa.fails is_nfa.lists)
          is_dfa.rows
          is_dfa.count)
        rows
  pub result : acsm_compile rounds acsm ≡ ok (free_trans_table rows)

-- The number of states says nothing on the patterns.
uncounted :
    (tables : Acsm) (px : Pattern)
    → HasPattern (record tables { num_states = tables.num_states + 1 }) px
    → HasPattern tables px
uncounted tables px (state, spells, i) = (
  state,
  Spells-Extends (record tables { num_states = tables.num_states + 1 }) tables 0 px.patrn state
      (λ s c n e. e) spells,
  i,
)

-- The transitions lead to states, an input that is none to state 0.
pub next_of-inside :
    (nfa : Acsm) (t : Tree) (dfa : Acsm) (d : IsDfa nfa t dfa) (n c : ℕ)
    → nfa.alphabet_size ≡ t.inputs
    → n < t.size
    → next_of (with_rows nfa d.rows d.count) n c < t.size
next_of-inside nfa t dfa d n c alphabet inside =
    let same = next_of-target nfa d.rows d.count n c in
    elim (dec_lt c t.inputs) [
      | yes low ↦ omega (arith, same, (d.full n c inside low).inside)
      | no high ↦
          let absent =
            find_key-beyond nfa.alphabet_size (get_or d.rows n []) c (d.proper n).keys
              (omega (arith, high, alphabet)) in
          omega (arith, same, ap target_of absent, t.root_inside)
    ]

module _ (rounds : ℕ) (acsm : Acsm) (h : IsCompilable acsm) where
  -- The parts behind the trie.
  compiled-IsRun :
      (a : Acsm)
      → compile_states acsm ≡ ok a
      → (c : IsCompiled acsm a) → All (HasPattern a) acsm.patterns
      → 2 * total_bytes acsm.patterns + 1 ≤ rounds
      → IsRun rounds acsm
  unfolding acsm_compile
  compiled-IsRun a run1 c has fuel =
      let tables = c.tables in
      let base = prepared tables in
      let t = tree_of acsm.alphabet_size tables c.loaded.trie c.loaded.words in
      let alphabet : tables.alphabet_size ≡ acsm.alphabet_size = cc c.settings_kept in
      let kind : tables.fsa ≡ acsm.fsa = cc c.settings_kept in
      let format : tables.format ≡ acsm.format = cc c.settings_kept in
      let compress : tables.compress_states ≡ acsm.compress_states = cc c.settings_kept in
      let few : tables.num_states + 1 ≤ acsm_fail_state = omega (arith, c.grows, h.few) in
      let b =
        prepared-IsTreeOf acsm.alphabet_size acsm.patterns tables c.loaded alphabet h.nonempty
          few in
      let (nfa, run2, n) = build_nfa-IsNfa base t b rounds (omega (arith, c.grows, fuel)) in
      let proper : (m : ℕ) → IsProper tables.alphabet_size (get_or tables.trans_table m []) = λ m.
        subst (λ size. IsProper size (get_or tables.trans_table m [])) (sym alphabet)
          (c.loaded.words.proper m) in
      let nfa' = with_lists base n.fails n.lists in
      let (dfa, run3, d) =
        convert_nfa_to_dfa-IsDfa nfa' t (IsNfa-HasTrie base t nfa b proper n) rounds
          (omega (arith, c.grows, fuel)) in
      let dfa' = with_rows nfa' d.rows d.count in
      let wide : nfa'.sizeofstate ≡ 4 =
        size_of_state_wide (record tables { num_states = tables.num_states + 1 })
          (compress ∙ h.wide) in
      let (f, run4, table) =
        compile_rows-IsTable dfa' (IsDfa-IsConvertible nfa' d.rows d.count d.proper wide)
          (format ∙ h.banded) (omega (arith, alphabet, h.alphabet))
          (omega (arith, d.width, c.loaded.trie.room))
          (omega (arith, length-replicate {A = List ℕ} (tables.num_states + 1) []))
          (omega (arith, n.lists_length, c.loaded.trie.room, c.loaded.lists))
          (λ m i inside. next_of-inside nfa' t dfa d m i alphabet inside) in
      let is_dfa : (tables.fsa == fsa_dfa) ≡ true = ap (λ k. k == fsa_dfa) (kind ∙ h.dfa) in
      record {
        tables = tables;
        loaded = c.loaded;
        settings_kept = c.settings_kept;
        few = few;
        has =
            All-map (uncounted tables) acsm.patterns
              (subst (λ x. All (HasPattern x) acsm.patterns) c.same has);
        nfa = nfa;
        is_nfa = n;
        dfa = dfa;
        is_dfa = d;
        rows = f;
        is_table = table;
        result =
            rw (run1 ∙ ap ok c.same, is_dfa, run2 ∙ ap ok n.same, is_dfa, run3 ∙ ap ok d.same)
              (rows_and_flags dfa' f run4);
      }

  pub acsm_compile-IsRun : 2 * total_bytes acsm.patterns + 1 ≤ rounds → IsRun rounds acsm
  acsm_compile-IsRun fuel =
      let (a, run1, c) = compile_states-IsCompiled acsm h.new h.sizes h.letters h.few in
      let (a2, run2, has) = compile_states-HasPattern acsm h.new h.sizes h.few in
      compiled-IsRun a run1 c
        (subst (λ x. All (HasPattern x) acsm.patterns) (ok_injective (sym run2 ∙ run1)) has) fuel
