-- ===== src/Automaton/Compile/Matcher.antt =====
-- What the compiled automaton finds.
use orchid_linux.Base.{
  ℕ, ◌+◌, ◌*◌, ◌<◌, ◌≤◌, ◌≡◌, ◌↔◌, ap, sym, ◌∙◌, List, [], ◌∷◌, map, arith, get_or, All, All-IsIn,
  IsIn, Returns,
}
use mathlib.Core.Path.{subst}
use mathlib.Core.List.{reverse}
use orchid_linux.Automaton.Types.{Acsm, Pattern}
use orchid_linux.Automaton.Lists.{free_trans_table}
use orchid_linux.Automaton.Build.Nfa.{with_lists}
use orchid_linux.Automaton.Build.Dfa.{with_rows}
use orchid_linux.Automaton.Compile.{xlatcase, acsm_compile}
use orchid_linux.Automaton.Compile.Correct.{IsRun, Spells-inside, acsm_compile-IsRun}
use orchid_linux.Automaton.Compile.Finds.{
  IsCompilable, IsMatcher, state_after-IsLongest, EndsAt-EndsWith, EndsWith-EndsAt,
}
use orchid_linux.Automaton.Compile.Patterns.{HasPattern, total_bytes}
use orchid_linux.Automaton.Compile.Ready.{prepared, next_of-target}
use orchid_linux.Automaton.Compile.Tree.{tree_of}
use orchid_linux.Automaton.Rows.Transitions.{next_of}
use orchid_linux.Automaton.Search.Runs.{state_after, lists_of}
use orchid_linux.Automaton.Tree.Ends.{EndsWith}
use orchid_linux.Automaton.Tree.Longest.{IsLongest, root-IsLongest}

module _ (rounds : ℕ) (acsm : Acsm) (h : IsCompilable acsm) (r : IsRun rounds acsm) where
  run_next : ℕ → ℕ → ℕ
  run_next = next_of (
      with_rows (with_lists (prepared r.tables) r.is_nfa.fails r.is_nfa.lists) r.is_dfa.rows
        r.is_dfa.count)

  -- The lists of the result.
  run_lists : (n : ℕ) → lists_of (free_trans_table r.rows) n ≡ get_or r.is_nfa.lists n []
  unfolding free_trans_table
  run_lists n = ap (λ a. get_or a.match_list n []) r.is_table.same

  run_state :
      (text : List ℕ)
      → All (λ c. c < acsm.alphabet_size) (map xlatcase text)
      → IsLongest
          (tree_of acsm.alphabet_size r.tables r.loaded.trie r.loaded.words)
          (reverse (map xlatcase text))
          (state_after run_next 0 text)
  unfolding run_next
  run_state text low =
      let t = tree_of acsm.alphabet_size r.tables r.loaded.trie r.loaded.words in
      let nfa = with_lists (prepared r.tables) r.is_nfa.fails r.is_nfa.lists in
      state_after-IsLongest t run_next
        (λ n c inside c_low.
          subst (λ q. IsLongest t (c ∷ r.loaded.words.word n) q)
            (sym (next_of-target nfa r.is_dfa.rows r.is_dfa.count n c))
            (r.is_dfa.full n c inside c_low))
        text [] 0 low (root-IsLongest t)

  run_finds :
      (text : List ℕ) (px : Pattern)
      → All (λ c. c < acsm.alphabet_size) (map xlatcase text)
      → IsIn px (lists_of (free_trans_table r.rows) (state_after run_next 0 text))
        ↔ (IsIn px acsm.patterns × EndsWith (map xlatcase text) px.patrn)
  run_finds text px low =
      let n = state_after run_next 0 text in
      let long = run_state text low in
      let matches = r.is_nfa.matches n long.inside in
      (
        λ i.
            EndsAt-EndsWith acsm.alphabet_size acsm.patterns r.tables r.loaded px n
              (map xlatcase text) long (matches.only px (subst (λ ps. IsIn px ps) (run_lists n) i)),
        λ both.
            let (m, spells, i) = All-IsIn (HasPattern r.tables) acsm.patterns px r.has both.0 in
            subst (λ ps. IsIn px ps) (sym (run_lists n))
              (matches.every px (
                EndsWith-EndsAt acsm.alphabet_size acsm.patterns r.tables r.loaded px n m
                  (map xlatcase text) long spells
                  (omega
                    (arith, Spells-inside r.tables 0 m px.patrn r.loaded.trie (omega arith) spells))
                  i both.1)),
      )

  run-IsMatcher : IsMatcher acsm (free_trans_table r.rows)
  unfolding free_trans_table run_next
  run-IsMatcher =
      let kind : r.tables.fsa ≡ acsm.fsa = cc r.settings_kept in
      let format : r.tables.format ≡ acsm.format = cc r.settings_kept in
      record {
        size = r.tables.num_states + 1;
        next = run_next;
        table = r.is_table.table;
        some_state = omega arith;
        dfa = ap (λ a. a.fsa) r.is_table.same ∙ kind ∙ h.dfa;
        banded = ap (λ a. a.format) r.is_table.same ∙ format ∙ h.banded;
        finds = run_finds;
      }

-- Before it is compiled, for patterns of at least one byte, with as many bytes as they say, fewer
-- than 2 ^ 28 - 1 in all and each below the alphabet's size, which is at most 256, with the settings
-- of the deterministic automaton, banded rows and states of 4 bytes, and with rounds for twice the
-- bytes and one: the compilation returns. Then the search on its rows is, after each text whose
-- capitals are below the alphabet's size, in a state whose list has a pattern if and only if the
-- pattern was added and its bytes end the text in capitals.
pub acsm_compile-IsMatcher :
    (rounds : ℕ) (acsm : Acsm)
    → IsCompilable acsm
    → 2 * total_bytes acsm.patterns + 1 ≤ rounds
    → Returns (acsm_compile rounds acsm) (IsMatcher acsm)
unfolding free_trans_table
acsm_compile-IsMatcher rounds acsm h fuel =
    let r = acsm_compile-IsRun rounds acsm h fuel in
    (free_trans_table r.rows, r.result, run-IsMatcher rounds acsm h r)
