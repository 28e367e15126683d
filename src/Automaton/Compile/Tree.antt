-- ===== src/Automaton/Compile/Tree.antt =====
-- The first part of `_acsmCompile2` makes a tree.
use orchid_linux.Base.{
  ℕ, ◌+◌, ◌<◌, ◌≤◌, ◌≡◌, refl, ap, sym, ◌∙◌, inl, inr, List, [], ◌∷◌, none, arith, length,
  length-replicate, length-set, get_or, get_or-replicate, replicate, All, IsIn, Returns, ◌^◌,
}
use mathlib.Core.Path.{subst}
use orchid_linux.Automaton.Types.{Acsm, Pattern, TransNode, acsm_fail_state}
use orchid_linux.Automaton.Lists.{find_key}
use orchid_linux.Automaton.Build.Trie.{child, IsTrie}
use orchid_linux.Automaton.Build.Patterns.{settings, add_pattern_states-Spells}
use orchid_linux.Automaton.Build.Dfa.{IsProper}
use orchid_linux.Automaton.Build.Words.{HasWords, child_inside}
use orchid_linux.Automaton.Build.Words.Patterns.{
  HasOnly, add_pattern_states-HasWords, add_pattern_states-HasOnly,
}
use orchid_linux.Automaton.Compile.{add_all_patterns, compile_states}
use orchid_linux.Automaton.Compile.Patterns.{
  total_bytes, new_tables-IsTrie, new_tables, compile_states_lem,
}
use orchid_linux.Automaton.Tree.{Tree}

-- The trie while the patterns of `all` go in.
pub record IsLoaded (inputs : ℕ) (all : List Pattern) (acsm : Acsm) : Type 0 where
  pub trie : IsTrie acsm
  pub words : HasWords inputs acsm
  pub only : HasOnly acsm all
  pub lists : length acsm.match_list ≡ length acsm.trans_table

-- The tree of its states.
abbrev pub tree_of : (inputs : ℕ) (acsm : Acsm) → IsTrie acsm → HasWords inputs acsm → Tree
tree_of inputs acsm t w = record {
  size = acsm.num_states + 1;
  inputs = inputs;
  height = acsm.num_states;
  child = child acsm;
  word = w.word;
  root_word = w.root_word;
  root_inside = omega arith;
  from_inside = λ s c n e. omega (arith, child_inside acsm s c n t e);
  to_inside = λ s c n e. omega (arith, (t.targets s c n e).1);
  to_state = λ s c n e. (t.targets s c n e).0;
  input_inside = w.input_inside;
  word_child = w.word_child;
  up = λ n inside other. w.up n (omega (arith, inside)) other;
  one_state = λ m n m_inside n_inside e.
      w.one_state m n (omega (arith, m_inside)) (omega (arith, n_inside)) e;
  low = λ n inside. omega (arith, inside, w.low n (omega (arith, inside)));
}

-- What the loop over the patterns leaves.
record IsLoadedFrom (inputs : ℕ) (all : List Pattern) (before : Acsm) (n : ℕ) (acsm : Acsm)
    : Type 0 where
  loaded : IsLoaded inputs all acsm
  settings_kept : settings acsm ≡ settings before
  grows : acsm.num_states ≤ before.num_states + n

HasOnly-all :
    (acsm : Acsm) (p : Pattern) (all : List Pattern)
    → IsIn p all
    → HasOnly acsm (p ∷ all)
    → HasOnly acsm all
HasOnly-all acsm p all i only state px h =
    let (known, spells) = only state px h in
    (elim known [ inl new ↦ subst (λ x. IsIn x all) (sym new) i | inr old ↦ old ], spells)

add_all_patterns-IsLoaded :
    (inputs : ℕ) (all ps : List Pattern) (acsm : Acsm)
    → IsLoaded inputs all acsm
    → acsm.num_states + total_bytes ps < length acsm.trans_table
    → length acsm.trans_table ≤ acsm_fail_state
    → All (λ p. All (λ c. c < inputs) p.patrn) ps
    → All (λ p. IsIn p all) ps
    → Returns (add_all_patterns ps acsm) (IsLoadedFrom inputs all acsm (total_bytes ps))
unfolding add_all_patterns
add_all_patterns-IsLoaded inputs all [] acsm l room short small known =
    (acsm, refl, record { loaded = l; settings_kept = refl; grows = omega arith })
add_all_patterns-IsLoaded inputs all (p ∷ ps) acsm l room short small known =
    let enough : acsm.num_states + length p.patrn < length acsm.trans_table = omega (arith, room) in
    let (a, run, (grown, q, spells, inside, listed)) =
      add_pattern_states-Spells acsm p l.trie enough short l.lists in
    let only = add_pattern_states-HasOnly acsm p a all l.trie enough short l.lists l.only run in
    let (a', run', l') =
      add_all_patterns-IsLoaded inputs all ps a
        (record {
          trie = grown.trie;
          words =
              add_pattern_states-HasWords inputs acsm p a l.trie l.words enough short l.lists
                small.0 run;
          only = HasOnly-all a p all known.0 only;
          lists =
              ap (λ l. length l) listed
              ∙ length-set acsm.match_list q (p ∷ get_or acsm.match_list q [])
              ∙ l.lists
              ∙ sym grown.width;
        })
        (omega (arith, room, grown.grows, grown.width)) (omega (arith, short, grown.width)) small.1
        known.1 in
    (
      a',
      rw run run',
      record {
        loaded = l'.loaded;
        settings_kept = l'.settings_kept ∙ grown.settings_kept;
        grows = omega (arith, l'.grows, grown.grows);
      },
    )

-- Before the first pattern there is state 0 alone.
pub new_tables-HasWords :
    (inputs : ℕ) (acsm : Acsm) (size : ℕ)
    → acsm.num_states ≡ 0
    → acsm.trans_table ≡ replicate size []
    → HasWords inputs acsm
unfolding find_key
new_tables-HasWords inputs acsm size none_yet tables =
    let lists : (state : ℕ) → get_or acsm.trans_table state [] ≡ [] =
      λ state. ap (λ ts. get_or ts state []) tables ∙ get_or-replicate size [] state in
    let nothing : (s c : ℕ) → child acsm s c ≡ none = λ s c. ap (λ ts. find_key ts c) (lists s) in
    record {
      word = λ n. [];
      root_word = refl;
      word_child = λ s c n e. absurd (cc (nothing s c, e));
      input_inside = λ s c n e. absurd (cc (nothing s c, e));
      up = λ n le other. absurd (omega (arith, le, none_yet, other));
      one_state = λ m n m_le n_le e. omega (arith, m_le, n_le, none_yet);
      low = λ n le. omega arith;
      proper = λ n.
          subst (λ ts. IsProper inputs ts) (sym (lists n)) (record { keys = tt; targets = tt });
    }

All-IsIn_self :
    (ps all : List Pattern) → ((p : Pattern) → IsIn p ps → IsIn p all) → All (λ p. IsIn p all) ps
All-IsIn_self [] all h = tt
All-IsIn_self (p ∷ ps) all h = (h p (inl refl), All-IsIn_self ps all (λ q i. h q (inr i)))

-- What the first part of the compilation leaves: one state more than the trie counts.
pub record IsCompiled (acsm a : Acsm) : Type 0 where
  pub tables : Acsm
  pub same : a ≡ record tables { num_states = tables.num_states + 1 }
  pub loaded : IsLoaded acsm.alphabet_size acsm.patterns tables
  pub settings_kept : settings tables ≡ settings acsm
  pub grows : tables.num_states ≤ total_bytes acsm.patterns

pub compile_states-IsCompiled :
    (acsm : Acsm)
    → acsm.max_states ≡ 0
    → All (λ p. p.n ≡ length p.patrn) acsm.patterns
    → All (λ p. All (λ c. c < acsm.alphabet_size) p.patrn) acsm.patterns
    → total_bytes acsm.patterns + 1 < 2 ^ 28
    → Returns (compile_states acsm) (IsCompiled acsm)
compile_states-IsCompiled acsm none_yet sizes small short =
    let max_states = total_bytes acsm.patterns + 1 in
    let start = new_tables acsm max_states in
    let width = length-replicate {A = List TransNode} max_states [] in
    let (a, run, l) =
      add_all_patterns-IsLoaded acsm.alphabet_size acsm.patterns acsm.patterns start
        (record {
          trie = new_tables-IsTrie start max_states refl refl (omega arith);
          words = new_tables-HasWords acsm.alphabet_size start max_states refl refl;
          only = λ state px i.
              absurd (
                subst (λ l. IsIn px l) (get_or-replicate {A = List Pattern} max_states [] state) i);
          lists = length-replicate {A = List Pattern} max_states [] ∙ sym width;
        })
        (omega (arith, width)) (omega (arith, width, short)) small
        (All-IsIn_self acsm.patterns acsm.patterns (λ p i. i)) in
    (
      record a { num_states = a.num_states + 1 },
      rw (compile_states_lem acsm none_yet sizes short, run) refl,
      record {
        tables = a;
        same = refl;
        loaded = l.loaded;
        settings_kept = l.settings_kept;
        grows = omega (arith, l.grows);
      },
    )
