-- ===== src/Automaton/Examples/Built.antt =====
-- Tests of what the compilation makes: the trie of one letter, and two applications.
use orchid_linux.Base.{
  ℕ, zero, suc, ◌<◌, ◌≢◌, refl, List, [], ◌∷◌, arith, get_or, get_or-replicate, replicate, All,
  Returns,
}
use orchid_linux.Base.CString.{codes}
use orchid_linux.Loader.Types.{AppEntryT}
use orchid_linux.Automaton.Types.{Acsm, Pattern, acf_banded, fsa_dfa}
use orchid_linux.Automaton.Lists.{find_key}
use orchid_linux.Automaton.Build.{build_nfa, convert_nfa_to_dfa}
use orchid_linux.Automaton.Build.Dfa.{HasTrie}
use orchid_linux.Automaton.Build.Dfa.Correct.{IsDfa, convert_nfa_to_dfa-IsDfa}
use orchid_linux.Automaton.Build.Nfa.{IsTreeOf}
use orchid_linux.Automaton.Build.Nfa.Correct.{IsNfa, build_nfa-IsNfa}
use orchid_linux.Automaton.Build.Trie.{IsTrie, with_state, with_state-IsTrie}
use orchid_linux.Automaton.Build.Words.{HasWords, with_state-HasWords}
use orchid_linux.Automaton.Compile.{acsm_compile, sig_parse_adapter_ac}
use orchid_linux.Automaton.Compile.Adapter.{IsText}
use orchid_linux.Automaton.Compile.Finds.{IsCompilable, IsMatcher}
use orchid_linux.Automaton.Compile.Matcher.{acsm_compile-IsMatcher}
use orchid_linux.Automaton.Compile.Patterns.{new_tables-IsTrie}
use orchid_linux.Automaton.Compile.Tree.{tree_of, new_tables-HasWords}
use orchid_linux.Automaton.Compile.Whole.{IsAppMatcher, sig_parse_adapter_ac-IsAppMatcher}
use orchid_linux.Automaton.Tree.{Tree}
use orchid_linux.Automaton.Tree.Longest.{IsFailure, first-IsFailure}

abbrev capital_a : Pattern
capital_a = record {
  patrn = 65 ∷ [];
  casepatrn = 65 ∷ [];
  n = 1;
  nocase = 1;
  offset = 0;
  depth = 0;
  negative = 0;
  udata = 4096;
  iid = 10;
}

-- State 0 alone, with room for two more.
abbrev no_letters : Acsm
no_letters = record {
  max_states = 3;
  num_states = 0;
  patterns = capital_a ∷ [];
  fail_state = replicate 2 0;
  match_list = [] ∷ (capital_a ∷ []) ∷ [];
  trans_table = replicate 3 [];
  next_state = [];
  format = acf_banded;
  sparse_max_row_nodes = 256;
  sparse_max_zcnt = 10;
  num_trans = 0;
  alphabet_size = 256;
  fsa = fsa_dfa;
  num_patterns = 1;
  sizeofstate = 4;
  compress_states = 0;
}

no_letters-IsTrie : IsTrie no_letters
no_letters-IsTrie = new_tables-IsTrie no_letters 3 refl refl (omega arith)

-- The letter A leads from state 0 to state 1.
abbrev one_state_more : Acsm
one_state_more = with_state no_letters 0 65

one_state_more-IsTrie : IsTrie one_state_more
one_state_more-IsTrie =
    with_state-IsTrie no_letters 0 65 no_letters-IsTrie (omega arith) (omega arith) (omega arith)

one_state_more-HasWords : HasWords 256 one_state_more
unfolding find_key
one_state_more-HasWords =
    with_state-HasWords 256 no_letters no_letters-IsTrie
      (new_tables-HasWords 256 no_letters 3 refl refl) 0 65 (omega arith) refl (omega arith)
      (omega arith)

abbrev two_states : Tree
two_states = tree_of 256 one_state_more one_state_more-IsTrie one_state_more-HasWords

two_states-IsTreeOf : IsTreeOf one_state_more two_states
two_states-IsTreeOf = record {
  same = λ s c. refl;
  alphabet = refl;
  listed = omega arith;
  matching = omega arith;
  failing = omega arith;
  no_failure = λ n. get_or-replicate {A = ℕ} 2 0 n;
  no_root_match = refl;
  small = omega arith;
}

build_nfa-IsNfa_example : Returns (build_nfa 3 one_state_more) (IsNfa one_state_more two_states)
build_nfa-IsNfa_example =
    build_nfa-IsNfa one_state_more two_states two_states-IsTreeOf 3 (omega arith)

two_states-IsFailure :
    (n : ℕ) → n < 2 → n ≢ 0 → IsFailure two_states n (get_or one_state_more.fail_state n 0)
unfolding find_key
two_states-IsFailure zero h other = absurd (other refl)
two_states-IsFailure (suc zero) h other = first-IsFailure two_states 65 1 refl
two_states-IsFailure (suc (suc n)) h other = absurd (omega (arith, h))

two_states-HasTrie : HasTrie one_state_more two_states
two_states-HasTrie = record {
  same = λ s c. refl;
  alphabet = refl;
  listed = omega arith;
  failing = omega arith;
  small = omega arith;
  failure = λ n h other. two_states-IsFailure n (omega (arith, h)) other;
  proper = one_state_more-HasWords.proper;
}

convert_nfa_to_dfa-IsDfa_example :
    Returns (convert_nfa_to_dfa 1 one_state_more) (IsDfa one_state_more two_states)
convert_nfa_to_dfa-IsDfa_example =
    convert_nfa_to_dfa-IsDfa one_state_more two_states two_states-HasTrie 1 (omega arith)

-- Before the compilation there is the pattern alone.
abbrev one_pattern : Acsm
one_pattern = record no_letters {
  max_states = 0;
  fail_state = [];
  match_list = [];
  trans_table = [];
}

one_pattern-IsCompilable : IsCompilable one_pattern
one_pattern-IsCompilable = record {
  new = refl;
  sizes = (refl, tt);
  letters = ((omega arith, tt), tt);
  nonempty = ((λ e. absurd (cc e)), tt);
  few = omega arith;
  alphabet = omega arith;
  dfa = refl;
  banded = refl;
  wide = refl;
}

acsm_compile-IsMatcher_example : Returns (acsm_compile 3 one_pattern) (IsMatcher one_pattern)
acsm_compile-IsMatcher_example =
    acsm_compile-IsMatcher 3 one_pattern one_pattern-IsCompilable (omega arith)

-- Two applications, of which the text of the second one ends that of the first one.
abbrev two_apps : List AppEntryT
two_apps =
    record { app_id = 10; regex = codes "ab" } ∷ record { app_id = 20; regex = codes "B" } ∷ []

two_apps-IsText : All IsText two_apps
two_apps-IsText = (
  record { nonempty = λ e. absurd (cc e); bytes = (omega arith, (omega arith, tt)) },
  (record { nonempty = λ e. absurd (cc e); bytes = (omega arith, tt) }, tt),
)

sig_parse_adapter_ac-IsAppMatcher_example :
    Returns
      (sig_parse_adapter_ac 7 (λ app. app.app_id) two_apps)
      (IsAppMatcher (λ app. app.app_id) two_apps)
sig_parse_adapter_ac-IsAppMatcher_example =
    sig_parse_adapter_ac-IsAppMatcher 7 (λ app. app.app_id) two_apps two_apps-IsText (omega arith)
      (omega arith)
