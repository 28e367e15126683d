-- ===== src/Automaton/Types.antt =====
-- The records and constants of acsmx2.h.
use orchid_linux.Base.{ℕ, List}

abbrev pub max_alphabet_size : ℕ
max_alphabet_size = 256

-- ACSM_FAIL_STATE2, with AC32.
abbrev pub acsm_fail_state : ℕ
acsm_fail_state = 0xffff_ffff

-- The storage formats.
abbrev pub acf_full : ℕ
acf_full = 0

abbrev pub acf_sparse : ℕ
acf_sparse = 1

abbrev pub acf_banded : ℕ
acf_banded = 2

abbrev pub acf_sparsebands : ℕ
acf_sparsebands = 3

abbrev pub acf_fullq : ℕ
acf_fullq = 4

-- The kinds of machine.
abbrev pub fsa_trie : ℕ
fsa_trie = 0

abbrev pub fsa_nfa : ℕ
fsa_nfa = 1

abbrev pub fsa_dfa : ℕ
fsa_dfa = 2

-- `ACSM_PATTERN2`; `udata` is the address of the text, as a number. The fields `rule_option_tree`
-- and `neg_list` are null pointers in this program.
pub record Pattern : Type 0 where
  pub patrn : List ℕ
  pub casepatrn : List ℕ
  pub n : ℕ
  pub nocase : ℕ
  pub offset : ℕ
  pub depth : ℕ
  pub negative : ℕ
  pub udata : ℕ
  pub iid : ℕ

-- `trans_node_t`.
pub record TransNode : Type 0 where
  pub key : ℕ
  pub next_state : ℕ

-- `ACSM_STRUCT2`, without the callbacks that free memory.
pub record Acsm : Type 0 where
  pub max_states : ℕ
  pub num_states : ℕ
  pub patterns : List Pattern
  pub fail_state : List ℕ
  pub match_list : List (List Pattern)
  pub trans_table : List (List TransNode)
  pub next_state : List (List ℕ)
  pub format : ℕ
  pub sparse_max_row_nodes : ℕ
  pub sparse_max_zcnt : ℕ
  pub num_trans : ℕ
  pub alphabet_size : ℕ
  pub fsa : ℕ
  pub num_patterns : ℕ
  pub sizeofstate : ℕ
  pub compress_states : ℕ
