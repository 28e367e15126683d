-- ===== src/Automaton/Compile.antt =====
-- The automaton from new to compiled: `acsmNew2`, `acsmAddPattern2`, `acsmCompile2`, and the calls of
-- them in `sig_parse_adapter_ac`.
--
-- The callbacks that build trees are null pointers in this program, so `acsmCompile2` calls none. The
-- statistics of `summary` and what is printed are not modelled.
pub mod Transitions
pub mod Flags
pub mod Table
pub mod Patterns
pub mod Tree
pub mod Ready
pub mod Finds
pub mod Correct
pub mod Matcher
pub mod Adapter
pub mod Whole
use orchid_linux.Base.{
  ℕ, zero, suc, ◌+◌, Bool, true, false, ◌&&◌, ◌||◌, List, [], ◌∷◌, ◌==◌, ltb, leb, if◌then◌else◌,
  length, map, replicate, Run, ok, ◌>>=◌, read, write, ◌-◌, u32, ◌*◌, ◌/◌, ◌^◌, fault, Fault,
}
use orchid_linux.Loader.Types.{AppEntryT}
use orchid_linux.Automaton.Types.{
  Acsm, Pattern, acf_full, acf_sparse, acf_banded, acf_sparsebands, acf_fullq, fsa_nfa, fsa_dfa,
  max_alphabet_size,
}
use orchid_linux.Automaton.Lists.{free_trans_table}
use orchid_linux.Automaton.Build.{add_pattern_states, build_nfa, convert_nfa_to_dfa}
use orchid_linux.Automaton.Rows.{
  conv_list_to_full, conv_full_dfa_to_sparse, conv_full_dfa_to_banded,
  conv_full_dfa_to_sparse_bands,
}

-- `xlatcase`, with `toupper` of the C locale.
unfoldable pub xlatcase : ℕ → ℕ
xlatcase c = if leb b'a' c && leb c b'z' then c - 32 else c

-- `ConvertCaseEx`.
unfoldable pub convert_case : List ℕ → List ℕ
convert_case s = map xlatcase s

-- `acsmNew2`.
unfoldable pub acsm_new : Acsm
acsm_new = record {
  max_states = 0;
  num_states = 0;
  patterns = [];
  fail_state = [];
  match_list = [];
  trans_table = [];
  next_state = [];
  format = acf_full;
  sparse_max_row_nodes = 256;
  sparse_max_zcnt = 10;
  num_trans = 0;
  alphabet_size = 256;
  fsa = fsa_dfa;
  num_patterns = 0;
  sizeofstate = 0;
  compress_states = 0;
}

-- `acsmSelectFormat2`, `acsmSelectFSA2` and `acsmSetAlphabetSize2`; the flag says whether they
-- return 0.
unfoldable pub acsm_select_format : Acsm → ℕ → Bool × Acsm
acsm_select_format acsm m =
    if leb m acf_fullq then (true, record acsm { format = m }) else (false, acsm)

-- Each case falls through to the default, so it never returns 0.
unfoldable pub acsm_select_fsa : Acsm → ℕ → Bool × Acsm
acsm_select_fsa acsm m = if leb m fsa_dfa then (false, record acsm { fsa = m }) else (false, acsm)

unfoldable pub acsm_set_alphabet_size : Acsm → ℕ → Bool × Acsm
acsm_set_alphabet_size acsm n =
    if leb n max_alphabet_size then (true, record acsm { alphabet_size = n }) else (false, acsm)

unfoldable pub acsm_set_max_sparse_band_zeros : Acsm → ℕ → Acsm
acsm_set_max_sparse_band_zeros acsm n = record acsm { sparse_max_zcnt = n }

unfoldable pub acsm_set_max_sparse_elements : Acsm → ℕ → Acsm
acsm_set_max_sparse_elements acsm n = record acsm { sparse_max_row_nodes = n }

unfoldable pub acsm_compress_states : Acsm → ℕ → Acsm
acsm_compress_states acsm flag = record acsm { compress_states = flag }

-- `acsmAddPattern2`; `pat` stands at the address `address`.
unfoldable pub acsm_add_pattern : Acsm → List ℕ → ℕ → ℕ → ℕ → ℕ → ℕ → ℕ → Acsm
unfolding convert_case
acsm_add_pattern p pat address nocase offset depth negative iid =
    let plist : Pattern = record {
      patrn = convert_case pat;
      casepatrn = pat;
      n = length pat;
      nocase = nocase;
      offset = offset;
      depth = depth;
      negative = negative;
      udata = address;
      iid = iid;
    } in
    record p { patterns = plist ∷ p.patterns; num_patterns = u32 (p.num_patterns + 1) }

-- `acsmAddKey2`.
unfoldable pub acsm_add_key : Acsm → List ℕ → ℕ → Acsm
acsm_add_key p key nocase =
    let plist : Pattern = record {
      patrn = key;
      casepatrn = key;
      n = length key;
      nocase = nocase;
      offset = 0;
      depth = 0;
      negative = 0;
      udata = 0;
      iid = 0;
    } in
    record p { patterns = plist ∷ p.patterns }

-- The loop that counts the possible states, an `int`: its 32-bit word.
unfoldable pub count_states : List Pattern → ℕ → ℕ
count_states [] max_states = max_states
count_states (plist ∷ rest) max_states = count_states rest (u32 (max_states + plist.n))

-- The loop over the patterns.
unfoldable pub add_all_patterns : List Pattern → Acsm → Run Acsm
add_all_patterns [] acsm = ok acsm
add_all_patterns (plist ∷ rest) acsm = add_pattern_states acsm plist >>= add_all_patterns rest

-- The pointers for which `AC_MALLOC (sizeof (pointer) * max_states)` has room: its argument is an
-- `int`, and one below 0 is a size of more than 2 ^ 63 bytes, which `calloc` refuses.
unfoldable pub pointer_room : ℕ → Run ℕ
pointer_room max_states =
    let n = u32 (8 * max_states) in if ltb n (2 ^ 31) then ok (n / 8) else fault Fault.null_pointer

-- The allocation of the two lists and the loop over the patterns, up to the states' number.
unfoldable pub compile_states : Acsm → Run Acsm
unfolding count_states pointer_room
compile_states acsm =
    let max_states = u32 (count_states acsm.patterns acsm.max_states + 1) in
    pointer_room max_states >>= λ room.
    add_all_patterns acsm.patterns (record acsm {
      max_states = max_states;
      trans_table = replicate room [];
      match_list = replicate room [];
      num_states = 0;
    })
    >>= λ a. ok (record a { num_states = a.num_states + 1 })

-- The bytes of a state.
unfoldable pub size_of_state : Acsm → ℕ
size_of_state acsm =
    if acsm.compress_states == 0
    then 4
    else if ltb acsm.num_states 0xff
    then 1
    else if ltb acsm.num_states 0xffff
    then 2
    else 4

-- The storage format that is chosen; another one leaves the rows null pointers.
unfoldable pub compile_rows : Acsm → Run Acsm
compile_rows acsm =
    if acsm.format == acf_sparse
    then conv_full_dfa_to_sparse acsm
    else if acsm.format == acf_banded
    then conv_full_dfa_to_banded acsm
    else if acsm.format == acf_sparsebands
    then conv_full_dfa_to_sparse_bands acsm
    else if acsm.format == acf_full || acsm.format == acf_fullq
    then (conv_list_to_full acsm >>= λ a. ok (record a { fail_state = [] }))
    else ok acsm

-- The body of the loop of `acsmUpdateMatchStates`: a state with patterns gets the flag 1.
unfoldable pub flag_state : Acsm → ℕ → Run Acsm
flag_state acsm state = read acsm.match_list state >>= λ mlist. elim mlist [
  | [] ↦ ok acsm
  | ◌∷◌ px rest ↦ (do
    p ← read acsm.next_state state
    p' ← write p 1 1
    next_state ← write acsm.next_state state p'
    ok (record acsm { next_state = next_state }))
]

-- `acsmUpdateMatchStates`, from state `state` on.
unfoldable pub update_match_states : ℕ → ℕ → Acsm → Run Acsm
unfolding flag_state
update_match_states zero state acsm = ok acsm
update_match_states (suc left) state acsm =
    flag_state acsm state >>= update_match_states left (state + 1)

-- `_acsmCompile2`; `rounds` bounds the loops over the queues. It returns 0 where it returns.
unfoldable pub acsm_compile : ℕ → Acsm → Run Acsm
unfolding size_of_state
acsm_compile rounds acsm = do
  a ← compile_states acsm
  let b : Acsm = record a {
    sizeofstate = size_of_state a;
    fail_state = replicate a.num_states 0;
    next_state = replicate a.num_states [];
  }
  c ← if b.fsa == fsa_dfa || b.fsa == fsa_nfa then build_nfa rounds b else ok b
  d ← if c.fsa == fsa_dfa then convert_nfa_to_dfa rounds c else ok c
  e ← compile_rows d
  f ← update_match_states e.num_states 0 e
  ok (free_trans_table f)

-- The loop of `sig_parse_adapter_ac`; `address` gives where a text stands.
unfoldable pub add_apps : (AppEntryT → ℕ) → List AppEntryT → Acsm → Acsm
unfolding acsm_add_pattern
add_apps address [] acsm = acsm
add_apps address (app ∷ apps) acsm =
    add_apps address apps (acsm_add_pattern acsm app.regex (address app) 1 0 0 0 app.app_id)

-- `sig_parse_adapter_ac`.
unfoldable pub sig_parse_adapter_ac : ℕ → (AppEntryT → ℕ) → List AppEntryT → Run Acsm
unfolding add_apps acsm_new
sig_parse_adapter_ac rounds address apps =
    acsm_compile rounds (add_apps address apps (record acsm_new { format = acf_banded }))
