-- ===== src/Automaton/Examples/Tables.antt =====
-- An automaton of two states for the text "A", for the theorems on tables and searches.
use orchid_linux.Base.{
  ℕ, zero, suc, ◌<◌, ◌≡◌, ◌≢◌, refl, inl, inr, true, Bool-cases, List, [], ◌∷◌, arith, Run, ok,
  ◌>>=◌, Returns, read, All, if◌then◌else◌, ◌==◌, ltb, leb, ok_injective, ◌++◌, ==_ne, get_or,
}
use mathlib.Core.Path.{subst}
use native.Mathlib.Decide.{ℕ_discrete}
use orchid_linux.Base.CString.{codes}
use orchid_linux.Matcher.Found.{Match}
use orchid_linux.Automaton.Types.{Acsm, Pattern, TransNode, acf_banded, acsm_fail_state, fsa_dfa}
use orchid_linux.Automaton.Lists.{find_key, state_cast, free_trans_table}
use orchid_linux.Automaton.Build.{next_valid}
use orchid_linux.Automaton.Build.Failure.{LeadsTo, HasFailures, found-target, next_valid-LeadsTo}
use orchid_linux.Automaton.Rows.Stored.{IsTransList}
use orchid_linux.Automaton.Rows.Transitions.{IsConvertible, next_of}
use orchid_linux.Automaton.Compile.{compile_states, compile_rows, xlatcase, update_match_states}
use orchid_linux.Automaton.Compile.Patterns.{HasPattern, compile_states-HasPattern}
use orchid_linux.Automaton.Compile.Transitions.{AllGive, compile_rows-get_next_state2}
use orchid_linux.Automaton.Compile.Table.{update_match_states-IsTable}
use orchid_linux.Automaton.Search.{banded_step, search_banded}
use orchid_linux.Automaton.Search.Runs.{
  IsTable, banded_matches, going_on, each, found_at, lists_of, flag_of, search_banded-runs,
}
use orchid_linux.Automaton.Free.{acsm_free}
use orchid_linux.Automaton.Free.Once.{IsFreed, acsm_free-IsFreed}

abbrev pub letter : Pattern
letter = record {
  patrn = 65 ∷ [];
  casepatrn = 65 ∷ [];
  n = 1;
  nocase = 1;
  offset = 0;
  depth = 0;
  negative = 0;
  udata = 4096;
  iid = 10;
}

-- Each state goes to state 1 with the letter.
abbrev to_one : List TransNode
to_one = record { key = 65; next_state = 1 } ∷ []

abbrev two_lists : Acsm
two_lists = record {
  max_states = 2;
  num_states = 2;
  patterns = letter ∷ [];
  fail_state = 0 ∷ 0 ∷ [];
  match_list = [] ∷ (letter ∷ []) ∷ [];
  trans_table = to_one ∷ to_one ∷ [];
  next_state = [] ∷ [] ∷ [];
  format = acf_banded;
  sparse_max_row_nodes = 256;
  sparse_max_zcnt = 10;
  num_trans = 2;
  alphabet_size = 256;
  fsa = fsa_dfa;
  num_patterns = 1;
  sizeofstate = 4;
  compress_states = 0;
}

list_is : (state : ℕ) (ts : List TransNode) → read two_lists.trans_table state ≡ ok ts → to_one ≡ ts
list_is zero ts e = ok_injective e
list_is (suc zero) ts e = ok_injective e
list_is (suc (suc state)) ts e = absurd (cc e)

two_lists-IsConvertible : IsConvertible two_lists
two_lists-IsConvertible = record {
  keys = λ state ts e. subst (IsTransList 256) (list_is state ts e) (omega arith, tt, tt);
  targets = λ state ts e.
      subst (All (λ t. t.next_state ≢ acsm_fail_state)) (list_is state ts e)
        (λ bad. omega (arith, bad), tt);
  wide = refl;
}

two_lists-closed : (state input : ℕ) → next_of two_lists state input < 2
unfolding find_key state_cast
two_lists-closed zero input = elim (Bool-cases (65 == input)) [
  | inl e ↦ rw e (omega arith)
  | inr e ↦ rw e (omega arith)
]
two_lists-closed (suc zero) input = two_lists-closed zero input
two_lists-closed (suc (suc state)) input = omega arith

compile_rows-get_next_state2_example : Returns (compile_rows two_lists) (AllGive two_lists)
compile_rows-get_next_state2_example =
    compile_rows-get_next_state2 two_lists two_lists-IsConvertible (omega arith) (omega arith)
      (omega arith) (omega arith)

update_match_states-IsTable_example :
    Returns
      (compile_rows two_lists >>= λ a. update_match_states a.num_states 0 a)
      (λ f. IsTable (free_trans_table f) (next_of two_lists) 2)
update_match_states-IsTable_example =
    update_match_states-IsTable two_lists two_lists-IsConvertible refl (omega arith) (omega arith)
      (omega arith) (omega arith) (λ state input h. two_lists-closed state input)

-- The tables of that automaton, with a pattern for the letter.
abbrev pub rows_with : Pattern → Acsm
rows_with px = record two_lists {
  match_list = [] ∷ (px ∷ []) ∷ [];
  next_state = (2 ∷ 0 ∷ 1 ∷ 65 ∷ 1 ∷ []) ∷ (2 ∷ 1 ∷ 1 ∷ 65 ∷ 1 ∷ []) ∷ [];
  trans_table = [];
}

abbrev two_rows : Acsm
two_rows = rows_with letter

abbrev pub two_next : ℕ → ℕ → ℕ
two_next state c = if c == 65 then 1 else 0

step_letter :
    (flag c : ℕ) → banded_step (2 ∷ flag ∷ 1 ∷ 65 ∷ 1 ∷ []) c ≡ ok (if c == 65 then 1 else 0)
unfolding banded_step
step_letter flag c = elim (ℕ_discrete c 65) [
  | yes e ↦ rw e refl
  | no other ↦ elim (Bool-cases (ltb c 65)) [
    | inl low ↦ rw (low, ==_ne c 65 other) refl
    | inr high ↦
        let above : leb 66 c ≡ true = ground (arith, other, high) in
        rw (high, above, ==_ne c 65 other) refl
  ]
]

row_of : (state : ℕ) → state < 2 → List ℕ
row_of state h = 2 ∷ state ∷ 1 ∷ 65 ∷ 1 ∷ []

pub rows_with-IsTable : (px : Pattern) → IsTable (rows_with px) two_next 2
unfolding row_of
rows_with-IsTable px = record {
  listed = listed;
  row = row_of;
  rows = rows;
  flags = flags;
  steps = λ state h c. step_letter state (xlatcase c);
  closed = λ state c h. closed c;
}
  where
    listed :
        (state : ℕ)
        → state < 2
        → read (rows_with px).match_list state ≡ ok (lists_of (rows_with px) state)
    listed zero h = refl
    listed (suc zero) h = refl
    listed (suc (suc state)) h = absurd (omega (arith, h))

    rows : (state : ℕ) (h : state < 2) → read (rows_with px).next_state state ≡ ok (row_of state h)
    rows zero h = refl
    rows (suc zero) h = refl
    rows (suc (suc state)) h = absurd (omega (arith, h))

    flags :
        (state : ℕ) (h : state < 2)
        → read (row_of state h) 1 ≡ ok (flag_of (lists_of (rows_with px) state))
    flags zero h = refl
    flags (suc zero) h = refl
    flags (suc (suc state)) h = absurd (omega (arith, h))

    closed : (c : ℕ) → two_next 0 c < 2
    closed c = elim (Bool-cases (c == 65)) [
      | inl e ↦ rw e (omega arith)
      | inr e ↦ rw e (omega arith)
    ]

two_rows-IsTable : IsTable two_rows two_next 2
two_rows-IsTable = rows_with-IsTable letter

abbrev keep_all : Match → List Match → Run (List Match)
keep_all m ms = ok (ms ++ m ∷ [])

search_banded-runs_example :
    search_banded (going_on keep_all) two_rows (codes "xaA") 0 []
    ≡ (each keep_all (banded_matches two_rows two_next 0 (codes "xaA")) [] >>= found_at 0 2)
unfolding xlatcase
search_banded-runs_example =
    search_banded-runs keep_all two_rows two_next 2 (codes "xaA") 0 [] two_rows-IsTable
      (omega arith)

two_lists-HasFailures : HasFailures two_lists (λ state. state) 2
two_lists-HasFailures = record {
  listed = omega arith;
  failing = omega arith;
  inside = inside;
  lower = lower;
  targets = λ state input next h e.
      found-target (get_or two_lists.trans_table state []) input next (targets state h) e;
}
  where
    inside : (state : ℕ) → state < 2 → get_or two_lists.fail_state state 0 < 2
    inside zero h = omega arith
    inside (suc zero) h = omega arith
    inside (suc (suc state)) h = omega arith

    lower : (state : ℕ) → state < 2 → state ≢ 0 → get_or two_lists.fail_state state 0 < state
    lower zero h ne = absurd (ne refl)
    lower (suc zero) h ne = omega arith
    lower (suc (suc state)) h ne = omega arith

    targets :
        (state : ℕ)
        → state < 2
        → All (λ t. t.next_state ≢ acsm_fail_state) (get_or two_lists.trans_table state [])
    targets zero h = (λ bad. omega (arith, bad), tt)
    targets (suc zero) h = (λ bad. omega (arith, bad), tt)
    targets (suc (suc state)) h = tt

-- The letter B has no transition in state 1, and state 0 takes it.
next_valid-LeadsTo_example : Returns (next_valid 2 two_lists 1 66) (LeadsTo two_lists 66 1)
next_valid-LeadsTo_example =
    next_valid-LeadsTo 2 two_lists (λ state. state) 2 1 66 two_lists-HasFailures (omega arith)
      (omega arith)

-- Before the compilation there are the patterns alone.
abbrev one_letter : Acsm
one_letter = record two_lists {
  max_states = 0;
  num_states = 0;
  match_list = [];
  trans_table = [];
  next_state = [];
}

compile_states-HasPattern_example :
    Returns (compile_states one_letter) (λ a. All (HasPattern a) (letter ∷ []))
compile_states-HasPattern_example =
    compile_states-HasPattern one_letter refl (refl, tt) (omega arith)

acsm_free-IsFreed_example : Returns (acsm_free two_rows) (IsFreed two_rows)
acsm_free-IsFreed_example = acsm_free-IsFreed two_rows (omega arith) (omega arith)
