-- ===== src/Regex.antt =====
-- The regular expressions: `Regex_Parse` of regexParse/main.cpp, and `generator::reassemble`, which
-- regexParse/lexertl/generator.hpp adds to the lexertl library.
--
-- The rest of lexertl is a library: its rules, its push of a rule and its build are parameters. What
-- `reassemble` reads of a state machine are its first lookup table, its alphabet and its first table.
pub mod Reassembled
pub mod Graph
mod Examples
use orchid_linux.Base.{
  ℕ, zero, suc, ◌+◌, ◌-◌, ◌*◌, ◌^◌, ◌/◌, ◌%◌, Bool, true, false, ◌&&◌, List, [], ◌∷◌, Option, none,
  some, ◌==◌, ltb, leb, if◌then◌else◌, length, drop, replicate, Run, ok, fault, Fault, ◌>>=◌, read,
  write, u8, u16,
}
use orchid_linux.Loader.Types.{AppEntryT}
use orchid_linux.Matcher.Graph.{DfaGraph}

-- `lexertl::dead_state_index` of enums.hpp.
abbrev pub dead_state_index : ℕ
dead_state_index = 6

-- `sm_.data()`, as far as it is read: the entries have the type `id_type`.
pub record Internals : Type 0 where
  pub lookup : List ℕ
  pub dfa_alphabet : ℕ
  pub dfa : List ℕ

-- The loop over the 256 bytes, for the entries from `a` on; an entry is an `uchar`.
unfoldable pub alphabet_from : List ℕ → ℕ → ℕ → Run (List ℕ)
alphabet_from lookup zero a = ok []
alphabet_from lookup (suc left) a = do
  x ← read lookup a
  rest ← alphabet_from lookup left (a + 1)
  ok (u8 (x + 2 ^ 16 - dead_state_index) ∷ rest)

-- The body of the loop over the table. `*((u_int *)(state + i)) = dfa_[i]` writes two entries, the
-- low half first.
unfoldable pub put_entry : ℕ → ℕ → ℕ → List ℕ → Run (List ℕ)
put_entry alphabet i entry state =
    if leb dead_state_index (i % alphabet) && ltb 0 entry
    then write state i (u16 (entry - 1))
    else if i % alphabet == 1
    then (write state i (u16 entry) >>= λ state'. write state' (i + 1) (u16 (entry / 2 ^ 16)))
    else if i % alphabet == 2
    then ok state
    else write state i (u16 entry)

-- The loop over the table, from its entry `i` on.
unfoldable pub put_entries : ℕ → ℕ → List ℕ → List ℕ → Run (List ℕ)
unfolding put_entry
put_entries alphabet i [] state = ok state
put_entries alphabet i (entry ∷ dfa) state =
    put_entry alphabet i entry state >>= put_entries alphabet (i + 1) dfa

-- `reassemble`; `memory` is what `malloc` gives for the entries of the graph, or none.
unfoldable pub reassemble : Option (List ℕ) → Internals → Run DfaGraph
unfolding alphabet_from put_entries
reassemble memory sm =
    if sm.dfa_alphabet == 0
    then fault Fault.divide_by_zero
    else if ltb (length sm.dfa) sm.dfa_alphabet
    then fault Fault.out_of_bounds
    else elim memory [
      | none ↦ fault Fault.thrown
      | some entries ↦
          if ltb (length sm.dfa / sm.dfa_alphabet) 65535
          then (do
            alphabet_table ← alphabet_from sm.lookup 256 0
            next_table ← put_entries sm.dfa_alphabet 0 (drop sm.dfa_alphabet sm.dfa) entries
            ok (record {
              state_num = u16 (length sm.dfa / sm.dfa_alphabet - 1);
              alphabet_size = u16 sm.dfa_alphabet;
              start_offset = dead_state_index;
              alphabet_table = alphabet_table;
              next_table = next_table;
            }))
          else fault Fault.thrown
    ]

-- lexertl: the rules, the push of a text with its number, and the state machine that is built.
module _ {Rules : Type 0} (no_rules : Rules) (push : List ℕ → ℕ → Rules → Rules)
    (build : Rules → Internals) where
  unfoldable pub push_apps : List AppEntryT → Rules → Rules
  push_apps [] rules = rules
  push_apps (app ∷ apps) rules = push_apps apps (push app.regex app.app_id rules)

  -- `Regex_Parse`; `memory` gives what `malloc` gives for so many entries.
  unfoldable pub regex_parse : (ℕ → Option (List ℕ)) → List AppEntryT → Run DfaGraph
  unfolding push_apps reassemble
  regex_parse memory apps =
      let sm = build (push_apps apps no_rules) in reassemble (memory (length sm.dfa + 1)) sm
