-- ===== src/Automaton/Compile/Patterns.antt =====
-- The first part of `_acsmCompile2`: all patterns are in the trie.
use orchid_linux.Base.{
  IsIn, ℕ, ◌+◌, ◌<◌, ◌≤◌, ◌≡◌, refl, ap, sym, ◌∙◌, inl, inr, List, [], ◌∷◌, none, arith, length,
  length-set, length-replicate, set, get_or, get_or-set_self, get_or-set_ne, get_or-replicate,
  replicate, All, All-map, Returns, ◌^◌, ◌*◌, ◌/◌, u32, ltb, true, ◌>>=◌, ok,
}
use mathlib.Core.Path.{subst}
use native.Mathlib.Decide.{ℕ_discrete}
use orchid_linux.Automaton.Types.{Acsm, Pattern, TransNode, acsm_fail_state}
use orchid_linux.Automaton.Lists.{find_key}
use orchid_linux.Automaton.Build.{add_pattern_states}
use orchid_linux.Automaton.Build.Trie.{child, Spells, Spells-Extends, IsTrie}
use orchid_linux.Automaton.Build.Patterns.{IsGrown, add_pattern_states-Spells}
use orchid_linux.Automaton.Compile.{count_states, add_all_patterns, compile_states, pointer_room}

-- The text of the pattern leads from state 0 to a state whose list has it.
abbrev pub HasPattern : Acsm → Pattern → Type 0
HasPattern acsm px =
    (state : ℕ) × Spells acsm 0 px.patrn state × IsIn px (get_or acsm.match_list state [])

-- No list loses a pattern.
abbrev KeepsLists : Acsm → Acsm → Type 0
KeepsLists before after =
    (state : ℕ) (px : Pattern)
    → IsIn px (get_or before.match_list state [])
    → IsIn px (get_or after.match_list state [])

IsIn-set :
    (lists : List (List Pattern)) (q state : ℕ) (p px : Pattern)
    → q < length lists
    → IsIn px (get_or lists state [])
    → IsIn px (get_or (set lists q (p ∷ get_or lists q [])) state [])
IsIn-set lists q state p px inside m = elim (ℕ_discrete q state) [
  | yes same ↦
      subst
        (λ s.
          IsIn px (get_or lists s []) → IsIn px (get_or (set lists q (p ∷ get_or lists q [])) s []))
        same (λ m'. rw (get_or-set_self lists q (p ∷ get_or lists q []) [] inside) (inr m')) m
  | no other ↦ rw (get_or-set_ne lists q state (p ∷ get_or lists q []) [] other) m
]

-- The bytes of all patterns.
abbrev pub total_bytes : List Pattern → ℕ
total_bytes [] = 0
total_bytes (p ∷ ps) = length p.patrn + total_bytes ps

record IsBuilt (before after : Acsm) (n : ℕ) : Type 0 where
  grown : IsGrown before after n
  keeps : KeepsLists before after
  lists : length after.match_list ≡ length before.match_list

one_pattern :
    (acsm : Acsm) (p : Pattern)
    → IsTrie acsm
    → acsm.num_states + length p.patrn < length acsm.trans_table
    → length acsm.trans_table ≤ acsm_fail_state
    → length acsm.match_list ≡ length acsm.trans_table
    → Returns (add_pattern_states acsm p) (λ a. IsBuilt acsm a (length p.patrn) × HasPattern a p)
one_pattern acsm p t room short lists =
    let (a, run, (grown, q, spells, inside, e)) =
      add_pattern_states-Spells acsm p t room short lists in
    let list = p ∷ get_or acsm.match_list q [] in
    (
      a,
      run,
      (
        record {
          grown = grown;
          keeps = λ state px m.
              subst (λ l. IsIn px (get_or l state [])) (sym e)
                (IsIn-set acsm.match_list q state p px inside m);
          lists = ap (λ l. length l) e ∙ length-set acsm.match_list q list;
        },
        (
          q,
          spells,
          subst (λ l. IsIn p (get_or l q [])) (sym e)
              (rw (get_or-set_self acsm.match_list q list [] inside) (inl refl)),
        ),
      ),
    )

HasPattern-keeps :
    (before after : Acsm) (n : ℕ) (px : Pattern)
    → IsBuilt before after n
    → HasPattern before px
    → HasPattern after px
HasPattern-keeps before after n px b (state, spells, m) =
    (state, Spells-Extends before after 0 px.patrn state b.grown.extends spells, b.keeps state px m)

add_all_patterns-HasPattern :
    (ps : List Pattern) (acsm : Acsm)
    → IsTrie acsm
    → acsm.num_states + total_bytes ps < length acsm.trans_table
    → length acsm.trans_table ≤ acsm_fail_state
    → length acsm.match_list ≡ length acsm.trans_table
    → Returns
        (add_all_patterns ps acsm)
        (λ a. IsBuilt acsm a (total_bytes ps) × All (HasPattern a) ps)
unfolding add_all_patterns
add_all_patterns-HasPattern [] acsm t room short lists = (
  acsm,
  refl,
  (
    record {
      grown = record {
        grows = omega arith;
        trie = t;
        extends = λ s c n e. e;
        width = refl;
        settings_kept = refl;
      };
      keeps = λ state px m. m;
      lists = refl;
    },
    tt,
  ),
)
add_all_patterns-HasPattern (p ∷ ps) acsm t room short lists =
    let (a, run, (built, has)) = one_pattern acsm p t (omega (arith, room)) short lists in
    let (a', run', (built', all)) =
      add_all_patterns-HasPattern ps a built.grown.trie
        (omega (arith, room, built.grown.grows, built.grown.width))
        (omega (arith, short, built.grown.width))
        (omega (arith, lists, built.lists, built.grown.width)) in
    (
      a',
      rw run run',
      (
        record {
          grown = record {
            grows = omega (arith, built.grown.grows, built'.grown.grows);
            trie = built'.grown.trie;
            extends = λ s c n e. built'.grown.extends s c n (built.grown.extends s c n e);
            width = built'.grown.width ∙ built.grown.width;
            settings_kept = built'.grown.settings_kept ∙ built.grown.settings_kept;
          };
          keeps = λ state px m. built'.keeps state px (built.keeps state px m);
          lists = built'.lists ∙ built.lists;
        },
        (HasPattern-keeps a a' (total_bytes ps) p built' has, all),
      ),
    )

-- The tables before the first pattern, with `size` entries.
abbrev pub new_tables : Acsm → ℕ → Acsm
new_tables acsm size = record acsm {
  max_states = size;
  trans_table = replicate size [];
  match_list = replicate size [];
  num_states = 0;
}

pub total_count :
    (ps : List Pattern) (n : ℕ)
    → All (λ p. p.n ≡ length p.patrn) ps
    → n + total_bytes ps < 2 ^ 28
    → count_states ps n ≡ n + total_bytes ps
unfolding count_states
total_count [] n h few = omega arith
total_count (p ∷ ps) n h few =
    let sum : u32 (n + p.n) ≡ n + p.n = omega (arith, h.0, few) in
    rw sum (omega (arith, h.0, few, total_count ps (n + p.n) h.1 (omega (arith, h.0, few))))

-- Below 2 ^ 28 states nothing wraps around: each list has an entry for each possible state.
pub compile_states_lem :
    (acsm : Acsm)
    → acsm.max_states ≡ 0
    → All (λ p. p.n ≡ length p.patrn) acsm.patterns
    → total_bytes acsm.patterns + 1 < 2 ^ 28
    → compile_states acsm ≡ (
        add_all_patterns acsm.patterns (new_tables acsm (total_bytes acsm.patterns + 1)) >>= λ a.
        ok (record a { num_states = a.num_states + 1 }))
unfolding compile_states pointer_room
compile_states_lem acsm none_yet sizes few =
    let size = total_bytes acsm.patterns + 1 in
    let count : count_states acsm.patterns acsm.max_states + 1 ≡ size = omega (
      arith,
      total_count acsm.patterns acsm.max_states sizes (omega (arith, none_yet, few)),
      none_yet,
    ) in
    let word : u32 size ≡ size = omega (arith, few) in
    let bytes : u32 (8 * size) ≡ 8 * size = omega (arith, few) in
    let room : 8 * size / 8 ≡ size = omega arith in
    let low : ltb (8 * size) (2 ^ 31) ≡ true = ground (arith, few) in
    rw (count, word, bytes, low, room) refl

-- The tables before the first pattern.
pub new_tables-IsTrie :
    (acsm : Acsm) (size : ℕ)
    → acsm.num_states ≡ 0
    → acsm.trans_table ≡ replicate size []
    → 0 < size
    → IsTrie acsm
unfolding find_key
new_tables-IsTrie acsm size none_yet tables h =
    let lists : (state : ℕ) → get_or acsm.trans_table state [] ≡ [] =
      λ state. ap (λ ts. get_or ts state []) tables ∙ get_or-replicate size [] state in
    let width : length acsm.trans_table ≡ size =
      ap (λ ts. length ts) tables ∙ length-replicate size [] in
    record {
      room = omega (arith, none_yet, width, h);
      small = omega (arith, none_yet);
      targets = λ state c next found.
          let nothing : child acsm state c ≡ none = ap (λ ts. find_key ts c) (lists state) in
          absurd (cc (nothing, found));
      fresh = λ state beyond. lists state;
    }

-- The number of states says nothing on the patterns.
counted :
    (acsm : Acsm) (n : ℕ) (px : Pattern)
    → HasPattern acsm px
    → HasPattern (record acsm { num_states = n }) px
counted acsm n px (state, spells, m) = (
  state,
  Spells-Extends acsm (record acsm { num_states = n }) 0 px.patrn state (λ s c next e. e) spells,
  m,
)

-- Before it is compiled, for patterns that have as many bytes as they say, fewer than 2 ^ 28 - 1 in
-- all: the first part
-- of the compilation returns, and then the text of each pattern leads from state 0 to a state whose
-- list has the pattern.
pub compile_states-HasPattern :
    (acsm : Acsm)
    → acsm.max_states ≡ 0
    → All (λ p. p.n ≡ length p.patrn) acsm.patterns
    → total_bytes acsm.patterns + 1 < 2 ^ 28
    → Returns (compile_states acsm) (λ a. All (HasPattern a) acsm.patterns)
compile_states-HasPattern acsm none_yet sizes short =
    let max_states = total_bytes acsm.patterns + 1 in
    let start = new_tables acsm max_states in
    let width = length-replicate {A = List TransNode} max_states [] in
    let (a, run, (built, all)) =
      add_all_patterns-HasPattern acsm.patterns start
        (new_tables-IsTrie start max_states refl refl (omega arith)) (omega (arith, width))
        (omega (arith, width, short))
        (length-replicate {A = List Pattern} max_states [] ∙ sym width) in
    (
      record a { num_states = a.num_states + 1 },
      rw (compile_states_lem acsm none_yet sizes short, run) refl,
      All-map (counted a (a.num_states + 1)) acsm.patterns all,
    )
