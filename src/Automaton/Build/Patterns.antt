-- ===== src/Automaton/Build/Patterns.antt =====
-- `AddPatternStates`: a pattern's text leads from state 0 to a state whose list has it.
use orchid_linux.Base.{
  ℕ, ◌+◌, ◌<◌, ◌≤◌, ◌≡◌, refl, ap, sym, ◌∙◌, inl, inr, true, Option-cases, List, [], ◌∷◌, ◌++◌,
  none, ◌==◌, ◌||◌, ==_ne, arith, length, length-set, length-append, write-inside, set, get_or,
  get_or-set_ne, get_elem?-eq-get_or, ok, Returns,
}
use mathlib.Core.Path.{subst}
use native.Mathlib.Decide.{ℕ_discrete}
use orchid_linux.Automaton.Build.{match_up, add_states, add_match_list_entry, add_pattern_states}
use orchid_linux.Automaton.Build.Failure.{key_result, get_next_state-key}
use orchid_linux.Automaton.Build.Trie.{
  child, Spells, stays, moves, Extends, Spells-Extends, Spells-append, IsTrie, with_state, new_list,
  put_next_state-with_state, child-with_state, with_state-Extends, with_state-IsTrie,
}
use orchid_linux.Automaton.Types.{Acsm, Pattern, acsm_fail_state}
use orchid_linux.Automaton.Lists.{find_key}

-- The first byte of a text has no transition.
abbrev pub IsNew : Acsm → ℕ → List ℕ → Type 0
IsNew acsm state [] = Unit {0}
IsNew acsm state (c ∷ text) = child acsm state c ≡ none

pub fresh-IsNew :
    (acsm : Acsm) (state : ℕ) (text : List ℕ)
    → get_or acsm.trans_table state [] ≡ []
    → IsNew acsm state text
unfolding find_key
fresh-IsNew acsm state [] e = tt
fresh-IsNew acsm state (c ∷ text) e = rw e refl

-- The fields that the trie has no part in.
abbrev pub settings : Acsm → List ℕ
settings acsm = acsm.alphabet_size ∷ acsm.format ∷ acsm.fsa ∷ acsm.compress_states ∷ []

-- What `AddPatternStates` is to do with the trie.
pub record IsGrown (before after : Acsm) (n : ℕ) : Type 0 where
  pub grows : after.num_states ≤ before.num_states + n
  pub trie : IsTrie after
  pub extends : Extends before after
  pub width : length after.trans_table ≡ length before.trans_table
  pub settings_kept : settings after ≡ settings before

-- The new states, one for each byte that is left.
pub add_states-Spells :
    (acsm : Acsm) (state : ℕ) (text : List ℕ)
    → IsTrie acsm
    → state ≤ acsm.num_states
    → IsNew acsm state text
    → acsm.num_states + length text < length acsm.trans_table
    → length acsm.trans_table ≤ acsm_fail_state
    → Returns (add_states acsm state text) (λ r.
      IsGrown acsm r.1 (length text)
      × Spells r.1 state text r.0
      × (r.0 ≤ r.1.num_states)
      × (r.1.match_list ≡ acsm.match_list))
unfolding add_states
add_states-Spells acsm state [] t inside new room short = (
  (state, acsm),
  refl,
  (
    record {
      grows = omega arith;
      trie = t;
      extends = λ s c n e. e;
      width = refl;
      settings_kept = refl;
    },
    stays,
    inside,
    refl,
  ),
)
add_states-Spells acsm state (c ∷ text) t inside new room short =
    let next = acsm.num_states + 1 in
    let a = with_state acsm state c in
    let here : state < length acsm.trans_table = omega (arith, inside, t.room) in
    let width : length a.trans_table ≡ length acsm.trans_table =
      length-set acsm.trans_table state (new_list acsm state c) in
    let empty : get_or a.trans_table next [] ≡ [] =
      get_or-set_ne acsm.trans_table state next (new_list acsm state c) []
        (λ e. omega (arith, e, inside))
      ∙ t.fresh next (omega arith) in
    let (r, run, (grown, spells, low, lists)) =
      add_states-Spells a next text
        (with_state-IsTrie acsm state c t inside (omega (arith, room)) short) (omega arith)
        (fresh-IsNew a next text empty) (omega (arith, room, width))
        (omega (arith, short, width)) in
    (
      r,
      rw (put_next_state-with_state acsm state c here new) run,
      (
        record {
          grows = omega (arith, grown.grows);
          trie = grown.trie;
          extends =
              λ s k n e. grown.extends s k n (with_state-Extends acsm state c here new s k n e);
          width = grown.width ∙ width;
          settings_kept = grown.settings_kept;
        },
        moves (grown.extends state c next (child-with_state acsm state c here)) spells,
        low,
        lists,
      ),
    )

-- Where a state has no transition, the walk along the existing states ends.
stops :
    (state : ℕ)
    → (next : ℕ) × (key_result state none ≡ ok next)
      × ((next == acsm_fail_state || next == 0) ≡ true)
stops state = elim (ℕ_discrete state 0) [
  | yes root ↦
      let at_root : (state == 0) ≡ true = ap (λ s. s == 0) root in (0, rw at_root refl, refl)
  | no other ↦ (acsm_fail_state, rw (==_ne state 0 other) refl, refl)
]

-- The states that are there already.
pub match_up-Spells :
    (acsm : Acsm) (state : ℕ) (text : List ℕ)
    → IsTrie acsm
    → state ≤ acsm.num_states
    → Returns (match_up acsm state text) (λ r.
      (start : List ℕ) × (text ≡ start ++ r.1)
      × Spells acsm state start r.0
      × (r.0 ≤ acsm.num_states)
      × IsNew acsm r.0 r.1)
unfolding match_up
match_up-Spells acsm state [] t inside = ((state, []), refl, ([], refl, stays, inside, tt))
match_up-Spells acsm state (c ∷ text) t inside =
    let result = get_next_state-key acsm state c (omega (arith, inside, t.room)) in
    elim (Option-cases (child acsm state c)) [
      | inl none_here ↦
          let (next, run, ends) = stops state in
          (
            (state, c ∷ text),
            rw (result ∙ ap (key_result state) none_here ∙ run, ends) refl,
            ([], refl, stays, inside, none_here),
          )
      | inr (next, found) ↦
          let (positive, low) = t.targets state c next found in
          let (r, run, (start, split, spells, inside', new)) =
            match_up-Spells acsm next text t low in
          (
            r,
            rw
                (
                  result ∙ ap (key_result state) found,
                  ==_ne next acsm_fail_state (λ e. omega (arith, e, low, t.small)),
                  ==_ne next 0 positive,
                )
                run,
            (c ∷ start, ap (λ cs. c ∷ cs) split, moves found spells, inside', new),
          )
    ]

pub add_match_list_entry-list :
    (acsm : Acsm) (state : ℕ) (p : Pattern)
    → state < length acsm.match_list
    → add_match_list_entry acsm state p
      ≡ ok (record acsm {
        match_list = set acsm.match_list state (p ∷ get_or acsm.match_list state []);
      })
unfolding add_match_list_entry
add_match_list_entry-list acsm state p h =
    let list = get_or acsm.match_list state [] in
    rw
      (
        get_elem?-eq-get_or acsm.match_list state [] h,
        write-inside acsm.match_list state (p ∷ list) h,
      )
      refl

-- The lists of patterns are no part of the trie.
IsGrown-lists :
    (before after : Acsm) (n m : ℕ) (lists : List (List Pattern))
    → IsGrown before after n
    → n ≤ m
    → IsGrown before (record after { match_list = lists }) m
IsGrown-lists before after n m lists g h = record {
  grows = omega (arith, g.grows, h);
  trie = record {
    room = g.trie.room;
    small = g.trie.small;
    targets = g.trie.targets;
    fresh = g.trie.fresh;
  };
  extends = g.extends;
  width = g.width;
  settings_kept = g.settings_kept;
}

-- On a trie with room for the bytes of a pattern: `AddPatternStates` returns a trie that keeps every
-- transition, in which the pattern's text leads from state 0 to a state, and only the list of that
-- state changes: the pattern stands in front of what it had.
pub add_pattern_states-Spells :
    (acsm : Acsm) (p : Pattern)
    → IsTrie acsm
    → acsm.num_states + length p.patrn < length acsm.trans_table
    → length acsm.trans_table ≤ acsm_fail_state
    → length acsm.match_list ≡ length acsm.trans_table
    → Returns (add_pattern_states acsm p) (λ a.
      IsGrown acsm a (length p.patrn)
      × (state : ℕ) × Spells a 0 p.patrn state
      × (state < length acsm.match_list)
      × (a.match_list ≡ set acsm.match_list state (p ∷ get_or acsm.match_list state [])))
unfolding add_pattern_states
add_pattern_states-Spells acsm p t room short lists =
    let (r, run, (start, split, spells, inside, new)) =
      match_up-Spells acsm 0 p.patrn t (omega arith) in
    let size : length p.patrn ≡ length start + length r.1 =
      ap (λ cs. length cs) split ∙ length-append start r.1 in
    let (r', run', (grown, spells', low, same)) =
      add_states-Spells acsm r.0 r.1 t inside new (omega (arith, room, size)) short in
    let a = r'.1 in
    let q = r'.0 in
    let here : q < length a.match_list =
      omega (arith, low, grown.trie.room, grown.width, lists, ap (λ l. length l) same) in
    let list = p ∷ get_or a.match_list q [] in
    let a' = record a { match_list = set a.match_list q list } in
    let whole : Spells a 0 (start ++ r.1) q =
      Spells-append a 0 r.0 q start r.1 (Spells-Extends acsm a 0 start r.0 grown.extends spells)
        spells' in
    (
      a',
      rw (run, run', add_match_list_entry-list a q p here) refl,
      (
        IsGrown-lists acsm a (length r.1) (length p.patrn) (set a.match_list q list) grown
            (omega (arith, size)),
        q,
        Spells-Extends a a' 0 p.patrn q (λ s c n e. e)
            (subst (λ cs. Spells a 0 cs q) (sym split) whole),
        omega (arith, here, ap (λ l. length l) same),
        ap (λ l. set l q (p ∷ get_or l q [])) same,
      ),
    )
