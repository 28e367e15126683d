-- ===== src/Automaton/Build/Words/Patterns.antt =====
-- `AddPatternStates` keeps one word for each state, and its list of patterns has no other pattern.
use orchid_linux.Base.{
  ℕ, ◌+◌, ◌<◌, ◌≤◌, ◌≡◌, refl, ap, sym, ◌∙◌, ◌⊎◌, inl, inr, List, [], ◌∷◌, ◌++◌, arith, length,
  length-append, length-set, set, get_or, get_or-set_self, get_or-set_ne, All, ok, ok_injective,
  IsIn,
}
use mathlib.Core.Path.{subst}
use native.Mathlib.Decide.{ℕ_discrete}
use orchid_linux.Automaton.Types.{Acsm, Pattern, acsm_fail_state}
use orchid_linux.Automaton.Build.{add_states, add_pattern_states}
use orchid_linux.Automaton.Build.Patterns.{
  IsNew, fresh-IsNew, add_states-Spells, match_up-Spells, add_match_list_entry-list,
  add_pattern_states-Spells,
}
use orchid_linux.Automaton.Build.Trie.{
  IsTrie, Spells, Spells-Extends, with_state, new_list, put_next_state-with_state,
  with_state-IsTrie,
}
use orchid_linux.Automaton.Build.Words.{HasWords, with_state-HasWords}

HasWords-lists :
    (inputs : ℕ) (acsm : Acsm) (lists : List (List Pattern))
    → HasWords inputs acsm
    → HasWords inputs (record acsm { match_list = lists })
HasWords-lists inputs acsm lists w = record {
  word = w.word;
  root_word = w.root_word;
  word_child = w.word_child;
  input_inside = w.input_inside;
  up = w.up;
  one_state = w.one_state;
  low = w.low;
  proper = w.proper;
}

All-rest : (P : ℕ → Type 0) (xs ys : List ℕ) → All P (xs ++ ys) → All P ys
All-rest P [] ys h = h
All-rest P (x ∷ xs) ys h = All-rest P xs ys h.1

add_states-HasWords :
    (inputs : ℕ) (acsm : Acsm) (state : ℕ) (text : List ℕ) (r : ℕ × Acsm)
    → IsTrie acsm
    → HasWords inputs acsm
    → state ≤ acsm.num_states
    → IsNew acsm state text
    → acsm.num_states + length text < length acsm.trans_table
    → length acsm.trans_table ≤ acsm_fail_state
    → All (λ c. c < inputs) text
    → add_states acsm state text ≡ ok r
    → HasWords inputs r.1
unfolding add_states
add_states-HasWords inputs acsm state [] r t w inside new room short small e =
    subst (λ x. HasWords inputs x.1) (ok_injective e) w
add_states-HasWords inputs acsm state (c ∷ text) r t w inside new room short small e =
    let next = acsm.num_states + 1 in
    let a = with_state acsm state c in
    let here : state < length acsm.trans_table = omega (arith, inside, t.room) in
    let width : length a.trans_table ≡ length acsm.trans_table =
      length-set acsm.trans_table state (new_list acsm state c) in
    let empty : get_or a.trans_table next [] ≡ [] =
      get_or-set_ne acsm.trans_table state next (new_list acsm state c) []
        (λ e. omega (arith, e, inside))
      ∙ t.fresh next (omega arith) in
    add_states-HasWords inputs a next text r
      (with_state-IsTrie acsm state c t inside (omega (arith, room)) short)
      (with_state-HasWords inputs acsm t w state c inside new small.0 (omega (arith, room, short)))
      (omega arith) (fresh-IsNew a next text empty) (omega (arith, room, width))
      (omega (arith, short, width)) small.1
      (rw (put_next_state-with_state acsm state c here new) at e)

pub add_pattern_states-HasWords :
    (inputs : ℕ) (acsm : Acsm) (p : Pattern) (a : Acsm)
    → IsTrie acsm
    → HasWords inputs acsm
    → acsm.num_states + length p.patrn < length acsm.trans_table
    → length acsm.trans_table ≤ acsm_fail_state
    → length acsm.match_list ≡ length acsm.trans_table
    → All (λ c. c < inputs) p.patrn
    → add_pattern_states acsm p ≡ ok a
    → HasWords inputs a
unfolding add_pattern_states
add_pattern_states-HasWords inputs acsm p a t w room short lists small e =
    let (r, run, (start, split, spells, inside, new)) =
      match_up-Spells acsm 0 p.patrn t (omega arith) in
    let size : length p.patrn ≡ length start + length r.1 =
      ap (λ cs. length cs) split ∙ length-append start r.1 in
    let (r', run', (grown, spells', low, same)) =
      add_states-Spells acsm r.0 r.1 t inside new (omega (arith, room, size)) short in
    let b = r'.1 in
    let q = r'.0 in
    let words =
      add_states-HasWords inputs acsm r.0 r.1 r' t w inside new (omega (arith, room, size)) short
        (All-rest (λ c. c < inputs) start r.1 (subst (λ cs. All (λ c. c < inputs) cs) split small))
        run' in
    let here : q < length b.match_list =
      omega (arith, low, grown.trie.room, grown.width, lists, ap (λ l. length l) same) in
    let result : add_pattern_states acsm p
        ≡ ok (record b { match_list = set b.match_list q (p ∷ get_or b.match_list q []) }) =
      rw (run, run', add_match_list_entry-list b q p here) refl in
    subst (λ x. HasWords inputs x) (ok_injective (sym result ∙ e))
      (HasWords-lists inputs b (set b.match_list q (p ∷ get_or b.match_list q [])) words)

-- Each pattern of a list belongs there: its text leads to the state.
abbrev pub HasOnly : Acsm → List Pattern → Type 0
HasOnly acsm ps =
    (state : ℕ) (px : Pattern)
    → IsIn px (get_or acsm.match_list state [])
    → IsIn px ps × Spells acsm 0 px.patrn state

at_new :
    (q state : ℕ) (px p : Pattern) (lists : List (List Pattern))
    → q ≡ state
    → q < length lists
    → IsIn px (get_or (set lists q (p ∷ get_or lists q [])) state [])
    → (px ≡ p) ⊎ IsIn px (get_or lists state [])
at_new q state px p lists here inside i =
    let there : get_or (set lists q (p ∷ get_or lists q [])) state [] ≡ p ∷ get_or lists state [] =
      subst (λ k. get_or (set lists q (p ∷ get_or lists q [])) k [] ≡ p ∷ get_or lists k []) here
        (get_or-set_self lists q (p ∷ get_or lists q []) [] inside) in
    subst (λ l. IsIn px l) there i

pub add_pattern_states-HasOnly :
    (acsm : Acsm) (p : Pattern) (a : Acsm) (ps : List Pattern)
    → IsTrie acsm
    → acsm.num_states + length p.patrn < length acsm.trans_table
    → length acsm.trans_table ≤ acsm_fail_state
    → length acsm.match_list ≡ length acsm.trans_table
    → HasOnly acsm ps
    → add_pattern_states acsm p ≡ ok a
    → HasOnly a (p ∷ ps)
add_pattern_states-HasOnly acsm p a ps t room short lists only e state px i =
    let (b, run, (grown, q, spells, inside, listed)) =
      add_pattern_states-Spells acsm p t room short lists in
    let same : b ≡ a = ok_injective (sym run ∙ e) in
    let i' : IsIn px (get_or (set acsm.match_list q (p ∷ get_or acsm.match_list q [])) state []) =
      subst (λ l. IsIn px (get_or l state [])) (ap (λ x. x.match_list) (sym same) ∙ listed) i in
    let held : IsIn px (get_or acsm.match_list state [])
        → IsIn px (p ∷ ps) × Spells a 0 px.patrn state =
      λ old. (
        inr (only state px old).0,
        subst (λ x. Spells x 0 px.patrn state) same
            (Spells-Extends acsm b 0 px.patrn state grown.extends (only state px old).1),
      ) in
    elim (ℕ_discrete q state) [
      | no ne ↦
          held (
            rw (get_or-set_ne acsm.match_list q state (p ∷ get_or acsm.match_list q []) [] ne) at
              i')
      | yes here ↦ elim (at_new q state px p acsm.match_list here inside i') [
        | inr old ↦ held old
        | inl new ↦ (
          inl new,
          subst (λ x. Spells x 0 px.patrn state) same
              (subst (λ k. Spells b 0 px.patrn k) here
                (subst (λ y. Spells b 0 y.patrn q) (sym new) spells)),
        )
      ]
    ]
