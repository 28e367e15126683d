-- ===== src/Automaton/Build/Nfa/Walk.antt =====
-- The walk along the failure states in `Build_NFA` leads to the longest text that a state stands for.
use orchid_linux.Base.{
  ℕ, ◌<◌, ◌≤◌, ◌≡◌, ◌≢◌, refl, ap, sym, ◌∙◌, inl, inr, [], ◌∷◌, none, arith, length, get_or,
  Option-cases, ok, ==_ne, ◌==◌,
}
use mathlib.Core.Path.{subst}
use native.Mathlib.Decide.{ℕ_discrete}
use orchid_linux.Automaton.Types.{Acsm, acsm_fail_state}
use orchid_linux.Automaton.Lists.{find_key, get_next_state}
use orchid_linux.Automaton.Build.Failure.{
  LeadsTo, has_transition, fails, key_result, get_next_state-key,
}
use orchid_linux.Automaton.Tree.{Tree, depth}
use orchid_linux.Automaton.Tree.Longest.{
  IsLongest, IsFailure, child-IsLongest, root_none-IsLongest, failure-IsLongest,
}
use orchid_linux.Automaton.Build.Nfa.{IsTreeOf}

-- What a transition is read as.
pub record IsRead (t : Tree) (state c next : ℕ) : Type 0 where
  pub known : next ≢ acsm_fail_state → IsLongest t (c ∷ t.word state) next
  pub failing : next ≡ acsm_fail_state → t.child state c ≡ none
  pub no_root : next ≡ acsm_fail_state → state ≢ 0

some_result : {A : Type 0} (a b : A) → ok a ≡ ok b → a ≡ b
some_result a b e = cc e

module _ (base : Acsm) (t : Tree) (b : IsTreeOf base t) where
  -- A transition that is there leads below the states' number.
  pub key_result-IsRead :
      (state c next : ℕ) → key_result state (t.child state c) ≡ ok next → IsRead t state c next
  key_result-IsRead state c next run = elim (Option-cases (t.child state c)) [
    | inl nothing ↦ elim (ℕ_discrete state 0) [
      | yes root ↦
          let zero_next : 0 ≡ next =
            some_result 0 next
              (sym (ap (key_result state) nothing ∙ rw (ap (λ s. s == 0) root) refl) ∙ run) in
          record {
            known = λ ok_next.
                subst (λ q. IsLongest t (c ∷ t.word state) q) zero_next
                  (subst (λ s. IsLongest t (c ∷ t.word s) 0) (sym root)
                    (root_none-IsLongest t c (subst (λ s. t.child s c ≡ none) root nothing)));
            failing = λ e. nothing;
            no_root = λ e. absurd (omega (arith, zero_next, e));
          }
      | no other ↦
          let bad : acsm_fail_state ≡ next =
            some_result acsm_fail_state next
              (sym (ap (key_result state) nothing ∙ rw (==_ne state 0 other) refl) ∙ run) in
          record {
            known = λ ok_next. absurd (ok_next (sym bad));
            failing = λ e. nothing;
            no_root = λ e. other;
          }
    ]
    | inr (n, found) ↦
        let same : n ≡ next = some_result n next (sym (ap (key_result state) found) ∙ run) in
        record {
          known = λ ok_next.
              subst (λ q. IsLongest t (c ∷ t.word state) q) same
                (child-IsLongest t state c n found);
          failing = λ e. absurd (omega (arith, e, same, b.small, t.to_inside state c n found));
          no_root = λ e. absurd (omega (arith, e, same, b.small, t.to_inside state c n found));
        }
  ]

  pub get_next_state-IsRead :
      (acsm : Acsm) (state c next : ℕ)
      → acsm.trans_table ≡ base.trans_table
      → state < t.size
      → get_next_state acsm state c ≡ ok next
      → IsRead t state c next
  get_next_state-IsRead acsm state c next table inside run = key_result-IsRead state c next (
      ap (key_result state) (sym (b.same state c))
      ∙ ap (λ tt. key_result state (find_key (get_or tt state []) c)) (sym table)
      ∙ sym (
          get_next_state-key acsm state c
            (omega (arith, inside, b.listed, ap (λ l. length l) table)))
      ∙ run)

  -- From a state below which all failure states are right.
  pub LeadsTo-IsLongest :
      (acsm : Acsm) (c state next : ℕ)
      → acsm.trans_table ≡ base.trans_table
      → state < t.size
      → ((n : ℕ)
          → n < t.size
          → n ≢ 0
          → depth t n ≤ depth t state
          → IsFailure t n (get_or acsm.fail_state n 0))
      → LeadsTo acsm c state next
      → IsLongest t (c ∷ t.word state) next
  LeadsTo-IsLongest acsm c state next table inside right (has_transition run valid) =
      (get_next_state-IsRead acsm state c next table inside run).known valid
  LeadsTo-IsLongest acsm c state next table inside right (fails run later) =
      let at_fail = get_next_state-IsRead acsm state c acsm_fail_state table inside run in
      let fail = right state inside (at_fail.no_root refl) (omega arith) in
      let f = get_or acsm.fail_state state 0 in
      failure-IsLongest t state c f next inside (at_fail.failing refl) fail (
        LeadsTo-IsLongest acsm c f next table fail.inside
          (λ n n_inside n_other le. right n n_inside n_other (omega (arith, le, fail.shorter)))
          later)
