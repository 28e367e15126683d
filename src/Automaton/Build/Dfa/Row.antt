-- ===== src/Automaton/Build/Dfa/Row.antt =====
-- The body of the loop of `Convert_NFA_To_DFA`: the transition of a state at an input.
use orchid_linux.Base.{
  ℕ, ◌+◌, ◌<◌, ◌≡◌, ◌≢◌, refl, ap, sym, ◌∙◌, ◌⊎◌, inl, inr, Bool-cases, List, [], ◌∷◌, Option, none,
  some, arith, length, length-set, get_or, ok, Run, ◌==◌, ◌||◌, true, false, IsIn, if◌then◌else◌,
  ok_injective, u32,
}
use mathlib.Core.Path.{subst}
use native.Mathlib.Decide.{ℕ_discrete}
use orchid_linux.Automaton.Types.{Acsm, TransNode, acsm_fail_state}
use orchid_linux.Automaton.Lists.{find_key, get_next_state, put_next_state}
use orchid_linux.Automaton.Build.Failure.{key_result, get_next_state-key}
use orchid_linux.Automaton.Tree.{Tree, depth}
use orchid_linux.Automaton.Tree.Longest.{IsLongest, child-IsLongest, failure-IsLongest}
use orchid_linux.Automaton.Tree.Layers.{IsLayered}
use orchid_linux.Automaton.Tree.Layers.Steps.{WasFollowed-next, WasFollowed-later}
use orchid_linux.Automaton.Build.Dfa.{
  HasTrie, IsProper, IsFilled, target_of, target, with_rows, with_key, put_next_state-with_key,
  find_key-with_key, find_key-with_key_other, with_key-IsProper,
}

-- The transition at `r` and `i` that is taken over from the failure state, or none.
pub record IsFall (nfa : Acsm) (t : Tree) (done : List ℕ) (r i : ℕ) (rows : List (List TransNode))
    (k : ℕ) (run : Run Acsm) : Type 0 where
  pub rows_to : List (List TransNode)
  pub count_to : ℕ
  pub result : run ≡ ok (with_rows nfa rows_to count_to)
  pub filled : IsFilled nfa t done r (i + 1) rows_to

module _ (fs : ℕ) where
  -- The test of `c_fail_state`.
  stopped_target :
      (found : Option ℕ) (q : ℕ)
      → key_result fs found ≡ ok q
      → (q == 0 || q == acsm_fail_state) ≡ true
      → target_of found < acsm_fail_state
      → target_of found ≡ 0
  stopped_target none q e stops small = refl
  stopped_target (some n) q e stops small =
      let same : n ≡ q = ok_injective e in ground (arith, same, stops, small)

  going_target :
      (found : Option ℕ) (q : ℕ)
      → key_result fs found ≡ ok q
      → (q == 0 || q == acsm_fail_state) ≡ false
      → target_of found ≡ q
  going_target none q e goes = elim (Bool-cases (fs == 0)) [
    | inl root ↦ let same : 0 ≡ q = ok_injective (rw root at e) in ground (arith, same, goes)
    | inr other ↦
        let same : acsm_fail_state ≡ q = ok_injective (rw other at e) in
        absurd (ground (arith, same, goes))
  ]
  going_target (some n) q e goes = ok_injective e

module _ (nfa : Acsm) (t : Tree) (h : HasTrie nfa t) where
  -- The lists change at the one state and input.
  step-IsFilled :
      (done : List ℕ) (r i : ℕ) (rows rows' : List (List TransNode))
      → IsFilled nfa t done r i rows
      → r ≢ 0
      → IsIn r done
      → length rows' ≡ length rows
      → ((n : ℕ) → IsProper nfa.alphabet_size (get_or rows' n []))
      → IsLongest t (i ∷ t.word r) (target rows' r i)
      → ((n c : ℕ)
          → ((n ≡ r) × (c ≡ i) → ⊥)
          → find_key (get_or rows' n []) c ≡ find_key (get_or rows n []) c)
      → IsFilled nfa t done r (i + 1) rows'
  step-IsFilled done r i rows rows' f not_root here width proper long others = record {
    width = width ∙ f.width;
    proper = proper;
    full = λ n c inside low followed. elim (WasFollowed-next done r i n c followed) [
      | inl (at, now) ↦
          subst (λ m. IsLongest t (c ∷ t.word m) (target rows' m c)) (sym at)
            (subst (λ j. IsLongest t (j ∷ t.word r) (target rows' r j)) (sym now) long)
      | inr before ↦
          subst (λ q. IsLongest t (c ∷ t.word n) q)
            (ap target_of (sym (others n c (λ both. omega (arith, before.1 both.0, both.1)))))
            (f.full n c inside low before)
    ];
    kept = λ n c unfollowed.
        let elsewhere : (n ≡ r) × (c ≡ i) → ⊥ = λ both. elim unfollowed [
          | inl root ↦ not_root (sym both.0 ∙ root)
          | inr not ↦
              not (inr (subst (λ m. IsIn m done) (sym both.0) here), (λ e. omega (arith, both.1)))
        ] in
        others n c elsewhere
        ∙ f.kept n c (elim unfollowed [
          | inl root ↦ inl root
          | inr not ↦ inr (λ before. not (WasFollowed-later done r i n c before))
        ]);
  }

  unfollowed_key :
      (done : List ℕ) (r i : ℕ) (rows : List (List TransNode))
      → IsFilled nfa t done r i rows
      → find_key (get_or rows r []) i ≡ t.child r i
  unfollowed_key done r i rows f = f.kept r i (inr (λ before. omega (arith, before.1 refl)))

  -- A transition of the trie stays.
  pub child-IsFilled :
      (done : List ℕ) (r i s : ℕ) (rows : List (List TransNode))
      → IsFilled nfa t done r i rows
      → r ≢ 0
      → IsIn r done
      → t.child r i ≡ some s
      → IsFilled nfa t done r (i + 1) rows
  child-IsFilled done r i s rows f not_root here e =
      step-IsFilled done r i rows rows f not_root here refl f.proper
        (subst (λ q. IsLongest t (i ∷ t.word r) q)
          (ap target_of (sym (unfollowed_key done r i rows f ∙ e))) (child-IsLongest t r i s e))
        (λ n c elsewhere. refl)

  -- Where the failure state leads: the longest text of the state itself.
  fall-IsLongest :
      (done nodes : List ℕ) (r i : ℕ) (rows : List (List TransNode))
      → IsFilled nfa t done r i rows
      → IsLayered t done nodes r i
      → r < t.size
      → i < t.inputs
      → r ≢ 0
      → t.child r i ≡ none
      → IsLongest t (i ∷ t.word r) (target rows (get_or nfa.fail_state r 0) i)
  fall-IsLongest done nodes r i rows f l inside low not_root nothing =
      let fs = get_or nfa.fail_state r 0 in
      let fail = h.failure r inside not_root in
      let before : (fs ≡ 0) ⊎ IsIn fs done = elim (ℕ_discrete fs 0) [
        | yes root ↦ inl root
        | no other ↦ inr (l.lower fs fail.inside other fail.shorter)
      ] in
      failure-IsLongest t r i fs (target rows fs i) inside nothing fail (
        f.full fs i fail.inside low
          (before, λ same. absurd (omega (arith, fail.shorter, ap (depth t) same))))

  -- Where the failure state leads to state 0, the list stays as it is.
  zero-IsFilled :
      (done : List ℕ) (r i fs : ℕ) (rows : List (List TransNode))
      → IsFilled nfa t done r i rows
      → r ≢ 0
      → IsIn r done
      → t.child r i ≡ none
      → IsLongest t (i ∷ t.word r) (target rows fs i)
      → target rows fs i ≡ 0
      → IsFilled nfa t done r (i + 1) rows
  zero-IsFilled done r i fs rows f not_root here nothing long is_zero =
      step-IsFilled done r i rows rows f not_root here refl f.proper
        (subst (λ q. IsLongest t (i ∷ t.word r) q)
          (is_zero ∙ ap target_of (sym (unfollowed_key done r i rows f ∙ nothing))) long)
        (λ n c elsewhere. refl)

  -- The transition of the failure state is taken over.
  pub dfa_input-IsFall :
      (done nodes : List ℕ) (r i : ℕ) (rows : List (List TransNode)) (k q : ℕ)
      → IsFilled nfa t done r i rows
      → IsLayered t done nodes r i
      → r < t.size
      → i < t.inputs
      → r ≢ 0
      → IsIn r done
      → t.child r i ≡ none
      → get_next_state (with_rows nfa rows k) (get_or nfa.fail_state r 0) i ≡ ok q
      → IsFall nfa t done r i rows k (
          if q == 0 || q == acsm_fail_state
          then ok (with_rows nfa rows k)
          else put_next_state (with_rows nfa rows k) r i q)
  dfa_input-IsFall done nodes r i rows k q f l inside low not_root here nothing run =
      let fs = get_or nfa.fail_state r 0 in
      let fs_inside = (h.failure r inside not_root).inside in
      let long = fall-IsLongest done nodes r i rows f l inside low not_root nothing in
      let absent = unfollowed_key done r i rows f ∙ nothing in
      let key =
        sym (
          get_next_state-key (with_rows nfa rows k) fs i
            (omega (arith, fs_inside, h.listed, f.width)))
        ∙ run in
      let width : r < length rows = omega (arith, inside, h.listed, f.width) in
      elim (Bool-cases (q == 0 || q == acsm_fail_state)) [
        | inl stops ↦ record {
          rows_to = rows;
          count_to = k;
          result = rw stops refl;
          filled = zero-IsFilled done r i fs rows f not_root here nothing long (
              stopped_target fs (find_key (get_or rows fs []) i) q key stops
                (omega (arith, long.inside, h.small)));
        }
        | inr goes ↦
            let q_is = going_target fs (find_key (get_or rows fs []) i) q key goes in
            record {
              rows_to = with_key rows r i q;
              count_to = u32 (k + 1);
              result = rw goes (put_next_state-with_key (with_rows nfa rows k) r i q width absent);
              filled =
                  step-IsFilled done r i rows (with_key rows r i q) f not_root here
                    (length-set rows r (record { key = i; next_state = q } ∷ get_or rows r []))
                    (with_key-IsProper rows r i q width nfa.alphabet_size
                      (omega (arith, low, h.alphabet)) (λ e. ground (arith, e, goes)) absent
                      f.proper)
                    (subst (λ n. IsLongest t (i ∷ t.word r) n)
                      (q_is ∙ ap target_of (sym (find_key-with_key rows r i q width))) long)
                    (find_key-with_key_other rows r i q width);
            }
      ]
