-- ===== src/Automaton/Build/Words.antt =====
-- The trie of `AddPatternStates` is a tree: one word for each state.
pub mod Patterns
use orchid_linux.Base.{
  ℕ, zero, suc, ◌+◌, ◌<◌, ◌≤◌, ◌≡◌, ◌≢◌, refl, ap, sym, ◌∙◌, ◌⊎◌, inl, inr, Bool-cases, List, [],
  ◌∷◌, Option, none, some, ◌==◌, ==_refl, ==_ne, if◌then◌else◌, arith, length, set, get_or,
  get_or-set_self, get_or-set_ne, All, ok, Run,
}
use mathlib.Core.Path.{subst}
use native.Mathlib.Decide.{ℕ_discrete, dec_lt}
use orchid_linux.Automaton.Types.{Acsm, TransNode, acsm_fail_state}
use orchid_linux.Automaton.Lists.{find_key}
use orchid_linux.Automaton.Build.Dfa.{IsProper, find_key-none}
use orchid_linux.Automaton.Build.Trie.{
  child, IsTrie, with_state, new_list, child-with_state, child-cases, with_state-Extends,
}
use orchid_linux.Automaton.Tree.{Tree}

-- The words of the states, of inputs below `inputs`.
pub record HasWords (inputs : ℕ) (acsm : Acsm) : Type 0 where
  pub word : ℕ → List ℕ
  pub root_word : word 0 ≡ []
  pub word_child : (s c n : ℕ) → child acsm s c ≡ some n → word n ≡ c ∷ word s
  pub input_inside : (s c n : ℕ) → child acsm s c ≡ some n → c < inputs
  pub up : (n : ℕ) → n ≤ acsm.num_states → n ≢ 0 → (s : ℕ) × (c : ℕ) × (child acsm s c ≡ some n)
  pub one_state : (m n : ℕ) → m ≤ acsm.num_states → n ≤ acsm.num_states → word m ≡ word n → m ≡ n
  pub low : (n : ℕ) → n ≤ acsm.num_states → length (word n) ≤ n
  pub proper : (n : ℕ) → IsProper inputs (get_or acsm.trans_table n [])

-- A transition starts at a state.
pub child_inside :
    (acsm : Acsm) (s c n : ℕ) → IsTrie acsm → child acsm s c ≡ some n → s ≤ acsm.num_states
unfolding find_key
child_inside acsm s c n t e = elim (dec_lt acsm.num_states s) [
  | yes beyond ↦
      let nothing : child acsm s c ≡ none = ap (λ ts. find_key ts c) (t.fresh s beyond) in
      absurd (cc (e, nothing))
  | no inside ↦ omega (arith, inside)
]

module _ (inputs : ℕ) (acsm : Acsm) (t : IsTrie acsm) (w : HasWords inputs acsm) (state c : ℕ)
    (inside : state ≤ acsm.num_states) (absent : child acsm state c ≡ none) where
  new_word : ℕ → List ℕ
  new_word n = if n == acsm.num_states + 1 then c ∷ w.word state else w.word n

  new_word_new : new_word (acsm.num_states + 1) ≡ c ∷ w.word state
  unfolding new_word
  new_word_new = rw (==_refl (acsm.num_states + 1)) refl

  new_word_old : (n : ℕ) → n ≤ acsm.num_states → new_word n ≡ w.word n
  unfolding new_word
  new_word_old n le = rw (==_ne n (acsm.num_states + 1) (λ e. omega (arith, e, le))) refl

  here : state < length acsm.trans_table
  here = omega (arith, inside, t.room)

  -- The new word was no word before.
  is_new_word : (n : ℕ) → n ≤ acsm.num_states → w.word n ≡ c ∷ w.word state → ⊥
  is_new_word n le e = elim (ℕ_discrete n 0) [
    | yes root ↦ absurd (cc (e, ap w.word root, w.root_word))
    | no other ↦
        let (p, c', found) = w.up n le other in
        let words : c' ∷ w.word p ≡ c ∷ w.word state = sym (w.word_child p c' n found) ∙ e in
        let same_input : c' ≡ c = cc in
        let same_word : w.word p ≡ w.word state = cc in
        let same : p ≡ state =
          w.one_state p state (child_inside acsm p c' n t found) inside same_word in
        let there : child acsm state c ≡ some n =
          subst (λ k. child acsm state k ≡ some n) same_input
            (subst (λ k. child acsm k c' ≡ some n) same found) in
        absurd (cc (there, absent))
  ]

  -- What the new automaton has: the new transition, or an old one.
  new_child :
      (s k n : ℕ)
      → child (with_state acsm state c) s k ≡ some n
      → ((state ≡ s) × (c ≡ k) × (n ≡ acsm.num_states + 1)) ⊎ (child acsm s k ≡ some n)
  new_child s k n e = elim (child-cases acsm state c s k here) [
    | inl (at, now) ↦
        let new : child (with_state acsm state c) s k ≡ some (acsm.num_states + 1) =
          subst (λ j. child (with_state acsm state c) j k ≡ some (acsm.num_states + 1)) at
            (subst (λ j. child (with_state acsm state c) state j ≡ some (acsm.num_states + 1)) now
              (child-with_state acsm state c here)) in
        inl (at, now, cc (e, new))
    | inr same ↦ inr (sym same ∙ e)
  ]

  pub with_state-HasWords :
      c < inputs → acsm.num_states + 1 < acsm_fail_state → HasWords inputs (with_state acsm state c)
  with_state-HasWords small short = record {
    word = new_word;
    root_word = new_word_old 0 (omega arith) ∙ w.root_word;
    word_child = λ s k n e. elim (new_child s k n e) [
      | inl (at, now, is_new) ↦
          ap new_word is_new
          ∙ new_word_new
          ∙ ap (λ j. j ∷ w.word state) now
          ∙ ap (λ ws. k ∷ ws) (sym (new_word_old state inside) ∙ ap new_word at)
      | inr old ↦
          new_word_old n (t.targets s k n old).1
          ∙ w.word_child s k n old
          ∙ ap (λ ws. k ∷ ws) (sym (new_word_old s (child_inside acsm s k n t old)))
    ];
    input_inside = λ s k n e. elim (new_child s k n e) [
      | inl (at, now, is_new) ↦ omega (arith, now, small)
      | inr old ↦ w.input_inside s k n old
    ];
    up = λ n le other. elim (ℕ_discrete n (acsm.num_states + 1)) [
      | yes is_new ↦ (state, c, child-with_state acsm state c here ∙ ap (λ k. some k) (sym is_new))
      | no before ↦
          let (p, k, e) = w.up n (omega (arith, le, before)) other in
          (p, k, with_state-Extends acsm state c here absent p k n e)
    ];
    one_state = λ m n m_le n_le e. elim (ℕ_discrete m (acsm.num_states + 1)) [
      | yes m_new ↦ elim (ℕ_discrete n (acsm.num_states + 1)) [
        | yes n_new ↦ m_new ∙ sym n_new
        | no n_old ↦
            let n_before : n ≤ acsm.num_states = omega (arith, n_le, n_old) in
            absurd (
              is_new_word n n_before
                (sym (new_word_old n n_before) ∙ sym e ∙ ap new_word m_new ∙ new_word_new))
      ]
      | no m_old ↦
          let m_before : m ≤ acsm.num_states = omega (arith, m_le, m_old) in
          elim (ℕ_discrete n (acsm.num_states + 1)) [
            | yes n_new ↦ absurd (
                is_new_word m m_before
                  (sym (new_word_old m m_before) ∙ e ∙ ap new_word n_new ∙ new_word_new))
            | no n_old ↦
                let n_before : n ≤ acsm.num_states = omega (arith, n_le, n_old) in
                w.one_state m n m_before n_before
                  (sym (new_word_old m m_before) ∙ e ∙ new_word_old n n_before)
          ]
    ];
    low = λ n le. elim (ℕ_discrete n (acsm.num_states + 1)) [
      | yes is_new ↦
          let size : length (new_word n) ≡ suc (length (w.word state)) =
            ap (λ k. length (new_word k)) is_new ∙ ap (λ ws. length ws) new_word_new in
          omega (arith, size, w.low state inside, inside, is_new)
      | no before ↦
          let n_before : n ≤ acsm.num_states = omega (arith, le, before) in
          let size : length (new_word n) ≡ length (w.word n) =
            ap (λ ws. length ws) (new_word_old n n_before) in
          omega (arith, size, w.low n n_before)
    ];
    proper = λ n. elim (ℕ_discrete state n) [
      | yes at ↦
          subst (λ k. IsProper inputs (get_or (with_state acsm state c).trans_table k [])) at
            (subst (λ ts. IsProper inputs ts)
              (sym (get_or-set_self acsm.trans_table state (new_list acsm state c) [] here))
              (record {
                keys = (
                  small,
                  find_key-none (get_or acsm.trans_table state []) c absent,
                  (w.proper state).keys,
                );
                targets = ((λ e. omega (arith, e, short)), (w.proper state).targets);
              }))
      | no ne ↦
          subst (λ ts. IsProper inputs ts)
            (sym (get_or-set_ne acsm.trans_table state n (new_list acsm state c) [] ne))
            (w.proper n)
    ];
  }
