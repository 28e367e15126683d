-- ===== src/Automaton/Build/Failure.antt =====
-- The walk along the failure states in `Build_NFA` ends.
use orchid_linux.Base.{
  ℕ, zero, suc, ◌<◌, ◌≤◌, ◌≡◌, ◌≢◌, refl, ap, ◌∙◌, ◌⊎◌, inl, inr, true, Bool-cases, Option-cases,
  List, [], ◌∷◌, Option, none, some, ◌==◌, ==_ne, arith, length, get_or, get_elem?-eq-get_or, All,
  Run, ok, Returns, if◌then◌else◌,
}
use native.Mathlib.Decide.{ℕ_discrete}
use orchid_linux.Automaton.Types.{Acsm, TransNode, acsm_fail_state}
use orchid_linux.Automaton.Lists.{find_key, get_next_state}
use orchid_linux.Automaton.Build.{next_valid}

-- The walk from a state: it ends where a state has a transition, and goes on to the failure state
-- where it has none.
pub data LeadsTo (acsm : Acsm) (input : ℕ) : ℕ → ℕ → Type 0 where
  has_transition :
      {state next : ℕ}
      → get_next_state acsm state input ≡ ok next
      → next ≢ acsm_fail_state
      → LeadsTo acsm input state next
  fails :
      {state next : ℕ}
      → get_next_state acsm state input ≡ ok acsm_fail_state
      → LeadsTo acsm input (get_or acsm.fail_state state 0) next
      → LeadsTo acsm input state next

-- Every state but 0 has a failure state of a lower rank, as the depth of the states in the trie is.
pub record HasFailures (acsm : Acsm) (rank : ℕ → ℕ) (size : ℕ) : Type 0 where
  pub listed : size ≤ length acsm.trans_table
  pub failing : size ≤ length acsm.fail_state
  pub inside : (state : ℕ) → state < size → get_or acsm.fail_state state 0 < size
  pub lower :
      (state : ℕ) → state < size → state ≢ 0 → rank (get_or acsm.fail_state state 0) < rank state
  pub targets :
      (state input next : ℕ)
      → state < size
      → find_key (get_or acsm.trans_table state []) input ≡ some next
      → next ≢ acsm_fail_state

-- The transitions of a list do not fail.
pub found-target :
    (ts : List TransNode) (input next : ℕ)
    → All (λ t. t.next_state ≢ acsm_fail_state) ts
    → find_key ts input ≡ some next
    → next ≢ acsm_fail_state
unfolding find_key
found-target [] input next h e = absurd (cc e)
found-target (t ∷ ts) input next h e = elim (Bool-cases (t.key == input)) [
  | inl same ↦ λ bad. h.0 (cc (rw same at e, bad))
  | inr other ↦ found-target ts input next h.1 (rw other at e)
]

abbrev pub key_result : ℕ → Option ℕ → Run ℕ
key_result state none = ok (if state == 0 then 0 else acsm_fail_state)
key_result state (some next) = ok next

pub get_next_state-key :
    (acsm : Acsm) (state input : ℕ)
    → state < length acsm.trans_table
    → get_next_state acsm state input
      ≡ key_result state (find_key (get_or acsm.trans_table state []) input)
unfolding get_next_state
get_next_state-key acsm state input h = rw (get_elem?-eq-get_or acsm.trans_table state [] h) refl

next_or_failure :
    (acsm : Acsm) (rank : ℕ → ℕ) (size state input : ℕ)
    → HasFailures acsm rank size
    → state < size
    → Returns
        (get_next_state acsm state input)
        (λ next. (next ≢ acsm_fail_state) ⊎ ((next ≡ acsm_fail_state) × (state ≢ 0)))
next_or_failure acsm rank size state input f h =
    let ts = get_or acsm.trans_table state [] in
    let found = get_next_state-key acsm state input (omega (arith, h, f.listed)) in
    elim (Option-cases (find_key ts input)) [
      | inl e ↦ elim (ℕ_discrete state 0) [
        | yes root ↦
            let at_root : (state == 0) ≡ true = ap (λ s. s == 0) root in
            (0, found ∙ ap (key_result state) e ∙ rw at_root refl, inl (λ bad. omega (arith, bad)))
        | no other ↦ (
          acsm_fail_state,
          found ∙ ap (key_result state) e ∙ rw (==_ne state 0 other) refl,
          inr (refl, other),
        )
      ]
      | inr (next, e) ↦
          (next, found ∙ ap (key_result state) e, inl (f.targets state input next h e))
    ]

-- On failure states whose rank goes down to state 0: the walk for an input from any state ends after
-- at most as many rounds as its rank and one more, with the transition of the first state on the way
-- that has one.
pub next_valid-LeadsTo :
    (rounds : ℕ) (acsm : Acsm) (rank : ℕ → ℕ) (size state input : ℕ)
    → HasFailures acsm rank size
    → state < size
    → rank state < rounds
    → Returns (next_valid rounds acsm state input) (LeadsTo acsm input state)
unfolding next_valid
next_valid-LeadsTo zero acsm rank size state input f h fuel = absurd (omega (arith, fuel))
next_valid-LeadsTo (suc rounds) acsm rank size state input f h fuel =
    let (next, run, kind) = next_or_failure acsm rank size state input f h in
    elim kind [
      | inl valid ↦
          (next, rw (run, ==_ne next acsm_fail_state valid) refl, has_transition run valid)
      | inr (fail, other) ↦
          let none_here : get_next_state acsm state input ≡ ok acsm_fail_state =
            run ∙ ap (λ n. ok n) fail in
          let behind = get_or acsm.fail_state state 0 in
          let (found, run', leads) =
            next_valid-LeadsTo rounds acsm rank size behind input f (f.inside state h)
              (omega (arith, fuel, f.lower state h other)) in
          (
            found,
            rw
                (
                  none_here,
                  get_elem?-eq-get_or acsm.fail_state state 0 (omega (arith, h, f.failing)),
                )
                run',
            fails none_here leads,
          )
    ]
