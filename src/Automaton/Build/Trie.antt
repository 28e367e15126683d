-- ===== src/Automaton/Build/Trie.antt =====
-- The trie of `AddPatternStates`: a pattern's text leads from state 0 to a state whose list has it.
use orchid_linux.Base.{
  ℕ, ◌+◌, ◌<◌, ◌≤◌, ◌≡◌, ◌≢◌, refl, ap, sym, ◌∙◌, ◌⊎◌, inl, inr, Bool-cases, List, [], ◌∷◌, ◌++◌,
  Option, none, some, ◌==◌, ==_refl, ==_ne, arith, length, length-set, set, get_or, get_or-set_self,
  get_or-set_ne, get_elem?-eq-get_or, Run, ok, u32,
}
use mathlib.Core.Path.{subst}
use native.Mathlib.Decide.{ℕ_discrete}
use orchid_linux.Automaton.Types.{Acsm, TransNode, acsm_fail_state}
use orchid_linux.Automaton.Lists.{find_key, reset_key, put_next_state}

-- The transition of a state in its list.
abbrev pub child : Acsm → ℕ → ℕ → Option ℕ
child acsm state input = find_key (get_or acsm.trans_table state []) input

-- The transitions along a text.
pub data Spells (acsm : Acsm) : ℕ → List ℕ → ℕ → Type 0 where
  stays : {state : ℕ} → Spells acsm state [] state
  moves :
      {state next end c : ℕ} {text : List ℕ}
      → child acsm state c ≡ some next
      → Spells acsm next text end
      → Spells acsm state (c ∷ text) end

-- The transitions of the one are those of the other.
abbrev pub Extends : Acsm → Acsm → Type 0
Extends acsm acsm' =
    (state c next : ℕ) → child acsm state c ≡ some next → child acsm' state c ≡ some next

pub Spells-Extends :
    (acsm acsm' : Acsm) (state : ℕ) (text : List ℕ) (end : ℕ)
    → Extends acsm acsm'
    → Spells acsm state text end
    → Spells acsm' state text end
Spells-Extends acsm acsm' state text end e stays = stays
Spells-Extends acsm acsm' state (c ∷ text) end e (moves {next = next} h later) =
    moves (e state c next h) (Spells-Extends acsm acsm' next text end e later)

pub Spells-append :
    (acsm : Acsm) (state middle end : ℕ) (text text' : List ℕ)
    → Spells acsm state text middle
    → Spells acsm middle text' end
    → Spells acsm state (text ++ text') end
Spells-append acsm state middle end text text' stays later = later
Spells-append acsm state middle end (c ∷ text) text' (moves {next = next} h rest) later =
    moves h (Spells-append acsm next middle end text text' rest later)

-- The states are numbered without gaps, and all transitions lead to one of them that is not 0.
pub record IsTrie (acsm : Acsm) : Type 0 where
  pub room : acsm.num_states < length acsm.trans_table
  pub small : acsm.num_states < acsm_fail_state
  pub targets :
      (state c next : ℕ) → child acsm state c ≡ some next → (next ≢ 0) × (next ≤ acsm.num_states)
  pub fresh : (state : ℕ) → acsm.num_states < state → get_or acsm.trans_table state [] ≡ []

pub reset_key-none :
    (ts : List TransNode) (input next : ℕ)
    → find_key ts input ≡ none
    → reset_key ts input next ≡ none
unfolding find_key reset_key
reset_key-none [] input next h = refl
reset_key-none (t ∷ ts) input next h = elim (Bool-cases (t.key == input)) [
  | inl same ↦ absurd (cc (rw same at h))
  | inr other ↦ rw (other, reset_key-none ts input next (rw other at h)) refl
]

-- The automaton with a new state behind `state`.
abbrev pub with_state : Acsm → ℕ → ℕ → Acsm
with_state acsm state c =
    let tnew : TransNode = record { key = c; next_state = acsm.num_states + 1 } in
    record acsm {
      num_states = acsm.num_states + 1;
      trans_table = set acsm.trans_table state (tnew ∷ get_or acsm.trans_table state []);
      num_trans = u32 (acsm.num_trans + 1);
    }

abbrev put_result : Acsm → ℕ → ℕ → List TransNode → Option (List TransNode) → Run Acsm
put_result acsm state c p (some p') =
    ok (record acsm {
      num_states = acsm.num_states + 1;
      trans_table = set acsm.trans_table state p';
    })
put_result acsm state c p none = ok (record acsm {
  num_states = acsm.num_states + 1;
  trans_table =
      set acsm.trans_table state (record { key = c; next_state = acsm.num_states + 1 } ∷ p);
  num_trans = u32 (acsm.num_trans + 1);
})

pub put_next_state-with_state :
    (acsm : Acsm) (state c : ℕ)
    → state < length acsm.trans_table
    → child acsm state c ≡ none
    → put_next_state
        (record acsm { num_states = acsm.num_states + 1 })
        state
        c
        (acsm.num_states + 1)
      ≡ ok (with_state acsm state c)
unfolding put_next_state
put_next_state-with_state acsm state c inside h =
    let p = get_or acsm.trans_table state [] in
    let read_list : put_next_state (record acsm { num_states = acsm.num_states + 1 }) state c
          (acsm.num_states + 1)
        ≡ put_result acsm state c p (reset_key p c (acsm.num_states + 1)) =
      rw (get_elem?-eq-get_or acsm.trans_table state [] inside) refl in
    read_list ∙ ap (put_result acsm state c p) (reset_key-none p c (acsm.num_states + 1) h)

-- What the new state changes.
abbrev pub new_list : Acsm → ℕ → ℕ → List TransNode
new_list acsm state c =
    record { key = c; next_state = acsm.num_states + 1 } ∷ get_or acsm.trans_table state []

pub child-with_state :
    (acsm : Acsm) (state c : ℕ)
    → state < length acsm.trans_table
    → child (with_state acsm state c) state c ≡ some (acsm.num_states + 1)
unfolding find_key
child-with_state acsm state c inside =
    rw (get_or-set_self acsm.trans_table state (new_list acsm state c) [] inside, ==_refl c) refl

child-other :
    (acsm : Acsm) (state c state' : ℕ)
    → state ≢ state'
    → (c' : ℕ) → child (with_state acsm state c) state' c' ≡ child acsm state' c'
child-other acsm state c state' other c' =
    ap (λ ts. find_key ts c')
      (get_or-set_ne acsm.trans_table state state' (new_list acsm state c) [] other)

child-same :
    (acsm : Acsm) (state c c' : ℕ)
    → state < length acsm.trans_table
    → c ≢ c'
    → child (with_state acsm state c) state c' ≡ child acsm state c'
unfolding find_key
child-same acsm state c c' inside other =
    rw (get_or-set_self acsm.trans_table state (new_list acsm state c) [] inside, ==_ne c c' other)
      refl

-- Whatever the new automaton has is the new transition, or was there.
pub child-cases :
    (acsm : Acsm) (state c state' c' : ℕ)
    → state < length acsm.trans_table
    → ((state ≡ state') × (c ≡ c'))
      ⊎ (child (with_state acsm state c) state' c' ≡ child acsm state' c')
child-cases acsm state c state' c' inside = elim (ℕ_discrete state state') [
  | yes same ↦ elim (ℕ_discrete c c') [
    | yes here ↦ inl (same, here)
    | no other ↦ inr (
        subst (λ s. child (with_state acsm state c) s c' ≡ child acsm s c') same
          (child-same acsm state c c' inside other))
  ]
  | no other ↦ inr (child-other acsm state c state' other c')
]

pub with_state-Extends :
    (acsm : Acsm) (state c : ℕ)
    → state < length acsm.trans_table
    → child acsm state c ≡ none
    → Extends acsm (with_state acsm state c)
with_state-Extends acsm state c inside h state' c' next found =
    elim (child-cases acsm state c state' c' inside) [
      | inl (same, here) ↦
          let there : child acsm state' c' ≡ none =
            subst (λ s. child acsm s c' ≡ none) same
              (subst (λ k. child acsm state k ≡ none) here h) in
          absurd (cc (there, found))
      | inr e ↦ e ∙ found
    ]

pub with_state-IsTrie :
    (acsm : Acsm) (state c : ℕ)
    → IsTrie acsm
    → state ≤ acsm.num_states
    → acsm.num_states + 1 < length acsm.trans_table
    → length acsm.trans_table ≤ acsm_fail_state
    → IsTrie (with_state acsm state c)
with_state-IsTrie acsm state c t inside room short = record {
  room = omega (arith, room, length-set acsm.trans_table state (new_list acsm state c));
  small = omega (arith, room, short);
  targets = λ state' c' next found.
      elim (child-cases acsm state c state' c' (omega (arith, inside, room))) [
        | inl (same, here) ↦
            let new : child (with_state acsm state c) state' c' ≡ some (acsm.num_states + 1) =
              subst (λ s. child (with_state acsm state c) s c' ≡ some (acsm.num_states + 1)) same
                (subst (λ k. child (with_state acsm state c) state k ≡ some (acsm.num_states + 1))
                  here (child-with_state acsm state c (omega (arith, inside, room)))) in
            let value : acsm.num_states + 1 ≡ next = cc (new, found) in
            ((λ e. omega (arith, e, value)), omega (arith, value))
        | inr e ↦
            let old = t.targets state' c' next (sym e ∙ found) in (old.0, omega (arith, old.1))
      ];
  fresh = λ state' beyond.
      get_or-set_ne acsm.trans_table state state' (new_list acsm state c) []
        (λ e. omega (arith, e, beyond, inside))
      ∙ t.fresh state' (omega (arith, beyond));
}
