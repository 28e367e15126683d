-- ===== src/Automaton/Build/Dfa.antt =====
-- What `Convert_NFA_To_DFA` makes: lists of transitions that lead to the longest text.
pub mod Row
pub mod Loop
pub mod Correct
use orchid_linux.Base.{
  ℕ, zero, suc, ◌+◌, ◌<◌, ◌≤◌, ◌≡◌, ◌≢◌, refl, ap, sym, ◌∙◌, ◌⊎◌, inl, inr, Bool-cases, List, [],
  ◌∷◌, Option, none, some, arith, length, length-set, set, get_or, get_or-set_self, get_or-set_ne,
  get_elem?-eq-get_or, All, ok, Run, ◌==◌, ==_ne, ==_refl, u32,
}
use mathlib.Core.Path.{subst}
use native.Mathlib.Decide.{ℕ_discrete}
use orchid_linux.Automaton.Types.{Acsm, TransNode, acsm_fail_state}
use orchid_linux.Automaton.Lists.{find_key, reset_key, put_next_state}
use orchid_linux.Automaton.Build.Trie.{child, reset_key-none}
use orchid_linux.Automaton.Rows.Stored.{IsTransList}
use orchid_linux.Automaton.Tree.{Tree}
use orchid_linux.Automaton.Tree.Longest.{IsLongest, IsFailure}
use orchid_linux.Automaton.Tree.Layers.{WasFollowed}

-- A list with different inputs as keys that leads to no failure state.
pub record IsProper (size : ℕ) (ts : List TransNode) : Type 0 where
  pub keys : IsTransList size ts
  pub targets : All (λ t. t.next_state ≢ acsm_fail_state) ts

-- An automaton with the lists of a trie and the failure states of it.
pub record HasTrie (nfa : Acsm) (t : Tree) : Type 0 where
  pub same : (s c : ℕ) → child nfa s c ≡ t.child s c
  pub alphabet : nfa.alphabet_size ≡ t.inputs
  pub listed : t.size ≤ length nfa.trans_table
  pub failing : t.size ≤ length nfa.fail_state
  pub small : t.size ≤ acsm_fail_state
  pub failure : (n : ℕ) → n < t.size → n ≢ 0 → IsFailure t n (get_or nfa.fail_state n 0)
  pub proper : (n : ℕ) → IsProper nfa.alphabet_size (get_or nfa.trans_table n [])

-- The state that a list leads to: 0 where the input is no key.
abbrev pub target_of : Option ℕ → ℕ
target_of none = 0
target_of (some next) = next

abbrev pub target : List (List TransNode) → ℕ → ℕ → ℕ
target rows n c = target_of (find_key (get_or rows n []) c)

-- The automaton with other lists of transitions.
abbrev pub with_rows : Acsm → List (List TransNode) → ℕ → Acsm
with_rows nfa rows k = record nfa { trans_table = rows; num_trans = k }

-- The lists of transitions where the loops are at state `r` and input `i`: those that were followed
-- lead to the longest text, the others are those of the trie.
pub record IsFilled (nfa : Acsm) (t : Tree) (done : List ℕ) (r i : ℕ) (rows : List (List TransNode))
    : Type 0 where
  pub width : length rows ≡ length nfa.trans_table
  pub proper : (n : ℕ) → IsProper nfa.alphabet_size (get_or rows n [])
  pub full :
      (n c : ℕ)
      → n < t.size
      → c < t.inputs
      → WasFollowed done r i n c
      → IsLongest t (c ∷ t.word n) (target rows n c)
  pub kept :
      (n c : ℕ)
      → (n ≡ 0) ⊎ (WasFollowed done r i n c → ⊥)
      → find_key (get_or rows n []) c ≡ t.child n c

-- The list of `r` with one more transition.
abbrev pub with_key : List (List TransNode) → ℕ → ℕ → ℕ → List (List TransNode)
with_key rows r i q = set rows r (record { key = i; next_state = q } ∷ get_or rows r [])

abbrev put_result : Acsm → ℕ → ℕ → ℕ → List TransNode → Option (List TransNode) → Run Acsm
put_result acsm r i q p (some p') = ok (record acsm { trans_table = set acsm.trans_table r p' })
put_result acsm r i q p none = ok (record acsm {
  trans_table = set acsm.trans_table r (record { key = i; next_state = q } ∷ p);
  num_trans = u32 (acsm.num_trans + 1);
})

pub put_next_state-with_key :
    (acsm : Acsm) (r i q : ℕ)
    → r < length acsm.trans_table
    → find_key (get_or acsm.trans_table r []) i ≡ none
    → put_next_state acsm r i q
      ≡ ok (with_rows acsm (with_key acsm.trans_table r i q) (u32 (acsm.num_trans + 1)))
unfolding put_next_state
put_next_state-with_key acsm r i q inside h =
    let p = get_or acsm.trans_table r [] in
    let read_list : put_next_state acsm r i q ≡ put_result acsm r i q p (reset_key p i q) =
      rw (get_elem?-eq-get_or acsm.trans_table r [] inside) refl in
    read_list ∙ ap (put_result acsm r i q p) (reset_key-none p i q h)

pub find_key-none : (ts : List TransNode) (c : ℕ) → find_key ts c ≡ none → All (λ u. u.key ≢ c) ts
unfolding find_key
find_key-none [] c h = tt
find_key-none (u ∷ ts) c h = elim (Bool-cases (u.key == c)) [
  | inl same ↦ absurd (cc (rw same at h))
  | inr other ↦ ((λ e. ground (arith, e, other)), find_key-none ts c (rw other at h))
]

module _ (rows : List (List TransNode)) (r i q : ℕ) (inside : r < length rows) where
  pub find_key-with_key : find_key (get_or (with_key rows r i q) r []) i ≡ some q
  unfolding find_key
  find_key-with_key =
      rw
        (
          get_or-set_self rows r (record { key = i; next_state = q } ∷ get_or rows r []) [] inside,
          ==_refl i,
        )
        refl

  pub find_key-with_key_other :
      (n c : ℕ)
      → ((n ≡ r) × (c ≡ i) → ⊥)
      → find_key (get_or (with_key rows r i q) n []) c ≡ find_key (get_or rows n []) c
  unfolding find_key
  find_key-with_key_other n c other = elim (ℕ_discrete r n) [
    | yes here ↦
        subst (λ k. find_key (get_or (with_key rows r i q) k []) c ≡ find_key (get_or rows k []) c)
          here
          (rw
            (
              get_or-set_self rows r (record { key = i; next_state = q } ∷ get_or rows r []) []
                  inside,
              ==_ne i c (λ e. other (sym here, sym e)),
            )
            refl)
    | no ne ↦
        ap (λ ts. find_key ts c)
          (get_or-set_ne rows r n (record { key = i; next_state = q } ∷ get_or rows r []) [] ne)
  ]

  pub with_key-IsProper :
      (size : ℕ)
      → i < size
      → q ≢ acsm_fail_state
      → find_key (get_or rows r []) i ≡ none
      → ((n : ℕ) → IsProper size (get_or rows n []))
      → (n : ℕ) → IsProper size (get_or (with_key rows r i q) n [])
  with_key-IsProper size low good absent proper n = elim (ℕ_discrete r n) [
    | yes here ↦
        subst (λ k. IsProper size (get_or (with_key rows r i q) k [])) here
          (subst (λ ts. IsProper size ts)
            (sym (
              get_or-set_self rows r (record { key = i; next_state = q } ∷ get_or rows r []) []
                inside))
            (record {
              keys = (low, find_key-none (get_or rows r []) i absent, (proper r).keys);
              targets = (good, (proper r).targets);
            }))
    | no ne ↦
        subst (λ ts. IsProper size ts)
          (sym
            (get_or-set_ne rows r n (record { key = i; next_state = q } ∷ get_or rows r []) [] ne))
          (proper n)
  ]
