-- ===== src/Automaton/Build/Nfa.antt =====
-- What `Build_NFA` makes: the failure states, and the lists of the patterns that end in a state.
pub mod Add
pub mod Walk
pub mod Loop
pub mod Correct
use orchid_linux.Base.{
  ℕ, zero, suc, ◌+◌, ◌<◌, ◌≤◌, ◌≡◌, ◌≢◌, refl, ap, sym, ◌∙◌, ◌⊎◌, inl, inr, List, [], ◌∷◌, ◌++◌,
  Option, none, some, arith, length, length-set, set, get_or, get_or-set_self, get_or-set_ne, IsIn,
}
use mathlib.Core.Path.{subst}
use native.Mathlib.Decide.{ℕ_discrete, dec_lt}
use orchid_linux.Automaton.Types.{Acsm, Pattern, acsm_fail_state}
use orchid_linux.Automaton.Build.{copy_entries}
use orchid_linux.Automaton.Build.Trie.{child}
use orchid_linux.Automaton.Tree.{
  Tree, depth, IsStart, IsStart-refl, IsStart-trans, IsStart-same, IsStart-between, length-IsStart,
}
use orchid_linux.Automaton.Tree.Longest.{IsFailure, depth_zero}
use orchid_linux.Automaton.Tree.Layers.{WasSeen}

-- An automaton that has the tree in its lists of transitions, before `Build_NFA`.
pub record IsTreeOf (base : Acsm) (t : Tree) : Type 0 where
  pub same : (s c : ℕ) → child base s c ≡ t.child s c
  pub alphabet : base.alphabet_size ≡ t.inputs
  pub listed : t.size ≤ length base.trans_table
  pub matching : t.size ≤ length base.match_list
  pub failing : t.size ≤ length base.fail_state
  pub no_failure : (n : ℕ) → get_or base.fail_state n 0 ≡ 0
  pub no_root_match : get_or base.match_list 0 [] ≡ []
  pub small : t.size ≤ acsm_fail_state

-- The automaton with other failure states and lists of patterns.
abbrev pub with_lists : Acsm → List ℕ → List (List Pattern) → Acsm
with_lists base fails lists = record base { fail_state = fails; match_list = lists }

-- A pattern that ends where the state `n` is: its own state's text ends the text of `n`.
abbrev pub EndsAt : Acsm → Tree → Pattern → ℕ → Type 0
EndsAt base t px n =
    (m : ℕ) × (m < t.size) × IsStart (t.word m) (t.word n) × IsIn px (get_or base.match_list m [])

-- The list of a state has the patterns that end there, and no others.
pub record HasMatches (base : Acsm) (t : Tree) (list : List Pattern) (n : ℕ) : Type 0 where
  pub only : (px : Pattern) → IsIn px list → EndsAt base t px n
  pub every : (px : Pattern) → EndsAt base t px n → IsIn px list

-- The failure states and the lists, where the states that were seen are right.
pub record IsRight (base : Acsm) (t : Tree) (done nodes : List ℕ) (fails : List ℕ)
    (lists : List (List Pattern)) : Type 0 where
  pub fails_length : length fails ≡ length base.fail_state
  pub lists_length : length lists ≡ length base.match_list
  pub fails_inside : (n : ℕ) → n < t.size → get_or fails n 0 < t.size
  pub fails_lower : (n : ℕ) → n < t.size → n ≢ 0 → depth t (get_or fails n 0) < depth t n
  pub failure : (n : ℕ) → WasSeen done nodes n → IsFailure t n (get_or fails n 0)
  pub matches : (n : ℕ) → (n ≡ 0) ⊎ WasSeen done nodes n → HasMatches base t (get_or lists n []) n
  pub kept : (n : ℕ) → (WasSeen done nodes n → ⊥) → get_or lists n [] ≡ get_or base.match_list n []

IsIn-copy_entries :
    (px : Pattern) (xs ys : List Pattern) → IsIn px (copy_entries xs ys) → IsIn px xs ⊎ IsIn px ys
unfolding copy_entries
IsIn-copy_entries px [] ys i = inr i
IsIn-copy_entries px (x ∷ xs) ys i = elim (IsIn-copy_entries px xs (x ∷ ys) i) [
  | inl later ↦ inl (inr later)
  | inr (inl here) ↦ inl (inl here)
  | inr (inr old) ↦ inr old
]

copy_entries-IsIn :
    (px : Pattern) (xs ys : List Pattern) → IsIn px xs ⊎ IsIn px ys → IsIn px (copy_entries xs ys)
unfolding copy_entries
copy_entries-IsIn px [] ys (inl bad) = absurd bad
copy_entries-IsIn px [] ys (inr i) = i
copy_entries-IsIn px (x ∷ xs) ys (inl (inl here)) =
    copy_entries-IsIn px xs (x ∷ ys) (inr (inl here))
copy_entries-IsIn px (x ∷ xs) ys (inl (inr later)) = copy_entries-IsIn px xs (x ∷ ys) (inl later)
copy_entries-IsIn px (x ∷ xs) ys (inr i) = copy_entries-IsIn px xs (x ∷ ys) (inr (inr i))

module _ (base : Acsm) (t : Tree) (b : IsTreeOf base t) where
  -- The patterns that end in a state are its own and those that end in its failure state.
  EndsAt-cases :
      (px : Pattern) (s f : ℕ)
      → s < t.size
      → IsFailure t s f
      → EndsAt base t px s
      → EndsAt base t px f ⊎ IsIn px (get_or base.match_list s [])
  EndsAt-cases px s f inside fail (m, m_inside, starts, i) = elim (dec_lt (depth t m) (depth t s)) [
    | yes lower ↦ inl (
      m,
      m_inside,
      IsStart-between (t.word m) (t.word f) (t.word s) starts fail.starts
          (fail.longest m m_inside lower starts),
      i,
    )
    | no not_lower ↦
        let same : m ≡ s = t.one_state m s m_inside inside (
          IsStart-same (t.word m) (t.word s) (t.word s) starts (IsStart-refl (t.word s))
            (omega (arith, not_lower, length-IsStart (t.word m) (t.word s) starts))) in
        inr (subst (λ k. IsIn px (get_or base.match_list k [])) same i)
  ]

  pub copy-HasMatches :
      (list : List Pattern) (s f : ℕ)
      → s < t.size
      → IsFailure t s f
      → HasMatches base t list f
      → HasMatches base t (copy_entries list (get_or base.match_list s [])) s
  copy-HasMatches list s f inside fail h = record {
    only = λ px i. elim (IsIn-copy_entries px list (get_or base.match_list s []) i) [
      | inl behind ↦
          let (m, m_inside, starts, there) = h.only px behind in
          (m, m_inside, IsStart-trans (t.word m) (t.word f) (t.word s) starts fail.starts, there)
      | inr own ↦ (s, inside, IsStart-refl (t.word s), own)
    ];
    every = λ px e.
        copy_entries-IsIn px list (get_or base.match_list s [])
          (elim (EndsAt-cases px s f inside fail e) [
            | inl behind ↦ inl (h.every px behind)
            | inr own ↦ inr own
          ]);
  }

  -- No pattern ends in state 0.
  pub root-HasMatches : HasMatches base t [] 0
  root-HasMatches = record {
    only = λ px bad. absurd bad;
    every = λ px e.
        let (m, inside, starts, i) = e in
        let same : m ≡ 0 = t.one_state m 0 inside t.root_inside (
          IsStart-same (t.word m) (t.word 0) (t.word 0) starts (IsStart-refl (t.word 0))
            (omega (arith, length-IsStart (t.word m) (t.word 0) starts, depth_zero t))) in
        subst (λ l. IsIn px l) b.no_root_match
          (subst (λ k. IsIn px (get_or base.match_list k [])) same i);
  }
