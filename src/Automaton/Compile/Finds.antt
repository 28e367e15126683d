-- ===== src/Automaton/Compile/Finds.antt =====
-- What the compiled automaton is to do: after a text its state has the patterns that end the text.
use orchid_linux.Base.{
  ℕ, ◌+◌, ◌<◌, ◌≤◌, ◌^◌, ◌≡◌, ◌≢◌, ◌↔◌, ap, sym, ◌∙◌, List, [], ◌∷◌, map, length, get_or, All, IsIn,
}
use mathlib.Core.Path.{subst}
use mathlib.Core.List.{reverse, reverse_aux}
use orchid_linux.Automaton.Types.{Acsm, Pattern, max_alphabet_size, fsa_dfa, acf_banded}
use orchid_linux.Automaton.Build.Trie.{Spells}
use orchid_linux.Automaton.Build.Nfa.{EndsAt}
use orchid_linux.Automaton.Compile.{xlatcase}
use orchid_linux.Automaton.Compile.Patterns.{total_bytes}
use orchid_linux.Automaton.Compile.Ready.{Spells-word, prepared}
use orchid_linux.Automaton.Compile.Tree.{IsLoaded, tree_of}
use orchid_linux.Automaton.Search.Runs.{IsTable, state_after, lists_of}
use orchid_linux.Automaton.Tree.{Tree, IsStart, IsStart-trans, IsStart-between}
use orchid_linux.Automaton.Tree.Ends.{EndsWith, EndsWith-IsStart, IsStart-EndsWith}
use orchid_linux.Automaton.Tree.Longest.{IsLongest, IsLongest-next}

-- What the patterns and the settings have to be.
pub record IsCompilable (acsm : Acsm) : Type 0 where
  pub new : acsm.max_states ≡ 0
  pub sizes : All (λ p. p.n ≡ length p.patrn) acsm.patterns
  pub letters : All (λ p. All (λ c. c < acsm.alphabet_size) p.patrn) acsm.patterns
  pub nonempty : All (λ p. p.patrn ≢ []) acsm.patterns
  pub few : total_bytes acsm.patterns + 1 < 2 ^ 28
  pub alphabet : acsm.alphabet_size ≤ max_alphabet_size
  pub dfa : acsm.fsa ≡ fsa_dfa
  pub banded : acsm.format ≡ acf_banded
  pub wide : acsm.compress_states ≡ 0

-- The search on `f` finds the patterns of `acsm`: after a text it is in a state whose list has just
-- the patterns that end the text, in capitals.
pub record IsMatcher (acsm f : Acsm) : Type 0 where
  pub size : ℕ
  pub next : ℕ → ℕ → ℕ
  pub table : IsTable f next size
  pub some_state : 0 < size
  pub dfa : f.fsa ≡ fsa_dfa
  pub banded : f.format ≡ acf_banded
  pub finds :
      (text : List ℕ) (px : Pattern)
      → All (λ c. c < acsm.alphabet_size) (map xlatcase text)
      → IsIn px (lists_of f (state_after next 0 text))
        ↔ (IsIn px acsm.patterns × EndsWith (map xlatcase text) px.patrn)

pub state_after-IsLongest :
    (t : Tree) (next : ℕ → ℕ → ℕ)
    → ((n c : ℕ) → n < t.size → c < t.inputs → IsLongest t (c ∷ t.word n) (next n c))
    → (text back : List ℕ) (q : ℕ) → All (λ c. c < t.inputs) (map xlatcase text)
    → IsLongest t back q
    → IsLongest t (reverse_aux (map xlatcase text) back) (state_after next q text)
state_after-IsLongest t next full [] back q low l = l
state_after-IsLongest t next full (c ∷ text) back q low l =
    let x = xlatcase c in
    state_after-IsLongest t next full text (x ∷ back) (next q x) low.1
      (IsLongest-next t x q (next q x) back l (full q x l.inside low.0))

-- The texts of the patterns that end where a state is.
module _ (inputs : ℕ) (ps : List Pattern) (tables : Acsm) (l : IsLoaded inputs ps tables) where
  pattern_word :
      (px : Pattern) (m : ℕ) → Spells tables 0 px.patrn m → l.words.word m ≡ reverse px.patrn
  pattern_word px m s =
      Spells-word inputs tables l.words 0 m px.patrn s
      ∙ ap (λ w. reverse_aux px.patrn w) l.words.root_word

  pub EndsAt-EndsWith :
      (px : Pattern) (n : ℕ) (text : List ℕ)
      → IsLongest (tree_of inputs tables l.trie l.words) (reverse text) n
      → EndsAt (prepared tables) (tree_of inputs tables l.trie l.words) px n
      → IsIn px ps × EndsWith text px.patrn
  EndsAt-EndsWith px n text long (m, inside, starts, i) =
      let (known, spells) = l.only m px i in
      (
        known,
        IsStart-EndsWith text px.patrn (
            subst (λ w. IsStart w (reverse text)) (pattern_word px m spells)
              (IsStart-trans (l.words.word m) (l.words.word n) (reverse text) starts long.starts)),
      )

  pub EndsWith-EndsAt :
      (px : Pattern) (n m : ℕ) (text : List ℕ)
      → IsLongest (tree_of inputs tables l.trie l.words) (reverse text) n
      → Spells tables 0 px.patrn m
      → m < tables.num_states + 1
      → IsIn px (get_or tables.match_list m [])
      → EndsWith text px.patrn
      → EndsAt (prepared tables) (tree_of inputs tables l.trie l.words) px n
  EndsWith-EndsAt px n m text long spells inside i ends =
      let starts =
        subst (λ w. IsStart w (reverse text)) (sym (pattern_word px m spells))
          (EndsWith-IsStart text px.patrn ends) in
      (
        m,
        inside,
        IsStart-between (l.words.word m) (l.words.word n) (reverse text) starts long.starts
            (long.longest m inside starts),
        i,
      )
