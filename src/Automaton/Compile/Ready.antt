-- ===== src/Automaton/Compile/Ready.antt =====
-- The automaton between the parts of `_acsmCompile2`: ready for `Build_NFA`, for
-- `Convert_NFA_To_DFA`, and for the rows.
use orchid_linux.Base.{
  ℕ, zero, suc, ◌+◌, ◌≤◌, ◌≡◌, ◌≢◌, refl, ap, ◌∙◌, inl, inr, List, [], ◌∷◌, Option-cases, arith,
  length-replicate, get_or, get_or-replicate, replicate, All, All-IsIn, IsIn, ok, ok_injective,
  read, ◌==◌,
}
use mathlib.Core.Path.{subst}
use mathlib.Core.List.{reverse_aux}
use orchid_linux.Automaton.Types.{Acsm, Pattern, TransNode, acsm_fail_state}
use orchid_linux.Automaton.Lists.{find_key, state_cast}
use orchid_linux.Automaton.Build.Trie.{IsTrie, Spells, stays, moves}
use orchid_linux.Automaton.Build.Nfa.{IsTreeOf, with_lists}
use orchid_linux.Automaton.Build.Nfa.Correct.{IsNfa}
use orchid_linux.Automaton.Build.Dfa.{HasTrie, IsProper, target, with_rows}
use orchid_linux.Automaton.Build.Words.{HasWords}
use orchid_linux.Automaton.Compile.{size_of_state}
use orchid_linux.Automaton.Compile.Tree.{IsLoaded, tree_of}
use orchid_linux.Automaton.Rows.Transitions.{IsConvertible, next_of}
use orchid_linux.Automaton.Tree.{Tree}

-- The word of the state that a text leads to is the text backwards.
pub Spells-word :
    (inputs : ℕ) (acsm : Acsm) (w : HasWords inputs acsm) (s n : ℕ) (text : List ℕ)
    → Spells acsm s text n
    → w.word n ≡ reverse_aux text (w.word s)
Spells-word inputs acsm w s n [] stays = refl
Spells-word inputs acsm w s n (c ∷ text) (moves {next = next} h rest) =
    Spells-word inputs acsm w next n text rest
    ∙ ap (λ ws. reverse_aux text ws) (w.word_child s c next h)

-- No transition leads to state 0.
Spells-no_root :
    (acsm : Acsm) (s n c : ℕ) (text : List ℕ) → IsTrie acsm → Spells acsm s (c ∷ text) n → n ≢ 0
Spells-no_root acsm s n c [] t (moves h stays) = (t.targets s c n h).0
Spells-no_root acsm s n c (d ∷ text) t (moves {next = next} h rest) =
    Spells-no_root acsm next n d text t rest

Spells-empty : (acsm : Acsm) (text : List ℕ) → IsTrie acsm → text ≢ [] → Spells acsm 0 text 0 → ⊥
Spells-empty acsm [] t other s = other refl
Spells-empty acsm (c ∷ text) t other s = Spells-no_root acsm 0 0 c text t s refl

no_members : (ps : List Pattern) → ((px : Pattern) → IsIn px ps → ⊥) → ps ≡ []
no_members [] h = refl
no_members (px ∷ ps) h = absurd (h px (inl refl))

-- The automaton when `Build_NFA` is called.
abbrev pub prepared : Acsm → Acsm
prepared tables =
    let a : Acsm = record tables { num_states = tables.num_states + 1 } in
    record a {
      sizeofstate = size_of_state a;
      fail_state = replicate a.num_states 0;
      next_state = replicate a.num_states [];
    }

pub prepared-IsTreeOf :
    (inputs : ℕ) (ps : List Pattern) (tables : Acsm) (l : IsLoaded inputs ps tables)
    → tables.alphabet_size ≡ inputs
    → All (λ p. p.patrn ≢ []) ps
    → tables.num_states + 1 ≤ acsm_fail_state
    → IsTreeOf (prepared tables) (tree_of inputs tables l.trie l.words)
prepared-IsTreeOf inputs ps tables l alphabet nonempty short =
    let width = length-replicate {A = ℕ} (tables.num_states + 1) 0 in
    record {
      same = λ s c. refl;
      alphabet = alphabet;
      listed = omega (arith, l.trie.room);
      matching = omega (arith, l.trie.room, l.lists);
      failing = omega (arith, width);
      no_failure = λ n. get_or-replicate {A = ℕ} (tables.num_states + 1) 0 n;
      no_root_match = no_members (get_or tables.match_list 0 []) (λ px i.
          let (known, spells) = l.only 0 px i in
          Spells-empty tables px.patrn l.trie (All-IsIn (λ p. p.patrn ≢ []) ps px nonempty known)
            spells);
      small = short;
    }

-- `Build_NFA` leaves the lists of transitions.
pub IsNfa-HasTrie :
    (base : Acsm) (t : Tree) (c : Acsm)
    → IsTreeOf base t
    → ((n : ℕ) → IsProper base.alphabet_size (get_or base.trans_table n []))
    → (n : IsNfa base t c) → HasTrie (with_lists base n.fails n.lists) t
IsNfa-HasTrie base t c b proper n = record {
  same = b.same;
  alphabet = b.alphabet;
  listed = b.listed;
  failing = omega (arith, b.failing, n.fails_length);
  small = b.small;
  failure = n.failure;
  proper = proper;
}

read_list :
    (rows : List (List TransNode)) (state : ℕ) (ts : List TransNode)
    → read rows state ≡ ok ts
    → get_or rows state [] ≡ ts
read_list [] state ts e = absurd (cc e)
read_list (r ∷ rows) zero ts e = ok_injective e
read_list (r ∷ rows) (suc state) ts e = read_list rows state ts e

-- The lists of `Convert_NFA_To_DFA` can become rows.
pub IsDfa-IsConvertible :
    (nfa : Acsm) (rows : List (List TransNode)) (k : ℕ)
    → ((n : ℕ) → IsProper nfa.alphabet_size (get_or rows n []))
    → nfa.sizeofstate ≡ 4
    → IsConvertible (with_rows nfa rows k)
IsDfa-IsConvertible nfa rows k proper wide = record {
  keys = λ state ts e.
      let p =
        subst (λ l. IsProper nfa.alphabet_size l) (read_list rows state ts e) (proper state) in
      p.keys;
  targets = λ state ts e.
      let p =
        subst (λ l. IsProper nfa.alphabet_size l) (read_list rows state ts e) (proper state) in
      p.targets;
  wide = wide;
}

-- The transitions of the lists as the search takes them.
pub next_of-target :
    (nfa : Acsm) (rows : List (List TransNode)) (k n c : ℕ)
    → next_of (with_rows nfa rows k) n c ≡ target rows n c
unfolding state_cast
next_of-target nfa rows k n c = elim (Option-cases (find_key (get_or rows n []) c)) [
  | inl e ↦ rw e refl
  | inr (next, e) ↦ rw e refl
]

pub size_of_state_wide : (a : Acsm) → a.compress_states ≡ 0 → size_of_state a ≡ 4
unfolding size_of_state
size_of_state_wide a e = let flag = ap (λ f. f == 0) e in rw flag refl
