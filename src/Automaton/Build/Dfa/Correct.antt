-- ===== src/Automaton/Build/Dfa/Correct.antt =====
-- `Convert_NFA_To_DFA` on a trie with its failure states.
use orchid_linux.Base.{
  ℕ, zero, suc, ◌+◌, ◌<◌, ◌≤◌, ◌≡◌, refl, sym, inl, inr, List, [], ◌∷◌, arith, length, get_or,
  Returns, AreDistinct,
}
use mathlib.Core.Path.{subst}
use native.Mathlib.Decide.{ℕ_discrete}
use orchid_linux.Automaton.Types.{Acsm, TransNode}
use orchid_linux.Automaton.Queue.{
  Queue, queue_init, queue_remove, queue_remove_lem, queue_count-waiting, queue_count-empty,
}
use orchid_linux.Automaton.Build.{dfa_loop, convert_nfa_to_dfa}
use orchid_linux.Automaton.Tree.{Tree}
use orchid_linux.Automaton.Tree.Longest.{IsLongest}
use orchid_linux.Automaton.Tree.Layers.{IsLayered}
use orchid_linux.Automaton.Tree.Layers.Steps.{start-IsLayered}
use orchid_linux.Automaton.Tree.Layers.Next.{next-IsLayered, end-IsLayered, length_done_waiting}
use orchid_linux.Automaton.Build.Dfa.{HasTrie, IsProper, IsFilled, target, with_rows}
use orchid_linux.Automaton.Build.Dfa.Loop.{
  IsWorking, dfa_first_layer-IsFirst, start-IsFilled, dfa_inputs-Completes,
}

-- The automaton after `Convert_NFA_To_DFA`: the lists of transitions are proper, and from each state
-- each input leads to the state of the longest text that ends the text of the state with the input.
-- Nothing else changed but the count of the transitions.
pub record IsDfa (nfa : Acsm) (t : Tree) (acsm : Acsm) : Type 0 where
  pub rows : List (List TransNode)
  pub count : ℕ
  pub same : acsm ≡ with_rows nfa rows count
  pub width : length rows ≡ length nfa.trans_table
  pub proper : (n : ℕ) → IsProper nfa.alphabet_size (get_or rows n [])
  pub full : (n c : ℕ) → n < t.size → c < t.inputs → IsLongest t (c ∷ t.word n) (target rows n c)

module _ (nfa : Acsm) (t : Tree) (h : HasTrie nfa t) where
  -- The next state has followed no input yet; the last one all of them.
  next-IsFilled :
      (done : List ℕ) (r x : ℕ) (rest : List ℕ) (rows : List (List TransNode))
      → IsLayered t done (x ∷ rest) r t.inputs
      → IsFilled nfa t done r t.inputs rows
      → IsFilled nfa t (x ∷ done) x 0 rows
  next-IsFilled done r x rest rows l f = record {
    width = f.width;
    proper = f.proper;
    full = λ n c inside low followed. f.full n c inside low (
      elim followed.0 [
        | inl root ↦ inl root
        | inr (inl here) ↦ absurd (omega (arith, followed.1 here))
        | inr (inr old) ↦ inr old
      ],
      λ at. low,
    );
    kept = λ n c unfollowed. f.kept n c (elim unfollowed [
      | inl root ↦ inl root
      | inr not ↦ elim (ℕ_discrete n 0) [
        | yes root ↦ inl root
        | no other ↦ inr (λ before. elim before.0 [
          | inl root ↦ other root
          | inr old ↦ not (inr (inr old), (λ same. absurd (l.apart n old (inl same))))
        ])
      ]
    ]);
  }

  end-IsDfa :
      (done : List ℕ) (q : Queue) (r : ℕ) (rows : List (List TransNode)) (k : ℕ)
      → q.nodes ≡ []
      → IsWorking nfa t done q r t.inputs rows
      → IsDfa nfa t (with_rows nfa rows k)
  end-IsDfa done q r rows k e w =
      let layered = subst (λ ns. IsLayered t done ns r t.inputs) e w.layered in
      record {
        rows = rows;
        count = k;
        same = refl;
        width = w.filled.width;
        proper = w.filled.proper;
        full = λ n c inside low. w.filled.full n c inside low (
          elim (ℕ_discrete n 0) [
            | yes root ↦ inl root
            | no other ↦ inr (end-IsLayered t done r n layered inside other)
          ],
          λ at. low,
        );
      }

  next-IsWorking :
      (done : List ℕ) (q : Queue) (x : ℕ) (rest : List ℕ) (r : ℕ) (rows : List (List TransNode))
      → q.nodes ≡ x ∷ rest
      → IsWorking nfa t done q r t.inputs rows
      → IsWorking nfa t (x ∷ done) (queue_remove q).1 x 0 rows
  next-IsWorking done q x rest r rows e w =
      let (head, left, valid) = queue_remove_lem q x rest w.queue e in
      let layered = subst (λ ns. IsLayered t done ns r t.inputs) e w.layered in
      record {
        filled = next-IsFilled done r x rest rows layered w.filled;
        layered =
            subst (λ ns. IsLayered t (x ∷ done) ns x 0) (sym left)
              (next-IsLayered t done rest r x layered
                (subst (λ ns. AreDistinct ns) e w.queue.distinct));
        queue = valid;
      }

  dfa_loop-IsDfa :
      (rounds : ℕ) (done : List ℕ) (q : Queue) (nodes : List ℕ) (r : ℕ)
      (rows : List (List TransNode)) (k : ℕ)
      → t.size ≤ rounds + suc (length done)
      → q.nodes ≡ nodes
      → IsWorking nfa t done q r t.inputs rows
      → Returns (dfa_loop rounds (with_rows nfa rows k) q) (IsDfa nfa t)
  unfolding dfa_loop
  dfa_loop-IsDfa zero done q [] r rows k fuel e w =
      (with_rows nfa rows k, rw (queue_count-empty q w.queue e) refl, end-IsDfa done q r rows k e w)
  dfa_loop-IsDfa (suc rounds) done q [] r rows k fuel e w =
      (with_rows nfa rows k, rw (queue_count-empty q w.queue e) refl, end-IsDfa done q r rows k e w)
  dfa_loop-IsDfa zero done q (x ∷ rest) r rows k fuel e w = absurd (
      omega (
        arith,
        fuel,
        length_done_waiting t done rest r t.inputs x
            (subst (λ ns. IsLayered t done ns r t.inputs) e w.layered),
      ))
  dfa_loop-IsDfa (suc rounds) done q (x ∷ rest) r rows k fuel e w =
      let next = next-IsWorking done q x rest r rows e w in
      let inside = next.layered.inside x (inl (inl refl)) in
      let other = next.layered.no_root x (inl (inl refl)) in
      let f =
        dfa_inputs-Completes nfa t h nfa.alphabet_size 0 x (x ∷ done) (queue_remove q).1 rows k
          inside other (inl refl) (omega (arith, h.alphabet)) next in
      let (acsm, run, is_dfa) =
        dfa_loop-IsDfa rounds (x ∷ done) f.queue_to f.queue_to.nodes x f.rows_to f.count_to
          (omega (arith, fuel)) refl f.at in
      (
        acsm,
        rw
            (
              queue_count-waiting q x rest w.queue e,
              (queue_remove_lem q x rest w.queue e).0,
              f.result,
            )
            run,
        is_dfa,
      )

  -- On an automaton with the lists of a trie and its failure states, and with rounds for all states:
  -- `Convert_NFA_To_DFA` returns, which means that its loop over the queue ends. Then the list of
  -- each state has different inputs as keys, each input leads from a state to the one of the longest
  -- text that ends the state's text with the input, and only the lists and their count changed.
  pub convert_nfa_to_dfa-IsDfa :
      (rounds : ℕ) → t.size ≤ rounds + 1 → Returns (convert_nfa_to_dfa rounds nfa) (IsDfa nfa t)
  unfolding convert_nfa_to_dfa queue_init
  convert_nfa_to_dfa-IsDfa rounds fuel =
      let f =
        dfa_first_layer-IsFirst nfa t h nfa.alphabet_size 0 queue_init (omega (arith, h.alphabet))
          (start-IsLayered t) (record { counted = refl; distinct = tt }) in
      let (acsm, run, is_dfa) =
        dfa_loop-IsDfa rounds [] f.queue_to f.queue_to.nodes 0 nfa.trans_table nfa.num_trans
          (omega (arith, fuel)) refl
          (record { filled = start-IsFilled nfa t h; layered = f.layered; queue = f.queue }) in
      (acsm, rw f.result run, is_dfa)
