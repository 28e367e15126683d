-- ===== src/Automaton/Build/Dfa/Loop.antt =====
-- The loops of `Convert_NFA_To_DFA` over the inputs of a state.
use orchid_linux.Base.{
  ℕ, zero, suc, ◌+◌, ◌<◌, ◌≤◌, ◌≡◌, ◌≢◌, refl, ap, sym, ◌∙◌, inl, inr, List, [], ◌∷◌, some, arith,
  length, get_or, get_elem?-eq-get_or, ok, Run, ◌==◌, ==_ne, Option-cases, IsIn, if◌then◌else◌,
}
use mathlib.Core.Path.{subst}
use orchid_linux.Automaton.Types.{Acsm, TransNode, acsm_fail_state}
use orchid_linux.Automaton.Lists.{find_key, get_next_state}
use orchid_linux.Automaton.Queue.{Queue, IsQueue, queue_add, queue_add-IsQueue, queue_add-new}
use orchid_linux.Automaton.Build.{dfa_first_layer, dfa_inputs}
use orchid_linux.Automaton.Build.Failure.{key_result, get_next_state-key}
use orchid_linux.Automaton.Tree.{Tree}
use orchid_linux.Automaton.Tree.Longest.{IsLongest, child-IsLongest, root_none-IsLongest}
use orchid_linux.Automaton.Tree.Layers.{IsLayered}
use orchid_linux.Automaton.Tree.Layers.Steps.{add-IsLayered, skip-IsLayered, not_seen}
use orchid_linux.Automaton.Build.Dfa.{HasTrie, IsFilled, target_of, target, with_rows}
use orchid_linux.Automaton.Build.Dfa.Row.{child-IsFilled, dfa_input-IsFall}

-- The loops at state `r` and input `i`.
pub record IsWorking (nfa : Acsm) (t : Tree) (done : List ℕ) (q : Queue) (r i : ℕ)
    (rows : List (List TransNode)) : Type 0 where
  pub filled : IsFilled nfa t done r i rows
  pub layered : IsLayered t done q.nodes r i
  pub queue : IsQueue q

-- A run of the loop over the inputs ends, with all of them followed.
pub record Completes (nfa : Acsm) (t : Tree) (done : List ℕ) (r : ℕ) (run : Run (Acsm × Queue))
    : Type 0 where
  pub rows_to : List (List TransNode)
  pub count_to : ℕ
  pub queue_to : Queue
  pub result : run ≡ ok (with_rows nfa rows_to count_to, queue_to)
  pub at : IsWorking nfa t done queue_to r t.inputs rows_to

module _ (nfa : Acsm) (t : Tree) (h : HasTrie nfa t) where
  read_key :
      (r i : ℕ) (rows : List (List TransNode)) (k : ℕ)
      → r < t.size
      → t.size ≤ length rows
      → find_key (get_or rows r []) i ≡ t.child r i
      → get_next_state (with_rows nfa rows k) r i ≡ key_result r (t.child r i)
  read_key r i rows k inside width e =
      get_next_state-key (with_rows nfa rows k) r i (omega (arith, inside, width))
      ∙ ap (key_result r) e

  -- A new state in the queue.
  added_layer :
      (done : List ℕ) (q : Queue) (r i s : ℕ)
      → IsLayered t done q.nodes r i
      → t.child r i ≡ some s
      → IsLayered t done (queue_add q s).nodes r (i + 1)
  added_layer done q r i s l e =
      subst (λ ns. IsLayered t done ns r (i + 1))
        (sym (queue_add-new q s (λ waits. not_seen t done q.nodes r i s l e (inr waits))))
        (add-IsLayered t done q.nodes r i s l e)

  -- The first layer of the queue.
  pub record IsFirst (run : Run Queue) : Type 0 where
    pub queue_to : Queue
    pub result : run ≡ ok queue_to
    pub layered : IsLayered t [] queue_to.nodes 0 t.inputs
    pub queue : IsQueue queue_to

  pub dfa_first_layer-IsFirst :
      (left i : ℕ) (q : Queue)
      → i + left ≡ t.inputs
      → IsLayered t [] q.nodes 0 i
      → IsQueue q
      → IsFirst (dfa_first_layer left i nfa q)
  unfolding dfa_first_layer
  dfa_first_layer-IsFirst zero i q whole l valid = record {
    queue_to = q;
    result = refl;
    layered = subst (λ j. IsLayered t [] q.nodes 0 j) (omega (arith, whole)) l;
    queue = valid;
  }
  dfa_first_layer-IsFirst (suc left) i q whole l valid =
      let reads = read_key 0 i nfa.trans_table nfa.num_trans t.root_inside h.listed (h.same 0 i) in
      elim (Option-cases (t.child 0 i)) [
        | inl nothing ↦
            subst (λ run. IsFirst run) (sym (rw (reads, nothing) refl))
              (dfa_first_layer-IsFirst left (i + 1) q (omega (arith, whole))
                (skip-IsLayered t [] q.nodes 0 i l nothing) valid)
        | inr (s, e) ↦
            subst (λ run. IsFirst run) (sym (rw (reads, e, ==_ne s 0 (t.to_state 0 i s e)) refl))
              (dfa_first_layer-IsFirst left (i + 1) (queue_add q s) (omega (arith, whole))
                (added_layer [] q 0 i s l e) (queue_add-IsQueue q s valid))
      ]

  root_target : (c : ℕ) → IsLongest t (c ∷ t.word 0) (target nfa.trans_table 0 c)
  root_target c = elim (Option-cases (t.child 0 c)) [
    | inl nothing ↦
        subst (λ q. IsLongest t (c ∷ t.word 0) q) (ap target_of (sym (h.same 0 c ∙ nothing)))
          (root_none-IsLongest t c nothing)
    | inr (n, e) ↦
        subst (λ q. IsLongest t (c ∷ t.word 0) q) (ap target_of (sym (h.same 0 c ∙ e)))
          (child-IsLongest t 0 c n e)
  ]

  -- The lookup in the list of the failure state.
  reads_fail :
      (rows : List (List TransNode)) (k fs i : ℕ)
      → fs < t.size
      → t.size ≤ length rows
      → (next : ℕ) × (get_next_state (with_rows nfa rows k) fs i ≡ ok next)
  reads_fail rows k fs i inside width =
      let key = get_next_state-key (with_rows nfa rows k) fs i (omega (arith, inside, width)) in
      elim (Option-cases (find_key (get_or rows fs []) i)) [
        | inl e ↦ (if fs == 0 then 0 else acsm_fail_state, key ∙ ap (key_result fs) e)
        | inr (n, e) ↦ (n, key ∙ ap (key_result fs) e)
      ]

  -- The lists before the first state is taken: those of the trie.
  pub start-IsFilled : IsFilled nfa t [] 0 t.inputs nfa.trans_table
  start-IsFilled = record {
    width = refl;
    proper = h.proper;
    full = λ n c inside low followed. elim followed.0 [
      | inr bad ↦ absurd bad
      | inl root ↦
          subst (λ m. IsLongest t (c ∷ t.word m) (target nfa.trans_table m c)) (sym root)
            (root_target c)
    ];
    kept = λ n c unfollowed. h.same n c;
  }

  pub dfa_inputs-Completes :
      (left i r : ℕ) (done : List ℕ) (q : Queue) (rows : List (List TransNode)) (k : ℕ)
      → r < t.size
      → r ≢ 0
      → IsIn r done
      → i + left ≡ t.inputs
      → IsWorking nfa t done q r i rows
      → Completes nfa t done r (dfa_inputs left i r (with_rows nfa rows k) q)
  unfolding dfa_inputs
  dfa_inputs-Completes zero i r done q rows k inside other here whole w = record {
    rows_to = rows;
    count_to = k;
    queue_to = q;
    result = refl;
    at = subst (λ j. IsWorking nfa t done q r j rows) (omega (arith, whole)) w;
  }
  dfa_inputs-Completes (suc left) i r done q rows k inside other here whole w =
      let f = w.filled in
      let reads =
        read_key r i rows k inside (omega (arith, h.listed, f.width))
          (f.kept r i (inr (λ before. omega (arith, before.1 refl)))) in
      elim (Option-cases (t.child r i)) [
        | inl nothing ↦
            let fs = get_or nfa.fail_state r 0 in
            let (next, run) =
              reads_fail rows k fs i ((h.failure r inside other).inside)
                (omega (arith, h.listed, f.width)) in
            let fall =
              dfa_input-IsFall nfa t h done q.nodes r i rows k next f w.layered inside
                (omega (arith, whole)) other here nothing run in
            subst (λ run. Completes nfa t done r run)
              (sym (
                rw
                  (
                    reads,
                    nothing,
                    ==_ne r 0 other,
                    get_elem?-eq-get_or nfa.fail_state r 0 (omega (arith, inside, h.failing)),
                    run,
                    fall.result,
                  )
                  refl))
              (dfa_inputs-Completes left (i + 1) r done q fall.rows_to fall.count_to inside other
                here (omega (arith, whole))
                (record {
                  filled = fall.filled;
                  layered = skip-IsLayered t done q.nodes r i w.layered nothing;
                  queue = w.queue;
                }))
        | inr (s, e) ↦
            subst (λ run. Completes nfa t done r run)
              (sym (
                rw
                  (
                    reads,
                    e,
                    ==_ne s acsm_fail_state
                        (λ bad. omega (arith, bad, t.to_inside r i s e, h.small)),
                    ==_ne s 0 (t.to_state r i s e),
                  )
                  refl))
              (dfa_inputs-Completes left (i + 1) r done (queue_add q s) rows k inside other here
                (omega (arith, whole))
                (record {
                  filled = child-IsFilled nfa t h done r i s rows f other here e;
                  layered = added_layer done q r i s w.layered e;
                  queue = queue_add-IsQueue q s w.queue;
                }))
      ]
