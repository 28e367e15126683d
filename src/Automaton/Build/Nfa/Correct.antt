-- ===== src/Automaton/Build/Nfa/Correct.antt =====
-- `Build_NFA` on a trie.
use orchid_linux.Base.{
  ℕ, zero, suc, ◌+◌, ◌<◌, ◌≤◌, ◌≡◌, ◌≢◌, refl, sym, inl, inr, List, [], ◌∷◌, arith, length, set,
  get_or, Returns, Option-cases, ==_ne, AreDistinct,
}
use mathlib.Core.Path.{subst}
use orchid_linux.Automaton.Types.{Acsm, Pattern, acsm_fail_state}
use orchid_linux.Automaton.Queue.{
  Queue, queue_init, queue_add, queue_remove, queue_remove_lem, queue_count-waiting,
  queue_count-empty,
}
use orchid_linux.Automaton.Build.{nfa_inputs, nfa_loop, build_nfa}
use orchid_linux.Automaton.Tree.{Tree}
use orchid_linux.Automaton.Tree.Longest.{IsFailure}
use native.Mathlib.Decide.{ℕ_discrete}
use orchid_linux.Automaton.Tree.Layers.{IsLayered}
use orchid_linux.Automaton.Tree.Layers.Next.{
  WasSeen-move, WasSeen-back, next-IsLayered, end-IsLayered, length_done_waiting,
}
use orchid_linux.Automaton.Build.Nfa.{IsTreeOf, IsRight, with_lists, HasMatches}
use orchid_linux.Automaton.Build.Nfa.Add.{set_failure-IsRight}
use orchid_linux.Automaton.Build.Nfa.Loop.{
  IsAt, Finishes, get_next_state-child, start-IsAt, skip-IsAt, add-IsAt, first_layer-Finishes,
}

-- The automaton after `Build_NFA`: each state but 0 has as failure state the one whose text is the
-- longest that ends its own and is shorter, and each state has in its list the patterns that end
-- where it is, and no others. Nothing else changed.
pub record IsNfa (base : Acsm) (t : Tree) (acsm : Acsm) : Type 0 where
  pub fails : List ℕ
  pub lists : List (List Pattern)
  pub same : acsm ≡ with_lists base fails lists
  pub fails_length : length fails ≡ length base.fail_state
  pub lists_length : length lists ≡ length base.match_list
  pub failure : (n : ℕ) → n < t.size → n ≢ 0 → IsFailure t n (get_or fails n 0)
  pub matches : (n : ℕ) → n < t.size → HasMatches base t (get_or lists n []) n

module _ (base : Acsm) (t : Tree) (b : IsTreeOf base t) where
  nfa_inputs-Finishes :
      (rounds left i r : ℕ) (done : List ℕ) (q : Queue) (fails : List ℕ)
      (lists : List (List Pattern))
      → t.height ≤ rounds
      → r < t.size
      → r ≢ 0
      → i + left ≡ t.inputs
      → IsAt base t done q r i fails lists
      → Finishes base t done r (nfa_inputs rounds left i r (with_lists base fails lists) q)
  unfolding nfa_inputs
  nfa_inputs-Finishes rounds zero i r done q fails lists fuel inside other whole a = record {
    fails_to = fails;
    lists_to = lists;
    queue_to = q;
    result = refl;
    at = subst (λ k. IsAt base t done q r k fails lists) (omega (arith, whole)) a;
  }
  nfa_inputs-Finishes rounds (suc left) i r done q fails lists fuel inside other whole a =
      let reads = get_next_state-child base t b (with_lists base fails lists) r i refl inside in
      elim (Option-cases (t.child r i)) [
        | inl nothing ↦
            subst (λ run. Finishes base t done r run)
              (sym (rw (reads, nothing, ==_ne r 0 other) refl))
              (nfa_inputs-Finishes rounds left (i + 1) r done q fails lists fuel inside other
                (omega (arith, whole)) (skip-IsAt base t b done q r i fails lists a nothing))
        | inr (s, e) ↦
            let f =
              set_failure-IsRight base t b rounds r s i done q.nodes fails lists fuel a.right
                a.layered other e in
            let proper =
              ==_ne s acsm_fail_state (λ bad. omega (arith, bad, t.to_inside r i s e, b.small)) in
            subst (λ run. Finishes base t done r run) (sym (rw (reads, e, proper, f.run) refl))
              (nfa_inputs-Finishes rounds left (i + 1) r done (queue_add q s)
                (set fails s f.fails_to) f.lists_to fuel inside other (omega (arith, whole))
                (add-IsAt base t b done q r i s fails (set fails s f.fails_to) lists f.lists_to a e
                  f.right))
      ]

  move-IsRight :
      (done : List ℕ) (x : ℕ) (rest fails : List ℕ) (lists : List (List Pattern))
      → IsRight base t done (x ∷ rest) fails lists
      → IsRight base t (x ∷ done) rest fails lists
  move-IsRight done x rest fails lists r = record {
    fails_length = r.fails_length;
    lists_length = r.lists_length;
    fails_inside = r.fails_inside;
    fails_lower = r.fails_lower;
    failure = λ n seen. r.failure n (WasSeen-back done rest x n seen);
    matches = λ n known.
        r.matches n
          (elim known [ inl root ↦ inl root | inr seen ↦ inr (WasSeen-back done rest x n seen) ]);
    kept = λ n not. r.kept n (λ seen. not (WasSeen-move done rest x n seen));
  }

  -- The state at the head of the queue is the next one.
  next-IsAt :
      (done : List ℕ) (q : Queue) (x : ℕ) (rest : List ℕ) (r : ℕ) (fails : List ℕ)
      (lists : List (List Pattern))
      → q.nodes ≡ x ∷ rest
      → IsAt base t done q r t.inputs fails lists
      → IsAt base t (x ∷ done) (queue_remove q).1 x 0 fails lists
  next-IsAt done q x rest r fails lists e a =
      let (head, left, valid) = queue_remove_lem q x rest a.queue e in
      let layered = subst (λ ns. IsLayered t done ns r t.inputs) e a.layered in
      let right = subst (λ ns. IsRight base t done ns fails lists) e a.right in
      record {
        right =
            subst (λ ns. IsRight base t (x ∷ done) ns fails lists) (sym left)
              (move-IsRight done x rest fails lists right);
        layered =
            subst (λ ns. IsLayered t (x ∷ done) ns x 0) (sym left)
              (next-IsLayered t done rest r x layered
                (subst (λ ns. AreDistinct ns) e a.queue.distinct));
        queue = valid;
      }

  -- The end: no state waits.
  end-IsNfa :
      (done : List ℕ) (q : Queue) (r : ℕ) (fails : List ℕ) (lists : List (List Pattern))
      → q.nodes ≡ []
      → IsAt base t done q r t.inputs fails lists
      → IsNfa base t (with_lists base fails lists)
  end-IsNfa done q r fails lists e a =
      let layered = subst (λ ns. IsLayered t done ns r t.inputs) e a.layered in
      record {
        fails = fails;
        lists = lists;
        same = refl;
        fails_length = a.right.fails_length;
        lists_length = a.right.lists_length;
        failure = λ n inside other.
            a.right.failure n (inl (end-IsLayered t done r n layered inside other));
        matches = λ n inside. a.right.matches n (elim (ℕ_discrete n 0) [
          | yes root ↦ inl root
          | no other ↦ inr (inl (end-IsLayered t done r n layered inside other))
        ]);
      }

  nfa_loop-IsNfa :
      (rounds : ℕ) (done : List ℕ) (q : Queue) (nodes : List ℕ) (r : ℕ) (fails : List ℕ)
      (lists : List (List Pattern))
      → t.size + t.height ≤ rounds + length done
      → q.nodes ≡ nodes
      → IsAt base t done q r t.inputs fails lists
      → Returns (nfa_loop rounds (with_lists base fails lists) q) (IsNfa base t)
  unfolding nfa_loop
  nfa_loop-IsNfa zero done q [] r fails lists fuel e a = (
    with_lists base fails lists,
    rw (queue_count-empty q a.queue e) refl,
    end-IsNfa done q r fails lists e a,
  )
  nfa_loop-IsNfa (suc rounds) done q [] r fails lists fuel e a = (
    with_lists base fails lists,
    rw (queue_count-empty q a.queue e) refl,
    end-IsNfa done q r fails lists e a,
  )
  nfa_loop-IsNfa zero done q (x ∷ rest) r fails lists fuel e a = absurd (
      omega (
        arith,
        fuel,
        length_done_waiting t done rest r t.inputs x
            (subst (λ ns. IsLayered t done ns r t.inputs) e a.layered),
      ))
  nfa_loop-IsNfa (suc rounds) done q (x ∷ rest) r fails lists fuel e a =
      let next = next-IsAt done q x rest r fails lists e a in
      let room =
        length_done_waiting t done rest r t.inputs x
          (subst (λ ns. IsLayered t done ns r t.inputs) e a.layered) in
      let inside = next.layered.inside x (inl (inl refl)) in
      let other = next.layered.no_root x (inl (inl refl)) in
      let f =
        nfa_inputs-Finishes (suc rounds) base.alphabet_size 0 x (x ∷ done) (queue_remove q).1 fails
          lists (omega (arith, fuel, room)) inside other (omega (arith, b.alphabet)) next in
      let (acsm, run, is_nfa) =
        nfa_loop-IsNfa rounds (x ∷ done) f.queue_to f.queue_to.nodes x f.fails_to f.lists_to
          (omega (arith, fuel)) refl f.at in
      (
        acsm,
        rw
            (
              queue_count-waiting q x rest a.queue e,
              (queue_remove_lem q x rest a.queue e).0,
              f.result,
            )
            run,
        is_nfa,
      )

  -- On an automaton whose lists are those of a trie, with no failure states yet and no pattern of
  -- no bytes, and with rounds for the states and their depth: `Build_NFA` returns, which means that
  -- both its loops and each walk along the failure states end. Then the failure state of each state
  -- but 0 is the one whose text is the longest that ends the state's text and is shorter, the list
  -- of each state has just the patterns that end there, and the rest is as it was.
  pub build_nfa-IsNfa :
      (rounds : ℕ) → t.size + t.height ≤ rounds → Returns (build_nfa rounds base) (IsNfa base t)
  unfolding build_nfa
  build_nfa-IsNfa rounds fuel =
      let f =
        first_layer-Finishes base t b base.alphabet_size 0 queue_init base.fail_state
          base.match_list (omega (arith, b.alphabet)) (start-IsAt base t b) in
      let (acsm, run, is_nfa) =
        nfa_loop-IsNfa rounds [] f.queue_to f.queue_to.nodes 0 f.fails_to f.lists_to
          (omega (arith, fuel)) refl f.at in
      (acsm, rw f.result run, is_nfa)
