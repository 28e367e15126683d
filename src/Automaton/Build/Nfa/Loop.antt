-- ===== src/Automaton/Build/Nfa/Loop.antt =====
-- The loops of `Build_NFA`: over the inputs of a state, and over the states in the queue.
use orchid_linux.Base.{
  ℕ, zero, suc, ◌+◌, ◌<◌, ◌≡◌, refl, ap, sym, ◌∙◌, inl, inr, List, [], ◌∷◌, ◌++◌, Option, none,
  some, arith, length, set, get_or, get_elem?-eq-get_or, write-inside, ok, Run, Option-cases, ==_ne,
}
use mathlib.Core.Path.{subst}
use orchid_linux.Automaton.Types.{Acsm, Pattern, TransNode}
use orchid_linux.Automaton.Lists.{find_key, get_next_state, get_next_state2}
use orchid_linux.Automaton.Queue.{
  Queue, IsQueue, queue_init, queue_add, queue_add-IsQueue, queue_add-new,
}
use orchid_linux.Automaton.Build.{copy_entries, first_layer}
use orchid_linux.Automaton.Build.Failure.{key_result, get_next_state-key}
use orchid_linux.Automaton.Tree.{Tree, depth}
use orchid_linux.Automaton.Tree.Longest.{first-IsFailure, depth-child, depth_zero}
use orchid_linux.Automaton.Tree.Layers.{WasSeen, IsLayered}
use orchid_linux.Automaton.Tree.Layers.Steps.{
  start-IsLayered, add-IsLayered, skip-IsLayered, not_seen,
}
use orchid_linux.Automaton.Build.Nfa.{
  IsTreeOf, with_lists, HasMatches, IsRight, copy-HasMatches, root-HasMatches,
}
use orchid_linux.Automaton.Build.Nfa.Add.{IsListed, add-IsRight}

-- The loops at state `r` and input `i`.
pub record IsAt (base : Acsm) (t : Tree) (done : List ℕ) (q : Queue) (r i : ℕ) (fails : List ℕ)
    (lists : List (List Pattern)) : Type 0 where
  pub right : IsRight base t done q.nodes fails lists
  pub layered : IsLayered t done q.nodes r i
  pub queue : IsQueue q

-- A run of a loop over the inputs ends, with all of them followed.
pub record Finishes (base : Acsm) (t : Tree) (done : List ℕ) (r : ℕ) (run : Run (Acsm × Queue))
    : Type 0 where
  pub fails_to : List ℕ
  pub lists_to : List (List Pattern)
  pub queue_to : Queue
  pub result : run ≡ ok (with_lists base fails_to lists_to, queue_to)
  pub at : IsAt base t done queue_to r t.inputs fails_to lists_to

abbrev key_result2 : Option ℕ → Run ℕ
key_result2 none = ok 0
key_result2 (some next) = ok next

read_key2 :
    (ts : List TransNode) (c : ℕ)
    → elim (find_key ts c) [ some next ↦ ok next | none ↦ ok 0 ] ≡ key_result2 (find_key ts c)
read_key2 ts c = elim (find_key ts c) [ none ↦ refl | some next ↦ refl ]

module _ (base : Acsm) (t : Tree) (b : IsTreeOf base t) where
  pub get_next_state-child :
      (acsm : Acsm) (r i : ℕ)
      → acsm.trans_table ≡ base.trans_table
      → r < t.size
      → get_next_state acsm r i ≡ key_result r (t.child r i)
  get_next_state-child acsm r i table inside =
      get_next_state-key acsm r i (omega (arith, inside, b.listed, ap (λ l. length l) table))
      ∙ ap (λ rows. key_result r (find_key (get_or rows r []) i)) table
      ∙ ap (key_result r) (b.same r i)

  -- A state of the first layer has its own patterns alone.
  first-IsListed :
      (nodes fails : List ℕ) (lists : List (List Pattern)) (i s : ℕ)
      → IsRight base t [] nodes fails lists
      → (WasSeen [] nodes s → ⊥)
      → t.child 0 i ≡ some s
      → IsListed base t lists lists s
  unfolding copy_entries
  first-IsListed nodes fails lists i s right new e = record {
    same_length = refl;
    matches =
        subst (λ ps. HasMatches base t ps s) (sym (right.kept s new))
          (copy-HasMatches base t b [] s 0 (t.to_inside 0 i s e) (first-IsFailure t i s e)
            (root-HasMatches base t b));
    others = λ n ne. refl;
  }

  get_next_state2-child :
      (acsm : Acsm) (i : ℕ)
      → acsm.trans_table ≡ base.trans_table
      → get_next_state2 acsm 0 i ≡ key_result2 (t.child 0 i)
  unfolding get_next_state2
  get_next_state2-child acsm i table =
      rw
        (get_elem?-eq-get_or acsm.trans_table 0 []
          (omega (arith, t.root_inside, b.listed, ap (λ l. length l) table)))
        (read_key2 (get_or acsm.trans_table 0 []) i)
      ∙ ap (λ rows. key_result2 (find_key (get_or rows 0 []) i)) table
      ∙ ap key_result2 (b.same 0 i)

  pub start-IsAt : IsAt base t [] queue_init 0 0 base.fail_state base.match_list
  unfolding queue_init
  start-IsAt = record {
    right = record {
      fails_length = refl;
      lists_length = refl;
      fails_inside = λ n inside. omega (arith, b.no_failure n, t.root_inside);
      fails_lower = λ n inside other.
          let (p, c, e) = t.up n inside other in
          omega (arith, ap (depth t) (b.no_failure n), depth_zero t, depth-child t p c n e);
      failure = λ n seen. elim seen [ inl bad ↦ absurd bad | inr bad ↦ absurd bad ];
      matches = λ n known. elim known [
        | inl root ↦
            subst (λ k. HasMatches base t (get_or base.match_list k []) k) (sym root)
              (subst (λ l. HasMatches base t l 0) (sym b.no_root_match) (root-HasMatches base t b))
        | inr (inl bad) ↦ absurd bad
        | inr (inr bad) ↦ absurd bad
      ];
      kept = λ n not. refl;
    };
    layered = start-IsLayered t;
    queue = record { counted = refl; distinct = tt };
  }

  pub skip-IsAt :
      (done : List ℕ) (q : Queue) (r i : ℕ) (fails : List ℕ) (lists : List (List Pattern))
      → IsAt base t done q r i fails lists
      → t.child r i ≡ none
      → IsAt base t done q r (i + 1) fails lists
  skip-IsAt done q r i fails lists a e = record {
    right = a.right;
    layered = skip-IsLayered t done q.nodes r i a.layered e;
    queue = a.queue;
  }

  -- A new state that is right goes into the queue.
  pub add-IsAt :
      (done : List ℕ) (q : Queue) (r i s : ℕ) (fails fails' : List ℕ)
      (lists lists' : List (List Pattern))
      → IsAt base t done q r i fails lists
      → t.child r i ≡ some s
      → IsRight base t done (q.nodes ++ s ∷ []) fails' lists'
      → IsAt base t done (queue_add q s) r (i + 1) fails' lists'
  add-IsAt done q r i s fails fails' lists lists' a e right =
      let nodes : (queue_add q s).nodes ≡ q.nodes ++ s ∷ [] =
        queue_add-new q s (λ waits. not_seen t done q.nodes r i s a.layered e (inr waits)) in
      record {
        right = subst (λ ns. IsRight base t done ns fails' lists') (sym nodes) right;
        layered =
            subst (λ ns. IsLayered t done ns r (i + 1)) (sym nodes)
              (add-IsLayered t done q.nodes r i s a.layered e);
        queue = queue_add-IsQueue q s a.queue;
      }

  pub first_layer-Finishes :
      (left i : ℕ) (q : Queue) (fails : List ℕ) (lists : List (List Pattern))
      → i + left ≡ t.inputs
      → IsAt base t [] q 0 i fails lists
      → Finishes base t [] 0 (first_layer left i (with_lists base fails lists) q)
  unfolding first_layer
  first_layer-Finishes zero i q fails lists whole a = record {
    fails_to = fails;
    lists_to = lists;
    queue_to = q;
    result = refl;
    at = subst (λ k. IsAt base t [] q 0 k fails lists) (omega (arith, whole)) a;
  }
  first_layer-Finishes (suc left) i q fails lists whole a =
      let reads = get_next_state2-child (with_lists base fails lists) i refl in
      elim (Option-cases (t.child 0 i)) [
        | inl nothing ↦
            subst (λ run. Finishes base t [] 0 run) (sym (rw (reads, nothing) refl))
              (first_layer-Finishes left (i + 1) q fails lists (omega (arith, whole))
                (skip-IsAt [] q 0 i fails lists a nothing))
        | inr (s, e) ↦
            let inside = t.to_inside 0 i s e in
            let fail = first-IsFailure t i s e in
            let new = not_seen t [] q.nodes 0 i s a.layered e in
            let right =
              add-IsRight base t b [] q.nodes fails lists lists s 0 a.right new inside
                (t.to_state 0 i s e) fail (first-IsListed q.nodes fails lists i s a.right new e) in
            subst (λ run. Finishes base t [] 0 run)
              (sym (
                rw
                  (
                    reads,
                    e,
                    ==_ne s 0 (t.to_state 0 i s e),
                    write-inside fails s 0 (omega (arith, inside, a.right.fails_length, b.failing)),
                  )
                  refl))
              (first_layer-Finishes left (i + 1) (queue_add q s) (set fails s 0) lists
                (omega (arith, whole))
                (add-IsAt [] q 0 i s fails (set fails s 0) lists lists a e right))
      ]
