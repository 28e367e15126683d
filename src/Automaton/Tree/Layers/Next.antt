-- ===== src/Automaton/Tree/Layers/Next.antt =====
-- The next state of the loops of acsmx2.c over a queue, and their end: what is done then, and how
-- many states that can be.
use orchid_linux.Base.{
  ℕ, zero, suc, ◌<◌, ◌≤◌, ◌≡◌, ◌≢◌, refl, sym, ◌∙◌, ◌⊎◌, inl, inr, List, [], ◌∷◌, some, arith,
  length, All, All-IsIn, IsIn, AreDistinct,
}
use mathlib.Core.Path.{subst}
use native.Mathlib.Decide.{ℕ_discrete}
use orchid_linux.Automaton.Tree.{Tree, depth}
use orchid_linux.Automaton.Tree.Count.{length-AreDistinct}
use orchid_linux.Automaton.Tree.Longest.{depth-child}
use orchid_linux.Automaton.Tree.Layers.{WasSeen, IsLayered, Layered, Layered-least, Layered-next}

All-absent : (n : ℕ) (xs : List ℕ) → (IsIn n xs → ⊥) → All (λ y. n ≢ y) xs
All-absent n [] h = tt
All-absent n (x ∷ xs) h = ((λ e. h (inl e)), All-absent n xs (λ i. h (inr i)))

All-inside : (P : ℕ → Type 0) (xs : List ℕ) → ((n : ℕ) → IsIn n xs → P n) → All P xs
All-inside P [] h = tt
All-inside P (x ∷ xs) h = (h x (inl refl), All-inside P xs (λ n i. h n (inr i)))

-- The state at the head goes from the states that wait to those that are done.
pub WasSeen-move :
    (done nodes : List ℕ) (x n : ℕ) → WasSeen done (x ∷ nodes) n → WasSeen (x ∷ done) nodes n
WasSeen-move done nodes x n (inl old) = inl (inr old)
WasSeen-move done nodes x n (inr (inl here)) = inl (inl here)
WasSeen-move done nodes x n (inr (inr later)) = inr later

pub WasSeen-back :
    (done nodes : List ℕ) (x n : ℕ) → WasSeen (x ∷ done) nodes n → WasSeen done (x ∷ nodes) n
WasSeen-back done nodes x n (inl (inl here)) = inr (inl here)
WasSeen-back done nodes x n (inl (inr old)) = inl old
WasSeen-back done nodes x n (inr later) = inr (inr later)

module _ (t : Tree) where
  -- All transitions of the states that are done were followed.
  all_followed :
      (done nodes : List ℕ) (r s c n : ℕ)
      → IsLayered t done nodes r t.inputs
      → (s ≡ 0) ⊎ IsIn s done
      → t.child s c ≡ some n
      → WasSeen done nodes n
  all_followed done nodes r s c n l before e =
      l.closed s c n (before, λ here. t.input_inside s c n e) e

  -- What the queue says of the depth of its head: that of the last state, or one more.
  record IsDeeper (done nodes : List ℕ) (r x : ℕ) : Type 0 where
    layered : Layered t (depth t x) nodes
    complete : (n : ℕ) → n < t.size → n ≢ 0 → depth t n ≤ depth t x → WasSeen done (x ∷ nodes) n
    least : (n : ℕ) → IsIn n (x ∷ nodes) → depth t x ≤ depth t n

  deeper :
      (done nodes : List ℕ) (r x : ℕ)
      → IsLayered t done (x ∷ nodes) r t.inputs
      → IsDeeper done nodes r x
  deeper done nodes r x l = elim l.layered [
    | inl (here, later) ↦ record {
      layered = subst (λ d. Layered t d nodes) (sym here) later;
      complete = λ n inside other le. l.complete n inside other (omega (arith, le, here));
      least = λ n i.
          omega (arith, here, Layered-least t (depth t r) n (x ∷ nodes) (inl (here, later)) i);
    }
    | inr next ↦
        let deep : Layered t (suc (depth t r)) (x ∷ nodes) =
          Layered-next t (suc (depth t r)) (x ∷ nodes) next in
        record {
          layered =
              Layered-next t (depth t x) nodes
                (subst (λ d. All (λ y. depth t y ≡ d) nodes) (sym next.0) next.1);
          complete = λ n inside other le.
              let (p, c, e) = t.up n inside other in
              all_followed done (x ∷ nodes) r p c n l
                (elim (ℕ_discrete p 0) [
                  | yes root ↦ inl root
                  | no p_other ↦
                      elim (l.complete p (t.from_inside p c n e) p_other
                        (omega (arith, depth-child t p c n e, le, next.0))) [
                          | inl old ↦ inr old
                          | inr waits ↦ absurd (
                              omega (
                                arith,
                                depth-child t p c n e,
                                le,
                                next.0,
                                Layered-least t (suc (depth t r)) p (x ∷ nodes) deep waits,
                              ))
                        ]
                ])
                e;
          least =
              λ n i. omega (arith, next.0, Layered-least t (suc (depth t r)) n (x ∷ nodes) deep i);
        }
  ]

  pub next-IsLayered :
      (done nodes : List ℕ) (r x : ℕ)
      → IsLayered t done (x ∷ nodes) r t.inputs
      → AreDistinct (x ∷ nodes)
      → IsLayered t (x ∷ done) nodes x 0
  next-IsLayered done nodes r x l distinct =
      let d = deeper done nodes r x l in
      record {
        done_distinct = (All-absent x done (λ i. l.apart x i (inl refl)), l.done_distinct);
        apart = λ n in_done waits. elim in_done [
          | inl here ↦ All-IsIn (λ y. x ≢ y) nodes n distinct.0 waits (sym here)
          | inr old ↦ l.apart n old (inr waits)
        ];
        inside = λ n seen. l.inside n (WasSeen-back done nodes x n seen);
        no_root = λ n seen. l.no_root n (WasSeen-back done nodes x n seen);
        current = inr (inl refl);
        origin = λ s c n seen e.
            let (before, at_r) = l.origin s c n (WasSeen-back done nodes x n seen) e in
            (
              elim before [ inl root ↦ inl root | inr old ↦ inr (inr old) ],
              λ here. absurd (elim before [
                | inl root ↦ l.no_root x (inr (inl refl)) (sym here ∙ root)
                | inr old ↦ l.apart s old (inl here)
              ]),
            );
        closed = λ s c n followed e. WasSeen-move done nodes x n (elim followed.0 [
          | inl root ↦ all_followed done (x ∷ nodes) r s c n l (inl root) e
          | inr (inl here) ↦ absurd (omega (arith, followed.1 here))
          | inr (inr old) ↦ all_followed done (x ∷ nodes) r s c n l (inr old) e
        ]);
        layered = d.layered;
        complete = λ n inside other le. WasSeen-move done nodes x n (d.complete n inside other le);
        lower = λ n inside other lt. elim (d.complete n inside other (omega (arith, lt))) [
          | inl old ↦ inr old
          | inr waits ↦ absurd (omega (arith, lt, d.least n waits))
        ];
      }

  -- Where no state waits, all are done.
  all_done :
      (limit : ℕ) (done : List ℕ) (r n : ℕ)
      → IsLayered t done [] r t.inputs
      → depth t n < limit
      → n < t.size
      → n ≢ 0
      → IsIn n done
  all_done zero done r n l lt inside other = absurd (omega (arith, lt))
  all_done (suc limit) done r n l lt inside other =
      let (p, c, e) = t.up n inside other in
      let before : (p ≡ 0) ⊎ IsIn p done = elim (ℕ_discrete p 0) [
        | yes root ↦ inl root
        | no p_other ↦ inr (
            all_done limit done r p l (omega (arith, lt, depth-child t p c n e))
              (t.from_inside p c n e) p_other)
      ] in
      elim (all_followed done [] r p c n l before e) [ inl old ↦ old | inr bad ↦ absurd bad ]

  pub end-IsLayered :
      (done : List ℕ) (r n : ℕ) → IsLayered t done [] r t.inputs → n < t.size → n ≢ 0 → IsIn n done
  end-IsLayered done r n l inside other =
      all_done (suc (depth t n)) done r n l (omega arith) inside other

  -- The states that are done are different states but 0.
  pub length_done :
      (done nodes : List ℕ) (r i : ℕ) → IsLayered t done nodes r i → suc (length done) ≤ t.size
  length_done done nodes r i l =
      length-AreDistinct t.size (0 ∷ done)
        (All-absent 0 done (λ z. l.no_root 0 (inl z) refl), l.done_distinct)
        (t.root_inside, All-inside (λ n. n < t.size) done (λ n z. l.inside n (inl z)))

  -- With a state that waits there is one more.
  pub length_done_waiting :
      (done nodes : List ℕ) (r i x : ℕ)
      → IsLayered t done (x ∷ nodes) r i
      → suc (suc (length done)) ≤ t.size
  length_done_waiting done nodes r i x l =
      length-AreDistinct t.size (0 ∷ x ∷ done)
        (
          (
            (λ e. l.no_root x (inr (inl refl)) (sym e)),
            All-absent 0 done (λ z. l.no_root 0 (inl z) refl),
          ),
          (All-absent x done (λ z. l.apart x z (inl refl)), l.done_distinct),
        )
        (
          t.root_inside,
          (
            l.inside x (inr (inl refl)),
            All-inside (λ n. n < t.size) done (λ n z. l.inside n (inl z)),
          ),
        )
