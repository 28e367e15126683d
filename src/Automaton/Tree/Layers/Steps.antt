-- ===== src/Automaton/Tree/Layers/Steps.antt =====
-- The steps of the loops of acsmx2.c over a queue: a state is put into it, an input has no
-- transition, and the next state is taken out.
use orchid_linux.Base.{
  ℕ, ◌+◌, ◌≤◌, ◌≡◌, refl, ap, sym, ◌∙◌, ◌⊎◌, inl, inr, List, [], ◌∷◌, ◌++◌, none, some, arith,
  length, IsIn,
}
use mathlib.Core.Path.{subst}
use native.Mathlib.Decide.{ℕ_discrete}
use orchid_linux.Automaton.Tree.{Tree, depth}
use orchid_linux.Automaton.Tree.Longest.{depth-child, depth_zero}
use orchid_linux.Automaton.Tree.Layers.{
  WasSeen, WasFollowed, IsLayered, IsIn-append, IsIn-append_old, IsIn-append_new, Layered-append,
  one_parent,
}

-- Of the inputs below the next one, the last one or an earlier one.
pub WasFollowed-next :
    (done : List ℕ) (r i s c : ℕ)
    → WasFollowed done r (i + 1) s c
    → ((s ≡ r) × (c ≡ i)) ⊎ WasFollowed done r i s c
WasFollowed-next done r i s c (done_before, before) = elim (ℕ_discrete s r) [
  | yes here ↦ elim (ℕ_discrete c i) [
    | yes now ↦ inl (here, now)
    | no other ↦ inr (done_before, λ e. omega (arith, before e, other))
  ]
  | no elsewhere ↦ inr (done_before, λ e. absurd (elsewhere e))
]

pub WasFollowed-later :
    (done : List ℕ) (r i s c : ℕ) → WasFollowed done r i s c → WasFollowed done r (i + 1) s c
WasFollowed-later done r i s c (done_before, before) = (done_before, λ e. omega (arith, before e))

pub WasSeen-append :
    (done nodes : List ℕ) (s n : ℕ)
    → WasSeen done (nodes ++ s ∷ []) n
    → WasSeen done nodes n ⊎ (n ≡ s)
WasSeen-append done nodes s n (inl old) = inl (inl old)
WasSeen-append done nodes s n (inr waits) = elim (IsIn-append n nodes s waits) [
  | inl old ↦ inl (inr old)
  | inr e ↦ inr e
]

pub WasSeen-append_old :
    (done nodes : List ℕ) (s n : ℕ) → WasSeen done nodes n → WasSeen done (nodes ++ s ∷ []) n
WasSeen-append_old done nodes s n (inl old) = inl old
WasSeen-append_old done nodes s n (inr waits) = inr (IsIn-append_old n nodes s waits)

only_empty : (xs ys : List ℕ) → length xs ≤ length ys → length ys ≡ 0 → xs ≡ ys
only_empty [] [] le e = refl
only_empty [] (y ∷ ys) le e = absurd (omega (arith, e))
only_empty (x ∷ xs) ys le e = absurd (omega (arith, le, e))

module _ (t : Tree) where
  pub start-IsLayered : IsLayered t [] [] 0 0
  start-IsLayered = record {
    done_distinct = tt;
    apart = λ n bad other. bad;
    inside = λ n seen. elim seen [ inl bad ↦ absurd bad | inr bad ↦ absurd bad ];
    no_root = λ n seen. elim seen [ inl bad ↦ absurd bad | inr bad ↦ absurd bad ];
    current = inl refl;
    origin = λ s c n seen e. elim seen [ inl bad ↦ absurd bad | inr bad ↦ absurd bad ];
    closed = λ s c n followed e. elim followed.0 [
      | inl root ↦ absurd (omega (arith, followed.1 root))
      | inr bad ↦ absurd bad
    ];
    layered = tt;
    complete = λ n inside other le. absurd (
        other (
          t.one_state n 0 inside t.root_inside
            (only_empty (t.word n) (t.word 0) le (depth_zero t))));
    lower = λ n inside other lt. absurd (omega (arith, lt, depth_zero t));
  }

  -- The state behind a new transition was not seen before.
  pub not_seen :
      (done nodes : List ℕ) (r i s : ℕ)
      → IsLayered t done nodes r i
      → t.child r i ≡ some s
      → WasSeen done nodes s
      → ⊥
  not_seen done nodes r i s l e seen = omega (arith, (l.origin r i s seen e).1 refl)

  pub add-IsLayered :
      (done nodes : List ℕ) (r i s : ℕ)
      → IsLayered t done nodes r i
      → t.child r i ≡ some s
      → IsLayered t done (nodes ++ s ∷ []) r (i + 1)
  add-IsLayered done nodes r i s l e = record {
    done_distinct = l.done_distinct;
    apart = λ n in_done waits. elim (IsIn-append n nodes s waits) [
      | inl old ↦ l.apart n in_done old
      | inr same ↦ not_seen done nodes r i s l e (inl (subst (λ k. IsIn k done) same in_done))
    ];
    inside = λ n seen. elim (WasSeen-append done nodes s n seen) [
      | inl old ↦ l.inside n old
      | inr same ↦ omega (arith, same, t.to_inside r i s e)
    ];
    no_root = λ n seen. elim (WasSeen-append done nodes s n seen) [
      | inl old ↦ l.no_root n old
      | inr same ↦ λ bad. t.to_state r i s e (sym same ∙ bad)
    ];
    current = l.current;
    origin = λ p c n seen f. elim (WasSeen-append done nodes s n seen) [
      | inl old ↦ WasFollowed-later done r i p c (l.origin p c n old f)
      | inr same ↦
          let both = one_parent t r i p c s e (f ∙ ap (λ k. some k) same) in
          (
            elim l.current [
              | inl z ↦ inl (both.0 ∙ z)
              | inr d ↦ inr (subst (λ k. IsIn k done) (sym both.0) d)
            ],
            λ here. omega (arith, both.1),
          )
    ];
    closed = λ p c n followed f. elim (WasFollowed-next done r i p c followed) [
      | inl (here, now) ↦
          let there : t.child r i ≡ some n =
            subst (λ k. t.child r k ≡ some n) now (subst (λ k. t.child k c ≡ some n) here f) in
          let same : s ≡ n = cc (e, there) in
          inr (subst (λ k. IsIn k (nodes ++ s ∷ [])) same (IsIn-append_new nodes s))
      | inr before ↦ WasSeen-append_old done nodes s n (l.closed p c n before f)
    ];
    layered = Layered-append t (depth t r) s nodes l.layered (depth-child t r i s e);
    complete =
        λ n inside other le. WasSeen-append_old done nodes s n (l.complete n inside other le);
    lower = l.lower;
  }

  pub skip-IsLayered :
      (done nodes : List ℕ) (r i : ℕ)
      → IsLayered t done nodes r i
      → t.child r i ≡ none
      → IsLayered t done nodes r (i + 1)
  skip-IsLayered done nodes r i l e = record {
    done_distinct = l.done_distinct;
    apart = l.apart;
    inside = l.inside;
    no_root = l.no_root;
    current = l.current;
    origin = λ p c n seen f. WasFollowed-later done r i p c (l.origin p c n seen f);
    closed = λ p c n followed f. elim (WasFollowed-next done r i p c followed) [
      | inl (here, now) ↦
          let there : t.child r i ≡ some n =
            subst (λ k. t.child r k ≡ some n) now (subst (λ k. t.child k c ≡ some n) here f) in
          absurd (cc (e, there))
      | inr before ↦ l.closed p c n before f
    ];
    layered = l.layered;
    complete = l.complete;
    lower = l.lower;
  }
