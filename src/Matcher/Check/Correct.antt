-- ===== src/Matcher/Check/Correct.antt =====
-- `pattern_check` prints exactly the signatures whose elements all occur, in order.
use orchid_linux.Base.{
  ℕ, zero, suc, ◌+◌, ◌<◌, ◌≡◌, refl, inl, inr, List, [], ◌∷◌, some, arith, length, get_elem?,
  bit_and, ==_ne, Returns, All,
}
use native.Mathlib.Decide.{ℕ_discrete}
use orchid_linux.Loader.Types.{ElementEntry, AppInfo}
use orchid_linux.Matcher.Check.{Report, CheckState, exp_array_size, check_patterns, pattern_check}
use orchid_linux.Matcher.Check.Spec.{
  Occurs, AnySlot, Reported, Claim, starts, IsTable, Subsequence, done, keep, drop, span,
}
use orchid_linux.Matcher.Check.Steps.{check_pattern-IsStep}

-- Every pattern names an element of the table.
abbrev pub InTable : AppInfo → List ℕ → Type 0
InTable info = All (λ p. (e : ElementEntry) × (get_elem? info.eles (bit_and p 0xffff) ≡ some e))

-- What the loop leaves: the slots fit, what is printed was to be found, and if fewer than
-- `exp_array_size` slots are ever taken all that was to be found is printed.
pub record IsChecked (info : AppInfo) (ps : List ℕ) (s s' : CheckState) : Type 0 where
  pub sound : (i : ℕ) → Reported i s'.reports → Claim info.eles ps s i
  pub complete :
      (i : ℕ)
      → length s.exp_array + starts info.eles ps < exp_array_size
      → Claim info.eles ps s i
      → Reported i s'.reports

not_in_nil : {x : ℕ} {xs zs ys : List ℕ} → Subsequence zs ys → zs ≡ x ∷ xs → ys ≡ [] → ⊥
not_in_nil done e f = grind arith
not_in_nil (keep q) e f = grind arith
not_in_nil (drop q) e f = grind arith

span_not_in_nil : (s k : ℕ) → Subsequence (span s k) [] → ⊥
span_not_in_nil s zero sub = not_in_nil sub refl refl
span_not_in_nil s (suc k) sub = not_in_nil sub refl refl

AnySlot-none : (P : ℕ → Type 0) → ((v : ℕ) → P v → ⊥) → (vs : List ℕ) → AnySlot P vs → ⊥
AnySlot-none P no_p [] a = a
AnySlot-none P no_p (v ∷ vs) (inl h) = no_p v h
AnySlot-none P no_p (v ∷ vs) (inr h) = AnySlot-none P no_p vs h

module _ (info : AppInfo) (table : IsTable info) where
  check_patterns-IsChecked :
      (ps : List ℕ) (s : CheckState)
      → InTable info ps
      → length s.exp_array < exp_array_size
      → Returns (check_patterns info ps s) (IsChecked info ps s)
  unfolding check_patterns
  check_patterns-IsChecked [] s within room = (
    s,
    refl,
    record {
      sound = λ i r. inl r;
      complete = λ i few c. elim c [
        | inl r ↦ r
        | inr (inl a) ↦ absurd (AnySlot-none _ (λ v o. span_not_in_nil v o.0 o.2) s.exp_array a)
        | inr (inr o) ↦ absurd (span_not_in_nil o.0 o.1 o.3)
      ];
    },
  )
  check_patterns-IsChecked (p ∷ ps) s (in_p, within) room =
      let (s1, run, step) = check_pattern-IsStep info table p in_p.0 in_p.1 s room in
      elim (ℕ_discrete (length s1.exp_array) exp_array_size) [
        | yes full ↦ (
          s1,
          rw (run, full),
          record {
            sound = λ i r. (step.claim ps i).0 (inl r);
            complete = λ i few c. absurd (omega (arith, step.grows));
          },
        )
        | no more ↦
            let (s2, run2, rest) =
              check_patterns-IsChecked ps s1 within (omega (arith, step.bounded)) in
            (
              s2,
              rw (run, ==_ne (length s1.exp_array) exp_array_size more) run2,
              record {
                sound = λ i r. (step.claim ps i).0 (rest.sound i r);
                complete =
                    λ i few c. rest.complete i (omega (arith, step.grows)) ((step.claim ps i).1 c);
              },
            )
      ]

-- The lines of `pattern_check`.
pub record IsPrinted (info : AppInfo) (ps : List ℕ) (rs : List Report) : Type 0 where
  pub sound : (i : ℕ) → Reported i rs → Occurs info.eles ps i
  pub complete :
      starts info.eles ps < exp_array_size → (i : ℕ) → Occurs info.eles ps i → Reported i rs

-- On tables as `install_Application` makes them, and patterns that name elements of them,
-- `pattern_check` makes no access outside its arrays. It prints a signature only if all the
-- elements of that signature occur among the patterns in their order, others between them; and if
-- fewer than `EXP_ARRYR_SIZE` patterns begin a signature it prints every such signature.
pub pattern_check-IsPrinted :
    (info : AppInfo) (ps : List ℕ)
    → IsTable info
    → InTable info ps
    → Returns (pattern_check info ps) (IsPrinted info ps)
unfolding pattern_check
pattern_check-IsPrinted info ps table within =
    let (s', run, c) =
      check_patterns-IsChecked info table ps (record { exp_array = []; reports = [] }) within
        (omega arith) in
    (
      s'.reports,
      rw run,
      record {
        sound = λ i r. elim (c.sound i r) [
          | inl none_yet ↦ absurd none_yet
          | inr (inl no_slot) ↦ absurd no_slot
          | inr (inr o) ↦ o
        ];
        complete = λ few i o. c.complete i (omega arith) (inr (inr o));
      },
    )
