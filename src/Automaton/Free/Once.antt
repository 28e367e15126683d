-- ===== src/Automaton/Free/Once.antt =====
-- `acsmFree2` frees what the patterns and the states have, each object once.
use orchid_linux.Base.{
  ℕ, zero, suc, ◌+◌, ◌<◌, ◌≤◌, ◌≡◌, refl, ap, inl, inr, List, [], ◌∷◌, ◌++◌, arith, length, get_or,
  IsIn, Returns,
}
use mathlib.Core.Path.{subst}
use orchid_linux.Automaton.Types.{Acsm, Pattern}
use orchid_linux.Automaton.Free.{
  Freed, freed_entry, freed_patrn, freed_casepatrn, freed_pattern, freed_next_state,
  freed_match_list, freed_acsm, free_patterns, free_fails, acsm_free, AreDifferent,
  append-AreDifferent, IsIn-append, append-IsIn, kind_of, owner_of, free_states-AreStates,
}

free_patterns-owner :
    (x : Freed) (j : ℕ) (ps : List Pattern)
    → IsIn x (free_patterns j ps)
    → (kind_of x ≡ 1) × (j ≤ owner_of x)
unfolding free_patterns
free_patterns-owner x j [] bad = absurd bad
free_patterns-owner x j (p ∷ ps) (inl e) = (ap kind_of e, omega (arith, ap owner_of e))
free_patterns-owner x j (p ∷ ps) (inr (inl e)) = (ap kind_of e, omega (arith, ap owner_of e))
free_patterns-owner x j (p ∷ ps) (inr (inr (inl e))) = (ap kind_of e, omega (arith, ap owner_of e))
free_patterns-owner x j (p ∷ ps) (inr (inr (inr i))) =
    let (kind, le) = free_patterns-owner x (suc j) ps i in (kind, omega (arith, le))

later_pattern :
    (x : Freed) (j : ℕ) (ps : List Pattern) → owner_of x ≡ j → IsIn x (free_patterns (suc j) ps) → ⊥
later_pattern x j ps e i = omega (arith, e, (free_patterns-owner x (suc j) ps i).1)

free_patterns-AreDifferent : (j : ℕ) (ps : List Pattern) → AreDifferent (free_patterns j ps)
unfolding free_patterns
free_patterns-AreDifferent j [] = tt
free_patterns-AreDifferent j (p ∷ ps) = (
  λ i. elim i [
    | inl e ↦ absurd (cc e)
    | inr (inl e) ↦ absurd (cc e)
    | inr (inr later) ↦ later_pattern (freed_patrn j) j ps refl later
  ],
  (
    λ i. elim i [
      | inl e ↦ absurd (cc e)
      | inr later ↦ later_pattern (freed_casepatrn j) j ps refl later
    ],
    (
      λ later. later_pattern (freed_pattern j) j ps refl later,
      free_patterns-AreDifferent (suc j) ps,
    ),
  ),
)

-- The two texts of a pattern and the pattern.
abbrev pub FreesPattern : ℕ → List Freed → Type 0
FreesPattern j xs =
    IsIn (freed_patrn j) xs × IsIn (freed_casepatrn j) xs × IsIn (freed_pattern j) xs

free_patterns-FreesPattern :
    (j k : ℕ) (ps : List Pattern) → k < length ps → FreesPattern (j + k) (free_patterns j ps)
unfolding free_patterns
free_patterns-FreesPattern j k [] h = absurd (omega (arith, h))
free_patterns-FreesPattern j zero (p ∷ ps) h =
    let e : j + 0 ≡ j = omega arith in
    (inl (ap freed_patrn e), inr (inl (ap freed_casepatrn e)), inr (inr (inl (ap freed_pattern e))))
free_patterns-FreesPattern j (suc k) (p ∷ ps) h =
    let e : suc j + k ≡ j + suc k = omega arith in
    let (x, y, z) =
      subst (λ n. FreesPattern n (free_patterns (suc j) ps)) e
        (free_patterns-FreesPattern (suc j) k ps (omega (arith, h))) in
    (inr (inr (inr x)), inr (inr (inr y)), inr (inr (inr z)))

-- The arrays and the machine, at the end.
abbrev arrays : List ℕ → List Freed
arrays fails = freed_next_state ∷ (free_fails fails ++ freed_match_list ∷ freed_acsm ∷ [])

arrays-kind : (x : Freed) (fails : List ℕ) → IsIn x (arrays fails) → kind_of x ≡ 2
arrays-kind x [] (inl e) = ap kind_of e
arrays-kind x [] (inr (inl e)) = ap kind_of e
arrays-kind x [] (inr (inr (inl e))) = ap kind_of e
arrays-kind x [] (inr (inr (inr bad))) = absurd bad
arrays-kind x (f ∷ fs) (inl e) = ap kind_of e
arrays-kind x (f ∷ fs) (inr (inl e)) = ap kind_of e
arrays-kind x (f ∷ fs) (inr (inr (inl e))) = ap kind_of e
arrays-kind x (f ∷ fs) (inr (inr (inr (inl e)))) = ap kind_of e
arrays-kind x (f ∷ fs) (inr (inr (inr (inr bad)))) = absurd bad

arrays-AreDifferent : (fails : List ℕ) → AreDifferent (arrays fails)
arrays-AreDifferent [] = (
  λ i. elim i [ inl e ↦ absurd (cc e) | inr (inl e) ↦ absurd (cc e) | inr (inr bad) ↦ bad ],
  (λ i. elim i [ inl e ↦ absurd (cc e) | inr bad ↦ bad ], (λ bad. bad, tt)),
)
arrays-AreDifferent (f ∷ fs) = (
  λ i. elim i [
    | inl e ↦ absurd (cc e)
    | inr (inl e) ↦ absurd (cc e)
    | inr (inr (inl e)) ↦ absurd (cc e)
    | inr (inr (inr bad)) ↦ bad
  ],
  (
    λ i. elim i [ inl e ↦ absurd (cc e) | inr (inl e) ↦ absurd (cc e) | inr (inr bad) ↦ bad ],
    (λ i. elim i [ inl e ↦ absurd (cc e) | inr bad ↦ bad ], (λ bad. bad, tt)),
  ),
)

-- All that is freed is different; the entries of the lists and the patterns are freed.
pub record IsFreed (acsm : Acsm) (xs : List Freed) : Type 0 where
  pub once : AreDifferent xs
  pub entries :
      (state j : ℕ)
      → state < acsm.num_states
      → j < length (get_or acsm.match_list state [])
      → IsIn (freed_entry state j) xs
  pub patterns : (j : ℕ) → j < length acsm.patterns → FreesPattern j xs

-- On an automaton with a list and a row for each state: `acsmFree2` makes no access outside an array,
-- frees no object twice, and frees each entry of the lists of the states and, of each pattern, both
-- texts and the pattern.
pub acsm_free-IsFreed :
    (acsm : Acsm)
    → acsm.num_states ≤ length acsm.match_list
    → acsm.num_states ≤ length acsm.next_state
    → Returns (acsm_free acsm) (IsFreed acsm)
unfolding acsm_free
acsm_free-IsFreed acsm listed rows =
    let (states, run, a) =
      free_states-AreStates acsm.num_states 0 acsm (omega (arith, listed)) (omega (arith, rows)) in
    let ps = free_patterns 0 acsm.patterns in
    let rest = ps ++ arrays acsm.fail_state in
    let held : (x : Freed) → IsIn x ps → IsIn x (states ++ rest) =
      λ x i. append-IsIn x states rest (inr (append-IsIn x ps (arrays acsm.fail_state) (inl i))) in
    (
      states ++ rest,
      rw run refl,
      record {
        once =
            append-AreDifferent states rest a.different
              (append-AreDifferent ps (arrays acsm.fail_state)
                (free_patterns-AreDifferent 0 acsm.patterns) (arrays-AreDifferent acsm.fail_state)
                (λ x first last. omega (
                  arith,
                  (free_patterns-owner x 0 acsm.patterns first).0,
                  arrays-kind x acsm.fail_state last,
                )))
              (λ x first last. elim (IsIn-append x ps (arrays acsm.fail_state) last) [
                | inl p ↦
                    omega (arith, (a.owners x first).0, (free_patterns-owner x 0 acsm.patterns p).0)
                | inr p ↦ omega (arith, (a.owners x first).0, arrays-kind x acsm.fail_state p)
              ]);
        entries = λ state j lt h.
            append-IsIn (freed_entry state j) states rest
              (inl (a.entries state j (omega arith) (omega (arith, lt)) h));
        patterns = λ j h.
            let e : 0 + j ≡ j = omega arith in
            let (x, y, z) =
              subst (λ n. FreesPattern n ps) e (free_patterns-FreesPattern 0 j acsm.patterns h) in
            (held (freed_patrn j) x, held (freed_casepatrn j) y, held (freed_pattern j) z);
      },
    )
