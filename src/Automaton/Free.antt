-- ===== src/Automaton/Free.antt =====
-- `acsmFree2` on a compiled automaton: what it frees, in order.
--
-- A row and the failure states are null pointers where the lists are empty, the other two arrays are
-- there after a compilation; the entries of a list of
-- patterns are counted from its head. The callbacks that free trees and addresses are null pointers in
-- this program, and `AC_FREE` is called with no bytes, so that the counters stay as they are.
pub mod Once
use orchid_linux.Base.{
  ℕ, zero, suc, ◌+◌, ◌<◌, ◌≤◌, ◌≡◌, ◌≢◌, refl, ap, sym, ◌∙◌, ◌⊎◌, inl, inr, List, [], ◌∷◌, ◌++◌,
  arith, length, get_or, get_elem?-eq-get_or, All, All-IsIn, IsIn, Run, ok, ◌>>=◌, read, Returns,
}
use mathlib.Core.Path.{subst}
use native.Mathlib.Decide.{ℕ_discrete}
use orchid_linux.Automaton.Types.{Acsm, Pattern}

-- The objects: an entry of a state's list, the row of a state, the two texts of a pattern and the
-- pattern, and the arrays with the machine.
pub data Freed : Type 0 where
  freed_entry : ℕ → ℕ → Freed
  freed_row : ℕ → Freed
  freed_patrn : ℕ → Freed
  freed_casepatrn : ℕ → Freed
  freed_pattern : ℕ → Freed
  freed_next_state : Freed
  freed_fail_state : Freed
  freed_match_list : Freed
  freed_acsm : Freed

unfoldable pub free_entries : ℕ → ℕ → List Pattern → List Freed
free_entries state j [] = []
free_entries state j (px ∷ mlist) = freed_entry state j ∷ free_entries state (suc j) mlist

abbrev free_row : ℕ → List ℕ → List Freed
free_row state [] = []
free_row state (w ∷ ws) = freed_row state ∷ []

abbrev pub free_fails : List ℕ → List Freed
free_fails [] = []
free_fails (f ∷ fs) = freed_fail_state ∷ []

-- The loop over the states.
unfoldable pub free_states : ℕ → ℕ → Acsm → Run (List Freed)
unfolding free_entries
free_states zero i acsm = ok []
free_states (suc left) i acsm = do
  mlist ← read acsm.match_list i
  row ← read acsm.next_state i
  later ← free_states left (suc i) acsm
  ok ((free_entries i 0 mlist ++ free_row i row) ++ later)

-- The loop over the patterns.
unfoldable pub free_patterns : ℕ → List Pattern → List Freed
free_patterns j [] = []
free_patterns j (plist ∷ rest) =
    freed_patrn j ∷ freed_casepatrn j ∷ freed_pattern j ∷ free_patterns (suc j) rest

-- `acsmFree2`.
unfoldable pub acsm_free : Acsm → Run (List Freed)
unfolding free_states free_patterns
acsm_free acsm = free_states acsm.num_states 0 acsm >>= λ states. ok (
    states
    ++ (free_patterns 0 acsm.patterns
        ++ (freed_next_state ∷ (free_fails acsm.fail_state ++ freed_match_list ∷ freed_acsm ∷ []))))

-- No object is freed twice.
abbrev pub AreDifferent : List Freed → Type 0
AreDifferent [] = Unit {0}
AreDifferent (x ∷ xs) = (IsIn x xs → ⊥) × AreDifferent xs

pub IsIn-append : (x : Freed) (xs ys : List Freed) → IsIn x (xs ++ ys) → IsIn x xs ⊎ IsIn x ys
IsIn-append x [] ys i = inr i
IsIn-append x (z ∷ xs) ys (inl e) = inl (inl e)
IsIn-append x (z ∷ xs) ys (inr i) = elim (IsIn-append x xs ys i) [
  | inl first ↦ inl (inr first)
  | inr last ↦ inr last
]

pub append-IsIn : (x : Freed) (xs ys : List Freed) → IsIn x xs ⊎ IsIn x ys → IsIn x (xs ++ ys)
append-IsIn x [] ys (inl bad) = absurd bad
append-IsIn x [] ys (inr i) = i
append-IsIn x (z ∷ xs) ys (inl (inl e)) = inl e
append-IsIn x (z ∷ xs) ys (inl (inr i)) = inr (append-IsIn x xs ys (inl i))
append-IsIn x (z ∷ xs) ys (inr i) = inr (append-IsIn x xs ys (inr i))

pub append-AreDifferent :
    (xs ys : List Freed)
    → AreDifferent xs
    → AreDifferent ys
    → ((x : Freed) → IsIn x xs → IsIn x ys → ⊥)
    → AreDifferent (xs ++ ys)
append-AreDifferent [] ys h k apart = k
append-AreDifferent (x ∷ xs) ys h k apart = (
  λ i. elim (IsIn-append x xs ys i) [ inl here ↦ h.0 here | inr there ↦ apart x (inl refl) there ],
  append-AreDifferent xs ys h.1 k (λ z i. apart z (inr i)),
)

-- The kind of an object, 0 for those of a state and 1 for those of a pattern, and its state or pattern.
abbrev pub kind_of : Freed → ℕ
kind_of (freed_entry state j) = 0
kind_of (freed_row state) = 0
kind_of (freed_patrn j) = 1
kind_of (freed_casepatrn j) = 1
kind_of (freed_pattern j) = 1
kind_of freed_next_state = 2
kind_of freed_fail_state = 2
kind_of freed_match_list = 2
kind_of freed_acsm = 2

abbrev pub owner_of : Freed → ℕ
owner_of (freed_entry state j) = state
owner_of (freed_row state) = state
owner_of (freed_patrn j) = j
owner_of (freed_casepatrn j) = j
owner_of (freed_pattern j) = j
owner_of freed_next_state = 0
owner_of freed_fail_state = 0
owner_of freed_match_list = 0
owner_of freed_acsm = 0

entry_of :
    (x : Freed) (state j : ℕ) (ps : List Pattern)
    → IsIn x (free_entries state j ps)
    → (k : ℕ) × (j ≤ k) × (x ≡ freed_entry state k)
unfolding free_entries
entry_of x state j [] bad = absurd bad
entry_of x state j (p ∷ ps) (inl e) = (j, omega arith, e)
entry_of x state j (p ∷ ps) (inr i) =
    let (k, le, e) = entry_of x state (suc j) ps i in (k, omega (arith, le), e)

free_entries-AreDifferent :
    (state j : ℕ) (ps : List Pattern) → AreDifferent (free_entries state j ps)
unfolding free_entries
free_entries-AreDifferent state j [] = tt
free_entries-AreDifferent state j (p ∷ ps) = (
  λ i.
      let (k, le, e) = entry_of (freed_entry state j) state (suc j) ps i in
      let same : j ≡ k = cc e in omega (arith, le, same),
  free_entries-AreDifferent state (suc j) ps,
)

IsIn-free_entries :
    (state j k : ℕ) (ps : List Pattern)
    → k < length ps
    → IsIn (freed_entry state (j + k)) (free_entries state j ps)
unfolding free_entries
IsIn-free_entries state j k [] h = absurd (omega (arith, h))
IsIn-free_entries state j zero (p ∷ ps) h =
    let e : j + 0 ≡ j = omega arith in inl (ap (freed_entry state) e)
IsIn-free_entries state j (suc k) (p ∷ ps) h =
    let e : suc j + k ≡ j + suc k = omega arith in
    inr (
      subst (λ n. IsIn (freed_entry state n) (free_entries state (suc j) ps)) e
        (IsIn-free_entries state (suc j) k ps (omega (arith, h))))

-- The objects of one state.
abbrev of_state : ℕ → List Pattern → List ℕ → List Freed
of_state i mlist row = free_entries i 0 mlist ++ free_row i row

row_only : (x : Freed) (i : ℕ) (row : List ℕ) → IsIn x (free_row i row) → x ≡ freed_row i
row_only x i [] bad = absurd bad
row_only x i (w ∷ ws) (inl e) = e
row_only x i (w ∷ ws) (inr bad) = absurd bad

free_row-AreDifferent : (i : ℕ) (row : List ℕ) → AreDifferent (free_row i row)
free_row-AreDifferent i [] = tt
free_row-AreDifferent i (w ∷ ws) = (λ bad. bad, tt)

of_state-owner :
    (x : Freed) (i : ℕ) (mlist : List Pattern) (row : List ℕ)
    → IsIn x (of_state i mlist row)
    → (kind_of x ≡ 0) × (owner_of x ≡ i)
of_state-owner x i mlist row h = elim (IsIn-append x (free_entries i 0 mlist) (free_row i row) h) [
  | inl entry ↦ let (k, le, e) = entry_of x i 0 mlist entry in (ap kind_of e, ap owner_of e)
  | inr rest ↦ let e = row_only x i row rest in (ap kind_of e, ap owner_of e)
]

of_state-AreDifferent :
    (i : ℕ) (mlist : List Pattern) (row : List ℕ) → AreDifferent (of_state i mlist row)
of_state-AreDifferent i mlist row =
    append-AreDifferent (free_entries i 0 mlist) (free_row i row)
      (free_entries-AreDifferent i 0 mlist) (free_row-AreDifferent i row)
      (λ x entry rest.
        let (k, le, e) = entry_of x i 0 mlist entry in absurd (cc (e, row_only x i row rest)))

first_entry :
    (i j : ℕ) (ps : List Pattern) → j < length ps → IsIn (freed_entry i j) (free_entries i 0 ps)
first_entry i j ps h =
    let e : 0 + j ≡ j = omega arith in
    subst (λ n. IsIn (freed_entry i n) (free_entries i 0 ps)) e (IsIn-free_entries i 0 j ps h)

-- What the loop over the states frees.
pub record AreStates (i left : ℕ) (acsm : Acsm) (xs : List Freed) : Type 0 where
  pub different : AreDifferent xs
  pub owners : (x : Freed) → IsIn x xs → (kind_of x ≡ 0) × (i ≤ owner_of x)
  pub entries :
      (state j : ℕ)
      → i ≤ state
      → state < i + left
      → j < length (get_or acsm.match_list state [])
      → IsIn (freed_entry state j) xs

pub free_states-AreStates :
    (left i : ℕ) (acsm : Acsm)
    → i + left ≤ length acsm.match_list
    → i + left ≤ length acsm.next_state
    → Returns (free_states left i acsm) (AreStates i left acsm)
unfolding free_states
free_states-AreStates zero i acsm listed rows = (
  [],
  refl,
  record {
    different = tt;
    owners = λ x bad. absurd bad;
    entries = λ state j ge lt h. absurd (omega (arith, ge, lt));
  },
)
free_states-AreStates (suc left) i acsm listed rows =
    let mlist = get_or acsm.match_list i [] in
    let row = get_or acsm.next_state i [] in
    let (later, run, a) =
      free_states-AreStates left (suc i) acsm (omega (arith, listed)) (omega (arith, rows)) in
    let here = of_state i mlist row in
    (
      here ++ later,
      rw
          (
            get_elem?-eq-get_or acsm.match_list i [] (omega (arith, listed)),
            get_elem?-eq-get_or acsm.next_state i [] (omega (arith, rows)),
            run,
          )
          refl,
      record {
        different =
            append-AreDifferent here later (of_state-AreDifferent i mlist row) a.different
              (λ x first last.
                omega (arith, (of_state-owner x i mlist row first).1, (a.owners x last).1));
        owners = λ x h. elim (IsIn-append x here later h) [
          | inl first ↦
              let (kind, owner) = of_state-owner x i mlist row first in (kind, omega (arith, owner))
          | inr last ↦ let (kind, owner) = a.owners x last in (kind, omega (arith, owner))
        ];
        entries = λ state j ge lt h.
            append-IsIn (freed_entry state j) here later (elim (ℕ_discrete i state) [
              | yes same ↦ inl (
                  append-IsIn (freed_entry state j) (free_entries i 0 mlist) (free_row i row) (
                    inl (
                      subst (λ k. IsIn (freed_entry k j) (free_entries i 0 mlist)) same
                        (first_entry i j mlist
                          (subst (λ k. j < length (get_or acsm.match_list k [])) (sym same) h)))))
              | no other ↦ inr (a.entries state j (omega (arith, ge, other)) (omega (arith, lt)) h)
            ]);
      },
    )
