-- ===== src/Automaton/Search/Calls.antt =====
-- Where the banded search calls its callback: at each place of the text where a pattern ends.
use orchid_linux.Base.{
  ℕ, suc, ◌+◌, ◌≤◌, ◌≡◌, refl, ap, sym, ◌∙◌, ◌⊎◌, inl, inr, List, [], ◌∷◌, ◌++◌, arith, length,
  length-append, IsIn,
}
use mathlib.Core.Path.{subst}
use mathlib.Core.List.{append-nil}
use orchid_linux.Matcher.Found.{Match}
use orchid_linux.Automaton.Types.{Acsm, Pattern}
use orchid_linux.Automaton.Compile.{xlatcase}
use orchid_linux.Automaton.Search.Runs.{
  inside_match, end_match, first_match, matches_along, state_after, lists_of, banded_matches,
}

IsIn-append : (m : Match) (xs ys : List Match) → IsIn m (xs ++ ys) → IsIn m xs ⊎ IsIn m ys
IsIn-append m [] ys i = inr i
IsIn-append m (x ∷ xs) ys (inl e) = inl (inl e)
IsIn-append m (x ∷ xs) ys (inr i) = elim (IsIn-append m xs ys i) [
  | inl first ↦ inl (inr first)
  | inr last ↦ inr last
]

append-IsIn : (m : Match) (xs ys : List Match) → IsIn m xs ⊎ IsIn m ys → IsIn m (xs ++ ys)
append-IsIn m [] ys (inl bad) = absurd bad
append-IsIn m [] ys (inr i) = i
append-IsIn m (x ∷ xs) ys (inl (inl e)) = inl e
append-IsIn m (x ∷ xs) ys (inl (inr i)) = inr (append-IsIn m xs ys (inl i))
append-IsIn m (x ∷ xs) ys (inr i) = inr (append-IsIn m xs ys (inr i))

-- A call inside the text: what was read before it, and what is left.
pub record IsInside (lists : ℕ → List Pattern) (next : ℕ → ℕ → ℕ) (at q : ℕ) (text : List ℕ)
    (m : Match) : Type 0 where
  pub front : List ℕ
  pub byte : ℕ
  pub rest : List ℕ
  pub split : text ≡ front ++ byte ∷ rest
  pub call :
      IsIn m (first_match inside_match (lists (state_after next q front)) (at + length front))

module _ (lists : ℕ → List Pattern) (next : ℕ → ℕ → ℕ) (m : Match) where
  matches_along-IsInside :
      (text : List ℕ) (at q : ℕ)
      → IsIn m (matches_along lists next at q text)
      → IsInside lists next at q text m
  matches_along-IsInside [] at q bad = absurd bad
  matches_along-IsInside (c ∷ text) at q i =
      elim (IsIn-append m (first_match inside_match (lists q) at)
        (matches_along lists next (suc at) (next q (xlatcase c)) text) i) [
          | inl here ↦ record {
            front = [];
            byte = c;
            rest = text;
            split = refl;
            call = subst (λ n. IsIn m (first_match inside_match (lists q) n)) (omega arith) here;
          }
          | inr later ↦
              let w = matches_along-IsInside text (suc at) (next q (xlatcase c)) later in
              record {
                front = c ∷ w.front;
                byte = w.byte;
                rest = w.rest;
                split = ap (λ cs. c ∷ cs) w.split;
                call =
                    subst
                      (λ n. IsIn m (
                        first_match inside_match
                          (lists (state_after next (next q (xlatcase c)) w.front)) n))
                      (omega arith) w.call;
              }
        ]

  IsInside-matches_along :
      (front : List ℕ) (c : ℕ) (rest : List ℕ) (at q : ℕ)
      → IsIn m (first_match inside_match (lists (state_after next q front)) (at + length front))
      → IsIn m (matches_along lists next at q (front ++ c ∷ rest))
  IsInside-matches_along [] c rest at q i =
      append-IsIn m (first_match inside_match (lists q) at)
        (matches_along lists next (suc at) (next q (xlatcase c)) rest)
        (inl (subst (λ n. IsIn m (first_match inside_match (lists q) n)) (omega arith) i))
  IsInside-matches_along (d ∷ front) c rest at q i =
      append-IsIn m (first_match inside_match (lists q) at)
        (matches_along lists next (suc at) (next q (xlatcase d)) (front ++ c ∷ rest))
        (inr (
          IsInside-matches_along front c rest (suc at) (next q (xlatcase d)) (
            subst
              (λ n.
                IsIn m (
                  first_match inside_match (lists (state_after next (next q (xlatcase d)) front))
                    n))
              (omega arith) i)))

-- The call for a pattern that ends where `front` was read: inside the text, or at its end.
abbrev pub call_for : Pattern → List ℕ → List ℕ → Match
call_for px front [] = end_match px (length front)
call_for px front (c ∷ rest) = inside_match px (length front)

-- The first pattern of a list is the one of the call.
first_match-IsIn :
    (make : Pattern → ℕ → Match) (ps : List Pattern) (at : ℕ) (m : Match)
    → IsIn m (first_match make ps at)
    → (px : Pattern) × IsIn px ps × (m ≡ make px at)
first_match-IsIn make [] at m bad = absurd bad
first_match-IsIn make (px ∷ ps) at m (inl e) = (px, inl refl, e)
first_match-IsIn make (px ∷ ps) at m (inr bad) = absurd bad

IsIn-first_match :
    (make : Pattern → ℕ → Match) (ps : List Pattern) (at : ℕ) (px : Pattern)
    → IsIn px ps
    → (first : Pattern) × IsIn first ps × IsIn (make first at) (first_match make ps at)
IsIn-first_match make [] at px bad = absurd bad
IsIn-first_match make (first ∷ ps) at px i = (first, inl refl, inl refl)

module _ (acsm : Acsm) (next : ℕ → ℕ → ℕ) where
  abbrev pub list_after : List ℕ → List Pattern
  list_after front = lists_of acsm (state_after next 0 front)

  -- Each call is for a pattern of the list of the state that the text up to there leads to.
  pub banded_matches-call :
      (text : List ℕ) (m : Match)
      → IsIn m (banded_matches acsm next 0 text)
      → (front : List ℕ) × (rest : List ℕ) × (px : Pattern) × (text ≡ front ++ rest)
        × IsIn px (list_after front)
        × (m ≡ call_for px front rest)
  banded_matches-call text m i =
      elim (IsIn-append m (matches_along (lists_of acsm) next 0 0 text)
        (first_match end_match (list_after text) (length text)) i) [
          | inl inside ↦
              let w = matches_along-IsInside (lists_of acsm) next m text 0 0 inside in
              let (px, listed, e) =
                first_match-IsIn inside_match (list_after w.front) (0 + length w.front) m w.call in
              let at : 0 + length w.front ≡ length w.front = omega arith in
              (w.front, w.byte ∷ w.rest, px, w.split, listed, e ∙ ap (inside_match px) at)
          | inr last ↦
              let (px, listed, e) =
                first_match-IsIn end_match (list_after text) (length text) m last in
              (text, [], px, sym (append-nil text), listed, e)
        ]

  -- Where a list has a pattern there is a call for one of its patterns.
  pub call-banded_matches :
      (front rest : List ℕ) (px : Pattern)
      → IsIn px (list_after front)
      → (first : Pattern) × IsIn first (list_after front)
        × IsIn (call_for first front rest) (banded_matches acsm next 0 (front ++ rest))
  call-banded_matches front [] px i =
      let (first, listed, call) =
        IsIn-first_match end_match (list_after front) (length front) px i in
      (
        first,
        listed,
        subst (λ text. IsIn (end_match first (length front)) (banded_matches acsm next 0 text))
            (sym (append-nil front))
            (append-IsIn (end_match first (length front))
              (matches_along (lists_of acsm) next 0 0 front)
              (first_match end_match (list_after front) (length front)) (inr call)),
      )
  call-banded_matches front (c ∷ rest) px i =
      let (first, listed, call) =
        IsIn-first_match inside_match (list_after front) (length front) px i in
      let at : length front ≡ 0 + length front = omega arith in
      (
        first,
        listed,
        append-IsIn (inside_match first (length front))
            (matches_along (lists_of acsm) next 0 0 (front ++ c ∷ rest))
            (first_match end_match (list_after (front ++ c ∷ rest)) (length (front ++ c ∷ rest)))
            (inl (
              IsInside-matches_along (lists_of acsm) next (inside_match first (length front)) front
                c rest 0 0
                (subst
                  (λ n.
                    IsIn (inside_match first (length front))
                      (first_match inside_match (list_after front) n))
                  at call))),
      )

length-first_match :
    (make : Pattern → ℕ → Match) (ps : List Pattern) (at : ℕ) → length (first_match make ps at) ≤ 1
length-first_match make [] at = omega arith
length-first_match make (px ∷ ps) at = omega arith

length-matches_along :
    (lists : ℕ → List Pattern) (next : ℕ → ℕ → ℕ) (at q : ℕ) (text : List ℕ)
    → length (matches_along lists next at q text) ≤ length text
length-matches_along lists next at q [] = omega arith
length-matches_along lists next at q (c ∷ text) = omega (
  arith,
  length-append (first_match inside_match (lists q) at)
      (matches_along lists next (suc at) (next q (xlatcase c)) text),
  length-first_match inside_match (lists q) at,
  length-matches_along lists next (suc at) (next q (xlatcase c)) text,
)

-- There is at most one call for each place.
pub length-banded_matches :
    (acsm : Acsm) (next : ℕ → ℕ → ℕ) (text : List ℕ)
    → length (banded_matches acsm next 0 text) ≤ length text + 1
length-banded_matches acsm next text = omega (
  arith,
  length-append (matches_along (lists_of acsm) next 0 0 text)
      (first_match end_match (lists_of acsm (state_after next 0 text)) (length text)),
  length-matches_along (lists_of acsm) next 0 0 text,
  length-first_match end_match (lists_of acsm (state_after next 0 text)) (length text),
)
