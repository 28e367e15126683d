-- ===== src/Automaton/Tree/Ends.antt =====
-- The texts that end a text, forwards: the words of the states are texts backwards.
use orchid_linux.Base.{ℕ, ◌≡◌, refl, ap, sym, ◌∙◌, List, [], ◌∷◌, ◌++◌}
use mathlib.Core.Path.{subst}
use mathlib.Core.List.{reverse, reverse-append, reverse-reverse}
use orchid_linux.Automaton.Tree.{IsStart}

-- The text ends with the pattern.
abbrev pub EndsWith : List ℕ → List ℕ → Type 0
EndsWith text pattern = (front : List ℕ) × (text ≡ front ++ pattern)

IsStart-append : (xs ys : List ℕ) → IsStart xs ys → (zs : List ℕ) × (ys ≡ xs ++ zs)
IsStart-append [] ys h = (ys, refl)
IsStart-append (x ∷ xs) [] h = absurd h
IsStart-append (x ∷ xs) (y ∷ ys) h =
    let (zs, e) = IsStart-append xs ys h.1 in (zs, ap (λ w. w ∷ ys) (sym h.0) ∙ ap (λ ws. x ∷ ws) e)

append-IsStart : (xs zs : List ℕ) → IsStart xs (xs ++ zs)
append-IsStart [] zs = tt
append-IsStart (x ∷ xs) zs = (refl, append-IsStart xs zs)

pub EndsWith-IsStart :
    (text pattern : List ℕ) → EndsWith text pattern → IsStart (reverse pattern) (reverse text)
EndsWith-IsStart text pattern (front, e) =
    subst (λ w. IsStart (reverse pattern) w) (sym (ap reverse e ∙ reverse-append front pattern))
      (append-IsStart (reverse pattern) (reverse front))

pub IsStart-EndsWith :
    (text pattern : List ℕ) → IsStart (reverse pattern) (reverse text) → EndsWith text pattern
IsStart-EndsWith text pattern h =
    let (zs, e) = IsStart-append (reverse pattern) (reverse text) h in
    (
      reverse zs,
      sym (reverse-reverse text)
          ∙ ap reverse e
          ∙ reverse-append (reverse pattern) zs
          ∙ ap (λ w. reverse zs ++ w) (reverse-reverse pattern),
    )
