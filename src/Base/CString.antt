-- ===== src/Base/CString.antt =====
-- C strings as lists of bytes without the terminating zero, and what the program calls of
-- <string.h> and <stdlib.h>.
use Prim.Native.Nat.{ℕ}
use Prim.Native.Char.{code}
use Prim.Native.String.{String}
use mathlib.Core.Path.{◌≡◌, refl}
use mathlib.Core.Logic.{◌↔◌, ◌≢◌}
use mathlib.Core.Bool.{Bool, true, false, ◌&&◌}
use mathlib.Core.List.{List, [], ◌∷◌, ◌++◌, append-nil}
use orchid_linux.Base.Lists.{All}
use native.Mathlib.Omega.{arith}
use orchid_linux.Base.Tests.{◌==◌, ==_refl, if◌then◌else◌}

-- The bytes of an ASCII literal.
abbrev pub codes : String → List ℕ
codes String.[] = []
codes (String.◌∷◌ c s) = code c ∷ codes s

-- `strcmp(a, b) == 0`.
unfoldable pub str_eq : List ℕ → List ℕ → Bool
str_eq [] [] = true
str_eq [] (b ∷ bs) = false
str_eq (a ∷ as') [] = false
str_eq (a ∷ as') (b ∷ bs) = a == b && str_eq as' bs

-- `strncmp(s, p, strlen(p)) == 0`.
unfoldable pub starts_with : List ℕ → List ℕ → Bool
starts_with s [] = true
starts_with [] (p ∷ ps) = false
starts_with (c ∷ s) (p ∷ ps) = c == p && starts_with s ps

pub str_eq_iff : (a b : List ℕ) → (str_eq a b ≡ true) ↔ (a ≡ b)
unfolding str_eq
str_eq_iff [] [] = ground arith
str_eq_iff [] (b ∷ bs) = ground arith
str_eq_iff (a ∷ as') [] = ground arith
str_eq_iff (a ∷ as') (b ∷ bs) = ground (arith, str_eq_iff as' bs)

-- The token that begins at the start of the text, if any, before the later ones.
add_token : List ℕ → List (List ℕ) → List (List ℕ)
add_token [] later = later
add_token (c ∷ part) later = (c ∷ part) ∷ later

-- Where a separator is met, the token that follows it is complete.
token_step : ℕ → ℕ → List ℕ × List (List ℕ) → List ℕ × List (List ℕ)
unfolding add_token
token_step d c (part, later) = if c == d then ([], add_token part later) else (c ∷ part, later)

tokens_from : ℕ → List ℕ → List ℕ × List (List ℕ)
unfolding token_step
tokens_from d [] = ([], [])
tokens_from d (c ∷ s) = token_step d c (tokens_from d s)

-- The tokens that repeated calls of `strtok` give for one separator: the runs of other bytes,
-- none of them empty.
unfoldable pub tokens : ℕ → List ℕ → List (List ℕ)
unfolding tokens_from
tokens d s = let (part, later) = tokens_from d s in add_token part later

tokens_skips : tokens b'&' (codes "&a=1&&b=2&") ≡ codes "a=1" ∷ codes "b=2" ∷ []
unfolding tokens
tokens_skips = refl

-- The bytes are other than the separator.
abbrev pub Without : ℕ → List ℕ → Type 0
Without d s = All (λ c. c ≢ d) s

tokens_from-append :
    (d : ℕ) (t s : List ℕ)
    → Without d t
    → tokens_from d (t ++ s) ≡ (t ++ (tokens_from d s).0, (tokens_from d s).1)
unfolding tokens_from
tokens_from-append d [] s h = refl
tokens_from-append d (c ∷ t) s h = rw (tokens_from-append d t s h.1) (ground (arith, h.0))

tokens_from_separator : (d : ℕ) (s : List ℕ) → tokens_from d (d ∷ s) ≡ ([], tokens d s)
unfolding tokens
tokens_from_separator d s = rw (==_refl d)

tokens_from_whole : (d : ℕ) (t : List ℕ) → Without d t → tokens_from d t ≡ (t, [])
unfolding tokens_from
tokens_from_whole d [] h = refl
tokens_from_whole d (c ∷ t) h = rw (tokens_from_whole d t h.1) (ground (arith, h.0))

-- `strtok` gives a token up to the separator, and then those of what follows.
pub tokens-append :
    (d c : ℕ) (t s : List ℕ)
    → Without d (c ∷ t)
    → tokens d ((c ∷ t) ++ d ∷ s) ≡ (c ∷ t) ∷ tokens d s
unfolding tokens
tokens-append d c t s h =
    rw (tokens_from-append d (c ∷ t) (d ∷ s) h, tokens_from_separator d s, append-nil)

pub tokens_one : (d c : ℕ) (t : List ℕ) → Without d (c ∷ t) → tokens d (c ∷ t) ≡ (c ∷ t) ∷ []
unfolding tokens
tokens_one d c t h = rw (tokens_from_whole d (c ∷ t) h)
