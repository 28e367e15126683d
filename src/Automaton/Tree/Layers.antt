-- ===== src/Automaton/Tree/Layers.antt =====
-- The order in which the loops of acsmx2.c over a queue meet the states of the trie: layer by layer.
pub mod Steps
pub mod Next
use orchid_linux.Base.{
  ℕ, zero, suc, ◌+◌, ◌<◌, ◌≤◌, ◌≡◌, ◌≢◌, refl, ap, sym, ◌∙◌, ◌⊎◌, inl, inr, List, [], ◌∷◌, ◌++◌,
  Option, none, some, arith, length, All, All-IsIn, IsIn, AreDistinct,
}
use mathlib.Core.Path.{subst}
use native.Mathlib.Decide.{ℕ_discrete, dec_lt}
use orchid_linux.Automaton.Tree.{Tree, depth}
use orchid_linux.Automaton.Tree.Count.{length-AreDistinct}

-- The states of one layer, then those of the next one.
abbrev pub Layered : Tree → ℕ → List ℕ → Type 0
Layered t d [] = Unit {0}
Layered t d (x ∷ xs) = ((depth t x ≡ d) × Layered t d xs) ⊎ All (λ y. depth t y ≡ suc d) (x ∷ xs)

-- A state that was put into the queue: it is done, or it waits.
abbrev pub WasSeen : List ℕ → List ℕ → ℕ → Type 0
WasSeen done nodes n = IsIn n done ⊎ IsIn n nodes

-- A transition that the loops have followed, where they are at state `r` and input `i`.
abbrev pub WasFollowed : List ℕ → ℕ → ℕ → ℕ → ℕ → Type 0
WasFollowed done r i s c = ((s ≡ 0) ⊎ IsIn s done) × (s ≡ r → c < i)

-- The loops at state `r` and input `i`: the states of `done` were taken from the queue, those of
-- `nodes` wait.
pub record IsLayered (t : Tree) (done nodes : List ℕ) (r i : ℕ) : Type 0 where
  pub done_distinct : AreDistinct done
  pub apart : (n : ℕ) → IsIn n done → IsIn n nodes → ⊥
  pub inside : (n : ℕ) → WasSeen done nodes n → n < t.size
  pub no_root : (n : ℕ) → WasSeen done nodes n → n ≢ 0
  pub current : (r ≡ 0) ⊎ IsIn r done
  pub origin : (s c n : ℕ) → WasSeen done nodes n → t.child s c ≡ some n → WasFollowed done r i s c
  pub closed : (s c n : ℕ) → WasFollowed done r i s c → t.child s c ≡ some n → WasSeen done nodes n
  pub layered : Layered t (depth t r) nodes
  pub complete : (n : ℕ) → n < t.size → n ≢ 0 → depth t n ≤ depth t r → WasSeen done nodes n
  pub lower : (n : ℕ) → n < t.size → n ≢ 0 → depth t n < depth t r → IsIn n done

pub IsIn-append : (n : ℕ) (xs : List ℕ) (s : ℕ) → IsIn n (xs ++ s ∷ []) → IsIn n xs ⊎ (n ≡ s)
IsIn-append n [] s (inl e) = inr e
IsIn-append n [] s (inr bad) = absurd bad
IsIn-append n (x ∷ xs) s (inl e) = inl (inl e)
IsIn-append n (x ∷ xs) s (inr later) = elim (IsIn-append n xs s later) [
  | inl old ↦ inl (inr old)
  | inr e ↦ inr e
]

pub IsIn-append_old : (n : ℕ) (xs : List ℕ) (s : ℕ) → IsIn n xs → IsIn n (xs ++ s ∷ [])
IsIn-append_old n [] s bad = absurd bad
IsIn-append_old n (x ∷ xs) s (inl e) = inl e
IsIn-append_old n (x ∷ xs) s (inr later) = inr (IsIn-append_old n xs s later)

pub IsIn-append_new : (xs : List ℕ) (s : ℕ) → IsIn s (xs ++ s ∷ [])
IsIn-append_new [] s = inl refl
IsIn-append_new (x ∷ xs) s = inr (IsIn-append_new xs s)

module _ (t : Tree) where
  All-append_one :
      (d s : ℕ) (xs : List ℕ)
      → All (λ y. depth t y ≡ d) xs
      → depth t s ≡ d
      → All (λ y. depth t y ≡ d) (xs ++ s ∷ [])
  All-append_one d s [] h e = (e, tt)
  All-append_one d s (x ∷ xs) h e = (h.0, All-append_one d s xs h.1 e)

  pub Layered-append :
      (d s : ℕ) (xs : List ℕ) → Layered t d xs → depth t s ≡ suc d → Layered t d (xs ++ s ∷ [])
  Layered-append d s [] h e = inr (e, tt)
  Layered-append d s (x ∷ xs) (inl (here, later)) e = inl (here, Layered-append d s xs later e)
  Layered-append d s (x ∷ xs) (inr next) e = inr (All-append_one (suc d) s (x ∷ xs) next e)

  pub Layered-least : (d n : ℕ) (xs : List ℕ) → Layered t d xs → IsIn n xs → d ≤ depth t n
  Layered-least d n [] h bad = absurd bad
  Layered-least d n (x ∷ xs) (inl (here, later)) (inl e) = omega (arith, here, ap (depth t) e)
  Layered-least d n (x ∷ xs) (inl (here, later)) (inr i) = Layered-least d n xs later i
  Layered-least d n (x ∷ xs) (inr next) i =
      omega (arith, All-IsIn (λ y. depth t y ≡ suc d) (x ∷ xs) n next i)

  pub Layered-next : (d : ℕ) (xs : List ℕ) → All (λ y. depth t y ≡ d) xs → Layered t d xs
  Layered-next d [] h = tt
  Layered-next d (x ∷ xs) h = inl (h.0, Layered-next d xs h.1)

  pub one_parent : (r i s c n : ℕ) → t.child r i ≡ some n → t.child s c ≡ some n → (s ≡ r) × (c ≡ i)
  one_parent r i s c n e f =
      let words : c ∷ t.word s ≡ i ∷ t.word r = sym (t.word_child s c n f) ∙ t.word_child r i n e in
      (t.one_state s r (t.from_inside s c n f) (t.from_inside r i n e) cc, cc)
