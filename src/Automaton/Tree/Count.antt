-- ===== src/Automaton/Tree/Count.antt =====
-- Different numbers below a bound are at most so many.
use orchid_linux.Base.{
  ℕ, zero, suc, ◌<◌, ◌≤◌, ◌≢◌, ◌≡◌, inl, inr, Bool-cases, List, [], ◌∷◌, ◌==◌, if◌then◌else◌, arith,
  length, All, AreDistinct,
}

-- The list without the first `n`.
without : ℕ → List ℕ → List ℕ
without n [] = []
without n (x ∷ xs) = if x == n then xs else x ∷ without n xs

All-without : (P : ℕ → Type 0) (n : ℕ) (xs : List ℕ) → All P xs → All P (without n xs)
unfolding without
All-without P n [] h = tt
All-without P n (x ∷ xs) h = elim (Bool-cases (x == n)) [
  | inl here ↦ rw here h.1
  | inr other ↦ rw other (h.0, All-without P n xs h.1)
]

without-AreDistinct : (n : ℕ) (xs : List ℕ) → AreDistinct xs → AreDistinct (without n xs)
unfolding without
without-AreDistinct n [] d = tt
without-AreDistinct n (x ∷ xs) d = elim (Bool-cases (x == n)) [
  | inl here ↦ rw here d.1
  | inr other ↦ rw other (All-without (λ y. x ≢ y) n xs d.0, without-AreDistinct n xs d.1)
]

length-without : (n : ℕ) (xs : List ℕ) → length xs ≤ suc (length (without n xs))
unfolding without
length-without n [] = omega arith
length-without n (x ∷ xs) = elim (Bool-cases (x == n)) [
  | inl here ↦ rw here (omega arith)
  | inr other ↦ rw other (omega (arith, length-without n xs))
]

both :
    (P Q R : ℕ → Type 0) (xs : List ℕ)
    → ((x : ℕ) → P x → Q x → R x)
    → All P xs
    → All Q xs
    → All R xs
both P Q R [] f h k = tt
both P Q R (x ∷ xs) f h k = (f x h.0 k.0, both P Q R xs f h.1 k.1)

without-below :
    (n : ℕ) (xs : List ℕ)
    → AreDistinct xs
    → All (λ x. x < suc n) xs
    → All (λ x. x < n) (without n xs)
unfolding without
without-below n [] d h = tt
without-below n (x ∷ xs) d h = elim (Bool-cases (x == n)) [
  | inl here ↦
      let e : x ≡ n = ground (arith, here) in
      rw here (
        both (λ y. x ≢ y) (λ y. y < suc n) (λ y. y < n) xs (λ y ne lt. omega (arith, e, ne, lt)) d.0
          h.1)
  | inr other ↦ rw other (ground (arith, other, h.0), without-below n xs d.1 h.1)
]

pub length-AreDistinct :
    (n : ℕ) (xs : List ℕ) → AreDistinct xs → All (λ x. x < n) xs → length xs ≤ n
length-AreDistinct zero [] d h = omega arith
length-AreDistinct zero (x ∷ xs) d h = absurd (omega (arith, h.0))
length-AreDistinct (suc n) xs d h = omega (
  arith,
  length-without n xs,
  length-AreDistinct n (without n xs) (without-AreDistinct n xs d) (without-below n xs d h),
)
