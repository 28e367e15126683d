-- ===== src/Automaton/Tree.antt =====
-- The trie as a tree of words: what the states of acsmx2.c stand for. A word is the text of a state
-- backwards, so that the texts that end one are the words that begin it.
pub mod Longest
pub mod Count
pub mod Layers
pub mod Ends
use orchid_linux.Base.{
  ℕ, zero, suc, ◌+◌, ◌<◌, ◌≤◌, ◌≡◌, ◌≢◌, refl, ap, sym, ◌∙◌, List, [], ◌∷◌, Option, none, some,
  arith, length,
}

-- The words that begin a word.
abbrev pub IsStart : List ℕ → List ℕ → Type 0
IsStart [] ys = Unit {0}
IsStart (x ∷ xs) [] = ⊥
IsStart (x ∷ xs) (y ∷ ys) = (x ≡ y) × IsStart xs ys

pub IsStart-refl : (xs : List ℕ) → IsStart xs xs
IsStart-refl [] = tt
IsStart-refl (x ∷ xs) = (refl, IsStart-refl xs)

pub IsStart-trans : (xs ys zs : List ℕ) → IsStart xs ys → IsStart ys zs → IsStart xs zs
IsStart-trans [] ys zs h k = tt
IsStart-trans (x ∷ xs) [] zs h k = absurd h
IsStart-trans (x ∷ xs) (y ∷ ys) [] h k = absurd k
IsStart-trans (x ∷ xs) (y ∷ ys) (z ∷ zs) h k = (h.0 ∙ k.0, IsStart-trans xs ys zs h.1 k.1)

pub length-IsStart : (xs ys : List ℕ) → IsStart xs ys → length xs ≤ length ys
length-IsStart [] ys h = omega arith
length-IsStart (x ∷ xs) [] h = absurd h
length-IsStart (x ∷ xs) (y ∷ ys) h = omega (arith, length-IsStart xs ys h.1)

-- Of two words that begin the same one, the shorter one begins the other.
pub IsStart-between :
    (xs ys zs : List ℕ) → IsStart xs zs → IsStart ys zs → length xs ≤ length ys → IsStart xs ys
IsStart-between [] ys zs h k le = tt
IsStart-between (x ∷ xs) [] zs h k le = absurd (omega (arith, le))
IsStart-between (x ∷ xs) (y ∷ ys) [] h k le = absurd h
IsStart-between (x ∷ xs) (y ∷ ys) (z ∷ zs) h k le =
    (h.0 ∙ sym k.0, IsStart-between xs ys zs h.1 k.1 (omega (arith, le)))

pub IsStart-same :
    (xs ys zs : List ℕ) → IsStart xs zs → IsStart ys zs → length xs ≡ length ys → xs ≡ ys
IsStart-same [] [] zs h k e = refl
IsStart-same [] (y ∷ ys) zs h k e = absurd (omega (arith, e))
IsStart-same (x ∷ xs) [] zs h k e = absurd (omega (arith, e))
IsStart-same (x ∷ xs) (y ∷ ys) [] h k e = absurd h
IsStart-same (x ∷ xs) (y ∷ ys) (z ∷ zs) h k e =
    ap (λ w. w ∷ xs) (h.0 ∙ sym k.0)
    ∙ ap (λ ws. y ∷ ws) (IsStart-same xs ys zs h.1 k.1 (omega (arith, e)))

-- States below `size` with their words, and transitions for the inputs below `inputs`: from each
-- state but 0 there is one way up, and no two states have one word.
pub record Tree : Type 0 where
  pub size : ℕ
  pub inputs : ℕ
  pub height : ℕ
  pub child : ℕ → ℕ → Option ℕ
  pub word : ℕ → List ℕ
  pub root_word : word 0 ≡ []
  pub root_inside : 0 < size
  pub from_inside : (s c n : ℕ) → child s c ≡ some n → s < size
  pub to_inside : (s c n : ℕ) → child s c ≡ some n → n < size
  pub to_state : (s c n : ℕ) → child s c ≡ some n → n ≢ 0
  pub input_inside : (s c n : ℕ) → child s c ≡ some n → c < inputs
  pub word_child : (s c n : ℕ) → child s c ≡ some n → word n ≡ c ∷ word s
  pub up : (n : ℕ) → n < size → n ≢ 0 → (s : ℕ) × (c : ℕ) × (child s c ≡ some n)
  pub one_state : (m n : ℕ) → m < size → n < size → word m ≡ word n → m ≡ n
  pub low : (n : ℕ) → n < size → length (word n) ≤ height

abbrev pub depth : Tree → ℕ → ℕ
depth t n = length (t.word n)
