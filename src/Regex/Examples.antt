-- ===== src/Regex/Examples.antt =====
-- Tests of the regular expressions.
use orchid_linux.Base.{
  ℕ, zero, suc, ◌+◌, ◌*◌, ◌<◌, ◌≤◌, ◌≡◌, refl, List, [], ◌∷◌, some, arith, get_or, replicate,
  length-replicate, All, Returns, set, get_or-set_ne, ◌≢◌, ◌^◌, ◌-◌,
}
use orchid_linux.Regex.{Internals, reassemble}
use orchid_linux.Regex.Graph.{IsMachine, IsGraphRow, reassemble-IsGraphRow}

-- The cells of two states, but for the user's number of state 1.
abbrev cells : List ℕ
cells = 0 ∷ 0 ∷ 0 ∷ 0 ∷ 0 ∷ 0 ∷ 0 ∷ 0 ∷ 1 ∷ 0x404 ∷ 0 ∷ 0 ∷ 0 ∷ 0 ∷ 0 ∷ 1 ∷ []

-- Two states with one class of bytes: state 1 is an end state with the number 0x404 and no user's
-- number, which is `npos`, and goes to itself.
abbrev one_class : Internals
one_class = record { lookup = replicate 256 7; dfa_alphabet = 8; dfa = set cells 10 (2 ^ 64 - 1) }

get_or-replicate_lt : (n a i : ℕ) → i < n → get_or (replicate n a) i 0 ≡ a
get_or-replicate_lt zero a i h = absurd (omega (arith, h))
get_or-replicate_lt (suc n) a zero h = refl
get_or-replicate_lt (suc n) a (suc i) h = get_or-replicate_lt n a i (omega (arith, h))

small_entries : (bound : ℕ) (xs : List ℕ) (i : ℕ) → All (λ x. x ≤ bound) xs → get_or xs i 0 ≤ bound
small_entries bound [] i h = omega arith
small_entries bound (x ∷ xs) zero h = h.0
small_entries bound (x ∷ xs) (suc i) h = small_entries bound xs i h.1

cell_small : (i : ℕ) → get_or cells i 0 ≤ 0x404
cell_small i = small_entries 0x404 cells i (
  omega arith,
  (
    omega arith,
    (
      omega arith,
      (
        omega arith,
        (
          omega arith,
          (
            omega arith,
            (
              omega arith,
              (
                omega arith,
                (
                  omega arith,
                  (
                    omega arith,
                    (
                      omega arith,
                      (omega arith, (omega arith, (omega arith, (omega arith, (omega arith, tt))))),
                    ),
                  ),
                ),
              ),
            ),
          ),
        ),
      ),
    ),
  ),
)

entry_small : (i : ℕ) → 10 ≢ i → get_or one_class.dfa i 0 ≤ 0x404
entry_small i other = omega (arith, get_or-set_ne cells 10 i (2 ^ 64 - 1) 0 other, cell_small i)

one_class-IsMachine : IsMachine one_class
one_class-IsMachine = record {
  columns = omega arith;
  narrow = omega arith;
  whole = omega arith;
  few = omega arith;
  lookups = length-replicate {A = ℕ} 256 7;
  classes_low = λ c h. omega (arith, get_or-replicate_lt 256 7 c h);
  classes_high = λ c h. omega (arith, get_or-replicate_lt 256 7 c h);
  classes_byte = λ c h. omega (arith, get_or-replicate_lt 256 7 c h);
  targets = λ state column low high.
      omega (arith, entry_small (8 * state + column) (λ e. omega (arith, e, low, high)));
  ids = λ state. omega (arith, entry_small (8 * state + 1) (λ e. omega (arith, e)));
}

reassemble-IsGraphRow_example :
    Returns
      (reassemble (some (replicate 17 9)) one_class)
      (λ graph. (row : ℕ) → 8 * suc row + 8 ≤ 16 → IsGraphRow one_class graph row)
reassemble-IsGraphRow_example =
    reassemble-IsGraphRow one_class (replicate 17 9) one_class-IsMachine (omega arith)
