-- ===== src/Automaton/Rows/Banded.antt =====
-- The banded format: the band holds every transition of the row.
use orchid_linux.Base.{
  ℕ, zero, suc, ◌+◌, ◌-◌, ◌<◌, ◌≤◌, ◌^◌, ◌≡◌, ◌≢◌, refl, ◌⊎◌, inl, inr, true, false, List, [], ◌∷◌,
  none, some, arith, length, set, ltb→lt, leb→le, get_or, get_elem?, take, drop, All, ok, read, ltb,
  leb, u32, Bool-cases, get_elem?-take, get_elem?-drop, get_elem?-eq-get_or,
}
use orchid_linux.Automaton.Types.{acsm_fail_state, acf_banded}
use native.Mathlib.Decide.{ℕ_discrete}
use orchid_linux.Automaton.Rows.{is_dead, band_ends, banded_row, sparse_get_next_state_dfa}

-- A row of a deterministic automaton has no failure state.
abbrev pub IsTotal : List ℕ → Type 0
IsTotal full = All (λ s. s ≢ acsm_fail_state) full

pub is_dead_zero : (s : ℕ) → s ≢ acsm_fail_state → (is_dead s ≡ true) → s ≡ 0
is_dead_zero s h d = ground (arith, h, d)

pub is_dead_live : (s : ℕ) → is_dead s ≡ false → s ≢ 0
is_dead_live s d e = ground (arith, d, e)

-- A bound above, or below, on the places of the states other than 0.
upper_cons :
    (i s l : ℕ) (full : List ℕ)
    → (s ≢ 0 → i ≤ l)
    → ((j : ℕ) → get_or full j 0 ≢ 0 → i + 1 + j ≤ l)
    → (j : ℕ) → get_or (s ∷ full) j 0 ≢ 0
    → i + j ≤ l
upper_cons i s l full here later zero n = omega (arith, here n)
upper_cons i s l full here later (suc j) n = omega (arith, later j n)

lower_cons :
    (i s f : ℕ) (full : List ℕ)
    → (s ≢ 0 → f ≤ i)
    → ((j : ℕ) → get_or full j 0 ≢ 0 → f ≤ i + 1 + j)
    → (j : ℕ) → get_or (s ∷ full) j 0 ≢ 0
    → f ≤ i + j
lower_cons i s f full here later zero n = omega (arith, here n)
lower_cons i s f full here later (suc j) n = omega (arith, later j n)

band_ends-some :
    (i : ℕ) (full : List ℕ) (f l : ℕ)
    → IsTotal full
    → l < i
    → (l' : ℕ) × (band_ends i full (some (f, l)) ≡ some (f, l'))
      × (l ≤ l')
      × (l' < i + length full)
      × ((j : ℕ) → get_or full j 0 ≢ 0 → i + j ≤ l')
unfolding band_ends
band_ends-some i [] f l total h = (l, refl, omega arith, omega arith, λ j n. absurd (n refl))
band_ends-some i (s ∷ full) f l total h = elim (Bool-cases (is_dead s)) [
  | inl dead ↦
      let (l', e, a, b, c) = band_ends-some (i + 1) full f l total.1 (omega arith) in
      (
        l',
        rw dead e,
        a,
        omega arith,
        upper_cons i s l' full (λ n. absurd (n (is_dead_zero s total.0 dead))) c,
      )
  | inr live ↦
      let (l', e, a, b, c) = band_ends-some (i + 1) full f i total.1 (omega arith) in
      (l', rw live e, omega arith, omega arith, upper_cons i s l' full (λ n. a) c)
]

-- The band of a row: nothing, or the places from `first` to `last`.
pub record IsBand (i : ℕ) (full : List ℕ) (f l : ℕ) : Type 0 where
  pub begins : i ≤ f
  pub ends : f ≤ l
  pub inside : l < i + length full
  pub lower : (j : ℕ) → get_or full j 0 ≢ 0 → f ≤ i + j
  pub upper : (j : ℕ) → get_or full j 0 ≢ 0 → i + j ≤ l

abbrev pub IsEmptyRow : List ℕ → Type 0
IsEmptyRow full = (j : ℕ) → get_or full j 0 ≡ 0

empty_cons : (s : ℕ) (full : List ℕ) → s ≡ 0 → IsEmptyRow full → IsEmptyRow (s ∷ full)
empty_cons s full e h zero = e
empty_cons s full e h (suc j) = h j

band_ends-none :
    (i : ℕ) (full : List ℕ)
    → IsTotal full
    → ((band_ends i full none ≡ none) × IsEmptyRow full)
      ⊎ ((f : ℕ) × (l : ℕ) × (band_ends i full none ≡ some (f, l)) × IsBand i full f l)
unfolding band_ends
band_ends-none i [] total = inl (refl, λ j. refl)
band_ends-none i (s ∷ full) total = elim (Bool-cases (is_dead s)) [
  | inl dead ↦
      let zero_s = is_dead_zero s total.0 dead in
      elim (band_ends-none (i + 1) full total.1) [
        | inl (e, empty) ↦ inl (rw dead e, empty_cons s full zero_s empty)
        | inr (f, l, e, band) ↦ inr (
          f,
          l,
          rw dead e,
          record {
            begins = omega (arith, band.begins);
            ends = band.ends;
            inside = omega (arith, band.inside);
            lower = lower_cons i s f full (λ n. absurd (n zero_s)) band.lower;
            upper = upper_cons i s l full (λ n. absurd (n zero_s)) band.upper;
          },
        )
      ]
  | inr live ↦
      let (l, e, a, b, c) = band_ends-some (i + 1) full i i total.1 (omega arith) in
      inr (
        i,
        l,
        rw live e,
        record {
          begins = omega arith;
          ends = a;
          inside = omega (arith, b);
          lower = λ j n. omega arith;
          upper = upper_cons i s l full (λ n. a) c;
        },
      )
]

-- A read inside a slice.
pub read_slice :
    (xs : List ℕ) (f cnt i : ℕ)
    → f ≤ i
    → i < f + cnt
    → i < length xs
    → get_elem? (take cnt (drop f xs)) (i - f) ≡ some (get_or xs i 0)
read_slice xs f cnt i low high inside =
    let place : f + (i - f) ≡ i = omega arith in
    rw (get_elem?-take cnt (drop f xs) (i - f) (omega arith), get_elem?-drop f xs (i - f), place)
      (get_elem?-eq-get_or xs i 0 inside)

-- The words behind the flag of a banded row.
pub record IsBanded (full row : List ℕ) : Type 0 where
  pub flag : ℕ
  pub cnt : ℕ
  pub index : ℕ
  pub band : List ℕ
  pub words : row ≡ acf_banded ∷ flag ∷ cnt ∷ index ∷ band
  pub small : index + cnt < 2 ^ 32
  pub outside_low : (j : ℕ) → j < index → get_or full j 0 ≡ 0
  pub outside_high : (j : ℕ) → index + cnt ≤ j → get_or full j 0 ≡ 0
  pub band_words :
      (j : ℕ) → index ≤ j → j < index + cnt → get_elem? band (j - index) ≡ some (get_or full j 0)

zero_unless : (n : ℕ) → (n ≢ 0 → ⊥) → n ≡ 0
zero_unless n h = elim (ℕ_discrete n 0) [ yes e ↦ e | no ne ↦ absurd (h ne) ]

-- Every banded row holds the transitions of its state.
pub banded_row-IsBanded :
    (full : List ℕ) → IsTotal full → length full < 2 ^ 31 → IsBanded full (banded_row full)
unfolding banded_row
banded_row-IsBanded full total short = elim (band_ends-none 0 full total) [
  | inl (e, empty) ↦
      rw (e, banded_row)
        (record {
          flag = 0;
          cnt = 0;
          index = 0xffff_ffff;
          band = [];
          words = refl;
          small = omega arith;
          outside_low = λ j h. empty j;
          outside_high = λ j h. empty j;
          band_words = λ j h k. absurd (omega (arith, h, k));
        })
  | inr (f, l, e, band) ↦
      rw (e, banded_row)
        (record {
          flag = 0;
          cnt = l - f + 1;
          index = f;
          band = take (l - f + 1) (drop f full);
          words = refl;
          small = omega (arith, band.ends, band.inside);
          outside_low =
              λ j h. zero_unless (get_or full j 0) (λ n. omega (arith, band.lower j n, h));
          outside_high = λ j h.
              zero_unless (get_or full j 0) (λ n. omega (arith, band.upper j n, band.ends, h));
          band_words = λ j h k.
              read_slice full f (l - f + 1) j h (omega (arith, k))
                (omega (arith, k, band.ends, band.inside));
        })
]

-- The flag does not matter.
pub set-IsBanded : (full row : List ℕ) (v : ℕ) → IsBanded full row → IsBanded full (set row 1 v)
set-IsBanded full row v b = rw b.words (record {
  flag = v;
  cnt = b.cnt;
  index = b.index;
  band = b.band;
  words = refl;
  small = b.small;
  outside_low = b.outside_low;
  outside_high = b.outside_high;
  band_words = b.band_words;
})

read_band :
    (flag cnt index input : ℕ) (band : List ℕ) (v : ℕ)
    → index ≤ input
    → get_elem? band (input - index) ≡ some v
    → read (acf_banded ∷ flag ∷ cnt ∷ index ∷ band) (4 + input - index) ≡ ok v
read_band flag cnt index input band v low h =
    let place : 4 + input - index ≡ suc (suc (suc (suc (input - index)))) = omega arith in
    rw (place, h)

-- The lookup in a banded row, by `SparseGetNextStateDFA`.
pub sparse_get_next_state_dfa-IsBanded :
    (full row : List ℕ) (input : ℕ)
    → IsBanded full row
    → sparse_get_next_state_dfa row input ≡ ok (get_or full input 0)
unfolding sparse_get_next_state_dfa
sparse_get_next_state_dfa-IsBanded full row input b =
    let wrap : u32 (b.index + b.cnt) ≡ b.index + b.cnt = omega (arith, b.small) in
    elim (Bool-cases (ltb input b.index)) [
      | inl low ↦ rw (b.words, low, b.outside_low input (ltb→lt input b.index low))
      | inr not_low ↦ elim (Bool-cases (leb (b.index + b.cnt) input)) [
        | inl high ↦ rw (
          b.words,
          not_low,
          wrap,
          high,
          b.outside_high input (leb→le (b.index + b.cnt) input high),
        )
        | inr inside ↦
            let h : b.index ≤ input = ground (arith, not_low) in
            let k : input < b.index + b.cnt = ground (arith, inside) in
            rw (
              b.words,
              not_low,
              wrap,
              inside,
              read_band b.flag b.cnt b.index input b.band (get_or full input 0) h
                  (b.band_words input h k),
            )
      ]
    ]
