-- ===== src/Automaton/Rows/SparseBands.antt =====
-- The sparse bands: the bands of `calcSparseBands` hold every transition of the row.
use orchid_linux.Base.{
  ℕ, suc, ◌+◌, ◌-◌, ◌<◌, ◌≤◌, ◌^◌, ◌≡◌, refl, ap, ◌∙◌, inl, inr, true, false, List, [], ◌∷◌, ◌++◌,
  Option, none, some, arith, length, get_or, take, drop, ok, read, ltb, u32, Bool-cases,
  length-take, length-drop, get_elem?-append_left, get_or-beyond, ltb→lt,
}
use mathlib.Core.Path.{subst}
use native.Mathlib.Nat.{add-zero, zero-add}
use native.Mathlib.Decide.{ℕ_discrete, dec_lt}
use orchid_linux.Automaton.Rows.{
  is_dead, OpenBand, calc_sparse_bands, band_words, bands_words, sparse_bands_row, find_band,
  sparse_get_next_state_dfa,
}
use orchid_linux.Automaton.Rows.Banded.{IsTotal, is_dead_zero, read_slice}

-- The places from `lo` up to `hi` hold 0.
abbrev Zeros : List ℕ → ℕ → ℕ → Type 0
Zeros full lo hi = (j : ℕ) → lo ≤ j → j < hi → get_or full j 0 ≡ 0

-- The bands, in order from `lo` on, hold every state other than 0.
abbrev Covers : List ℕ → ℕ → List (ℕ × ℕ) → Type 0
Covers full lo [] = (j : ℕ) → lo ≤ j → get_or full j 0 ≡ 0
Covers full lo (e ∷ bands) =
    (lo ≤ e.0) × (e.0 ≤ e.1) × (e.1 < length full) × Zeros full lo e.0 × Covers full (suc e.1) bands

-- What is known of the band that is open at place `i`.
abbrev IsOpen : List ℕ → ℕ → ℕ → Option OpenBand → Type 0
IsOpen full lo i none = (lo ≤ i) × Zeros full lo i
IsOpen full lo i (some b) =
    (lo ≤ b.begin)
    × (b.begin ≤ b.last)
    × (b.last < i)
    × Zeros full lo b.begin
    × Zeros full (suc b.last) i

Zeros-step :
    (full : List ℕ) (lo i : ℕ) → get_or full i 0 ≡ 0 → Zeros full lo i → Zeros full lo (i + 1)
Zeros-step full lo i e h j low high = elim (ℕ_discrete j i) [
  | yes same ↦ rw same e
  | no other ↦ h j low (omega (arith, high))
]

Zeros-end :
    (full : List ℕ) (lo i : ℕ)
    → length full ≤ i
    → Zeros full lo i
    → (j : ℕ) → lo ≤ j
    → get_or full j 0 ≡ 0
Zeros-end full lo i size h j low = elim (dec_lt j i) [
  | yes high ↦ h j low high
  | no beyond ↦ get_or-beyond full j 0 (omega (arith, beyond))
]

no_gap : (full : List ℕ) (i : ℕ) → Zeros full (suc i) (i + 1)
no_gap full i j low high = absurd (omega (arith, low, high))

-- The bands of the states behind `i` are known for every band that may be open there.
module _ (full : List ℕ) (zmax i s : ℕ) (next : List ℕ)
    (later : (lo : ℕ) (cur : Option OpenBand)
      → IsOpen full lo (i + 1) cur
      → Covers full lo (calc_sparse_bands zmax (i + 1) cur next)) where
  live_step :
      (lo : ℕ)
      → is_dead s ≡ false
      → (cur : Option OpenBand) → IsOpen full lo i cur
      → Covers full lo (calc_sparse_bands zmax i cur (s ∷ next))
  unfolding calc_sparse_bands
  live_step lo live none o =
      rw (live, Covers)
        (later lo (some (record { begin = i; last = i; zcnt = 0 }))
          (o.0, omega arith, omega arith, o.1, no_gap full i))
  live_step lo live (some b) o = rw live (
      later lo (some (record b { last = i; zcnt = 0 }))
        (o.0, omega (arith, o.1, o.2), omega arith, o.3, no_gap full i))

  dead_step :
      (lo : ℕ)
      → i < length full
      → get_or full i 0 ≡ 0
      → is_dead s ≡ true
      → (cur : Option OpenBand) → IsOpen full lo i cur
      → Covers full lo (calc_sparse_bands zmax i cur (s ∷ next))
  unfolding calc_sparse_bands
  dead_step lo inside zero_i dead none o =
      rw (dead, Covers) (later lo none (omega (arith, o.0), Zeros-step full lo i zero_i o.1))
  dead_step lo inside zero_i dead (some b) o =
      let gap = Zeros-step full (suc b.last) i zero_i o.4 in
      elim (Bool-cases (ltb zmax (b.zcnt + 1))) [
        | inl ends ↦
            rw (dead, ends)
              (
                o.0,
                o.1,
                omega (arith, o.2, inside),
                o.3,
                later (suc b.last) none (omega (arith, o.2), gap),
              )
        | inr stays ↦
            rw (dead, stays)
              (later lo (some (record b { zcnt = b.zcnt + 1 }))
                (o.0, o.1, omega (arith, o.2), o.3, gap))
      ]

calc-Covers :
    (full : List ℕ) (zmax i lo : ℕ) (cur : Option OpenBand) (next : List ℕ)
    → IsTotal next
    → length full ≡ i + length next
    → ((j : ℕ) → get_or full (i + j) 0 ≡ get_or next j 0)
    → IsOpen full lo i cur
    → Covers full lo (calc_sparse_bands zmax i cur next)
unfolding calc_sparse_bands
calc-Covers full zmax i lo none [] total size same o = Zeros-end full lo i (omega (arith, size)) o.1
calc-Covers full zmax i lo (some b) [] total size same o = (
  o.0,
  o.1,
  omega (arith, o.2, size),
  o.3,
  Zeros-end full (suc b.last) i (omega (arith, size)) o.4,
)
calc-Covers full zmax i lo cur (s ∷ next) total size same o =
    let here : get_or full i 0 ≡ s = subst (λ k. get_or full k 0 ≡ s) (add-zero i) (same 0) in
    let tail : (j : ℕ) → get_or full (i + 1 + j) 0 ≡ get_or next j 0 =
      λ j. subst (λ k. get_or full k 0 ≡ get_or next j 0) (omega arith) (same (suc j)) in
    let later : (lo' : ℕ) (cur' : Option OpenBand)
        → IsOpen full lo' (i + 1) cur'
        → Covers full lo' (calc_sparse_bands zmax (i + 1) cur' next) =
      λ lo' cur' o'.
        calc-Covers full zmax (i + 1) lo' cur' next total.1 (omega (arith, size)) tail o' in
    elim (Bool-cases (is_dead s)) [
      | inl dead ↦
          dead_step full zmax i s next later lo (omega (arith, size))
            (here ∙ is_dead_zero s total.0 dead) dead cur o
      | inr live ↦ live_step full zmax i s next later lo live cur o
    ]

drop-append : (xs ys : List ℕ) → drop (length xs) (xs ++ ys) ≡ ys
drop-append [] ys = refl
drop-append (x ∷ xs) ys = drop-append xs ys

-- A read of the words of a band, behind its number and index.
read_band :
    (full : List ℕ) (b e input : ℕ) (rest : List ℕ)
    → b ≤ input
    → input ≤ e
    → e < length full
    → read (band_words full (b, e) ++ rest) (2 + input - b) ≡ ok (get_or full input 0)
read_band full b e input rest low high inside =
    let place : 2 + input - b ≡ suc (suc (input - b)) = omega arith in
    let size : length (take (e - b + 1) (drop b full)) ≡ e - b + 1 =
      length-take (e - b + 1) (drop b full) (omega (arith, length-drop b full)) in
    rw (
      place,
      get_elem?-append_left (take (e - b + 1) (drop b full)) rest (input - b) (omega (arith, size)),
      read_slice full b (e - b + 1) input low (omega arith) (omega arith),
    )

drop_band :
    (full : List ℕ) (b cnt : ℕ) (rest : List ℕ)
    → b + cnt ≤ length full
    → drop (2 + cnt) (cnt ∷ b ∷ (take cnt (drop b full) ++ rest)) ≡ rest
drop_band full b cnt rest h =
    let size : length (take cnt (drop b full)) ≡ cnt =
      length-take cnt (drop b full) (omega (arith, length-drop b full, h)) in
    let words = cnt ∷ b ∷ (take cnt (drop b full) ++ rest) in
    let place : 2 + cnt ≡ suc (suc cnt) = omega arith in
    ap (λ n. drop n words) place
    ∙ subst (λ n. drop n (take cnt (drop b full) ++ rest) ≡ rest) size
        (drop-append (take cnt (drop b full)) rest)

find_band-Covers :
    (full : List ℕ) (lo : ℕ) (bands : List (ℕ × ℕ)) (input : ℕ)
    → Covers full lo bands
    → lo ≤ input
    → length full < 2 ^ 31
    → find_band (length bands) (bands_words full bands) input ≡ ok (get_or full input 0)
unfolding find_band
find_band-Covers full lo [] input c low short = rw (c input low)
find_band-Covers full lo ((b, e) ∷ bands) input (p, q, r, z, c) low short =
    let cnt = e - b + 1 in
    let wrap : u32 (b + cnt) ≡ suc e = omega arith in
    elim (Bool-cases (ltb input b)) [
      | inl below ↦ rw (below, z input low (ltb→lt input b below))
      | inr not_below ↦ elim (Bool-cases (ltb input (suc e))) [
        | inl inside ↦ rw (
          not_below,
          wrap,
          inside,
          read_band full b e input (bands_words full bands) (ground (arith, not_below))
              (ground (arith, inside)) r,
        )
        | inr above ↦
            let skip : drop (2 + cnt) (bands_words full ((b, e) ∷ bands)) ≡ bands_words full bands =
              drop_band full b cnt (bands_words full bands) (omega arith) in
            rw (not_below, wrap, above, skip)
              (find_band-Covers full (suc e) bands input c (ground (arith, above)) short)
      ]
    ]

-- The lookup in a row of sparse bands.
pub sparse_bands_row_lookup :
    (zmax : ℕ) (full : List ℕ) (input : ℕ)
    → IsTotal full
    → length full < 2 ^ 31
    → sparse_get_next_state_dfa (sparse_bands_row zmax full) input ≡ ok (get_or full input 0)
unfolding sparse_bands_row sparse_get_next_state_dfa
sparse_bands_row_lookup zmax full input total short =
    let no_zeros : Zeros full 0 0 = λ j low high. absurd (omega (arith, high)) in
    find_band-Covers full 0 (calc_sparse_bands zmax 0 none full) input
      (calc-Covers full zmax 0 0 none full total (omega arith)
        (λ j. ap (λ k. get_or full k 0) (zero-add j)) (omega arith, no_zeros))
      (omega arith) short
