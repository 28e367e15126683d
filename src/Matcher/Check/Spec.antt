-- ===== src/Matcher/Check/Spec.antt =====
-- What `pattern_check` is to find: the elements of a signature, in order, among the patterns.
use orchid_linux.Base.{
  ℕ, zero, suc, ◌+◌, ◌≤◌, ◌<◌, ◌≡◌, ◌⊎◌, ◌↔◌, ◌%◌, List, [], ◌∷◌, none, some, length, get_elem?,
  bit_and, map,
}
use orchid_linux.Loader.Types.{ElementEntry, AppInfo}
use orchid_linux.Matcher.Check.{Report, CheckState, exp_array_size}

-- The flags of an element: alone in its signature, first, in the middle, last.
abbrev pub flag_single : ℕ
flag_single = 5

abbrev pub flag_first : ℕ
flag_first = 1

abbrev pub flag_middle : ℕ
flag_middle = 2

abbrev pub flag_last : ℕ
flag_last = 6

-- The mark behind a signature's last element.
abbrev pub no_element : ℕ
no_element = 0xffff

-- An entry that is followed by another one of its signature.
pub record IsJoined (eles : List ElementEntry) (off : ℕ) (e : ElementEntry) : Type 0 where
  pub next : e.exp_ele_index ≡ suc off
  pub same_sig : (e' : ElementEntry) → get_elem? eles (suc off) ≡ some e' → e'.sigindex ≡ e.sigindex

-- The four kinds of entry.
pub data Kind (eles : List ElementEntry) (off : ℕ) (e : ElementEntry) : Type 0 where
  single : e.flag ≡ flag_single → e.exp_ele_index ≡ no_element → Kind eles off e
  first : e.flag ≡ flag_first → IsJoined eles off e → Kind eles off e
  middle : e.flag ≡ flag_middle → IsJoined eles off e → Kind eles off e
  last : e.flag ≡ flag_last → e.exp_ele_index ≡ no_element → Kind eles off e

-- The tables of `install_Application`: every element has its kind and a signature.
pub record IsTable (info : AppInfo) : Type 0 where
  pub fits : length info.eles ≤ no_element
  pub kind : (off : ℕ) (e : ElementEntry) → get_elem? info.eles off ≡ some e → Kind info.eles off e
  pub has_sig :
      (off : ℕ) (e : ElementEntry)
      → get_elem? info.eles off ≡ some e
      → e.sigindex < length info.sigs

-- Elements `v` to `v + k` are the later elements of signature `i`, down to its last one.
abbrev pub Later : List ElementEntry → ℕ → ℕ → ℕ → Type 0
Later eles i v zero =
    (e : ElementEntry) × (get_elem? eles v ≡ some e) × (e.flag ≡ flag_last) × (e.sigindex ≡ i)
Later eles i v (suc k) =
    (e : ElementEntry) × (get_elem? eles v ≡ some e)
    × (e.flag ≡ flag_middle)
    × (e.sigindex ≡ i)
    × Later eles i (suc v) k

-- Elements `s` to `s + k` are the elements of signature `i`.
abbrev pub Signature : List ElementEntry → ℕ → ℕ → ℕ → Type 0
Signature eles i s zero =
    (e : ElementEntry) × (get_elem? eles s ≡ some e) × (e.flag ≡ flag_single) × (e.sigindex ≡ i)
Signature eles i s (suc k) =
    (e : ElementEntry) × (get_elem? eles s ≡ some e)
    × (e.flag ≡ flag_first)
    × (e.sigindex ≡ i)
    × Later eles i (suc s) k

-- `s`, `s + 1`, …, `s + k`.
abbrev pub span : ℕ → ℕ → List ℕ
span s zero = s ∷ []
span s (suc k) = s ∷ span (suc s) k

-- The first list is left when some elements of the second are dropped.
pub data Subsequence : List ℕ → List ℕ → Type 0 where
  done : {ys : List ℕ} → Subsequence [] ys
  keep : {y : ℕ} {xs ys : List ℕ} → Subsequence xs ys → Subsequence (y ∷ xs) (y ∷ ys)
  drop : {y : ℕ} {xs ys : List ℕ} → Subsequence xs ys → Subsequence xs (y ∷ ys)

-- The offsets that patterns carry.
abbrev pub offsets : List ℕ → List ℕ
offsets = map (λ p. bit_and p 0xffff)

-- All the elements of signature `i` occur among the patterns, in order.
abbrev pub Occurs : List ElementEntry → List ℕ → ℕ → Type 0
Occurs eles patterns i =
    (s : ℕ) × (k : ℕ) × Signature eles i s k × Subsequence (span s k) (offsets patterns)

-- The later elements of signature `i` from `v` on occur, in order.
abbrev pub OccursFrom : List ElementEntry → List ℕ → ℕ → ℕ → Type 0
OccursFrom eles patterns i v =
    (k : ℕ) × Later eles i v k × Subsequence (span v k) (offsets patterns)

abbrev pub AnySlot : (ℕ → Type 0) → List ℕ → Type 0
AnySlot P [] = ⊥
AnySlot P (v ∷ vs) = P v ⊎ AnySlot P vs

-- Signature `i` was printed.
abbrev pub Reported : ℕ → List Report → Type 0
Reported i [] = ⊥
Reported i (r ∷ rs) = (r.sig_index ≡ i) ⊎ Reported i rs

-- How many of the patterns are first or only elements of a signature.
abbrev pub start_at : List ElementEntry → ℕ → ℕ
start_at eles off = elim (get_elem? eles off) [ none ↦ 0 | some e ↦ e.flag % 2 ]

abbrev pub starts : List ElementEntry → List ℕ → ℕ
starts eles [] = 0
starts eles (p ∷ ps) = start_at eles (bit_and p 0xffff) + starts eles ps

-- Signature `i` is printed, or is still to be found in the patterns that are left.
abbrev pub Claim : List ElementEntry → List ℕ → CheckState → ℕ → Type 0
Claim eles ps s i =
    Reported i s.reports ⊎ (AnySlot (OccursFrom eles ps i) s.exp_array ⊎ Occurs eles ps i)

-- One step of the loop, from `s` to `s'`, at pattern `p` before the patterns `ps`.
pub record IsStep (eles : List ElementEntry) (p : ℕ) (s s' : CheckState) : Type 0 where
  pub grows : length s'.exp_array ≤ length s.exp_array + start_at eles (bit_and p 0xffff)
  pub bounded : length s'.exp_array ≤ exp_array_size
  pub claim : (ps : List ℕ) (i : ℕ) → Claim eles ps s' i ↔ Claim eles (p ∷ ps) s i
