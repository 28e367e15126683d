-- ===== src/Matcher/Check/Step.antt =====
-- How one more pattern at the front changes what occurs.
use mathlib.Core.Path.{subst, subst₂}
use native.Mathlib.Decide.{ℕ_discrete}
use orchid_linux.Base.{
  ℕ, zero, suc, ◌≡◌, ◌≢◌, ◌⊎◌, ◌↔◌, refl, inl, inr, sym, List, [], ◌∷◌, ◌++◌, map, some, arith,
  get_elem?, bit_and,
}
use orchid_linux.Loader.Types.{ElementEntry}
use orchid_linux.Matcher.Check.{Report}
use orchid_linux.Matcher.Check.Spec.{
  flag_single, flag_first, flag_middle, flag_last, Subsequence, done, keep, drop, Occurs,
  OccursFrom, AnySlot, Reported,
}

module _ {x : ℕ} {xs : List ℕ} where
  -- The first element is met at the head, or further on.
  subsequence_head :
      {zs ws : List ℕ} (y : ℕ) (ys : List ℕ)
      → Subsequence zs ws
      → zs ≡ x ∷ xs
      → ws ≡ y ∷ ys
      → Subsequence (x ∷ xs) ys ⊎ ((x ≡ y) × Subsequence xs ys)
  subsequence_head y ys done e f = absurd (grind arith)
  subsequence_head y ys (keep {xs = us} {ys = vs} q) e f = inr (cc, subst₂ Subsequence (cc) (cc) q)
  subsequence_head y ys (drop {xs = us} {ys = vs} q) e f = inl (subst₂ Subsequence e (cc) q)

  -- The first element may be left out.
  subsequence_tail : {zs ys : List ℕ} → Subsequence zs ys → zs ≡ x ∷ xs → Subsequence xs ys
  subsequence_tail done e = absurd (grind arith)
  subsequence_tail (keep {xs = us} {ys = vs} q) e =
      drop (subst (λ (l : List ℕ). Subsequence l vs) (cc) q)
  subsequence_tail (drop q) e = drop (subsequence_tail q e)

pub AnySlot-imp :
    {P Q : ℕ → Type 0} → ((v : ℕ) → P v → Q v) → (vs : List ℕ) → AnySlot P vs → AnySlot Q vs
AnySlot-imp f [] h = h
AnySlot-imp f (v ∷ vs) (inl h) = inl (f v h)
AnySlot-imp f (v ∷ vs) (inr h) = inr (AnySlot-imp f vs h)

pub AnySlot-map :
    (P : ℕ → Type 0) (f : ℕ → ℕ) (vs : List ℕ) → AnySlot P (map f vs) → AnySlot (λ v. P (f v)) vs
AnySlot-map P f [] h = h
AnySlot-map P f (v ∷ vs) (inl h) = inl h
AnySlot-map P f (v ∷ vs) (inr h) = inr (AnySlot-map P f vs h)

pub map-AnySlot :
    (P : ℕ → Type 0) (f : ℕ → ℕ) (vs : List ℕ) → AnySlot (λ v. P (f v)) vs → AnySlot P (map f vs)
map-AnySlot P f [] h = h
map-AnySlot P f (v ∷ vs) (inl h) = inl h
map-AnySlot P f (v ∷ vs) (inr h) = inr (map-AnySlot P f vs h)

pub AnySlot-append_one :
    (P : ℕ → Type 0) (vs : List ℕ) (w : ℕ) → AnySlot P (vs ++ w ∷ []) → AnySlot P vs ⊎ P w
AnySlot-append_one P [] w (inl h) = inr h
AnySlot-append_one P [] w (inr h) = elim h [ ]
AnySlot-append_one P (v ∷ vs) w (inl h) = inl (inl h)
AnySlot-append_one P (v ∷ vs) w (inr h) = elim (AnySlot-append_one P vs w h) [
  | inl old ↦ inl (inr old)
  | inr new ↦ inr new
]

pub append_one-AnySlot :
    (P : ℕ → Type 0) (vs : List ℕ) (w : ℕ) → AnySlot P vs ⊎ P w → AnySlot P (vs ++ w ∷ [])
append_one-AnySlot P [] w (inl h) = absurd h
append_one-AnySlot P [] w (inr h) = inl h
append_one-AnySlot P (v ∷ vs) w (inl (inl h)) = inl h
append_one-AnySlot P (v ∷ vs) w (inl (inr h)) = inr (append_one-AnySlot P vs w (inl h))
append_one-AnySlot P (v ∷ vs) w (inr h) = inr (append_one-AnySlot P vs w (inr h))

pub AnySlot-sum :
    (P Q : ℕ → Type 0) (R : Type 0) (vs : List ℕ)
    → AnySlot (λ v. P v ⊎ (Q v × R)) vs ↔ (AnySlot P vs ⊎ (AnySlot Q vs × R))
AnySlot-sum P Q R [] = (λ h. absurd h, λ h. elim h [ inl a ↦ a | inr (a, _) ↦ a ])
AnySlot-sum P Q R (v ∷ vs) = (
  λ h. elim h [
    | inl (inl a) ↦ inl (inl a)
    | inl (inr (b, r)) ↦ inr (inl b, r)
    | inr t ↦ elim ((AnySlot-sum P Q R vs).0 t) [
      | inl a ↦ inl (inr a)
      | inr (b, r) ↦ inr (inr b, r)
    ]
  ],
  λ h. elim h [
    | inl (inl a) ↦ inl (inl a)
    | inl (inr a) ↦ inr ((AnySlot-sum P Q R vs).1 (inl a))
    | inr (inl b, r) ↦ inl (inr (b, r))
    | inr (inr b, r) ↦ inr ((AnySlot-sum P Q R vs).1 (inr (b, r)))
  ],
)

pub Reported-append_one :
    (i : ℕ) (rs : List Report) (r : Report)
    → Reported i (rs ++ r ∷ [])
    → Reported i rs ⊎ (r.sig_index ≡ i)
Reported-append_one i [] r (inl h) = inr h
Reported-append_one i [] r (inr h) = elim h [ ]
Reported-append_one i (q ∷ rs) r (inl h) = inl (inl h)
Reported-append_one i (q ∷ rs) r (inr h) = elim (Reported-append_one i rs r h) [
  | inl old ↦ inl (inr old)
  | inr new ↦ inr new
]

pub append_one-Reported :
    (i : ℕ) (rs : List Report) (r : Report)
    → Reported i rs ⊎ (r.sig_index ≡ i)
    → Reported i (rs ++ r ∷ [])
append_one-Reported i [] r (inl h) = absurd h
append_one-Reported i [] r (inr h) = inl h
append_one-Reported i (q ∷ rs) r (inl (inl h)) = inl h
append_one-Reported i (q ∷ rs) r (inl (inr h)) = inr (append_one-Reported i rs r (inl h))
append_one-Reported i (q ∷ rs) r (inr h) = inr (append_one-Reported i rs r (inr h))

module _ (eles : List ElementEntry) (p : ℕ) (ps : List ℕ) (i : ℕ) where
  pub Occurs-drop : Occurs eles ps i → Occurs eles (p ∷ ps) i
  Occurs-drop (s, k, sig, sub) = (s, k, sig, drop sub)

  pub OccursFrom-drop : (v : ℕ) → OccursFrom eles ps i v → OccursFrom eles (p ∷ ps) i v
  OccursFrom-drop v (k, later, sub) = (k, later, drop sub)

  -- A slot that waits for `v`: the pattern is not `v`, or `v` is the last element, or the wait
  -- goes on behind it.
  pub OccursFrom-cons :
      (v : ℕ)
      → OccursFrom eles (p ∷ ps) i v
      → ((bit_and p 0xffff ≢ v) × OccursFrom eles ps i v)
        ⊎ (((e : ElementEntry) × (get_elem? eles v ≡ some e)
              × (e.flag ≡ flag_last)
              × (e.sigindex ≡ i)
              × (bit_and p 0xffff ≡ v))
            ⊎ ((e : ElementEntry) × (get_elem? eles v ≡ some e)
                × (e.flag ≡ flag_middle)
                × (bit_and p 0xffff ≡ v)
                × OccursFrom eles ps i (suc v)))
  OccursFrom-cons v (zero, (e, at_v, is_last, sig), sub) = elim (ℕ_discrete (bit_and p 0xffff) v) [
    | yes hit ↦ inr (inl (e, at_v, is_last, sig, hit))
    | no miss ↦ elim (subsequence_head _ _ sub refl refl) [
      | inl further ↦ inl (miss, (zero, (e, at_v, is_last, sig), further))
      | inr (hit, rest) ↦ absurd (miss (sym hit))
    ]
  ]
  OccursFrom-cons v (suc k, (e, at_v, is_middle, sig, later), sub) =
      elim (ℕ_discrete (bit_and p 0xffff) v) [
        | yes hit ↦ elim (subsequence_head _ _ sub refl refl) [
          | inl further ↦
              inr (inr (e, at_v, is_middle, hit, (k, later, subsequence_tail further refl)))
          | inr (_, rest) ↦ inr (inr (e, at_v, is_middle, hit, (k, later, rest)))
        ]
        | no miss ↦ elim (subsequence_head _ _ sub refl refl) [
          | inl further ↦ inl (miss, (suc k, (e, at_v, is_middle, sig, later), further))
          | inr (hit, rest) ↦ absurd (miss (sym hit))
        ]
      ]

  pub Occurs-cons :
      Occurs eles (p ∷ ps) i
      → Occurs eles ps i
        ⊎ (((e : ElementEntry) × (get_elem? eles (bit_and p 0xffff) ≡ some e)
              × (e.flag ≡ flag_single)
              × (e.sigindex ≡ i))
            ⊎ ((e : ElementEntry) × (get_elem? eles (bit_and p 0xffff) ≡ some e)
                × (e.flag ≡ flag_first)
                × OccursFrom eles ps i (suc (bit_and p 0xffff))))
  Occurs-cons (s, zero, (e, at_s, is_single, sig), sub) =
      elim (subsequence_head _ _ sub refl refl) [
        | inl further ↦ inl (s, zero, (e, at_s, is_single, sig), further)
        | inr (hit, rest) ↦ inr (inl (e, rw (← hit) at_s, is_single, sig))
      ]
  Occurs-cons (s, suc k, (e, at_s, is_first, sig, later), sub) =
      elim (subsequence_head _ _ sub refl refl) [
        | inl further ↦ inl (s, suc k, (e, at_s, is_first, sig, later), further)
        | inr (hit, rest) ↦ inr (inr (e, rw (← hit) at_s, is_first, rw (← hit) (k, later, rest)))
      ]
