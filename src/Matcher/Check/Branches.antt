-- ===== src/Matcher/Check/Branches.antt =====
-- What one matched element changes for the slots that wait, by its kind.
use orchid_linux.Base.{
  ℕ, zero, suc, ◌≡◌, ◌⊎◌, ◌↔◌, refl, inl, inr, sym, ◌∙◌, List, ◌∷◌, some, arith, get_elem?,
  get_elem?-lt, bit_and, ==_refl, ==_ne,
}
use native.Mathlib.Decide.{ℕ_discrete}
use orchid_linux.Loader.Types.{ElementEntry, AppInfo}
use orchid_linux.Matcher.Check.Spec.{
  flag_single, flag_first, flag_middle, flag_last, no_element, IsJoined, Later, keep, done, Occurs,
  OccursFrom, IsTable,
}
use orchid_linux.Matcher.Check.Step.{OccursFrom-drop, OccursFrom-cons, Occurs-cons}
use orchid_linux.Matcher.Check.Advance.{next_slot}

Later-head :
    (eles : List ElementEntry) (i v k : ℕ)
    → Later eles i v k
    → (e : ElementEntry) × (get_elem? eles v ≡ some e) × (e.sigindex ≡ i)
Later-head eles i v zero (e, at_v, is_last, sig) = (e, at_v, sig)
Later-head eles i v (suc k) (e, at_v, is_middle, sig, later) = (e, at_v, sig)

module _ (info : AppInfo) (table : IsTable info) (p : ℕ) (e : ElementEntry)
    (at_off : get_elem? info.eles (bit_and p 0xffff) ≡ some e) where
  abbrev pub off : ℕ
  off = bit_and p 0xffff

  pub same_flag : (e' : ElementEntry) → get_elem? info.eles off ≡ some e' → e'.flag ≡ e.flag
  same_flag e' at_off' = cc

  pub same_sig : (e' : ElementEntry) → get_elem? info.eles off ≡ some e' → e.sigindex ≡ e'.sigindex
  same_sig e' at_off' = cc

  -- No wait begins at the mark behind a last element.
  pub no_wait : (ps : List ℕ) (i : ℕ) → OccursFrom info.eles ps i no_element → ⊥
  no_wait ps i (k, later, _) =
      let (e', at_end, _) = Later-head info.eles i no_element k later in
      omega (arith, get_elem?-lt info.eles no_element at_end, table.fits)

  module _ (ps : List ℕ) (i : ℕ) where
    pub no_new :
        (e.flag ≡ flag_middle) ⊎ (e.flag ≡ flag_last)
        → Occurs info.eles (p ∷ ps) i
        → Occurs info.eles ps i
    no_new kind o = elim (Occurs-cons info.eles p ps i o) [
      | inl old ↦ old
      | inr (inl (e', at', is_single, _)) ↦ absurd (omega (arith, same_flag e' at'))
      | inr (inr (e', at', is_first, _)) ↦ absurd (omega (arith, same_flag e' at'))
    ]

    pub joined_wait :
        IsJoined info.eles off e
        → e.flag ≡ flag_middle
        → OccursFrom info.eles ps i (suc off)
        → OccursFrom info.eles (p ∷ ps) i off
    joined_wait joined is_middle (k, later, sub) =
        let (e', at_next, sig) = Later-head info.eles i (suc off) k later in
        (suc k, (e, at_off, is_middle, sym (joined.same_sig e' at_next) ∙ sig, later), keep sub)

    pub joined_start :
        IsJoined info.eles off e
        → e.flag ≡ flag_first
        → OccursFrom info.eles ps i (suc off)
        → Occurs info.eles (p ∷ ps) i
    joined_start joined is_first (k, later, sub) =
        let (e', at_next, sig) = Later-head info.eles i (suc off) k later in
        (off, suc k, (e, at_off, is_first, sym (joined.same_sig e' at_next) ∙ sig, later), keep sub)

    -- A slot waits on as the element that is matched is in the middle.
    pub waits_middle :
        e.flag ≡ flag_middle
        → IsJoined info.eles off e
        → (v : ℕ)
        → OccursFrom info.eles ps i (next_slot info e off v) ↔ OccursFrom info.eles (p ∷ ps) i v
    waits_middle is_middle joined v = elim (ℕ_discrete v off) [
      | yes hit ↦
          rw (hit, ==_refl off, joined.next)
            (
              joined_wait joined is_middle,
              λ o. elim (OccursFrom-cons info.eles p ps i off o) [
                | inl (miss, _) ↦ absurd (miss refl)
                | inr (inl (e', at', is_last, _, _)) ↦ absurd (omega (arith, same_flag e' at'))
                | inr (inr (_, _, _, _, rest)) ↦ rest
              ],
            )
      | no miss ↦ rw (==_ne v off miss) (
        OccursFrom-drop info.eles p ps i v,
        λ o. elim (OccursFrom-cons info.eles p ps i v o) [
          | inl (_, rest) ↦ rest
          | inr (inl (_, _, _, _, hit)) ↦ absurd (miss (sym hit))
          | inr (inr (_, _, _, hit, _)) ↦ absurd (miss (sym hit))
        ],
      )
    ]

    -- At the last element of a signature a slot is done, and its signature found.
    pub waits_last :
        e.flag ≡ flag_last
        → e.exp_ele_index ≡ no_element
        → (v : ℕ)
        → (OccursFrom info.eles ps i (next_slot info e off v) ⊎ ((v ≡ off) × (e.sigindex ≡ i)))
          ↔ OccursFrom info.eles (p ∷ ps) i v
    waits_last is_last ends v = elim (ℕ_discrete v off) [
      | yes hit ↦
          rw (hit, ==_refl off, ends)
            (
              λ q. elim q [
                | inl o ↦ absurd (no_wait ps i o)
                | inr (_, sig) ↦ (0, (e, at_off, is_last, sig), keep done)
              ],
              λ o. elim (OccursFrom-cons info.eles p ps i off o) [
                | inl (miss, _) ↦ absurd (miss refl)
                | inr (inl (e', at', _, sig, _)) ↦ inr (refl, same_sig e' at' ∙ sig)
                | inr (inr (e', at', is_middle, _, _)) ↦ absurd (omega (arith, same_flag e' at'))
              ],
            )
      | no miss ↦ rw (==_ne v off miss) (
        λ q. elim q [
          | inl o ↦ OccursFrom-drop info.eles p ps i v o
          | inr (hit, _) ↦ absurd (miss hit)
        ],
        λ o. elim (OccursFrom-cons info.eles p ps i v o) [
          | inl (_, rest) ↦ inl rest
          | inr (inl (_, _, _, _, hit)) ↦ absurd (miss (sym hit))
          | inr (inr (_, _, _, hit, _)) ↦ absurd (miss (sym hit))
        ],
      )
    ]

    -- Where the element begins a signature no slot waits for it.
    pub waits_start :
        (e.flag ≡ flag_single) ⊎ (e.flag ≡ flag_first)
        → (v : ℕ) → OccursFrom info.eles ps i v ↔ OccursFrom info.eles (p ∷ ps) i v
    waits_start kind v = (
      OccursFrom-drop info.eles p ps i v,
      λ o. elim (OccursFrom-cons info.eles p ps i v o) [
        | inl (_, rest) ↦ rest
        | inr (inl (e', at', is_last, _, hit)) ↦ absurd (omega (arith, same_flag e' (rw hit at')))
        | inr (inr (e', at', is_middle, hit, _)) ↦ absurd (omega (arith, same_flag e' (rw hit at')))
      ],
    )
