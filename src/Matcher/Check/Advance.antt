-- ===== src/Matcher/Check/Advance.antt =====
-- The loop of `pattern_check` over the slots, and the line that it prints.
use orchid_linux.Base.{
  ℕ, ◌<◌, ◌≡◌, ◌⊎◌, ◌↔◌, refl, inl, inr, ap, List, [], ◌∷◌, ◌++◌, map, arith, length,
  get_elem?-eq-get_or, bit_and, ◌==◌, ==_refl, ==_ne, ◌>>>◌, get_or, if◌then◌else◌, ok, Returns,
}
use native.Mathlib.Decide.{ℕ_discrete}
use orchid_linux.Loader.Types.{ElementEntry, SigEntry, AppInfo, element_end}
use orchid_linux.Matcher.Check.{Report, report, advance}
use orchid_linux.Matcher.Check.Spec.{AnySlot, Reported}
use orchid_linux.Matcher.Check.Step.{Reported-append_one, append_one-Reported}

abbrev pub no_sig : SigEntry
no_sig = record { sigid = 0; proto = 0; enable = 0; priority = 0; f_ele_index = 0 }

module _ (info : AppInfo) (e : ElementEntry) (off : ℕ) where
  -- Where a slot goes when element `off` is matched.
  abbrev pub next_slot : ℕ → ℕ
  next_slot v = if v == off then e.exp_ele_index else v

  pub advance_middle :
      (vs : List ℕ) (printed : List Report)
      → bit_and e.flag element_end ≡ 0
      → advance info e off vs printed ≡ ok (map next_slot vs, printed)
  unfolding advance
  advance_middle [] printed h = refl
  advance_middle (v ∷ vs) printed h = ground (arith, advance_middle vs printed h)

  abbrev pub printed_sig : SigEntry
  printed_sig = get_or info.sigs e.sigindex no_sig

  abbrev pub line : Report
  line = record {
    app = bit_and printed_sig.sigid 0xffff;
    category = bit_and printed_sig.sigid 0xffff_0000 >>> 16;
    sig_index = e.sigindex;
  }

  pub report_lem : e.sigindex < length info.sigs → report info e ≡ ok line
  unfolding report
  report_lem h = rw (get_elem?-eq-get_or info.sigs e.sigindex no_sig h)

  -- What the loop over the slots leaves at the last element of a signature.
  pub record Printed (vs : List ℕ) (printed : List Report) (r : List ℕ × List Report) : Type 0 where
    pub slots : r.0 ≡ map next_slot vs
    pub reports :
        (i : ℕ)
        → Reported i r.1 ↔ (Reported i printed ⊎ (AnySlot (λ v. v ≡ off) vs × (e.sigindex ≡ i)))

  pub advance_last :
      (vs : List ℕ) (printed : List Report)
      → bit_and e.flag element_end ≡ element_end
      → e.sigindex < length info.sigs
      → Returns (advance info e off vs printed) (Printed vs printed)
  unfolding advance
  advance_last [] printed h lt = (
    _,
    refl,
    record {
      slots = refl;
      reports = λ i. (λ r. inl r, λ q. elim q [ inl r ↦ r | inr (a, _) ↦ absurd a ]);
    },
  )
  advance_last (v ∷ vs) printed h lt = elim (ℕ_discrete v off) [
    | no miss ↦
        let (out, run, p) = advance_last vs printed h lt in
        (
          (v ∷ out.0, out.1),
          rw (==_ne v off miss, run),
          record {
            slots = rw (==_ne v off miss) (ap (λ (l : List ℕ). v ∷ l) p.slots);
            reports = λ i. (
              λ r. elim ((p.reports i).0 r) [ inl old ↦ inl old | inr (a, is) ↦ inr (inr a, is) ],
              λ q. (p.reports i).1 (elim q [
                | inl old ↦ inl old
                | inr (inl hit, is) ↦ absurd (miss hit)
                | inr (inr a, is) ↦ inr (a, is)
              ]),
            );
          },
        )
    | yes hit ↦
        let (out, run, p) = advance_last vs (printed ++ line ∷ []) h lt in
        (
          (e.exp_ele_index ∷ out.0, out.1),
          rw (hit, ==_refl off, h, report_lem lt, run),
          record {
            slots = rw (hit, ==_refl off) (ap (λ (l : List ℕ). e.exp_ele_index ∷ l) p.slots);
            reports = λ i. (
              λ r. elim ((p.reports i).0 r) [
                | inl r' ↦ elim (Reported-append_one i printed line r') [
                  | inl old ↦ inl old
                  | inr is ↦ inr (inl hit, is)
                ]
                | inr (a, is) ↦ inr (inr a, is)
              ],
              λ q. (p.reports i).1 (elim q [
                | inl old ↦ inl (append_one-Reported i printed line (inl old))
                | inr (a, is) ↦ inl (append_one-Reported i printed line (inr is))
              ]),
            );
          },
        )
  ]
