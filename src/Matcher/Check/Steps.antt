-- ===== src/Matcher/Check/Steps.antt =====
-- One round of the loop of `pattern_check`: it does not fault, and a signature is found before it
-- exactly if it is found behind it.
use orchid_linux.Base.{
  ℕ, ◌<◌, ◌≡◌, ◌⊎◌, ◌↔◌, refl, inl, inr, sym, ◌∙◌, List, [], ◌∷◌, ◌++◌, map, some, arith, length,
  length-append, length-map, get_elem?, bit_and, ok, Returns, lt→ltb,
}
use mathlib.Core.Path.{subst}
use orchid_linux.Loader.Types.{ElementEntry, AppInfo, element_start}
use orchid_linux.Matcher.Check.{
  CheckState, Report, exp_array_size, push_exp, check_single, check_first, check_later,
  check_pattern,
}
use orchid_linux.Matcher.Check.Spec.{
  flag_single, flag_first, flag_middle, flag_last, no_element, IsJoined, OccursFrom, AnySlot, keep,
  done, Claim, IsStep, start_at, IsTable, single, first, middle, last,
}
use orchid_linux.Matcher.Check.Step.{
  AnySlot-imp, AnySlot-map, map-AnySlot, AnySlot-append_one, append_one-AnySlot, AnySlot-sum,
  Reported-append_one, append_one-Reported, Occurs-drop, Occurs-cons,
}
use orchid_linux.Matcher.Check.Advance.{
  next_slot, line, report_lem, advance_middle, Printed, advance_last,
}
use orchid_linux.Matcher.Check.Branches.{
  same_flag, same_sig, no_wait, no_new, joined_start, waits_middle, waits_last, waits_start,
}

push_exp_lem :
    (vs : List ℕ) (v : ℕ) → length vs < exp_array_size → push_exp vs v ≡ ok (vs ++ v ∷ [])
unfolding push_exp
push_exp_lem vs v room = rw (lt→ltb (length vs) exp_array_size room)

module _ (info : AppInfo) (table : IsTable info) (p : ℕ) (e : ElementEntry)
    (at_off : get_elem? info.eles (bit_and p 0xffff) ≡ some e) (s : CheckState)
    (room : length s.exp_array < exp_array_size) where
  abbrev here : ℕ
  here = bit_and p 0xffff

  abbrev goes_on : CheckState
  goes_on = record s { exp_array = map (next_slot info e here) s.exp_array }

  abbrev starts_wait : CheckState
  starts_wait = record s { exp_array = s.exp_array ++ e.exp_ele_index ∷ [] }

  abbrev found : CheckState
  found = record {
    exp_array = s.exp_array ++ e.exp_ele_index ∷ [];
    reports = s.reports ++ line info e here ∷ [];
  }

  module _ (ps : List ℕ) (i : ℕ) where
    abbrev Waits : ℕ → Type 0
    Waits = OccursFrom info.eles ps i

    Claim-last :
        {out : List ℕ × List Report}
        → e.flag ≡ flag_last
        → e.exp_ele_index ≡ no_element
        → Printed info e here s.exp_array s.reports out
        → Claim info.eles ps (record { exp_array = out.0; reports = out.1 }) i
          ↔ Claim info.eles (p ∷ ps) s i
    Claim-last {out} is_last ends printed =
        let wait = waits_last info table p e at_off ps i is_last ends in
        let split =
          AnySlot-sum (λ v. Waits (next_slot info e here v)) (λ v. v ≡ here) (e.sigindex ≡ i)
            s.exp_array in
        (
          λ c. elim c [
            | inl r ↦ elim ((printed.reports i).0 r) [
              | inl old ↦ inl old
              | inr hit ↦ inr (inl (AnySlot-imp (λ v. (wait v).0) s.exp_array (split.1 (inr hit))))
            ]
            | inr (inl a) ↦
                let b =
                  AnySlot-map Waits (next_slot info e here) s.exp_array
                    (subst (AnySlot Waits) printed.slots a) in
                inr (inl (AnySlot-imp (λ v. (wait v).0) s.exp_array (split.1 (inl b))))
            | inr (inr o) ↦ inr (inr (Occurs-drop info.eles p ps i o))
          ],
          λ c. elim c [
            | inl r ↦ inl ((printed.reports i).1 (inl r))
            | inr (inl a) ↦ elim (split.0 (AnySlot-imp (λ v. (wait v).1) s.exp_array a)) [
              | inl b ↦ inr (
                  inl (
                    subst (AnySlot Waits) (sym printed.slots)
                      (map-AnySlot Waits (next_slot info e here) s.exp_array b)))
              | inr hit ↦ inl ((printed.reports i).1 (inr hit))
            ]
            | inr (inr o) ↦ inr (inr (no_new info table p e at_off ps i (inr is_last) o))
          ],
        )

    Claim-first :
        e.flag ≡ flag_first
        → IsJoined info.eles here e
        → Claim info.eles ps starts_wait i ↔ Claim info.eles (p ∷ ps) s i
    Claim-first is_first joined =
        let wait = waits_start info table p e at_off ps i (inr is_first) in
        (
          λ c. elim c [
            | inl r ↦ inl r
            | inr (inl a) ↦ elim (AnySlot-append_one Waits s.exp_array e.exp_ele_index a) [
              | inl old ↦ inr (inl (AnySlot-imp (λ v. (wait v).0) s.exp_array old))
              | inr new ↦ inr (
                  inr (
                    joined_start info table p e at_off ps i joined is_first
                      (subst Waits joined.next new)))
            ]
            | inr (inr o) ↦ inr (inr (Occurs-drop info.eles p ps i o))
          ],
          λ c. elim c [
            | inl r ↦ inl r
            | inr (inl a) ↦ inr (
                inl (
                  append_one-AnySlot Waits s.exp_array e.exp_ele_index
                    (inl (AnySlot-imp (λ v. (wait v).1) s.exp_array a))))
            | inr (inr o) ↦ elim (Occurs-cons info.eles p ps i o) [
              | inl old ↦ inr (inr old)
              | inr (inl (e', at', is_single, _)) ↦
                  absurd (omega (arith, same_flag info table p e at_off e' at'))
              | inr (inr (_, _, _, rest)) ↦ inr (
                  inl (
                    append_one-AnySlot Waits s.exp_array e.exp_ele_index
                      (inr (subst Waits (sym joined.next) rest))))
            ]
          ],
        )

    Claim-single :
        e.flag ≡ flag_single
        → e.exp_ele_index ≡ no_element
        → Claim info.eles ps found i ↔ Claim info.eles (p ∷ ps) s i
    Claim-single is_single ends =
        let wait = waits_start info table p e at_off ps i (inl is_single) in
        (
          λ c. elim c [
            | inl r ↦ elim (Reported-append_one i s.reports (line info e here) r) [
              | inl old ↦ inl old
              | inr sig ↦ inr (inr (here, 0, (e, at_off, is_single, sig), keep done))
            ]
            | inr (inl a) ↦ elim (AnySlot-append_one Waits s.exp_array e.exp_ele_index a) [
              | inl old ↦ inr (inl (AnySlot-imp (λ v. (wait v).0) s.exp_array old))
              | inr new ↦ absurd (no_wait info table p e at_off ps i (subst Waits ends new))
            ]
            | inr (inr o) ↦ inr (inr (Occurs-drop info.eles p ps i o))
          ],
          λ c. elim c [
            | inl r ↦ inl (append_one-Reported i s.reports (line info e here) (inl r))
            | inr (inl a) ↦ inr (
                inl (
                  append_one-AnySlot Waits s.exp_array e.exp_ele_index
                    (inl (AnySlot-imp (λ v. (wait v).1) s.exp_array a))))
            | inr (inr o) ↦ elim (Occurs-cons info.eles p ps i o) [
              | inl old ↦ inr (inr old)
              | inr (inl (e', at', _, sig)) ↦ inl (
                  append_one-Reported i s.reports (line info e here)
                    (inr (same_sig info table p e at_off e' at' ∙ sig)))
              | inr (inr (e', at', is_first, _)) ↦
                  absurd (omega (arith, same_flag info table p e at_off e' at'))
            ]
          ],
        )

  IsStep-middle :
      e.flag ≡ flag_middle
      → IsJoined info.eles here e
      → Returns (check_later info e here s) (IsStep info.eles p s)
  unfolding check_later
  IsStep-middle is_middle joined = (
    goes_on,
    rw (advance_middle info e here s.exp_array s.reports (rw is_middle refl)),
    record {
      grows = rw length-map (omega arith);
      bounded = rw length-map (omega arith);
      claim = λ ps i.
          let wait = waits_middle info table p e at_off ps i is_middle joined in
          (
            λ c. elim c [
              | inl r ↦ inl r
              | inr (inl a) ↦ inr (
                  inl (
                    AnySlot-imp (λ v. (wait v).0) s.exp_array
                      (AnySlot-map _ (next_slot info e here) s.exp_array a)))
              | inr (inr o) ↦ inr (inr (Occurs-drop info.eles p ps i o))
            ],
            λ c. elim c [
              | inl r ↦ inl r
              | inr (inl a) ↦ inr (
                  inl (
                    map-AnySlot _ (next_slot info e here) s.exp_array
                      (AnySlot-imp (λ v. (wait v).1) s.exp_array a)))
              | inr (inr o) ↦ inr (inr (no_new info table p e at_off ps i (inl is_middle) o))
            ],
          );
    },
  )

  IsStep-last :
      e.flag ≡ flag_last
      → e.exp_ele_index ≡ no_element
      → e.sigindex < length info.sigs
      → Returns (check_later info e here s) (IsStep info.eles p s)
  unfolding check_later
  IsStep-last is_last ends lt =
      let (out, run, printed) =
        advance_last info e here s.exp_array s.reports (rw is_last refl) lt in
      (
        record { exp_array = out.0; reports = out.1 },
        rw run,
        record {
          grows = rw (printed.slots, length-map) (omega arith);
          bounded = rw (printed.slots, length-map) (omega arith);
          claim = λ ps i. Claim-last ps i is_last ends printed;
        },
      )

  IsStep-first :
      e.flag ≡ flag_first
      → IsJoined info.eles here e
      → Returns (check_first e s) (IsStep info.eles p s)
  unfolding check_first
  IsStep-first is_first joined = (
    starts_wait,
    rw (push_exp_lem s.exp_array e.exp_ele_index room),
    record {
      grows = rw (length-append, start_at, at_off, is_first) (omega arith);
      bounded = rw length-append (omega arith);
      claim = λ ps i. Claim-first ps i is_first joined;
    },
  )

  IsStep-single :
      e.flag ≡ flag_single
      → e.exp_ele_index ≡ no_element
      → e.sigindex < length info.sigs
      → Returns (check_single info e s) (IsStep info.eles p s)
  unfolding check_single
  IsStep-single is_single ends lt = (
    record {
      exp_array = s.exp_array ++ e.exp_ele_index ∷ [];
      reports = s.reports ++ line info e here ∷ [];
    },
    rw (report_lem info e here lt, push_exp_lem s.exp_array e.exp_ele_index room),
    record {
      grows = rw (length-append, start_at, at_off, is_single) (omega arith);
      bounded = rw length-append (omega arith);
      claim = λ ps i. Claim-single ps i is_single ends;
    },
  )

  picks_single : e.flag ≡ flag_single → check_pattern info p s ≡ check_single info e s
  unfolding check_pattern
  picks_single is_single = rw at_off (ground arith)

  picks_first : e.flag ≡ flag_first → check_pattern info p s ≡ check_first e s
  unfolding check_pattern
  picks_first is_first =
      let starts : bit_and e.flag element_start ≡ 1 = rw is_first refl in rw at_off (ground arith)

  picks_later :
      (e.flag ≡ flag_middle) ⊎ (e.flag ≡ flag_last)
      → bit_and e.flag element_start ≡ 0
      → check_pattern info p s ≡ check_later info e here s
  unfolding check_pattern
  picks_later is_later no_start = rw at_off (ground arith)

  pub check_pattern-IsStep : Returns (check_pattern info p s) (IsStep info.eles p s)
  check_pattern-IsStep =
      let lt = table.has_sig here e at_off in
      elim (table.kind here e at_off) [
        | single is_single ends ↦ rw (picks_single is_single) (IsStep-single is_single ends lt)
        | first is_first joined ↦ rw (picks_first is_first) (IsStep-first is_first joined)
        | middle is_middle joined ↦
            rw (picks_later (inl is_middle) (rw is_middle refl)) (IsStep-middle is_middle joined)
        | last is_last ends ↦
            rw (picks_later (inr is_last) (rw is_last refl)) (IsStep-last is_last ends lt)
      ]
