-- ===== src/Regex/Reassembled.antt =====
-- `generator::reassemble`: the graph holds the machine that it is made of.
use orchid_linux.Base.{
  ℕ, zero, suc, ◌+◌, ◌-◌, ◌/◌, ◌%◌, ◌<◌, ◌≤◌, ◌^◌, ◌≡◌, ◌≢◌, refl, ap, sym, ◌∙◌, inl, inr, true,
  false, Bool-cases, ◌&&◌, List, [], ◌∷◌, arith, length, length-set, set, get_or, get_or-set_self,
  get_or-set_ne, Returns, write-inside, u16, ltb, leb, ◌==◌,
}
use mathlib.Core.Path.{subst}
use native.Mathlib.Nat.{add-zero}
use orchid_linux.Regex.{dead_state_index, put_entry, put_entries}

-- What stands at the place `p` of the graph for an entry of the table: a transition is less by one,
-- since row 0 is left out, a number takes two places, and the other columns keep theirs.
pub record IsPlaced (alphabet p entry : ℕ) (state : List ℕ) : Type 0 where
  pub transition : 6 ≤ p % alphabet → get_or state p 0 ≡ u16 (entry - 1)
  pub low : p % alphabet < 2 → get_or state p 0 ≡ u16 entry
  pub high :
      p % alphabet ≡ 1 → (p + 1) % alphabet ≡ 2 → get_or state (p + 1) 0 ≡ u16 (entry / 2 ^ 16)

-- One turn of the loop, at the place `i`.
record IsTurn (alphabet i entry : ℕ) (before after : List ℕ) : Type 0 where
  width : length after ≡ length before
  others : (j : ℕ) → j < i → get_or after j 0 ≡ get_or before j 0
  placed : IsPlaced alphabet i entry after
  skipped : i % alphabet ≡ 2 → after ≡ before

-- A single entry is written.
one_written :
    (alphabet i entry v : ℕ) (state : List ℕ)
    → i < length state
    → (6 ≤ i % alphabet → v ≡ u16 (entry - 1))
    → (i % alphabet < 2 → v ≡ u16 entry)
    → i % alphabet ≢ 1
    → i % alphabet ≢ 2
    → IsTurn alphabet i entry state (set state i v)
one_written alphabet i entry v state inside transition low not_one not_two = record {
  width = length-set state i v;
  others = λ j lt. get_or-set_ne state i j v 0 (λ e. omega (arith, e, lt));
  placed = record {
    transition = λ h. get_or-set_self state i v 0 inside ∙ transition h;
    low = λ h. get_or-set_self state i v 0 inside ∙ low h;
    high = λ h k. absurd (not_one h);
  };
  skipped = λ h. absurd (not_two h);
}

-- A number is written over two entries.
two_written :
    (alphabet i entry : ℕ) (state : List ℕ)
    → i + 1 < length state
    → (leb dead_state_index (i % alphabet) && ltb 0 entry) ≡ false
    → (i % alphabet == 1) ≡ true
    → Returns (put_entry alphabet i entry state) (IsTurn alphabet i entry state)
unfolding put_entry
two_written alphabet i entry state inside down one =
    let v = u16 entry in
    let w = u16 (entry / 2 ^ 16) in
    let s1 = set state i v in
    let width : length s1 ≡ length state = length-set state i v in
    (
      set s1 (i + 1) w,
      rw
          (
            down,
            one,
            write-inside state i v (omega (arith, inside)),
            write-inside s1 (i + 1) w (omega (arith, inside, width)),
          )
          refl,
      record {
        width = length-set s1 (i + 1) w ∙ width;
        others = λ j lt.
            get_or-set_ne s1 (i + 1) j w 0 (λ e. omega (arith, e, lt))
            ∙ get_or-set_ne state i j v 0 (λ e. omega (arith, e, lt));
        placed = record {
          transition = λ h. absurd (ground (arith, one, h));
          low = λ h.
              get_or-set_ne s1 (i + 1) i w 0 (λ e. omega (arith, e))
              ∙ get_or-set_self state i v 0 (omega (arith, inside));
          high = λ h k. get_or-set_self s1 (i + 1) w 0 (omega (arith, inside, width));
        };
        skipped = λ h. absurd (ground (arith, one, h));
      },
    )

put_entry_lem :
    (alphabet i entry : ℕ) (state : List ℕ)
    → i + 1 < length state
    → Returns (put_entry alphabet i entry state) (IsTurn alphabet i entry state)
unfolding put_entry
put_entry_lem alphabet i entry state inside =
    let column = i % alphabet in
    elim (Bool-cases (leb dead_state_index column && ltb 0 entry)) [
      | inl up ↦ (
        set state i (u16 (entry - 1)),
        rw (up, write-inside state i (u16 (entry - 1)) (omega (arith, inside))) refl,
        one_written alphabet i entry (u16 (entry - 1)) state (omega (arith, inside)) (λ h. refl)
            (λ h. absurd (ground (arith, up, h))) (λ h. ground (arith, up, h))
            (λ h. ground (arith, up, h)),
      )
      | inr down ↦ elim (Bool-cases (column == 1)) [
        | inl one ↦ two_written alphabet i entry state inside down one
        | inr not_one ↦ elim (Bool-cases (column == 2)) [
          | inl two ↦ (
            state,
            rw (down, not_one, two) refl,
            record {
              width = refl;
              others = λ j lt. refl;
              placed = record {
                transition = λ h. absurd (ground (arith, two, h));
                low = λ h. absurd (ground (arith, two, h));
                high = λ h k. absurd (ground (arith, two, h));
              };
              skipped = λ h. refl;
            },
          )
          | inr not_two ↦
              let no_entry : 6 ≤ column → entry ≡ entry - 1 = λ h. ground (arith, down, h) in
              (
                set state i (u16 entry),
                rw
                    (
                      down,
                      not_one,
                      not_two,
                      write-inside state i (u16 entry) (omega (arith, inside)),
                    )
                    refl,
                one_written alphabet i entry (u16 entry) state (omega (arith, inside))
                    (λ h. ap (λ e. u16 e) (no_entry h)) (λ h. refl)
                    (λ h. ground (arith, not_one, h)) (λ h. ground (arith, not_two, h)),
              )
        ]
      ]
    ]

IsPlaced-cons :
    (alphabet i entry : ℕ) (dfa state : List ℕ)
    → IsPlaced alphabet i entry state
    → ((j : ℕ) → j < length dfa → IsPlaced alphabet (i + 1 + j) (get_or dfa j 0) state)
    → (j : ℕ) → j < length (entry ∷ dfa)
    → IsPlaced alphabet (i + j) (get_or (entry ∷ dfa) j 0) state
IsPlaced-cons alphabet i entry dfa state first later zero lt =
    subst (λ p. IsPlaced alphabet p entry state) (sym (add-zero i)) first
IsPlaced-cons alphabet i entry dfa state first later (suc j) lt =
    let place : i + 1 + j ≡ i + suc j = omega arith in
    subst (λ p. IsPlaced alphabet p (get_or dfa j 0) state) place (later j (omega (arith, lt)))

-- The loop: the entries in front of `i` stay, and each entry of the table is placed.
pub put_entries_lem :
    (alphabet i : ℕ) (dfa state : List ℕ)
    → i + length dfa < length state
    → Returns (put_entries alphabet i dfa state) (λ s.
      (length s ≡ length state)
      × ((j : ℕ) → j < i → get_or s j 0 ≡ get_or state j 0)
      × (i % alphabet ≡ 2 → get_or s i 0 ≡ get_or state i 0)
      × ((j : ℕ) → j < length dfa → IsPlaced alphabet (i + j) (get_or dfa j 0) s))
unfolding put_entries
put_entries_lem alphabet i [] state room =
    (state, refl, (refl, (λ j lt. refl), (λ h. refl), λ j lt. absurd (omega (arith, lt))))
put_entries_lem alphabet i (entry ∷ dfa) state room =
    let (s1, run, turn) = put_entry_lem alphabet i entry state (omega (arith, room)) in
    let (s2, run', (width, others, second, placed)) =
      put_entries_lem alphabet (i + 1) dfa s1 (omega (arith, room, turn.width)) in
    let same : get_or s2 i 0 ≡ get_or s1 i 0 = others i (omega arith) in
    let first : IsPlaced alphabet i entry s2 = record {
      transition = λ h. same ∙ turn.placed.transition h;
      low = λ h. same ∙ turn.placed.low h;
      high = λ h k. second k ∙ turn.placed.high h k;
    } in
    (
      s2,
      rw run run',
      (
        width ∙ turn.width,
        (λ j lt. others j (omega (arith, lt)) ∙ turn.others j lt),
        (λ h. same ∙ ap (λ s. get_or s i 0) (turn.skipped h)),
        IsPlaced-cons alphabet i entry dfa s2 first placed,
      ),
    )
