-- ===== src/Automaton/Rows/Transitions.antt =====
-- The conversions as a whole: the rows that they make give the transitions of the lists.
use orchid_linux.Base.{
  ℕ, zero, suc, ◌+◌, ◌<◌, ◌≤◌, ◌≡◌, ◌≢◌, refl, ap, sym, ◌∙◌, inl, inr, Bool-cases, ◌==◌, List, [],
  ◌∷◌, Option, none, some, arith, length, length-set, set, get_or, get_or-beyond,
  get_elem?-eq-get_or, ==_ne, All, ok, ◌>>=◌, Returns, read, read-set_self, read-set_ne,
  write-inside,
}
use mathlib.Core.Path.{subst}
use native.Mathlib.Decide.{dec_lt, ℕ_discrete}
use orchid_linux.Automaton.Types.{Acsm, TransNode, acsm_fail_state}
use orchid_linux.Automaton.Lists.{find_key, get_next_state2, conv_to_full, state_cast}
use orchid_linux.Automaton.Rows.{conv_states, sparse_get_next_state_dfa}
use orchid_linux.Automaton.Rows.Banded.{IsTotal}
use orchid_linux.Automaton.Rows.Stored.{IsTransList, stored, conv_to_full_lem}

-- The lists have different inputs as keys, and lead to no failure state; a state has 4 bytes.
pub record IsConvertible (acsm : Acsm) : Type 0 where
  pub keys :
      (state : ℕ) (ts : List TransNode)
      → read acsm.trans_table state ≡ ok ts
      → IsTransList acsm.alphabet_size ts
  pub targets :
      (state : ℕ) (ts : List TransNode)
      → read acsm.trans_table state ≡ ok ts
      → All (λ t. t.next_state ≢ acsm_fail_state) ts
  pub wide : acsm.sizeofstate ≡ 4

-- A format: its rows give back what they are made of.
abbrev pub IsFormat : ℕ → (ℕ → List ℕ → List ℕ) → Type 0
IsFormat size row =
    (k : ℕ) (full : List ℕ) (input : ℕ)
    → IsTotal full
    → length full ≡ size
    → input < size
    → sparse_get_next_state_dfa (row k full) input ≡ ok (get_or full input 0)

-- The row that stands for a state gives its transitions.
abbrev pub GivesTransitions : Acsm → List (List ℕ) → ℕ → Type 0
GivesTransitions acsm rows state =
    (input : ℕ)
    → input < acsm.alphabet_size
    → (read rows state >>= λ ps. sparse_get_next_state_dfa ps input)
      ≡ get_next_state2 acsm state input

all_of_get_or :
    (P : ℕ → Type 0) (xs : List ℕ) → ((i : ℕ) → i < length xs → P (get_or xs i 0)) → All P xs
all_of_get_or P [] h = tt
all_of_get_or P (x ∷ xs) h =
    (h 0 (omega arith), all_of_get_or P xs (λ i lt. h (suc i) (omega arith)))

stored-total :
    (ts : List TransNode) (i : ℕ)
    → All (λ t. t.next_state ≢ acsm_fail_state) ts
    → stored 4 (find_key ts i) 0 ≢ acsm_fail_state
unfolding find_key state_cast
stored-total [] i h = λ e. omega (arith, e)
stored-total (t ∷ ts) i h = elim (Bool-cases (t.key == i)) [
  | inl same ↦ rw same h.0
  | inr other ↦ rw other (stored-total ts i h.1)
]

stored_ok : (m : Option ℕ) → ok (stored 4 m 0) ≡ elim m [ some next ↦ ok next | none ↦ ok 0 ]
unfolding state_cast
stored_ok none = refl
stored_ok (some next) = refl

pub find_key-beyond :
    (size : ℕ) (ts : List TransNode) (i : ℕ) → IsTransList size ts → size ≤ i → find_key ts i ≡ none
unfolding find_key
find_key-beyond size [] i keys h = refl
find_key-beyond size (t ∷ ts) i keys h =
    rw (==_ne t.key i (λ e. omega (arith, e, h, keys.0))) (find_key-beyond size ts i keys.2 h)

-- The transition of a state, 0 where its list has none.
abbrev pub next_of : Acsm → ℕ → ℕ → ℕ
next_of acsm state input = stored 4 (find_key (get_or acsm.trans_table state []) input) 0

pub get_next_state2-next_of :
    (acsm : Acsm) (state input : ℕ)
    → state < length acsm.trans_table
    → get_next_state2 acsm state input ≡ ok (next_of acsm state input)
unfolding get_next_state2
get_next_state2-next_of acsm state input inside =
    rw (get_elem?-eq-get_or acsm.trans_table state [] inside)
      (sym (stored_ok (find_key (get_or acsm.trans_table state []) input)))

-- The full row of a state.
pub record IsRowOf (acsm : Acsm) (state : ℕ) (full : List ℕ) : Type 0 where
  pub width : length full ≡ acsm.alphabet_size
  pub total : IsTotal full
  pub entries : (input : ℕ) → get_or full input 0 ≡ next_of acsm state input

conv_to_full-IsRowOf :
    (acsm : Acsm) (state : ℕ)
    → IsConvertible acsm
    → state < length acsm.trans_table
    → Returns (conv_to_full acsm state) (λ r. IsRowOf acsm state r.1)
conv_to_full-IsRowOf acsm state c inside =
    let ts = get_or acsm.trans_table state [] in
    let found : read acsm.trans_table state ≡ ok ts =
      rw (get_elem?-eq-get_or acsm.trans_table state [] inside) refl in
    let keys = c.keys state ts found in
    let (r, run, (len, entries)) = conv_to_full_lem acsm state ts found keys in
    let e : (i : ℕ) → i < acsm.alphabet_size → get_or r.1 i 0 ≡ next_of acsm state i =
      λ i h. entries i h ∙ ap (λ size. stored size (find_key ts i) 0) c.wide in
    (
      r,
      run,
      record {
        width = len;
        total =
            all_of_get_or (λ s. s ≢ acsm_fail_state) r.1
              (λ i lt bad.
                stored-total ts i (c.targets state ts found)
                  (sym (e i (omega (arith, lt, len))) ∙ bad));
        entries = λ i. elim (dec_lt i acsm.alphabet_size) [
          | yes inside ↦ e i inside
          | no beyond ↦
              get_or-beyond r.1 i 0 (omega (arith, beyond, len))
              ∙ ap (λ m. stored 4 m 0)
                  (sym (find_key-beyond acsm.alphabet_size ts i keys (omega (arith, beyond))))
        ];
      },
    )

-- A state got the row that `row` makes of its full row.
abbrev pub HasRow : (ℕ → List ℕ → List ℕ) → Acsm → List (List ℕ) → ℕ → Type 0
HasRow row acsm rows state =
    (full : List ℕ) × IsRowOf acsm state full × (read rows state ≡ ok (row state full))

-- The loop over the states from `k` on: each of them gets such a row, the others stay.
pub conv_states_lem :
    (row : ℕ → List ℕ → List ℕ) (left k : ℕ) (acsm : Acsm)
    → IsConvertible acsm
    → k + left ≤ length acsm.trans_table
    → k + left ≤ length acsm.next_state
    → Returns (conv_states row left k acsm) (λ a.
      (a ≡ record acsm { next_state = a.next_state })
      × (length a.next_state ≡ length acsm.next_state)
      × ((j : ℕ) → j < k → read a.next_state j ≡ read acsm.next_state j)
      × ((j : ℕ) → k ≤ j → j < k + left → HasRow row acsm a.next_state j))
unfolding conv_states
conv_states_lem row zero k acsm c room space =
    (acsm, refl, (refl, refl, (λ j lt. refl), λ j ge lt. absurd (omega (arith, ge, lt))))
conv_states_lem row (suc left) k acsm c room space =
    let (r, run, is_row) = conv_to_full-IsRowOf acsm k c (omega (arith, room)) in
    let rows = set acsm.next_state k (row k r.1) in
    let (a, run', (same, len, before, after)) =
      conv_states_lem row left (k + 1) (record acsm { next_state = rows })
        (record { keys = c.keys; targets = c.targets; wide = c.wide }) (omega (arith, room))
        (omega (arith, space, length-set acsm.next_state k (row k r.1))) in
    let here : read a.next_state k ≡ ok (row k r.1) =
      before k (omega arith) ∙ read-set_self acsm.next_state k (row k r.1) (omega (arith, space)) in
    (
      a,
      rw (run, write-inside acsm.next_state k (row k r.1) (omega (arith, space))) run',
      (
        same,
        len ∙ length-set acsm.next_state k (row k r.1),
        λ j lt.
            before j (omega (arith, lt))
            ∙ read-set_ne acsm.next_state k j (row k r.1) (λ e. omega (arith, e, lt)),
        λ j ge lt. elim (ℕ_discrete k j) [
          | yes e ↦ subst (HasRow row acsm a.next_state) e (r.1, is_row, here)
          | no ne ↦
              let (full, full_row, found) = after j (omega (arith, ge, ne)) (omega (arith, lt)) in
              (
                full,
                record {
                  width = full_row.width;
                  total = full_row.total;
                  entries = full_row.entries;
                },
                found,
              )
        ],
      ),
    )

-- Such a row gives the transitions of the list, whatever the format.
pub HasRow-GivesTransitions :
    (row : ℕ → List ℕ → List ℕ) (acsm : Acsm) (rows : List (List ℕ)) (state : ℕ)
    → IsFormat acsm.alphabet_size row
    → state < length acsm.trans_table
    → HasRow row acsm rows state
    → GivesTransitions acsm rows state
HasRow-GivesTransitions row acsm rows state format inside (full, is_row, found) input lt =
    rw (found, get_next_state2-next_of acsm state input inside)
      (format state full input is_row.total is_row.width lt ∙ ap ok (is_row.entries input))
