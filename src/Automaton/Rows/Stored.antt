-- ===== src/Automaton/Rows/Stored.antt =====
-- `List_ConvToFull`: the row of a list holds the transitions of the list.
use orchid_linux.Base.{
  ℕ, ◌+◌, ◌<◌, ◌≡◌, ◌≢◌, refl, ◌∙◌, List, [], ◌∷◌, Option, none, some, ==_refl, ==_ne, arith,
  length, length-set, set, get_or, get_or-set_self, get_or-set_ne, get_or-replicate, replicate,
  length-replicate, All, ok, Returns, read, write-inside,
}
use mathlib.Core.Path.{subst}
use native.Mathlib.Decide.{ℕ_discrete}
use orchid_linux.Automaton.Types.{Acsm, TransNode}
use orchid_linux.Automaton.Lists.{find_key, fill_row, conv_to_full, state_cast}

-- The keys of a list are inputs, and no two are the same.
abbrev pub IsTransList : ℕ → List TransNode → Type 0
IsTransList size [] = Unit {0}
IsTransList size (t ∷ ts) = (t.key < size) × All (λ u. u.key ≢ t.key) ts × IsTransList size ts

-- The entry of an input, where the row had `old` before.
abbrev pub stored : ℕ → Option ℕ → ℕ → ℕ
stored size none old = old
stored size (some next) old = state_cast size next

pub find_key-absent : (ts : List TransNode) (k : ℕ) → All (λ u. u.key ≢ k) ts → find_key ts k ≡ none
unfolding find_key
find_key-absent [] k h = refl
find_key-absent (t ∷ ts) k h = rw (==_ne t.key k h.0) (find_key-absent ts k h.1)

stored-cons :
    (size i : ℕ) (t : TransNode) (ts : List TransNode) (full : List ℕ)
    → t.key < length full
    → All (λ u. u.key ≢ t.key) ts
    → stored size (find_key ts i) (get_or (set full t.key (state_cast size t.next_state)) i 0)
      ≡ stored size (find_key (t ∷ ts) i) (get_or full i 0)
unfolding find_key
stored-cons size i t ts full inside others = elim (ℕ_discrete t.key i) [
  | yes e ↦
      subst
        (λ j.
          stored size (find_key ts j) (get_or (set full t.key (state_cast size t.next_state)) j 0)
          ≡ stored size (find_key (t ∷ ts) j) (get_or full j 0))
        e
        (rw (find_key-absent ts t.key others, ==_refl t.key)
          (get_or-set_self full t.key (state_cast size t.next_state) 0 inside))
  | no ne ↦ rw (==_ne t.key i ne, get_or-set_ne full t.key i (state_cast size t.next_state) 0 ne)
]

fill_row_lem :
    (size : ℕ) (ts : List TransNode) (tcnt : ℕ) (full : List ℕ)
    → IsTransList (length full) ts
    → Returns (fill_row size ts tcnt full) (λ r.
      (length r.1 ≡ length full)
      × ((i : ℕ)
          → i < length full
          → get_or r.1 i 0 ≡ stored size (find_key ts i) (get_or full i 0)))
unfolding fill_row find_key
fill_row_lem size [] tcnt full keys = ((tcnt, full), refl, (refl, λ i h. refl))
fill_row_lem size (t ∷ ts) tcnt full keys =
    let v = state_cast size t.next_state in
    let full' = set full t.key v in
    let same : length full' ≡ length full = length-set full t.key v in
    let (r, run, (len, entries)) = fill_row_lem size ts (tcnt + 1) full' (rw same keys.2) in
    (
      r,
      rw (write-inside full t.key v keys.0) run,
      (
        len ∙ same,
        λ i h. entries i (omega (arith, h, same)) ∙ stored-cons size i t ts full keys.0 keys.1,
      ),
    )

-- The row of state `state`: its length is that of the alphabet, and at each input it has what the
-- list has there, and 0 where the list has nothing.
pub conv_to_full_lem :
    (acsm : Acsm) (state : ℕ) (ts : List TransNode)
    → read acsm.trans_table state ≡ ok ts
    → IsTransList acsm.alphabet_size ts
    → Returns (conv_to_full acsm state) (λ r.
      (length r.1 ≡ acsm.alphabet_size)
      × ((i : ℕ)
          → i < acsm.alphabet_size
          → get_or r.1 i 0 ≡ stored acsm.sizeofstate (find_key ts i) 0))
unfolding conv_to_full
conv_to_full_lem acsm state ts found keys =
    let n = acsm.alphabet_size in
    let width = length-replicate n 0 in
    let (r, run, (len, entries)) =
      fill_row_lem acsm.sizeofstate ts 0 (replicate n 0) (rw width keys) in
    (
      r,
      rw found run,
      (
        len ∙ width,
        λ i h. rw (get_or-replicate {A = ℕ} n 0 i) at (entries i (omega (arith, h, width))),
      ),
    )
