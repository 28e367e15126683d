-- ===== src/Automaton/Lists.antt =====
-- The lists of transitions: `List_GetNextState`, `List_GetNextState2`, `List_PutNextState`,
-- `List_FreeTransTable` and `List_ConvToFull`.
use orchid_linux.Base.{
  write, ℕ, ◌+◌, List, [], ◌∷◌, Option, none, some, ◌==◌, if◌then◌else◌, set, replicate, Run, ok,
  ◌>>=◌, read, u8, u16, u32,
}
use orchid_linux.Automaton.Types.{Acsm, TransNode, acsm_fail_state}

-- The walk along a list to a key.
unfoldable pub find_key : List TransNode → ℕ → Option ℕ
find_key [] input = none
find_key (t ∷ ts) input = if t.key == input then some t.next_state else find_key ts input

-- `List_GetNextState`, for the automaton that may fail.
unfoldable pub get_next_state : Acsm → ℕ → ℕ → Run ℕ
get_next_state acsm state input = read acsm.trans_table state >>= λ t. elim (find_key t input) [
  | some next ↦ ok next
  | none ↦ ok (if state == 0 then 0 else acsm_fail_state)
]

-- `List_GetNextState2`, for the deterministic one.
unfoldable pub get_next_state2 : Acsm → ℕ → ℕ → Run ℕ
get_next_state2 acsm state input = read acsm.trans_table state >>= λ t. elim (find_key t input) [
  | some next ↦ ok next
  | none ↦ ok 0
]

-- The walk that resets a transition which exists already.
unfoldable pub reset_key : List TransNode → ℕ → ℕ → Option (List TransNode)
reset_key [] input next_state = none
reset_key (t ∷ ts) input next_state =
    if t.key == input
    then some (record t { next_state = next_state } ∷ ts)
    else elim (reset_key ts input next_state) [ none ↦ none | some ts' ↦ some (t ∷ ts') ]

-- `List_PutNextState`.
unfoldable pub put_next_state : Acsm → ℕ → ℕ → ℕ → Run Acsm
put_next_state acsm state input next_state = read acsm.trans_table state >>= λ p.
    elim (reset_key p input next_state) [
      | some p' ↦ ok (record acsm { trans_table = set acsm.trans_table state p' })
      | none ↦
          let tnew : TransNode = record { key = input; next_state = next_state } in
          ok (record acsm {
            trans_table = set acsm.trans_table state (tnew ∷ p);
            num_trans = u32 (acsm.num_trans + 1);
          })
    ]

-- `List_FreeTransTable`.
unfoldable pub free_trans_table : Acsm → Acsm
free_trans_table acsm = record acsm { trans_table = [] }

-- A state in so many bytes.
unfoldable pub state_cast : ℕ → ℕ → ℕ
state_cast sizeofstate state =
    if sizeofstate == 1 then u8 state else if sizeofstate == 2 then u16 state else state

-- The loop of `List_ConvToFull`: its result is the number of transitions.
unfoldable pub fill_row : ℕ → List TransNode → ℕ → List ℕ → Run (ℕ × List ℕ)
fill_row sizeofstate [] tcnt full = ok (tcnt, full)
fill_row sizeofstate (t ∷ ts) tcnt full =
    write full t.key (state_cast sizeofstate t.next_state) >>= λ full'.
    fill_row sizeofstate ts (tcnt + 1) full'

-- `List_ConvToFull`, on a row of the alphabet's length that it clears first.
unfoldable pub conv_to_full : Acsm → ℕ → Run (ℕ × List ℕ)
unfolding fill_row
conv_to_full acsm state = read acsm.trans_table state >>= λ t.
    fill_row acsm.sizeofstate t 0 (replicate acsm.alphabet_size 0)
