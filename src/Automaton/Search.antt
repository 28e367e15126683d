-- ===== src/Automaton/Search.antt =====
-- The search: `acsmSearchSparseDFA_Banded`, `acsmSearchSparseDFA_Full`, `acsmSearchSparseDFA` and
-- in its children the others and their choice in `acsmSearch2`.
--
-- `match` is the callback on the globals `S` of its module: its result says whether it is above 0,
-- which ends the search. `current_state` is there; the results are the number of matches and
-- `*current_state`.
pub mod Nfa
pub mod Queued
pub mod Choice
pub mod Runs
pub mod Calls
use orchid_linux.Base.{
  ℕ, zero, suc, ◌+◌, ◌-◌, Bool, true, false, List, [], ◌∷◌, Option, none, some, ◌==◌, ltb, leb,
  if◌then◌else◌, Run, ok, fault, Fault, ◌>>=◌, read, u32, length, ◌^◌,
}
use orchid_linux.Matcher.Found.{Match}
use orchid_linux.Automaton.Types.{
  Acsm, Pattern, acf_full, acf_fullq, acf_banded, fsa_trie, fsa_nfa, fsa_dfa,
}
use orchid_linux.Automaton.Compile.{xlatcase}
use orchid_linux.Automaton.Rows.{sparse_get_next_state_dfa}

-- `index = T - mlist->n - Tx`, an `int`, as its 32-bit word: below 0 it stands past any text, and a
-- `data` there, in front of the text, has no byte of it.
abbrev pub match_index : ℕ → Pattern → ℕ
match_index at px = u32 (at + 2 ^ 32 - px.n)

-- What the search gives: the number of matches, the state, and the globals.
pub record Found (S : Type 0) : Type 0 where
  pub nfound : ℕ
  pub state : ℕ
  pub globals : S

-- How the loop ends: by the callback, or at the end of the text.
pub data Ended (S : Type 0) : Type 0 where
  stopped : Found S → Ended S
  at_end : ℕ → ℕ → S → Ended S

-- The transition of the banded search.
unfoldable pub banded_step : List ℕ → ℕ → Run ℕ
banded_step ps sindex = do
  index ← read ps 3
  n ← read ps 2
  if ltb sindex index
      then ok 0
      else if leb (u32 (index + n)) sindex
      then ok 0
      else read ps (4 + sindex - index)

-- The transition of the full search.
unfoldable pub full_step : List ℕ → ℕ → Run ℕ
full_step ps sindex = read ps (2 + sindex)

module _ {S : Type 0} where
  -- `if (ps[1])` and the call for the first pattern of the list; the result says whether the
  -- callback ends the search.
  unfoldable pub test_match :
      (Pattern → ℕ → S → Run (Bool × S)) → Acsm → List ℕ → ℕ → ℕ → ℕ → S → Run (Bool × (ℕ × S))
  test_match call acsm ps state at nfound s = do
    flag ← read ps 1
    if flag == 0 then ok (false, (nfound, s)) else (do
      mlist ← read acsm.match_list state
      elim mlist [
        | [] ↦ ok (false, (nfound, s))
        | ◌∷◌ px rest ↦ (call px at s >>= λ r. ok (r.0, (nfound + 1, r.1)))
      ])

  -- The loop of the banded and of the full search: `at` bytes of the text are read.
  unfoldable pub search_loop :
      (Pattern → ℕ → S → Run (Bool × S))
      → (List ℕ → ℕ → Run ℕ)
      → Acsm
      → List ℕ
      → ℕ
      → ℕ
      → ℕ
      → S
      → Run (Ended S)
  unfolding test_match
  search_loop call step acsm [] at state nfound s = ok (at_end state nfound s)
  search_loop call step acsm (c ∷ text) at state nfound s = do
    ps ← read acsm.next_state state
    (stop, (nfound', s')) ← test_match call acsm ps state at nfound s
    if stop
        then ok (stopped (record { nfound = nfound'; state = state; globals = s' }))
        else (step ps (xlatcase c) >>= λ state'.
            search_loop call step acsm text (suc at) state' nfound' s')

module _ {S : Type 0} (match : Match → S → Run (Bool × S)) where
  -- The calls of the callback: inside the text with the number of the pattern and its place, at the
  -- end of the text with the address of the pattern, and `data`, which is a null pointer.
  unfoldable pub call_inside : Pattern → ℕ → S → Run (Bool × S)
  call_inside px at s =
      match (record { id = px.iid; index = match_index at px; position = some (match_index at px) })
        s

  unfoldable pub call_at_end : Pattern → ℕ → S → Run (Bool × S)
  call_at_end px at s =
      match (record { id = u32 px.udata; index = match_index at px; position = none }) s

  -- The end of the banded and of the full search; `kept` is what `*current_state` is then where the
  -- callback does not end the search.
  unfoldable pub search_end : Acsm → ℕ → ℕ → ℕ → ℕ → S → Run (Found S)
  unfolding call_at_end
  search_end acsm at kept state nfound s = read acsm.match_list state >>= λ mlist. elim mlist [
    | [] ↦ ok (record { nfound = nfound; state = kept; globals = s })
    | ◌∷◌ px rest ↦
        (call_at_end px at s >>= λ r.
        ok (record { nfound = nfound + 1; state = if r.0 then state else kept; globals = r.1 }))
  ]

  unfoldable pub finish : Acsm → ℕ → (ℕ → ℕ) → Ended S → Run (Found S)
  finish acsm length kept (stopped found) = ok found
  finish acsm length kept (at_end state nfound s) =
      search_end acsm length (kept state) state nfound s

  -- `acsmSearchSparseDFA_Banded`. Where it reaches the end of the text and is not stopped there, it
  -- leaves `*current_state` as it was.
  unfoldable pub search_banded : Acsm → List ℕ → ℕ → S → Run (Found S)
  search_banded acsm text state s =
      search_loop call_inside banded_step acsm text 0 state 0 s
      >>= finish acsm (length text) (λ last. state)

  -- `acsmSearchSparseDFA_Full`.
  unfoldable pub search_full : Acsm → List ℕ → ℕ → S → Run (Found S)
  search_full acsm text state s =
      search_loop call_at_end full_step acsm text 0 state 0 s
      >>= finish acsm (length text) (λ last. last)

  -- `acsmSearchSparseDFA`, for the two sparse formats: the transition comes before the test.
  unfoldable pub search_sparse : Acsm → List ℕ → ℕ → ℕ → ℕ → S → Run (Found S)
  unfolding test_match call_at_end
  search_sparse acsm [] at state nfound s =
      ok (record { nfound = nfound; state = state; globals = s })
  search_sparse acsm (c ∷ text) at state nfound s = do
    ps ← read acsm.next_state state
    state' ← sparse_get_next_state_dfa ps (xlatcase c)
    ps' ← read acsm.next_state state'
    (stop, (nfound', s')) ← test_match call_at_end acsm ps' state' (suc at) nfound s
    if stop
        then ok (record { nfound = nfound'; state = state'; globals = s' })
        else search_sparse acsm text (suc at) state' nfound' s'
