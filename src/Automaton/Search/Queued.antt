-- ===== src/Automaton/Search/Queued.antt =====
-- The search that queues its matches: `_init_queue`, `_add_queue`, `_process_queue` and
-- `acsmSearchSparseDFA_Full_q`, built without ACSMX2_TRACK_Q.
--
-- The queue holds addresses of match lists, of which every state has its own: it is modelled as the
-- list of those states, in the order of `q`, and `inq` is its length.
use orchid_linux.Base.{
  ℕ, ◌+◌, Bool, true, false, List, [], ◌∷◌, ◌++◌, none, ◌==◌, ltb, if◌then◌else◌, length, Run, ok,
  ◌>>=◌, read, u32,
}
use orchid_linux.Matcher.Found.{Match}
use orchid_linux.Automaton.Types.{Acsm}
use orchid_linux.Automaton.Compile.{xlatcase}
use orchid_linux.Automaton.Search.{Found, full_step}

abbrev pub ac_max_inq : ℕ
ac_max_inq = 32

abbrev pub init_queue : List ℕ
init_queue = []

unfoldable pub is_queued : ℕ → List ℕ → Bool
is_queued p [] = false
is_queued p (q ∷ qs) = if p == q then true else is_queued p qs

-- `_add_queue`; the flag says whether the queue is full, and is not set for one that was there.
unfoldable pub add_queue : List ℕ → ℕ → Bool × List ℕ
unfolding is_queued
add_queue b p =
    if is_queued p b
    then (false, b)
    else if ltb (length b) ac_max_inq
    then (length b + 1 == ac_max_inq, b ++ p ∷ [])
    else (length b == ac_max_inq, b)

module _ {S : Type 0} (match : Match → S → Run (Bool × S)) where
  -- The loop of `_process_queue`; the queue is empty after it.
  unfoldable pub process_queue : Acsm → List ℕ → S → Run (Bool × S)
  process_queue acsm [] s = ok (false, s)
  process_queue acsm (q ∷ qs) s = do
    mlist ← read acsm.match_list q
    elim mlist [
      | [] ↦ process_queue acsm qs s
      | ◌∷◌ px rest ↦ (do
        (stop, s') ← match (record { id = u32 px.udata; index = 0; position = none }) s
        if stop then ok (true, s') else process_queue acsm qs s')
    ]

  -- `if (ps[1])` and what follows it: the flag says whether the search ends.
  unfoldable pub queue_match : Acsm → List ℕ → ℕ → List ℕ → S → Run (Bool × (List ℕ × S))
  unfolding add_queue process_queue
  queue_match acsm ps state queue s = do
    flag ← read ps 1
    if flag == 0 then ok (false, (queue, s)) else (do
      mlist ← read acsm.match_list state
      elim mlist [
        | [] ↦ ok (false, (queue, s))
        | ◌∷◌ px rest ↦
            if (add_queue queue state).0
            then (process_queue acsm (add_queue queue state).1 s >>= λ r. ok (r.0, ([], r.1)))
            else ok (false, ((add_queue queue state).1, s))
      ])

  -- `acsmSearchSparseDFA_Full_q`: its result is 0, and 1 where the callback ends the search inside
  -- the text.
  unfoldable pub search_queued : Acsm → List ℕ → ℕ → List ℕ → S → Run (Found S)
  unfolding add_queue process_queue queue_match full_step
  search_queued acsm [] state queue s = do
    mlist ← read acsm.match_list state
    let queue' : List ℕ = elim mlist [ [] ↦ queue | ◌∷◌ px rest ↦ (add_queue queue state).1 ]
    (stop, s') ← process_queue acsm queue' s
    ok (record { nfound = 0; state = state; globals = s' })
  search_queued acsm (c ∷ text) state queue s = do
    ps ← read acsm.next_state state
    (stop, (queue', s')) ← queue_match acsm ps state queue s
    if stop
        then ok (record { nfound = 1; state = state; globals = s' })
        else (full_step ps (xlatcase c) >>= λ state'. search_queued acsm text state' queue' s')
