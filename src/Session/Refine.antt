-- ===== src/Session/Refine.antt =====
-- The theorems on `session_table_find` and `create_session_table`.
use mathlib.Core.Path.{fun_ext}
use orchid_linux.Base.{
  ℕ, List, [], ◌+◌, ◌≡◌, refl, ◌⊎◌, inl, inr, Bool, true, false, Option, none, some, arith,
  if◌then◌else◌, Option-cases, length, length-append, length-replicate, ◌∙◌, ap,
}
use orchid_linux.Base.Int.{pos, negsuc}
use orchid_linux.Session.Defs.{
  FlowKey, Flow, SessionTable, hash5tuple, hash_table_size, find_flow, bucket, opposite,
  create_session, session_table_find, create_session_table,
}
use orchid_linux.Session.View.{view, find_flow_elsewhere, view-replicate, replicate-IsPlaced}
use orchid_linux.Session.Valid.{
  IsValid, conversations, find_conversation, Refines, create_session-IsValid, create_session-view,
  new_found, view-opposite,
}

-- `session_table_find` without its second loop.
unfoldable pub find_once : Bool → FlowKey → SessionTable → Option ℕ × SessionTable
find_once memory k t = elim (view t.htable k) [
  | some p ↦ (some p, t)
  | none ↦ if memory then (let (p, t') = create_session k t in (some p, t')) else (none, t)
]

-- The search in the bucket of the opposite direction finds nothing: on a valid table
-- `session_table_find` is the same function without it.
pub session_table_find-find_once :
    (memory : Bool) (k : FlowKey) (t : SessionTable)
    → IsValid t
    → session_table_find memory k t ≡ find_once memory k t
unfolding session_table_find find_once view
session_table_find-find_once memory k t valid =
    elim (Option-cases (find_flow k (bucket t.htable (hash5tuple k)))) [
      | inl absent ↦ rw (
        absent,
        find_flow_elsewhere t.htable k (hash5tuple (opposite k)) valid.placed absent,
        session_table_find,
        find_once,
      )
      | inr (p, found) ↦ rw (found, session_table_find, find_once)
    ]

create_session_results :
    (k : FlowKey) (t : SessionTable)
    → ((create_session k t).0 ≡ length t.sessions)
      × (length (create_session k t).1.sessions ≡ length t.sessions + 1)
unfolding create_session
create_session_results k t = (refl, length-append t.sessions _)

module _ (k : FlowKey) (t : SessionTable) (valid : IsValid t) where
  conversations-create_session :
      view t.htable k ≡ none
      → conversations (create_session k t).1 ≡ (find_conversation true k (conversations t)).1
  conversations-create_session absent =
      rw (absent, find_conversation)
        (λ i. record {
          known = fun_ext (create_session-view k t valid) i;
          count = (create_session_results k t).1 i;
        })

  find_once-Refines :
      (memory : Bool)
      → Refines (find_once memory k t) (find_conversation memory k (conversations t))
  unfolding find_once
  find_once-Refines memory = elim (Option-cases (view t.htable k)) [
    | inr (p, found) ↦
        rw (found, find_once, find_conversation)
          (record { result = refl; state = refl; valid = valid })
    | inl absent ↦ by_memory memory absent
  ]
    where
      by_memory :
          (memory : Bool)
          → view t.htable k ≡ none
          → Refines (find_once memory k t) (find_conversation memory k (conversations t))
      by_memory false absent =
          rw (absent, find_once, find_conversation)
            (record { result = refl; state = refl; valid = valid })
      by_memory true absent =
          let state = conversations-create_session absent in
          rw (absent, find_once, find_conversation)
            (record {
              result = ap some (create_session_results k t).0;
              state = rw (absent, find_conversation) at state;
              valid = create_session-IsValid k t valid absent;
            })

-- On a valid table `session_table_find` is the abstract operation: a flow that was seen in either
-- direction gives its session and changes nothing, an unseen one starts one session that both
-- directions give afterwards, and without memory the result is NULL and nothing changes. The
-- table that it leaves is valid.
pub session_table_find-Refines :
    (memory : Bool) (k : FlowKey) (t : SessionTable)
    → IsValid t
    → Refines (session_table_find memory k t) (find_conversation memory k (conversations t))
session_table_find-Refines memory k t valid =
    rw (session_table_find-find_once memory k t valid) (find_once-Refines k t valid memory)

-- The session that a search gives is the one that the table holds for the flow afterwards.
pub view-session_table_find :
    (memory : Bool) (k : FlowKey) (t : SessionTable) (p : ℕ)
    → IsValid t
    → (session_table_find memory k t).0 ≡ some p
    → view (session_table_find memory k t).1.htable k ≡ some p
unfolding find_once
view-session_table_find memory k t p valid h =
    let same = session_table_find-find_once memory k t valid in
    rw same (by_view (Option-cases (view t.htable k)) (rw same at h))
  where
    by_view :
        (view t.htable k ≡ none) ⊎ ((q : ℕ) × (view t.htable k ≡ some q))
        → (find_once memory k t).0 ≡ some p
        → view (find_once memory k t).1.htable k ≡ some p
    by_view (inr (q, found)) e = ground arith
    by_view (inl absent) e =
        ground (arith, new_found k t valid k (inr refl), create_session_results k t)

-- After a packet has got its session, a packet of the opposite direction gets the same one, and
-- the table stays as it is.
pub session_table_find-opposite :
    (memory memory' : Bool) (k : FlowKey) (t : SessionTable) {p : ℕ}
    → IsValid t
    → (session_table_find memory k t).0 ≡ some p
    → session_table_find memory' (opposite k) (session_table_find memory k t).1
      ≡ (some p, (session_table_find memory k t).1)
session_table_find-opposite memory memory' k t {p} valid h =
    let t' = (session_table_find memory k t).1 in
    let r = session_table_find-Refines memory k t valid in
    let found = view-opposite t' k r.valid ∙ view-session_table_find memory k t p valid h in
    rw (session_table_find-find_once memory' (opposite k) t' r.valid)
      (unfold find_once in rw (found, find_once))

-- `create_session_table` with memory leaves a valid table that knows no flow, if no session was
-- numbered before; without memory it returns -1.
pub create_session_table_lem :
    (t : SessionTable)
    → t.next_sess_id ≡ 0
    → ((create_session_table true t).0 ≡ pos 0)
      × IsValid (create_session_table true t).1
      × ((q : FlowKey) → view (create_session_table true t).1.htable q ≡ none)
      × ((create_session_table false t).0 ≡ negsuc 0)
unfolding create_session_table
create_session_table_lem t fresh = (
  refl,
  record {
    width = length-replicate {A = List Flow} hash_table_size [];
    placed = replicate-IsPlaced hash_table_size;
    counted = fresh;
    linked = λ p s h. absurd (grind arith);
    owned = λ q p h. absurd (cc (h, view-replicate hash_table_size q));
  },
  view-replicate hash_table_size,
  refl,
)
