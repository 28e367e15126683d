-- ===== src/Packet/Valid.antt =====
-- `packet_handler` keeps the session table valid, and no session ever learns its application.
use orchid_linux.Base.{
  ℕ, ◌≡◌, refl, ◌⊎◌, inl, inr, Bool, true, false, List, none, some, arith, Bool-cases, Option-cases,
  length, length-set, get_elem?, get_elem?-lt, get_elem?-set_self, get_elem?-set_ne, set, Returns,
  Run, get_elem?-append_one, u16, ltb, drop, ◌∙◌, ok, fault, Fault,
}
use native.Mathlib.Decide.{ℕ_discrete}
use orchid_linux.Session.Defs.{
  FlowKey, Session, SessionTable, session_table_find, create_session, new_session,
}
use orchid_linux.Session.View.{view}
use orchid_linux.Session.Valid.{IsValid}
use orchid_linux.Session.Refine.{
  find_once, session_table_find-find_once, session_table_find-Refines, view-session_table_find,
}
use orchid_linux.Packet.{set_app_id, handle_flow}

-- No session has an application.
abbrev pub NoApp : SessionTable → Type 0
NoApp t = (p : ℕ) (s : Session) → get_elem? t.sessions p ≡ some s → s.app_id ≡ 0

create_session-NoApp : (k : FlowKey) (t : SessionTable) → NoApp t → NoApp (create_session k t).1
unfolding create_session new_session
create_session-NoApp k t none_yet p s h = elim (get_elem?-append_one t.sessions _ s p h) [
  | inl old ↦ none_yet p s old
  | inr (last, same) ↦ rw same refl
]

find_once-NoApp :
    (memory : Bool) (k : FlowKey) (t : SessionTable) → NoApp t → NoApp (find_once memory k t).1
unfolding find_once
find_once-NoApp memory k t none_yet = elim (Option-cases (view t.htable k)) [
  | inr (p, found) ↦ rw (found, find_once) none_yet
  | inl absent ↦ by_memory memory absent
]
  where
    by_memory : (memory : Bool) → view t.htable k ≡ none → NoApp (find_once memory k t).1
    by_memory true absent = rw (absent, find_once) (create_session-NoApp k t none_yet)
    by_memory false absent = rw (absent, find_once) none_yet

-- The table with a session's application set.
abbrev with_app : ℕ → ℕ → Session → SessionTable → SessionTable
with_app p v s t = record t { sessions = set t.sessions p (record s { app_id = u16 v }) }

module _ (p v : ℕ) (s : Session) (t : SessionTable) (at_p : get_elem? t.sessions p ≡ some s) where
  with_app-get :
      (q : ℕ) (x : Session)
      → get_elem? (with_app p v s t).sessions q ≡ some x
      → (y : Session) × (get_elem? t.sessions q ≡ some y)
        × (x.flow0 ≡ y.flow0)
        × (x.flow1 ≡ y.flow1)
        × (x.session_id ≡ y.session_id)
        × ((x.app_id ≡ y.app_id) ⊎ (x.app_id ≡ u16 v))
  with_app-get q x h = elim (ℕ_discrete p q) [
    | yes same ↦
        let new : Session = record s { app_id = u16 v } in
        let written = get_elem?-set_self t.sessions p new (get_elem?-lt t.sessions p at_p) in
        let e : new ≡ x = cc in rw (← e, ← same) (s, at_p, refl, refl, refl, inr refl)
    | no other ↦
        let new : Session = record s { app_id = u16 v } in
        (x, rw (get_elem?-set_ne t.sessions p q new other) at h, refl, refl, refl, inl refl)
  ]

  owned_with :
      (k : FlowKey) (q : ℕ)
      → Dec (p ≡ q)
      → (y : Session) × (get_elem? t.sessions q ≡ some y) × ((y.flow0.key ≡ k) ⊎ (y.flow1.key ≡ k))
      → (x : Session) × (get_elem? (with_app p v s t).sessions q ≡ some x)
        × ((x.flow0.key ≡ k) ⊎ (x.flow1.key ≡ k))
  owned_with k q (yes same) (y, at_q, side) =
      let new : Session = record s { app_id = u16 v } in
      let e : y ≡ s = cc in
      (
        new,
        rw (← same) (get_elem?-set_self t.sessions p new (get_elem?-lt t.sessions p at_p)),
        rw e at side,
      )
  owned_with k q (no other) (y, at_q, side) =
      let new : Session = record s { app_id = u16 v } in
      (y, rw (get_elem?-set_ne t.sessions p q new other) at_q, side)

  with_app-IsValid : IsValid t → IsValid (with_app p v s t)
  with_app-IsValid valid = record {
    width = valid.width;
    placed = valid.placed;
    counted = rw length-set valid.counted;
    linked = λ q x h.
        let (y, at_q, f0, f1, id, app) = with_app-get q x h in
        let l = valid.linked q y at_q in
        record {
          forward = rw f0 l.forward;
          backward = rw f1 l.backward;
          directions = rw (f0, f1) l.directions;
          numbered = id ∙ l.numbered;
        };
    owned = λ k q h. owned_with k q (ℕ_discrete p q) (valid.owned k q h);
  }

  with_app-NoApp : v ≡ 0 → NoApp t → NoApp (with_app p v s t)
  with_app-NoApp zero_v none_yet q x h =
      let (y, at_q, f0, f1, id, app) = with_app-get q x h in
      elim app [ inl e ↦ e ∙ none_yet q y at_q | inr e ↦ omega (arith, zero_v, e) ]

session_table_find-NoApp :
    (memory : Bool) (k : FlowKey) (t : SessionTable)
    → IsValid t
    → NoApp t
    → NoApp (session_table_find memory k t).1
session_table_find-NoApp memory k t valid none_yet =
    rw (session_table_find-find_once memory k t valid) (find_once-NoApp memory k t none_yet)

-- The session table stays valid and without applications.
abbrev pub Stays : SessionTable → Type 0
Stays t = IsValid t × NoApp t

-- The scan of a text faults, and so does the run.
abbrev pub ScanFaults : {S A : Type 0} → (List ℕ → S → Run (ℕ × S)) → List ℕ → S → Run A → Type 0
ScanFaults scan text s run = (e : Fault) × (scan text s ≡ fault e) × (run ≡ fault e)

-- Whatever the scan returns, its result is 0.
abbrev pub IsZero : {S : Type 0} → (List ℕ → S → Run (ℕ × S)) → Type 0
IsZero {S} scan = (text : List ℕ) (s : S) (r : ℕ × S) → scan text s ≡ ok r → r.0 ≡ 0

Run-cases : {A : Type 0} (r : Run A) → ((x : A) × (r ≡ ok x)) ⊎ ((e : Fault) × (r ≡ fault e))
Run-cases (ok x) = inl (x, refl)
Run-cases (fault e) = inr (e, refl)

module _ {S : Type 0} (scan : List ℕ → S → Run (ℕ × S)) (zero_scan : IsZero scan) where
  pub handle_flow-Stays :
      (k : FlowKey) (payload p : ℕ) (pktdata : List ℕ) (t : SessionTable) (s : S)
      → Stays t
      → (session_table_find true k t).0 ≡ some p
      → Returns (handle_flow scan true k payload pktdata t s) (λ r. Stays r.0)
        ⊎ ScanFaults scan (drop payload pktdata) s (handle_flow scan true k payload pktdata t s)
  unfolding handle_flow set_app_id
  handle_flow-Stays k payload p pktdata t s (valid, none_yet) found =
      let t' = (session_table_find true k t).1 in
      let valid' = (session_table_find-Refines true k t valid).valid in
      let none' = session_table_find-NoApp true k t valid none_yet in
      let (sess, at_p, side) = valid'.owned k p (view-session_table_find true k t p valid found) in
      let unknown = none' p sess at_p in
      elim (Bool-cases (ltb payload (length pktdata))) [
        | inl more ↦ elim (Run-cases (scan (drop payload pktdata) s)) [
          | inl (r, run) ↦
              let zero_r = zero_scan (drop payload pktdata) s r run in
              inl (
                (with_app p r.0 sess t', r.1),
                rw (found, at_p, unknown, more, run),
                (
                  with_app-IsValid p r.0 sess t' at_p valid',
                  with_app-NoApp p r.0 sess t' at_p zero_r none',
                ),
              )
          | inr (e, run) ↦ inr (e, run, rw (found, at_p, unknown, more, run))
        ]
        | inr empty ↦ inl ((t', s), rw (found, at_p, unknown, empty), (valid', none'))
      ]
