-- ===== src/Session/Valid.antt =====
-- `session_table_find` refines a map from conversations to sessions.
use orchid_linux.Base.{
  ℕ, ◌+◌, ◌<◌, ◌≡◌, refl, ◌⊎◌, inl, inr, Bool, List, [], ◌∷◌, ◌++◌, Option, none, some, arith,
  if◌then◌else◌, Bool-cases, Option-cases, length, get_elem?, length-append, get_elem?-append_old,
  get_elem?-append_one, get_elem?-append_length, u32, u64,
}
use orchid_linux.Session.Defs.{
  FlowKey, Flow, Session, SessionTable, hash5tuple, hash_table_size, same_key, insert_head,
  opposite, new_session, create_session,
}
use orchid_linux.Session.View.{
  view, view-insert_head, length-insert_head, IsPlaced, insert_head-IsPlaced, hash5tuple-lt,
  same_key_iff,
}

-- A session of the table: both of its directions are found, and its number is its position
-- counted from 1, cut to 32 bits.
pub record IsLinked (h : List (List Flow)) (p : ℕ) (s : Session) : Type 0 where
  pub forward : view h s.flow0.key ≡ some p
  pub backward : view h s.flow1.key ≡ some p
  pub directions : s.flow1.key ≡ opposite s.flow0.key
  pub numbered : s.session_id ≡ u32 (p + 1)

-- The invariant of the three globals.
pub record IsValid (t : SessionTable) : Type 0 where
  pub width : length t.htable ≡ hash_table_size
  pub placed : IsPlaced t.htable
  pub counted : t.next_sess_id ≡ u64 (length t.sessions)
  pub linked : (p : ℕ) (s : Session) → get_elem? t.sessions p ≡ some s → IsLinked t.htable p s
  pub owned :
      (k : FlowKey) (p : ℕ)
      → view t.htable k ≡ some p
      → (s : Session) × (get_elem? t.sessions p ≡ some s) × ((s.flow0.key ≡ k) ⊎ (s.flow1.key ≡ k))

-- Both directions of a conversation are found as one session.
found_opposite :
    (t : SessionTable) (k : FlowKey) (p : ℕ)
    → IsValid t
    → view t.htable k ≡ some p
    → view t.htable (opposite k) ≡ some p
found_opposite t k p valid found =
    let (s, at_p, side) = valid.owned k p found in
    let link = valid.linked p s at_p in
    elim side [
      | inl e ↦ rw (← e, ← link.directions) link.backward
      | inr e ↦ rw (← e, link.directions) link.forward
    ]

pub view-opposite :
    (t : SessionTable) (k : FlowKey) → IsValid t → view t.htable (opposite k) ≡ view t.htable k
view-opposite t k valid = elim (Option-cases (view t.htable k)) [
  | inr (p, found) ↦ rw (found_opposite t k p valid found, found)
  | inl nothing ↦ elim (Option-cases (view t.htable (opposite k))) [
    | inl none_too ↦ rw (none_too, nothing)
    | inr (p, found) ↦ rw (found, ← found_opposite t (opposite k) p valid found)
  ]
]

module _ (k : FlowKey) (t : SessionTable) (valid : IsValid t) where
  abbrev fits : hash5tuple k < length t.htable
  fits = rw valid.width (hash5tuple-lt k)

  abbrev fits_opposite : hash5tuple (opposite k) < length t.htable
  fits_opposite = rw valid.width (hash5tuple-lt (opposite k))

  -- A new session is found by both of its directions; every other lookup is as before.
  pub create_session-view :
      (q : FlowKey)
      → view (create_session k t).1.htable q ≡ (
          if same_key (opposite k) q
          then some (length t.sessions)
          else (if same_key k q then some (length t.sessions) else view t.htable q))
  unfolding create_session new_session
  create_session-view q =
      let f : Flow = record { psess = length t.sessions; flowflag = 0; key = k } in
      let g : Flow = record { psess = length t.sessions; flowflag = 0; key = opposite k } in
      let h = insert_head t.htable (hash5tuple k) f in
      rw (
        view-insert_head h g q (rw length-insert_head fits_opposite),
        view-insert_head t.htable f q fits,
      )

  -- Where neither direction was known, nothing that was found is lost.
  kept :
      (q : FlowKey) (p : ℕ)
      → view t.htable k ≡ none
      → view t.htable q ≡ some p
      → view (create_session k t).1.htable q ≡ some p
  kept q p absent found =
      rw (create_session-view q)
        (ground (arith, same_key_iff (opposite k) q, same_key_iff k q, view-opposite t k valid))

  -- The session that `create_session` appends.
  abbrev created : Session
  created = new_session (length t.sessions) (u64 (t.next_sess_id + 1)) k

  pub new_found :
      (q : FlowKey)
      → (opposite k ≡ q) ⊎ (k ≡ q)
      → view (create_session k t).1.htable q ≡ some (length t.sessions)
  new_found q side =
      rw (create_session-view q) (ground (arith, same_key_iff (opposite k) q, same_key_iff k q))

  module _ (absent : view t.htable k ≡ none) where
    new-IsLinked :
        (p : ℕ) (s : Session)
        → get_elem? (t.sessions ++ created ∷ []) p ≡ some s
        → IsLinked (create_session k t).1.htable p s
    unfolding new_session
    new-IsLinked p s h = elim (get_elem?-append_one t.sessions created s p h) [
      | inl old ↦
          let l = valid.linked p s old in
          record {
            forward = kept _ p absent l.forward;
            backward = kept _ p absent l.backward;
            directions = l.directions;
            numbered = l.numbered;
          }
      | inr (last, same) ↦
          rw (last, same)
            (record {
              forward = new_found k (inr refl);
              backward = new_found (opposite k) (inl refl);
              directions = refl;
              numbered = omega (arith, valid.counted);
            })
    ]

    at_end :
        {p : ℕ} → length t.sessions ≡ p → get_elem? (t.sessions ++ created ∷ []) p ≡ some created
    at_end e = rw (← e) (get_elem?-append_length t.sessions created [])

    new_owned :
        (q : FlowKey) (p : ℕ)
        → view (create_session k t).1.htable q ≡ some p
        → (s : Session) × (get_elem? (t.sessions ++ created ∷ []) p ≡ some s)
          × ((s.flow0.key ≡ q) ⊎ (s.flow1.key ≡ q))
    unfolding new_session
    new_owned q p h = elim (Bool-cases (same_key (opposite k) q)) [
      | inl same ↦ (
        created,
        at_end (last (inl ((same_key_iff (opposite k) q).0 same))),
        inr ((same_key_iff (opposite k) q).0 same),
      )
      | inr other ↦ elim (Bool-cases (same_key k q)) [
        | inl same ↦ (
          created,
          at_end (last (inr ((same_key_iff k q).0 same))),
          inl ((same_key_iff k q).0 same),
        )
        | inr new ↦
            let (s, at_p, side) = valid.owned q p (rw (create_session-view q, other, new) at h) in
            (s, get_elem?-append_old t.sessions _ p s at_p, side)
      ]
    ]
      where
        last : (opposite k ≡ q) ⊎ (k ≡ q) → length t.sessions ≡ p
        last side = cc (h, new_found q side)

    pub create_session-IsValid : IsValid (create_session k t).1
    unfolding create_session
    create_session-IsValid = record {
      width = rw (length-insert_head, length-insert_head) valid.width;
      placed =
          insert_head-IsPlaced _ _ (rw length-insert_head fits_opposite)
            (insert_head-IsPlaced t.htable _ fits valid.placed);
      counted = rw length-append (omega (arith, valid.counted));
      linked = new-IsLinked;
      owned = new_owned;
    }

-- What a caller knows of the table: the session of each five fields, and how many there are.
pub record Conversations : Type 0 where
  pub known : FlowKey → Option ℕ
  pub count : ℕ

abbrev pub conversations : SessionTable → Conversations
conversations t = record { known = view t.htable; count = length t.sessions }

-- The abstract operation: a known flow gives its session; an unknown one starts a session for
-- both directions, where there is memory.
abbrev pub find_conversation : Bool → FlowKey → Conversations → Option ℕ × Conversations
find_conversation memory k c = elim (c.known k) [
  | some p ↦ (some p, c)
  | none ↦
      if memory
      then (
        some c.count,
        record {
          known = λ q.
              if same_key (opposite k) q
              then some c.count
              else (if same_key k q then some c.count else c.known q);
          count = c.count + 1;
        },
      )
      else (none, c)
]

-- The table does what the abstract operation does, and keeps its invariant.
pub record Refines (r : Option ℕ × SessionTable) (a : Option ℕ × Conversations) : Type 0 where
  pub result : r.0 ≡ a.0
  pub state : conversations r.1 ≡ a.1
  pub valid : IsValid r.1
