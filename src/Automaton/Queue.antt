-- ===== src/Automaton/Queue.antt =====
-- The queue of states: `queue_init`, `queue_find`, `queue_add`, `queue_remove`, `queue_count` and
-- `queue_free`.
use orchid_linux.Base.{
  AreDistinct, ℕ, zero, suc, ◌+◌, ◌-◌, ◌≡◌, ◌≢◌, refl, inl, inr, Bool, true, false, List, [], ◌∷◌,
  ◌++◌, ◌==◌, ==_ne, arith, if◌then◌else◌, length, length-append, All, All-append, Bool-cases, IsIn,
  ap, ◌∙◌,
}

-- `QUEUE`: the nodes from the head to the tail, and the count.
pub record Queue : Type 0 where
  pub nodes : List ℕ
  pub count : ℕ

unfoldable pub queue_init : Queue
queue_init = record { nodes = []; count = 0 }

unfoldable pub find_node : List ℕ → ℕ → Bool
find_node [] state = false
find_node (q ∷ qs) state = if q == state then true else find_node qs state

unfoldable pub queue_find : Queue → ℕ → Bool
unfolding find_node
queue_find s state = find_node s.nodes state

unfoldable pub queue_add : Queue → ℕ → Queue
unfolding queue_find
queue_add s state =
    if queue_find s state
    then s
    else (record { nodes = s.nodes ++ state ∷ []; count = s.count + 1 })

-- The state at the head, 0 where the queue is empty, and what is left.
unfoldable pub queue_remove : Queue → ℕ × Queue
queue_remove s = elim s.nodes [
  | [] ↦ (0, s)
  | ◌∷◌ state [] ↦ (state, record { nodes = []; count = 0 })
  | ◌∷◌ state (◌∷◌ next rest) ↦ (state, record { nodes = next ∷ rest; count = s.count - 1 })
]

unfoldable pub queue_count : Queue → ℕ
queue_count s = s.count

-- `queue_free`, for at most so many rounds.
unfoldable pub queue_free : ℕ → Queue → Queue
unfolding queue_count
queue_free zero s = s
queue_free (suc rounds) s =
    let rest = queue_free rounds (queue_remove s).1 in if queue_count s == 0 then s else rest

-- The count is right, and no state stands twice.
pub record IsQueue (s : Queue) : Type 0 where
  pub counted : s.count ≡ length s.nodes
  pub distinct : AreDistinct s.nodes

-- What `queue_add` is to do: a state that is not waiting goes to the end.
abbrev pub with_state : List ℕ → ℕ → List ℕ
with_state nodes state = if find_node nodes state then nodes else nodes ++ state ∷ []

find_node-absent :
    (nodes : List ℕ) (state : ℕ) → find_node nodes state ≡ false → All (λ q. q ≢ state) nodes
unfolding find_node
find_node-absent [] state h = tt
find_node-absent (q ∷ qs) state h = elim (Bool-cases (q == state)) [
  | inl same ↦ absurd (cc (rw same at h))
  | inr other ↦ (λ e. ground (arith, e, other), find_node-absent qs state (rw other at h))
]

distinct-append :
    (nodes : List ℕ) (state : ℕ)
    → All (λ q. q ≢ state) nodes
    → AreDistinct nodes
    → AreDistinct (nodes ++ state ∷ [])
distinct-append [] state h d = (tt, tt)
distinct-append (q ∷ qs) state h d =
    (All-append (λ y. q ≢ y) qs (state ∷ []) d.0 (h.0, tt), distinct-append qs state h.1 d.1)

queue_add_nodes : (s : Queue) (state : ℕ) → (queue_add s state).nodes ≡ with_state s.nodes state
unfolding queue_add queue_find
queue_add_nodes s state = elim (Bool-cases (find_node s.nodes state)) [
  | inl here ↦ rw here
  | inr absent ↦ rw absent
]

find_node-IsIn : (nodes : List ℕ) (state : ℕ) → find_node nodes state ≡ true → IsIn state nodes
unfolding find_node
find_node-IsIn [] state h = absurd (cc h)
find_node-IsIn (q ∷ qs) state h = elim (Bool-cases (q == state)) [
  | inl same ↦ inl (ground (arith, same))
  | inr other ↦ inr (find_node-IsIn qs state (rw other at h))
]

pub queue_add-new :
    (s : Queue) (state : ℕ)
    → (IsIn state s.nodes → ⊥)
    → (queue_add s state).nodes ≡ s.nodes ++ state ∷ []
queue_add-new s state new = elim (Bool-cases (find_node s.nodes state)) [
  | inl here ↦ absurd (new (find_node-IsIn s.nodes state here))
  | inr absent ↦ queue_add_nodes s state ∙ rw absent refl
]

pub queue_count-waiting :
    (s : Queue) (state : ℕ) (rest : List ℕ)
    → IsQueue s
    → s.nodes ≡ state ∷ rest
    → (queue_count s == 0) ≡ false
unfolding queue_count
queue_count-waiting s state rest q e =
    ==_ne s.count 0 (omega (arith, q.counted, ap (λ l. length l) e))

pub queue_count-empty : (s : Queue) → IsQueue s → s.nodes ≡ [] → (queue_count s == 0) ≡ true
unfolding queue_count
queue_count-empty s q e = ap (λ n. n == 0) (q.counted ∙ ap (λ l. length l) e)

pub queue_add-IsQueue : (s : Queue) (state : ℕ) → IsQueue s → IsQueue (queue_add s state)
unfolding queue_add queue_find
queue_add-IsQueue s state q = elim (Bool-cases (find_node s.nodes state)) [
  | inl here ↦ rw here q
  | inr absent ↦ rw absent (record {
    counted = omega (arith, q.counted, length-append s.nodes (state ∷ []));
    distinct = distinct-append s.nodes state (find_node-absent s.nodes state absent) q.distinct;
  })
]

pub queue_remove_lem :
    (s : Queue) (state : ℕ) (rest : List ℕ)
    → IsQueue s
    → s.nodes ≡ state ∷ rest
    → ((queue_remove s).0 ≡ state) × ((queue_remove s).1.nodes ≡ rest) × IsQueue (queue_remove s).1
unfolding queue_remove
queue_remove_lem s state [] q e = rw e (refl, refl, record { counted = refl; distinct = tt })
queue_remove_lem s state (next ∷ rest) q e =
    let counted = rw e at q.counted in
    let distinct = rw e at q.distinct in
    rw e (refl, refl, record { counted = omega (arith, counted); distinct = distinct.1 })

queue_free_lem :
    (nodes : List ℕ) (s : Queue)
    → s.nodes ≡ nodes
    → IsQueue s
    → (queue_free (length nodes) s).nodes ≡ []
unfolding queue_free queue_count
queue_free_lem [] s e q = e
queue_free_lem (state ∷ rest) s e q =
    let (first, left, valid) = queue_remove_lem s state rest q e in
    let counted = rw e at q.counted in
    rw (==_ne s.count 0 (omega (arith, counted)))
      (queue_free_lem rest (queue_remove s).1 left valid)

-- On a queue whose count is right and whose states are different: `queue_add` puts a state at the
-- end unless it is waiting already, `queue_remove` takes the state at the head, both keep such a
-- queue, and `queue_free` ends after as many rounds as there are states, with none left.
pub queue_lem :
    (s : Queue)
    → IsQueue s
    → ((state : ℕ)
        → ((queue_add s state).nodes ≡ with_state s.nodes state) × IsQueue (queue_add s state))
      × ((state : ℕ) (rest : List ℕ)
          → s.nodes ≡ state ∷ rest
          → ((queue_remove s).0 ≡ state)
            × ((queue_remove s).1.nodes ≡ rest)
            × IsQueue (queue_remove s).1)
      × ((queue_free (queue_count s) s).nodes ≡ [])
unfolding queue_count
queue_lem s q = (
  λ state. (queue_add_nodes s state, queue_add-IsQueue s state q),
  λ state rest e. queue_remove_lem s state rest q e,
  rw (← q.counted) at (queue_free_lem s.nodes s refl q),
)
