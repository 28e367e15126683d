-- ===== src/Session/View.antt =====
-- The flow table as a map from the five fields of a flow to a session.
use orchid_linux.Base.{
  ℕ, ◌<◌, ◌≡◌, refl, ◌↔◌, ◌≢◌, inl, inr, true, List, [], ◌∷◌, Option, none, some, arith,
  if◌then◌else◌, Bool-cases, Option-cases, length, replicate, All, length-set, get_or-set_self,
  get_or-set_ne, get_or-replicate,
}
use native.Mathlib.Decide.{ℕ_discrete}
use orchid_linux.Session.Defs.{
  FlowKey, Flow, hash5tuple, hash_table_size, same_key, find_flow, bucket, insert_head, opposite,
}

-- A flow hashes into the table.
pub hash5tuple-lt : (k : FlowKey) → hash5tuple k < hash_table_size
unfolding hash5tuple
hash5tuple-lt k = omega arith

pub same_key_iff : (a b : FlowKey) → (same_key a b ≡ true) ↔ (a ≡ b)
same_key_iff a b = ground arith

pub opposite-opposite : (k : FlowKey) → opposite (opposite k) ≡ k
opposite-opposite k = refl

-- What the first loop of `session_table_find` gives.
unfoldable pub view : List (List Flow) → FlowKey → Option ℕ
view h k = find_flow k (bucket h (hash5tuple k))

pub length-insert_head :
    (h : List (List Flow)) (i : ℕ) (f : Flow) → length (insert_head h i f) ≡ length h
unfolding insert_head
length-insert_head h i f = length-set h i _

bucket-insert_head_self :
    (h : List (List Flow)) (i : ℕ) (f : Flow)
    → i < length h
    → bucket (insert_head h i f) i ≡ f ∷ bucket h i
unfolding insert_head
bucket-insert_head_self h i f lt = get_or-set_self h i _ [] lt

bucket-insert_head_ne :
    (h : List (List Flow)) (i j : ℕ) (f : Flow) → i ≢ j → bucket (insert_head h i f) j ≡ bucket h j
unfolding insert_head
bucket-insert_head_ne h i j f ne = get_or-set_ne h i j _ [] ne

-- A linked flow is found by its own fields, and every other lookup is as before.
pub view-insert_head :
    (h : List (List Flow)) (f : Flow) (q : FlowKey)
    → hash5tuple f.key < length h
    → view (insert_head h (hash5tuple f.key) f) q
      ≡ (if same_key f.key q then some f.psess else view h q)
unfolding view find_flow
view-insert_head h f q lt = elim (ℕ_discrete (hash5tuple f.key) (hash5tuple q)) [
  | yes same ↦ rw (← same, bucket-insert_head_self h (hash5tuple f.key) f lt)
  | no other ↦
      rw (bucket-insert_head_ne h (hash5tuple f.key) (hash5tuple q) f other)
        (ground (arith, same_key_iff f.key q))
]

-- Every flow stands in the bucket that it hashes to.
abbrev pub IsPlaced : List (List Flow) → Type 0
IsPlaced h = (i : ℕ) → All (λ f. hash5tuple f.key ≡ i) (bucket h i)

pub insert_head-IsPlaced :
    (h : List (List Flow)) (f : Flow)
    → hash5tuple f.key < length h
    → IsPlaced h
    → IsPlaced (insert_head h (hash5tuple f.key) f)
insert_head-IsPlaced h f lt placed i = elim (ℕ_discrete (hash5tuple f.key) i) [
  | yes same ↦ rw (← same, bucket-insert_head_self h (hash5tuple f.key) f lt) (refl, placed _)
  | no other ↦ rw (bucket-insert_head_ne h (hash5tuple f.key) i f other) (placed i)
]

-- A flow that is found in a bucket hashes to it.
find_flow-All :
    (k : FlowKey) (i : ℕ) (fs : List Flow) (p : ℕ)
    → All (λ f. hash5tuple f.key ≡ i) fs
    → find_flow k fs ≡ some p
    → hash5tuple k ≡ i
unfolding find_flow
find_flow-All k i [] p all h = absurd (grind arith)
find_flow-All k i (f ∷ fs) p all h = elim (Bool-cases (same_key f.key k)) [
  | inl same ↦ rw (← (same_key_iff f.key k).0 same) all.0
  | inr other ↦ find_flow-All k i fs p all.1 (rw other at h)
]

-- A search in another bucket finds nothing that the search in the own bucket does not.
pub find_flow_elsewhere :
    (h : List (List Flow)) (k : FlowKey) (i : ℕ)
    → IsPlaced h
    → view h k ≡ none
    → find_flow k (bucket h i) ≡ none
unfolding view
find_flow_elsewhere h k i placed absent = elim (Option-cases (find_flow k (bucket h i))) [
  | inl nothing ↦ nothing
  | inr (p, found) ↦ rw (← find_flow-All k i (bucket h i) p (placed i) found) absent
]

-- A table with empty buckets finds nothing.
pub view-replicate : (n : ℕ) (q : FlowKey) → view (replicate n []) q ≡ none
unfolding view find_flow
view-replicate n q = rw (get_or-replicate {A = List Flow} n [] (hash5tuple q))

pub replicate-IsPlaced : (n : ℕ) → IsPlaced (replicate n [])
replicate-IsPlaced n i = rw (get_or-replicate {A = List Flow} n [] i) tt
