-- ===== src/Session/Defs.antt =====
-- The records of session.h and the functions of session.c.
use orchid_linux.Base.{
  ℕ, ◌+◌, ◌%◌, bit_or, bit_xor, Bool, ◌&&◌, List, [], ◌∷◌, ◌++◌, Option, none, some, ◌==◌,
  if◌then◌else◌, length, get_or, set, replicate, u32, u64, ◌<<<◌, ◌>>>◌,
}
use orchid_linux.Base.Int.{ℤ, pos, negsuc}

abbrev pub hash_table_size : ℕ
hash_table_size = 5471

abbrev pub flow_init_side : ℕ
flow_init_side = 0

-- The five fields that a flow is found by.
pub record FlowKey : Type 0 where
  pub sip : ℕ
  pub dip : ℕ
  pub sport : ℕ
  pub dport : ℕ
  pub proto : ℕ

-- The other direction of the same conversation.
abbrev pub opposite : FlowKey → FlowKey
opposite k = record { sip = k.dip; dip = k.sip; sport = k.dport; dport = k.sport; proto = k.proto }

-- `struct flow_s`; `psess` is the position of the session.
pub record Flow : Type 0 where
  pub psess : ℕ
  pub flowflag : ℕ
  pub key : FlowKey

-- `struct session_s`.
pub record Session : Type 0 where
  pub flow0 : Flow
  pub flow1 : Flow
  pub session_id : ℕ
  pub app_id : ℕ
  pub sflag : ℕ

-- The globals of session.c: `flow_table`, `session_table` and `g_next_sess_id`. Where `htable` is
-- NULL the list is empty.
pub record SessionTable : Type 0 where
  pub table_size : ℕ
  pub htable : List (List Flow)
  pub sessions : List Session
  pub next_sess_id : ℕ

-- `hash`, on a 32-bit unsigned integer.
unfoldable pub hash : ℕ → ℕ
hash a =
    let a1 = u32 (u32 (a + 0x7ed55d16) + u32 (a <<< 12)) in
    let a2 = bit_xor (bit_xor a1 0xc761c23c) (a1 >>> 19) in
    let a3 = u32 (u32 (a2 + 0x165667b1) + u32 (a2 <<< 5)) in
    let a4 = bit_xor (u32 (a3 + 0xd3a2646c)) (u32 (a3 <<< 9)) in
    let a5 = u32 (u32 (a4 + 0xfd7046c5) + u32 (a4 <<< 3)) in
    bit_xor (bit_xor a5 0xb55a4f09) (a5 >>> 16)

-- `hash5tuple`; the arguments of `hash` are cut to 32 bits by its parameter's type.
unfoldable pub hash5tuple : FlowKey → ℕ
unfolding hash
hash5tuple k =
    bit_xor
      (bit_xor (bit_xor (hash (u32 k.sip)) (hash (u32 k.dip)))
        (hash (u32 (bit_or (k.sport <<< 16) k.dport))))
      (hash (u32 k.proto))
    % hash_table_size

-- The test of both TAILQ_FOREACH loops.
abbrev pub same_key : FlowKey → FlowKey → Bool
same_key a b =
    a.sip == b.sip
    && (a.dip == b.dip && (a.sport == b.sport && (a.dport == b.dport && a.proto == b.proto)))

-- One TAILQ_FOREACH loop of `session_table_find`, over one bucket.
unfoldable pub find_flow : FlowKey → List Flow → Option ℕ
find_flow k [] = none
find_flow k (f ∷ fs) = if same_key f.key k then some f.psess else find_flow k fs

-- `&flow_table.htable[i]`.
abbrev pub bucket : List (List Flow) → ℕ → List Flow
bucket h i = get_or h i []

-- `TAILQ_INSERT_HEAD(&flow_table.htable[i], f, hash_link)`.
unfoldable pub insert_head : List (List Flow) → ℕ → Flow → List (List Flow)
insert_head h i f = set h i (f ∷ bucket h i)

-- The session that `session_table_find` allocates by `calloc` and fills; `p` is its pointer.
-- The flag of `flow1` stays what `calloc` left there.
unfoldable pub new_session : ℕ → ℕ → FlowKey → Session
new_session p id k = record {
  flow0 = record { psess = p; flowflag = flow_init_side; key = k };
  flow1 = record { psess = p; flowflag = 0; key = opposite k };
  session_id = u32 id;
  app_id = 0;
  sflag = 0;
}

-- The end of `session_table_find`, where no flow was found and `calloc` gave memory.
unfoldable pub create_session : FlowKey → SessionTable → ℕ × SessionTable
unfolding insert_head new_session
create_session k t =
    let p = length t.sessions in
    let id = u64 (t.next_sess_id + 1) in
    let s = new_session p id k in
    let h = insert_head t.htable (hash5tuple k) s.flow0 in
    (
      p,
      record t {
        htable = insert_head h (hash5tuple (opposite k)) s.flow1;
        sessions = t.sessions ++ s ∷ [];
        next_sess_id = id;
      },
    )

-- `session_table_find`. The flag says whether `calloc` gives memory; `none` is NULL.
unfoldable pub session_table_find : Bool → FlowKey → SessionTable → Option ℕ × SessionTable
unfolding find_flow
session_table_find memory k t = elim (find_flow k (bucket t.htable (hash5tuple k))) [
  | some p ↦ (some p, t)
  | none ↦ elim (find_flow k (bucket t.htable (hash5tuple (opposite k)))) [
    | some p ↦ (some p, t)
    | none ↦ if memory then (let (p, t') = create_session k t in (some p, t')) else (none, t)
  ]
]

-- `create_session_table`; the flag says whether `malloc` gives memory.
unfoldable pub create_session_table : Bool → SessionTable → ℤ × SessionTable
create_session_table memory t =
    if memory
    then (
      pos 0,
      record t {
        table_size = hash_table_size;
        htable = replicate hash_table_size [];
        sessions = [];
      },
    )
    else (negsuc 0, record t { htable = [] })

-- `static flow_table_t flow_table = { 0, NULL }` and the other globals at the start.
abbrev pub no_table : SessionTable
no_table = record { table_size = 0; htable = []; sessions = []; next_sess_id = 0 }
