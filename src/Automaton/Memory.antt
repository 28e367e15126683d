-- ===== src/Automaton/Memory.antt =====
-- The counters of acsmx2.c for the memory that is in use: `AC_MALLOC`, `AC_MALLOC_DFA`, `AC_FREE`,
-- `AC_FREE_DFA` and `acsm_init_summary`.
--
-- A counter is an `int`, kept as its 32 bits. Whether `calloc` gives memory and whether a pointer is
-- null are Boolean arguments; the pointer that comes back is null or not. A type that is none of the
-- enumeration cannot be written here.
use orchid_linux.Base.{
  ℕ, ◌+◌, ◌-◌, ◌<◌, ◌^◌, ◌≡◌, refl, Bool, true, false, inl, inr, Bool-cases, ◌==◌, if◌then◌else◌,
  arith, u32,
}

-- The static counters.
pub record Memory : Type 0 where
  pub total_memory : ℕ
  pub pattern_memory : ℕ
  pub matchlist_memory : ℕ
  pub transtable_memory : ℕ
  pub failstate_memory : ℕ
  pub dfa_memory : ℕ
  pub dfa1_memory : ℕ
  pub dfa2_memory : ℕ
  pub dfa4_memory : ℕ

-- `Acsm2MemoryType`.
pub data MemoryType : Type 0 where
  type_none : MemoryType
  type_pattern : MemoryType
  type_matchlist : MemoryType
  type_transtable : MemoryType
  type_failstate : MemoryType

-- `x += n` and `x -= n` on an `int`.
abbrev pub plus : ℕ → ℕ → ℕ
plus x n = u32 (x + n)

abbrev pub minus : ℕ → ℕ → ℕ
minus x n = u32 (x + (2 ^ 32 - u32 n))

-- `AC_MALLOC`.
unfoldable pub ac_malloc : Bool → ℕ → MemoryType → Memory → Bool × Memory
ac_malloc false n type m = (false, m)
ac_malloc true n type m =
    let m1 : Memory = elim type [
      | type_pattern ↦ record m { pattern_memory = plus m.pattern_memory n }
      | type_matchlist ↦ record m { matchlist_memory = plus m.matchlist_memory n }
      | type_transtable ↦ record m { transtable_memory = plus m.transtable_memory n }
      | type_failstate ↦ record m { failstate_memory = plus m.failstate_memory n }
      | type_none ↦ m
    ] in
    (true, record m1 { total_memory = plus m1.total_memory n })

-- `AC_MALLOC_DFA`.
unfoldable pub ac_malloc_dfa : Bool → ℕ → ℕ → Memory → Bool × Memory
ac_malloc_dfa false n sizeofstate m = (false, m)
ac_malloc_dfa true n sizeofstate m =
    let m1 : Memory =
      if sizeofstate == 1
      then record m { dfa1_memory = plus m.dfa1_memory n }
      else if sizeofstate == 2
      then record m { dfa2_memory = plus m.dfa2_memory n }
      else record m { dfa4_memory = plus m.dfa4_memory n } in
    (true, record m1 { dfa_memory = plus m1.dfa_memory n; total_memory = plus m1.total_memory n })

-- `AC_FREE`; the flag says whether the pointer is there.
unfoldable pub ac_free : Bool → ℕ → MemoryType → Memory → Memory
ac_free false n type m = m
ac_free true n type m =
    let m1 : Memory = elim type [
      | type_pattern ↦ record m { pattern_memory = minus m.pattern_memory n }
      | type_matchlist ↦ record m { matchlist_memory = minus m.matchlist_memory n }
      | type_transtable ↦ record m { transtable_memory = minus m.transtable_memory n }
      | type_failstate ↦ record m { failstate_memory = minus m.failstate_memory n }
      | type_none ↦ m
    ] in
    record m1 { total_memory = minus m1.total_memory n }

-- `AC_FREE_DFA`.
unfoldable pub ac_free_dfa : Bool → ℕ → ℕ → Memory → Memory
ac_free_dfa false n sizeofstate m = m
ac_free_dfa true n sizeofstate m =
    let m1 : Memory =
      if sizeofstate == 1
      then record m { dfa1_memory = minus m.dfa1_memory n }
      else if sizeofstate == 2
      then record m { dfa2_memory = minus m.dfa2_memory n }
      else record m { dfa4_memory = minus m.dfa4_memory n } in
    record m1 { dfa_memory = minus m1.dfa_memory n; total_memory = minus m1.total_memory n }

-- What `acsm_init_summary` does to the counters of memory: those of the rows by the bytes of a state
-- stay as they are.
unfoldable pub init_memory : Memory → Memory
init_memory m = record m {
  total_memory = 0;
  pattern_memory = 0;
  matchlist_memory = 0;
  transtable_memory = 0;
  dfa_memory = 0;
  failstate_memory = 0;
}

-- What the three counters of the rows have above the one of all rows.
abbrev pub rows_above : Memory → ℕ
rows_above m = minus (m.dfa1_memory + m.dfa2_memory + m.dfa4_memory) m.dfa_memory

-- Every counter is a word of 32 bits.
pub record IsMemory (m : Memory) : Type 0 where
  pub total : m.total_memory < 2 ^ 32
  pub pattern : m.pattern_memory < 2 ^ 32
  pub matchlist : m.matchlist_memory < 2 ^ 32
  pub transtable : m.transtable_memory < 2 ^ 32
  pub failstate : m.failstate_memory < 2 ^ 32
  pub dfa : m.dfa_memory < 2 ^ 32
  pub dfa1 : m.dfa1_memory < 2 ^ 32
  pub dfa2 : m.dfa2_memory < 2 ^ 32
  pub dfa4 : m.dfa4_memory < 2 ^ 32

minus-plus : (x n : ℕ) → x < 2 ^ 32 → minus (plus x n) n ≡ x
minus-plus x n h = omega arith

ac_free-ac_malloc :
    (n : ℕ) (type : MemoryType) (m : Memory)
    → IsMemory m
    → ac_free true n type (ac_malloc true n type m).1 ≡ m
unfolding ac_free ac_malloc
ac_free-ac_malloc n type_none m h = rw (minus-plus m.total_memory n h.total) refl
ac_free-ac_malloc n type_pattern m h =
    rw (minus-plus m.total_memory n h.total, minus-plus m.pattern_memory n h.pattern) refl
ac_free-ac_malloc n type_matchlist m h =
    rw (minus-plus m.total_memory n h.total, minus-plus m.matchlist_memory n h.matchlist) refl
ac_free-ac_malloc n type_transtable m h =
    rw (minus-plus m.total_memory n h.total, minus-plus m.transtable_memory n h.transtable) refl
ac_free-ac_malloc n type_failstate m h =
    rw (minus-plus m.total_memory n h.total, minus-plus m.failstate_memory n h.failstate) refl

ac_free_dfa-ac_malloc_dfa :
    (n sizeofstate : ℕ) (m : Memory)
    → IsMemory m
    → ac_free_dfa true n sizeofstate (ac_malloc_dfa true n sizeofstate m).1 ≡ m
unfolding ac_free_dfa ac_malloc_dfa
ac_free_dfa-ac_malloc_dfa n sizeofstate m h =
    let total = minus-plus m.total_memory n h.total in
    let dfa = minus-plus m.dfa_memory n h.dfa in
    elim (Bool-cases (sizeofstate == 1)) [
      | inl one ↦ rw (one, total, dfa, minus-plus m.dfa1_memory n h.dfa1) refl
      | inr not_one ↦ elim (Bool-cases (sizeofstate == 2)) [
        | inl two ↦ rw (not_one, two, total, dfa, minus-plus m.dfa2_memory n h.dfa2) refl
        | inr other ↦ rw (not_one, other, total, dfa, minus-plus m.dfa4_memory n h.dfa4) refl
      ]
    ]

-- Each of the four leaves the difference of the counters as it is.
ac_malloc-rows_above :
    (memory : Bool) (n : ℕ) (type : MemoryType) (m : Memory)
    → rows_above (ac_malloc memory n type m).1 ≡ rows_above m
unfolding ac_malloc
ac_malloc-rows_above false n type m = refl
ac_malloc-rows_above true n type_none m = refl
ac_malloc-rows_above true n type_pattern m = refl
ac_malloc-rows_above true n type_matchlist m = refl
ac_malloc-rows_above true n type_transtable m = refl
ac_malloc-rows_above true n type_failstate m = refl

ac_free-rows_above :
    (here : Bool) (n : ℕ) (type : MemoryType) (m : Memory)
    → rows_above (ac_free here n type m) ≡ rows_above m
unfolding ac_free
ac_free-rows_above false n type m = refl
ac_free-rows_above true n type_none m = refl
ac_free-rows_above true n type_pattern m = refl
ac_free-rows_above true n type_matchlist m = refl
ac_free-rows_above true n type_transtable m = refl
ac_free-rows_above true n type_failstate m = refl

ac_malloc_dfa-rows_above :
    (memory : Bool) (n sizeofstate : ℕ) (m : Memory)
    → rows_above (ac_malloc_dfa memory n sizeofstate m).1 ≡ rows_above m
unfolding ac_malloc_dfa
ac_malloc_dfa-rows_above false n sizeofstate m = refl
ac_malloc_dfa-rows_above true n sizeofstate m = elim (Bool-cases (sizeofstate == 1)) [
  | inl one ↦ rw one (omega arith)
  | inr not_one ↦ elim (Bool-cases (sizeofstate == 2)) [
    | inl two ↦ rw (not_one, two) (omega arith)
    | inr other ↦ rw (not_one, other) (omega arith)
  ]
]

ac_free_dfa-rows_above :
    (here : Bool) (n sizeofstate : ℕ) (m : Memory)
    → rows_above (ac_free_dfa here n sizeofstate m) ≡ rows_above m
unfolding ac_free_dfa
ac_free_dfa-rows_above false n sizeofstate m = refl
ac_free_dfa-rows_above true n sizeofstate m = elim (Bool-cases (sizeofstate == 1)) [
  | inl one ↦ rw one (omega arith)
  | inr not_one ↦ elim (Bool-cases (sizeofstate == 2)) [
    | inl two ↦ rw (not_one, two) (omega arith)
    | inr other ↦ rw (not_one, other) (omega arith)
  ]
]

-- On counters of 32 bits: what `AC_FREE` and `AC_FREE_DFA` take off is what `AC_MALLOC` and
-- `AC_MALLOC_DFA` added for the same size and kind, and whatever the four do, the three counters of
-- the rows together stay as far above the one of all rows as they were, counted modulo 2 ^ 32.
pub memory_lem :
    (n : ℕ) (type : MemoryType) (sizeofstate : ℕ) (here : Bool) (m : Memory)
    → IsMemory m
    → (ac_free true n type (ac_malloc true n type m).1 ≡ m)
      × (ac_free_dfa true n sizeofstate (ac_malloc_dfa true n sizeofstate m).1 ≡ m)
      × (rows_above (ac_malloc here n type m).1 ≡ rows_above m)
      × (rows_above (ac_malloc_dfa here n sizeofstate m).1 ≡ rows_above m)
      × (rows_above (ac_free here n type m) ≡ rows_above m)
      × (rows_above (ac_free_dfa here n sizeofstate m) ≡ rows_above m)
memory_lem n type sizeofstate here m h = (
  ac_free-ac_malloc n type m h,
  ac_free_dfa-ac_malloc_dfa n sizeofstate m h,
  ac_malloc-rows_above here n type m,
  ac_malloc_dfa-rows_above here n sizeofstate m,
  ac_free-rows_above here n type m,
  ac_free_dfa-rows_above here n sizeofstate m,
)
