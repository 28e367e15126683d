-- ===== src/Automaton/Examples/Memory.antt =====
-- Tests of the counters of memory.
use orchid_linux.Base.{◌≡◌, refl, true, arith}
use orchid_linux.Automaton.Memory.{
  Memory, IsMemory, type_pattern, ac_malloc, ac_malloc_dfa, ac_free, ac_free_dfa, init_memory,
  rows_above, memory_lem,
}

-- A row of 2000 bytes is in use, and the counter of all patterns is about to wrap.
abbrev in_use : Memory
in_use = record {
  total_memory = 2000;
  pattern_memory = 0xffff_fff0;
  matchlist_memory = 0;
  transtable_memory = 0;
  failstate_memory = 0;
  dfa_memory = 2000;
  dfa1_memory = 0;
  dfa2_memory = 2000;
  dfa4_memory = 0;
}

in_use-IsMemory : IsMemory in_use
in_use-IsMemory = record {
  total = omega arith;
  pattern = omega arith;
  matchlist = omega arith;
  transtable = omega arith;
  failstate = omega arith;
  dfa = omega arith;
  dfa1 = omega arith;
  dfa2 = omega arith;
  dfa4 = omega arith;
}

memory_lem_example :
    (ac_free true 32 type_pattern (ac_malloc true 32 type_pattern in_use).1 ≡ in_use)
    × (ac_free_dfa true 32 2 (ac_malloc_dfa true 32 2 in_use).1 ≡ in_use)
    × (rows_above (ac_malloc true 32 type_pattern in_use).1 ≡ rows_above in_use)
    × (rows_above (ac_malloc_dfa true 32 2 in_use).1 ≡ rows_above in_use)
    × (rows_above (ac_free true 32 type_pattern in_use) ≡ rows_above in_use)
    × (rows_above (ac_free_dfa true 32 2 in_use) ≡ rows_above in_use)
memory_lem_example = memory_lem 32 type_pattern 2 true in_use in_use-IsMemory

-- `acsm_init_summary` leaves the counters of the rows apart.
init_memory-rows_above : rows_above (init_memory in_use) ≡ 2000
unfolding init_memory
init_memory-rows_above = refl
