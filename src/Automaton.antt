-- ===== src/Automaton.antt =====
-- app_identify/loader/acsmx2.c and acsmx2.h: the Aho-Corasick automaton that the loader builds of
-- the patterns and that the searcher runs over a payload. The file is Snort's, changed for this
-- program: the callback is given the number of a pattern and a place in the text.
--
-- Pointers are positions and linked lists are lists; a table that is a null pointer is the empty
-- list. Memory is there for every allocation, and the counters of allocated memory are left out.
pub mod Memory
pub mod Free
pub mod Types
pub mod Queue
pub mod Lists
pub mod Build
pub mod Rows
pub mod Tree
pub mod Compile
pub mod Search
pub mod Scan
pub mod Examples
