-- ===== src/Lib.antt =====
-- A verification library for ORCHID-Linux, which names the application that a packet belongs to.
--
-- The program reads signatures from output/sig.conf (app_identify/loader: sig.l, sig.y,
-- key_pair.h, sig_loader.c, http_parse.c, application.c), makes tables and patterns of them, and
-- scans the payload of each packet of a capture (packet_process.c) with an automaton
-- (loader/acsmx2.c). The matches that the automaton reports are collected by
-- searcher/http_search.c, which then looks for signatures whose elements are complete. Packets of
-- one conversation share a session (session.c).
--
-- - Base: naturals, lists, faults, words, bits and C texts.
-- - Session (app_identify/session.c, session.h): Session.Defs is the code, Session.View what a
--   table of buckets says of a flow, Session.Valid the invariant and the abstract table of
--   conversations, Session.Refine the theorems.
-- - Loader (app_identify/loader): Loader.Types is application.h, Loader.HttpSig the constructors
--   of application.c and the parsers of http_parse.c, Loader.HttpSig.RoundTrip their theorem.
--   Loader.KeyPair is key_pair.h and the actions of sig.y, Loader.KeyPair.Built their theorems.
--   Loader.Install is get_Application_summary and install_Application of sig_loader.c, built with
--   TEST_AC: Layout, Elements, Signatures and Apps follow its nested loops, Summary is the counts,
--   Kinds and Correct what the tables are.
-- - Matcher (app_identify/searcher): Matcher.Ids is the macros on pattern numbers,
--   Matcher.Check is pattern_check, with its specification in Matcher.Check.Spec and the theorem
--   in Matcher.Check.Correct. Matcher.Found is MatchFound and httpParse2, Matcher.Graph dfaSearch
--   of searcher.c and httpParse.
-- - Automaton (app_identify/loader/acsmx2.c, acsmx2.h): Automaton.Types is the header, Queue the
--   queue of states, Lists the lists of transitions, Build the trie and the two automata that are
--   made of it, Rows the storage formats and their lookup, Compile acsmNew2 to acsmCompile2 and
--   sig_parse_adapter_ac, Search the searches. Rows.Banded, Rows.Sparse, Rows.SparseBands and
--   Rows.Agree hold the theorems on the formats, Rows.Transitions, Compile.Transitions and
--   Compile.Table those on the tables, Search.Runs those on the search. Scan is httpParse2 with the
--   search.
--   Build.Failure is the walk along the failure states, Build.Trie and Build.Patterns the trie, and
--   Compile.Patterns that all patterns are in it. Tree is the trie as a tree of words: Tree.Longest
--   the longest word that ends a text, Tree.Layers the order in which a queue meets the states,
--   Tree.Count a bound on them, Tree.Ends the texts that end a text. Build.Words is the trie of
--   AddPatternStates as such a tree, Build.Nfa is Build_NFA on it and Build.Dfa Convert_NFA_To_DFA.
--   Compile.Tree, Compile.Ready, Compile.Finds, Compile.Correct and Compile.Matcher put the parts of
--   acsmCompile2 together, Search.Calls is where the search calls its callback, and Compile.Adapter
--   and Compile.Whole are sig_parse_adapter_ac with httpParse2. Scan.Parsed says
--   where the calls stand in the text, and Scan.Installed adds the tables of install_Application and
--   goes on to what pattern_check prints. Memory is the
--   counters of the memory in use, AC_MALLOC to AC_FREE_DFA, and Free what acsmFree2 frees.
-- - Regex (regexParse/main.cpp, reassemble of regexParse/lexertl/generator.hpp): Regex_Parse, with
--   lexertl as a parameter. Regex.Reassembled is the loop over the table, Regex.Graph what the graph
--   says.
-- - Packet (app_identify/packet_process.c, pktHeader.h): packet_handler over the captured bytes.
-- - Program (app_identify/main.c, dump_session_table of session.c): the loop over a capture;
--   Program.Setup is load_sig and resource_init, Loader.Dump what the loader prints.
--
-- The counts of the states, patterns and transitions, the size of the tables and the place of a match
-- are ints: they are 32-bit words. The bytes that printf reads of a match are read from the
-- text. Pointers into arrays are positions, queues are lists, text is the list of its bytes. An access
-- outside an array, the use of a null pointer and a failed assertion are the faults of
-- Base.Faults; a theorem that says that a run returns says that none of these happens. Memory
-- allocation is a Boolean argument. What is printed is a list of records. Loops are by structural
-- recursion on the bytes, patterns or elements they visit. The loops over the queues and along the
-- failure states of the automaton have a bound `rounds`, and the fault no_fuel behind it; twice the
-- bytes of all patterns and one are enough, since each state is taken from a queue once and a walk
-- along the failure states goes to shorter texts.
--
-- The patterns have fewer than 2 ^ 28 - 1 bytes in all, since the size of a table of pointers to the
-- states is an int, and an alphabet has at most MAX_ALPHABET_SIZE inputs, since three conversions
-- fill an array of that size on the stack; beyond that the definitions have a fault as the source has.
--
-- Not modelled: the lexer generator lexertl, the queues of include/queue.h and libpcap, which are
-- copies of other projects or outside the tree; of acsmx2.c the statistics but those of memory, the
-- printing, and the trees of acsmCompile2, whose callbacks are null in this program; with
-- acsmCompressStates, which the program does not call, states of 1 or 2 bytes are modelled for the
-- full format only.
pub mod Base
pub mod Session
pub mod Loader
pub mod Matcher
pub mod Automaton
pub mod Regex
pub mod Packet
pub mod Program
