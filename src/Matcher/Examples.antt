-- ===== src/Matcher/Examples.antt =====
-- The theorems on the searcher at a small application, and tests.
use orchid_linux.Base.{
  ℕ, zero, suc, ◌≡◌, ◌<◌, refl, true, false, List, [], ◌∷◌, some, ok, arith, bit_and, Returns,
  get_elem?, length,
}
use orchid_linux.Loader.Types.{AppInfo, ElementEntry, SigEntry}
use orchid_linux.Matcher.Ids.{
  is_http_element, http_element_id, element_code, element_code_decodes, element_code_unknown,
}
use orchid_linux.Matcher.Check.{pattern_check, check_patterns, check_pattern, advance, report}
use orchid_linux.Matcher.Check.Spec.{IsTable, Kind, single, first, last}
use orchid_linux.Matcher.Check.Correct.{pattern_check-IsPrinted, IsPrinted, InTable}
use orchid_linux.Base.{none, fault, Fault, replicate, get_or, get_or-replicate}
use orchid_linux.Base.CString.{codes}
use orchid_linux.Matcher.Found.{
  Match, no_matches, http_parse2, matches_found, match_found, after_newline, header_found,
  element_found, print_data, c_prefix, push_pattern,
}
use orchid_linux.Matcher.Found.Selected.{IsParsed, http_parse2-IsParsed}
use orchid_linux.Matcher.Graph.{DfaGraph, dfa_search, search_from, next_row}
use orchid_linux.Matcher.Graph.Runs.{IsGraph, delta, first_match, dfa_search-first_match}

element_code_decodes_example :
    (is_http_element (element_code 2 7) ≡ false)
    × (http_element_id (element_code 2 7) ≡ 2)
    × (bit_and (element_code 2 7) 0xffff ≡ 7)
element_code_decodes_example = element_code_decodes 2 7 (omega arith) (omega arith)

-- The eighth element with an unknown key would be taken for the header "Referer" (3).
element_code_unknown_example :
    (is_http_element (element_code 0 3) ≡ true) × (http_element_id (element_code 0 3) ≡ 3)
element_code_unknown_example = element_code_unknown 0 3 refl (omega arith)

abbrev sig_of : ℕ → SigEntry
sig_of id = record { sigid = id; proto = 3; enable = 1; priority = 1; f_ele_index = 0 }

-- Signature 0 has two elements, signature 1 has one.
abbrev small : AppInfo
small = record {
  apps = [];
  sigs = sig_of 0x0001_0001 ∷ sig_of 0x0002_0005 ∷ [];
  eles =
      record { sigindex = 0; flag = 1; exp_ele_index = 1 }
      ∷ record { sigindex = 0; flag = 6; exp_ele_index = 0xffff }
      ∷ record { sigindex = 1; flag = 5; exp_ele_index = 0xffff }
      ∷ [];
}

small-Kind :
    (off : ℕ) (e : ElementEntry)
    → get_elem? small.eles off ≡ some e
    → Kind small.eles off e × (e.sigindex < length small.sigs)
small-Kind zero e h = (
  first (grind arith) (record { next = grind arith; same_sig = λ e' h'. grind arith }),
  grind arith,
)
small-Kind (suc zero) e h = (last (grind arith) (grind arith), grind arith)
small-Kind (suc (suc zero)) e h = (single (grind arith) (grind arith), grind arith)
small-Kind (suc (suc (suc n))) e h = absurd (grind arith)

small-IsTable : IsTable small
small-IsTable = record {
  fits = omega arith;
  kind = λ off e h. (small-Kind off e h).0;
  has_sig = λ off e h. (small-Kind off e h).1;
}

abbrev patterns : List ℕ
patterns = 0x0100_0000 ∷ 0x0200_0002 ∷ 0x0100_0001 ∷ []

patterns-InTable : InTable small patterns
patterns-InTable = ((_, refl), ((_, refl), ((_, refl), tt)))

pattern_check-IsPrinted_example : Returns (pattern_check small patterns) (IsPrinted small patterns)
pattern_check-IsPrinted_example =
    pattern_check-IsPrinted small patterns small-IsTable patterns-InTable

-- The only element of signature 1 comes between the two of signature 0.
both_match :
    pattern_check small patterns
    ≡ ok (
        record { app = 5; category = 2; sig_index = 1 }
        ∷ record { app = 1; category = 1; sig_index = 0 }
        ∷ [])
unfolding pattern_check check_patterns check_pattern advance report
both_match = refl

-- The header at the start, then both elements of signature 0, and 12 bytes behind them.
abbrev request : List ℕ
request = codes "Host: aa------------"

abbrev search : List ℕ → List Match
search text =
    record { id = 0x0401; index = 0; position = some 0 }
    ∷ record { id = 0x0100_0000; index = 6; position = some 6 }
    ∷ record { id = 0x0200_0001; index = 6; position = some 6 }
    ∷ record { id = 0x0100_0001; index = 7; position = some 7 }
    ∷ []

http_parse2-IsParsed_example :
    Returns
      (http_parse2 search small request no_matches)
      (IsParsed small request (search request) 0)
unfolding is_http_element http_element_id
http_parse2-IsParsed_example =
    http_parse2-IsParsed search small request no_matches small-IsTable refl
      ((refl, omega arith), ((refl, omega arith), ((refl, omega arith), ((refl, omega arith), tt))))
      ((_, refl), ((_, refl), tt)) (omega arith)

-- An element 2 bytes in front of the end of the text: the `printf` reads past it.
short_text :
    matches_found
      (codes "Host: aa")
      (record { id = 0x0401; index = 0; position = some 0 }
        ∷ record { id = 0x0100_0000; index = 6; position = some 6 }
        ∷ [])
      no_matches
    ≡ fault Fault.out_of_bounds
unfolding matches_found match_found is_http_element http_element_id header_found element_found
    print_data c_prefix push_pattern
short_text = refl

-- A match at the end of the text comes with a null pointer: one whose number reads as a header is
-- looked at in front of it.
end_of_text :
    matches_found request (record { id = 0; index = 7; position = none } ∷ []) no_matches
    ≡ fault Fault.null_pointer
unfolding matches_found match_found is_http_element after_newline
end_of_text = refl

-- Two states: every byte leads to the second one, which reports 7.
abbrev two_states : DfaGraph
two_states = record {
  state_num = 2;
  alphabet_size = 3;
  start_offset = 2;
  alphabet_table = replicate 256 0;
  next_table = 0 ∷ 0 ∷ 1 ∷ 1 ∷ 7 ∷ 1 ∷ [];
}

zeros : (c : ℕ) → get_or (replicate {A = ℕ} 256 0) c 0 ≡ 0
zeros = get_or-replicate 256 0

two_states-closed : (q c : ℕ) → q < 2 → delta two_states q c < 2
two_states-closed zero c h = rw (zeros c) (omega arith)
two_states-closed (suc zero) c h = rw (zeros c) (omega arith)
two_states-closed (suc (suc q)) c h = absurd (omega arith)

two_states-IsGraph : IsGraph two_states
two_states-IsGraph = record {
  wide = omega arith;
  rows = λ q i hq hi. omega arith;
  bytes = refl;
  columns = λ c hc. omega (arith, zeros c);
  closed = λ q c hq hc. two_states-closed q c hq;
}

dfa_search-first_match_example :
    dfa_search two_states (codes "GET") ≡ ok (first_match two_states 0 (codes "GET"))
dfa_search-first_match_example =
    dfa_search-first_match two_states (codes "GET") two_states-IsGraph (omega arith)
      (omega arith, (omega arith, (omega arith, tt)))

seven : dfa_search two_states (codes "GET") ≡ ok 7
unfolding dfa_search search_from next_row
seven = refl
