-- ===== src/Matcher/Found/Selected.antt =====
-- What `MatchFound` keeps: the elements under the header that was met last.
use orchid_linux.Base.{
  ℕ, zero, suc, ◌+◌, ◌<◌, ◌≤◌, ◌≡◌, ◌⊎◌, inl, inr, refl, ap, ◌∙◌, Bool, true, false, List, [], ◌∷◌,
  ◌++◌, some, arith, ◌==◌, if◌then◌else◌, get_elem?-eq-get_or, get_or, set, length, length-set, All,
  length-append, ==_ne, take, ok, Returns, Bool-cases, drop, length-drop,
}
use mathlib.Core.List.{append_assoc, append-nil}
use native.Mathlib.Numerals.{add-one}
use orchid_linux.Loader.Types.{AppInfo}
use orchid_linux.Matcher.Ids.{is_http_element, http_element_id}
use orchid_linux.Matcher.Found.{
  MatchState, Match, pattern_size, after_newline, push_pattern, match_found, matches_found,
  http_parse2, c_prefix, print_data, header_found, element_found,
}
use orchid_linux.Matcher.Check.{Report}
use orchid_linux.Matcher.Check.Spec.{IsTable}
use orchid_linux.Matcher.Check.Correct.{InTable, IsPrinted, pattern_check-IsPrinted}

-- A match of a header counts at the start of the text and behind a line feed.
abbrev pub at_line_start : List ℕ → ℕ → Bool
at_line_start text zero = true
at_line_start text (suc p) = get_or text p 0 == 10

-- The header that counts after a match.
abbrev pub header_after : List ℕ → Match → ℕ → ℕ
header_after text m last =
    if is_http_element m.id
    then (if at_line_start text m.index then http_element_id m.id else last)
    else last

-- What a match adds to the patterns.
abbrev pub pattern_of : Match → ℕ → List ℕ
pattern_of m last =
    if is_http_element m.id then [] else (if http_element_id m.id == last then m.id ∷ [] else [])

-- The elements, each under the header of its kind, in order; `last` is the header before.
abbrev pub selected : List ℕ → List Match → ℕ → List ℕ
selected text [] last = []
selected text (m ∷ ms) last = pattern_of m last ++ selected text ms (header_after text m last)

abbrev pub last_header : List ℕ → List Match → ℕ → ℕ
last_header text [] last = last
last_header text (m ∷ ms) last = last_header text ms (header_after text m last)

-- A match stands in the text where it says, with the 12 bytes there that a `printf` may read.
abbrev pub IsInside : List ℕ → Match → Type 0
IsInside text m = (m.position ≡ some m.index) × (m.index + 12 ≤ length text)

-- The state holds the patterns and the header.
pub record Holds (patterns : List ℕ) (last : ℕ) (s : MatchState) : Type 0 where
  pub width : length s.pattern ≡ pattern_size
  pub count : s.pattern_count ≡ length patterns
  pub kept : take s.pattern_count s.pattern ≡ patterns
  pub header : s.elementlast ≡ last

module _ {ℓ} {A : Type ℓ} where
  take-set :
      (xs : List A) (n : ℕ) (v : A)
      → n < length xs
      → take (suc n) (set xs n v) ≡ take n xs ++ v ∷ []
  take-set [] n v h = absurd (omega arith)
  take-set (x ∷ xs) zero v h = refl
  take-set (x ∷ xs) (suc n) v h = ap (λ t. x ∷ t) (take-set xs n v (omega arith))

push_pattern-Holds :
    (id : ℕ) (patterns : List ℕ) (last : ℕ) (s : MatchState)
    → Holds patterns last s
    → length patterns < pattern_size
    → Returns (push_pattern id s) (Holds (patterns ++ id ∷ []) last)
unfolding push_pattern
push_pattern-Holds id patterns last s holds room =
    let inside : s.pattern_count < length s.pattern = omega (arith, holds.count, holds.width) in
    (
      record s { pattern = set s.pattern s.pattern_count id; pattern_count = s.pattern_count + 1 },
      rw (get_elem?-eq-get_or s.pattern s.pattern_count 0 inside),
      record {
        width = length-set s.pattern s.pattern_count id ∙ holds.width;
        count = omega (arith, holds.count, length-append patterns (id ∷ []));
        kept =
            rw add-one
              (take-set s.pattern s.pattern_count id inside ∙ ap (λ t. t ++ id ∷ []) holds.kept);
        header = holds.header;
      },
    )

line_start :
    (text : List ℕ) (index : ℕ)
    → index < length text
    → (if index == 0 then ok true else after_newline text (some index))
      ≡ ok (at_line_start text index)
unfolding after_newline
line_start text zero inside = refl
line_start text (suc p) inside =
    rw (==_ne (suc p) 0 (omega arith), get_elem?-eq-get_or text p 0 (omega arith))

match_start :
    (text : List ℕ) (m : Match)
    → IsInside text m
    → (if m.index == 0 then ok true else after_newline text m.position)
      ≡ ok (at_line_start text m.index)
match_start text m (there, room) =
    ap (λ p. if m.index == 0 then ok true else after_newline text p) there
    ∙ line_start text m.index (omega (arith, room))

c_prefix-room :
    (n : ℕ) (text : List ℕ) → n ≤ length text → (cs : List ℕ) × (c_prefix n text ≡ ok cs)
unfolding c_prefix
c_prefix-room zero text h = ([], refl)
c_prefix-room (suc n) [] h = absurd (omega (arith, h))
c_prefix-room (suc n) (zero ∷ text) h = ([], refl)
c_prefix-room (suc n) (suc c ∷ text) h =
    let (cs, run) = c_prefix-room n text (omega (arith, h)) in (suc c ∷ cs, rw run refl)

print_data-inside :
    (n : ℕ) (text : List ℕ) (p : ℕ)
    → p + n ≤ length text
    → (cs : List ℕ) × (print_data n text (some p) ≡ ok cs)
unfolding print_data
print_data-inside n text p h = c_prefix-room n (drop p text) (omega (arith, h, length-drop p text))

header_found-inside :
    (text : List ℕ) (m : Match) (s : MatchState)
    → IsInside text m
    → header_found text m s true ≡ ok (record s { elementlast = http_element_id m.id })
unfolding header_found
header_found-inside text m s (there, room) =
    let (cs, run) = print_data-inside 8 text m.index (omega (arith, room)) in rw (there, run) refl

element_found-inside :
    (text : List ℕ) (m : Match) (s : MatchState)
    → IsInside text m
    → (P : MatchState → Type 0) → Returns (push_pattern m.id s) P
    → Returns (element_found text m s) P
unfolding element_found
element_found-inside text m s (there, room) P (s', pushed, p) =
    let (cs, run) = print_data-inside 12 text m.index room in (s', rw (pushed, there, run) refl, p)

match_found-Holds :
    (text : List ℕ) (m : Match) (patterns : List ℕ) (last : ℕ) (s : MatchState)
    → IsInside text m
    → Holds patterns last s
    → length patterns + length (pattern_of m last) ≤ pattern_size
    → Returns
        (match_found text m s)
        (Holds (patterns ++ pattern_of m last) (header_after text m last))
unfolding match_found
match_found-Holds text m patterns last s inside holds room =
    elim (Bool-cases (is_http_element m.id)) [
      | inl header ↦ by_header header (Bool-cases (at_line_start text m.index))
      | inr element ↦ by_element element room (Bool-cases (http_element_id m.id == last))
    ]
  where
    by_header :
        is_http_element m.id ≡ true
        → (at_line_start text m.index ≡ true) ⊎ (at_line_start text m.index ≡ false)
        → Returns
            (match_found text m s)
            (Holds (patterns ++ pattern_of m last) (header_after text m last))
    by_header header (inl begins) =
        rw (header, match_start text m inside, begins, append-nil)
          (
            record s { elementlast = http_element_id m.id },
            header_found-inside text m s inside,
            record { width = holds.width; count = holds.count; kept = holds.kept; header = refl },
          )
    by_header header (inr not_begins) =
        rw (header, match_start text m inside, not_begins, append-nil)
          (s, unfold header_found in refl, holds)

    by_element :
        is_http_element m.id ≡ false
        → length patterns + length (pattern_of m last) ≤ pattern_size
        → (http_element_id m.id == last ≡ true) ⊎ (http_element_id m.id == last ≡ false)
        → Returns
            (match_found text m s)
            (Holds (patterns ++ pattern_of m last) (header_after text m last))
    by_element element room (inl under) =
        let kept : (http_element_id m.id == s.elementlast) ≡ true = rw holds.header under in
        rw (element, kept, under)
          (element_found-inside text m s inside (Holds (patterns ++ m.id ∷ []) last) (
            push_pattern-Holds m.id patterns last s holds
              (omega (arith, rw (element, under) at room))))
    by_element element room (inr other) =
        let dropped : (http_element_id m.id == s.elementlast) ≡ false = rw holds.header other in
        rw (element, dropped, other, append-nil) (s, refl, holds)

matches_found-Holds :
    (text : List ℕ) (ms : List Match) (patterns : List ℕ) (last : ℕ) (s : MatchState)
    → All (IsInside text) ms
    → Holds patterns last s
    → length patterns + length (selected text ms last) ≤ pattern_size
    → Returns
        (matches_found text ms s)
        (Holds (patterns ++ selected text ms last) (last_header text ms last))
unfolding matches_found
matches_found-Holds text [] patterns last s inside holds room = (s, refl, rw append-nil holds)
matches_found-Holds text (m ∷ ms) patterns last s inside holds room =
    let new = pattern_of m last in
    let more = selected text ms (header_after text m last) in
    let size = length-append new more in
    let (s1, run1, h1) =
      match_found-Holds text m patterns last s inside.0 holds (omega (arith, room, size)) in
    let (s2, run2, h2) =
      matches_found-Holds text ms (patterns ++ new) (header_after text m last) s1 inside.1 h1
        (omega (arith, room, size, length-append patterns new)) in
    (s2, rw run1 run2, rw append_assoc at h2)

-- What `httpParse2` is to do: the patterns are the selected ones, and what it prints of them is
-- what `pattern_check` is to print. The result is 0, and the header that was met last stays.
pub record IsParsed (info : AppInfo) (text : List ℕ) (ms : List Match) (last : ℕ)
    (r : ℕ × (List Report × MatchState)) : Type 0 where
  pub result : r.0 ≡ 0
  pub printed : IsPrinted info (selected text ms last) r.1.0
  pub state : Holds (selected text ms last) (last_header text ms last) r.1.1

-- For an automaton that reports matches where they are in the text, each at least 12 bytes in front
-- of its end, on tables as `install_Application` makes them, if at most 100 of the matches stand under their header and
-- those name elements of the table: `httpParse2` makes no access outside its arrays and the text,
-- keeps exactly those matches, in order, and prints for them what `pattern_check` is to print. The header that
-- counts at the start is the last one of the packet before.
pub http_parse2-IsParsed :
    (search : List ℕ → List Match) (info : AppInfo) (text : List ℕ) (s : MatchState)
    → IsTable info
    → length s.pattern ≡ pattern_size
    → All (IsInside text) (search text)
    → InTable info (selected text (search text) s.elementlast)
    → length (selected text (search text) s.elementlast) ≤ pattern_size
    → Returns (http_parse2 search info text s) (IsParsed info text (search text) s.elementlast)
unfolding http_parse2
http_parse2-IsParsed search info text s table width inside within room =
    let ms = search text in
    let (s', run, holds) =
      matches_found-Holds text ms [] s.elementlast (record s { pattern_count = 0 }) inside
        (record { width = width; count = refl; kept = refl; header = refl })
        (omega (arith, room)) in
    let (reports, run', printed) =
      pattern_check-IsPrinted info (selected text ms s.elementlast) table within in
    (
      (0, (reports, s')),
      rw (run, holds.kept, run'),
      record { result = refl; printed = printed; state = holds },
    )
