-- ===== src/Automaton/Scan/Installed.antt =====
-- The tables and the automaton of the loader together: `install_Application`, `sig_parse_adapter_ac`
-- and `httpParse2` on a packet.
use orchid_linux.Base.{
  ℕ, suc, ◌+◌, ◌<◌, ◌≤◌, ◌≡◌, refl, ap, sym, ◌∙◌, ◌⊎◌, inl, inr, true, false, Bool-cases, List, [],
  ◌∷◌, ◌++◌, map, some, ◌==◌, arith, length, length-append, get_elem?, get_elem?-eq-get_or, get_or,
  bit_and, All, All-append, All-IsIn, IsIn, Returns, ◌^◌, length-map,
}
use mathlib.Core.Path.{subst}
use orchid_linux.Loader.HttpSig.{init_http_sig}
use orchid_linux.Loader.Install.Apps.{layout_patterns, element_total}
use orchid_linux.Loader.Install.Correct.{IsInstalled, IsInstalled-IsTable}
use orchid_linux.Loader.Install.Kinds.{length-layout}
use orchid_linux.Loader.Install.Layout.{patterns_of}
use orchid_linux.Loader.Install.Signatures.{element_count, sigs_patterns}
use orchid_linux.Loader.Install.Summary.{IsLoadable}
use orchid_linux.Loader.Types.{Application, AppEntryT, AppInfo, Sig, Element, ElementEntry}
use orchid_linux.Matcher.Check.Correct.{InTable}
use orchid_linux.Matcher.Found.{Match, MatchState, pattern_size}
use orchid_linux.Matcher.Found.Selected
use orchid_linux.Matcher.Found.Selected.{
  IsInside, IsParsed, selected, header_after, http_parse2-IsParsed,
}
use orchid_linux.Matcher.Ids.{
  is_http_element, http_element_id, element_code, element_code_as_sum, short_mask,
}
use orchid_linux.Automaton.Compile.{xlatcase}
use orchid_linux.Automaton.Compile.Adapter.{CallsApps, pattern_of}
use orchid_linux.Automaton.Compile.Whole.{IsAppMatcher}
use orchid_linux.Automaton.Scan.{http_parse2_on}
use orchid_linux.Automaton.Scan.Parsed.{All-each, call_for-IsInside}
use orchid_linux.Automaton.Search.Calls.{call_for}
use orchid_linux.Automaton.Tree.Ends.{EndsWith}
use orchid_linux.Automaton.Types.{Acsm}

-- The number of a header, or of an element below `n`.
abbrev IsNumber : ℕ → ℕ → Type 0
IsNumber n id = (is_http_element id ≡ true) ⊎ (bit_and id 0xffff < n)

element_code-IsNumber : (n id off : ℕ) → off < n → n ≤ 65536 → IsNumber n (element_code id off)
element_code-IsNumber n id off h le =
    let sum = element_code_as_sum id off (omega (arith, h, le)) in
    inr (omega (arith, short_mask (element_code id off), sum, h, le))

module _ (n : ℕ) (le : n ≤ 65536) where
  patterns_of-IsNumber :
      (off : ℕ) (es : List Element)
      → off + length es ≤ n
      → All (λ a. IsNumber n a.app_id) (patterns_of off es)
  patterns_of-IsNumber off [] h = tt
  patterns_of-IsNumber off (e ∷ es) h = (
    element_code-IsNumber n e.id off (omega (arith, h)) le,
    patterns_of-IsNumber (suc off) es (omega (arith, h)),
  )

  sigs_patterns-IsNumber :
      (off : ℕ) (sigs : List Sig)
      → off + element_count sigs ≤ n
      → All (λ a. IsNumber n a.app_id) (sigs_patterns off sigs)
  sigs_patterns-IsNumber off [] h = tt
  sigs_patterns-IsNumber off (sig ∷ sigs) h =
      All-append (λ a. IsNumber n a.app_id) (patterns_of off sig.elements)
        (sigs_patterns (off + length sig.elements) sigs)
        (patterns_of-IsNumber off sig.elements (omega (arith, h)))
        (sigs_patterns-IsNumber (off + length sig.elements) sigs (omega (arith, h)))

  layout_patterns-IsNumber :
      (off : ℕ) (root : List Application)
      → off + element_total root ≤ n
      → All (λ a. IsNumber n a.app_id) (layout_patterns off root)
  layout_patterns-IsNumber off [] h = tt
  layout_patterns-IsNumber off (app ∷ later) h =
      All-append (λ a. IsNumber n a.app_id) (sigs_patterns off app.sigs)
        (layout_patterns (off + element_count app.sigs) later)
        (sigs_patterns-IsNumber off app.sigs (omega (arith, h)))
        (layout_patterns-IsNumber (off + element_count app.sigs) later (omega (arith, h)))

-- The headers of `init_http_sig`.
headers-IsNumber : (n : ℕ) → All (λ a. IsNumber n a.app_id) (init_http_sig [])
unfolding init_http_sig is_http_element
headers-IsNumber n = (inl refl, (inl refl, (inl refl, (inl refl, (inl refl, tt)))))

installed-IsNumber :
    (root : List Application) (info : AppInfo) (app_list : List AppEntryT)
    → IsLoadable root
    → IsInstalled root info app_list
    → All (λ a. IsNumber (length info.eles) a.app_id) app_list
installed-IsNumber root info app_list loadable installed =
    let size : length info.eles ≡ element_total root =
      ap (λ l. length l) installed.eles ∙ length-layout 0 0 root in
    subst (λ l. All (λ a. IsNumber (length info.eles) a.app_id) l) (sym installed.patterns)
      (All-append (λ a. IsNumber (length info.eles) a.app_id) (init_http_sig [])
        (layout_patterns 0 root) (headers-IsNumber (length info.eles))
        (layout_patterns-IsNumber (length info.eles) (omega (arith, size, loadable.ele_nums)) 0 root
          (omega (arith, size))))

-- The element of a number.
element_of :
    (info : AppInfo) (id : ℕ)
    → IsNumber (length info.eles) id
    → is_http_element id ≡ false
    → (e : ElementEntry) × (get_elem? info.eles (bit_and id 0xffff) ≡ some e)
element_of info id (inl header) element = absurd (cc (header, element))
element_of info id (inr inside) element =
    let e : ElementEntry = record { sigindex = 0; flag = 0; exp_ele_index = 0 } in
    (
      get_or info.eles (bit_and id 0xffff) e,
      get_elem?-eq-get_or info.eles (bit_and id 0xffff) e inside,
    )

chosen-InTable :
    (info : AppInfo) (m : Match) (last : ℕ)
    → IsNumber (length info.eles) m.id
    → InTable info (Selected.pattern_of m last)
chosen-InTable info m last h = elim (Bool-cases (is_http_element m.id)) [
  | inl header ↦ rw header tt
  | inr element ↦ elim (Bool-cases (http_element_id m.id == last)) [
    | inl under ↦ rw (element, under) (element_of info m.id h element, tt)
    | inr other ↦ rw (element, other) tt
  ]
]

-- What is selected of calls with such numbers names elements of the table.
selected-InTable :
    (info : AppInfo) (text : List ℕ) (ms : List Match) (last : ℕ)
    → All (λ m. IsNumber (length info.eles) m.id) ms
    → InTable info (selected text ms last)
selected-InTable info text [] last h = tt
selected-InTable info text (m ∷ ms) last h =
    let next = header_after text m last in
    All-append (λ p. (e : ElementEntry) × (get_elem? info.eles (bit_and p 0xffff) ≡ some e))
      (Selected.pattern_of m last) (selected text ms next) (chosen-InTable info m last h.0)
      (selected-InTable info text ms next h.1)

pub length-selected :
    (text : List ℕ) (ms : List Match) (last : ℕ) → length (selected text ms last) ≤ length ms
length-selected text [] last = omega arith
length-selected text (m ∷ ms) last =
    let next = header_after text m last in
    omega (
      arith,
      length-append (Selected.pattern_of m last) (selected text ms next),
      one_at_most m last,
      length-selected text ms next,
    )
  where
    one_at_most : (m : Match) (last : ℕ) → length (Selected.pattern_of m last) ≤ 1
    one_at_most m last = elim (Bool-cases (is_http_element m.id)) [
      | inl header ↦ rw header (omega arith)
      | inr element ↦ elim (Bool-cases (http_element_id m.id == last)) [
        | inl under ↦ rw (element, under) (omega arith)
        | inr other ↦ rw (element, other) (omega arith)
      ]
    ]

-- Where the text of an application stands in the text, in capitals, at least one byte comes behind
-- it, and there are at least 12 bytes from its beginning on.
abbrev pub HasRoom : List AppEntryT → List ℕ → Type 0
HasRoom apps text =
    (front rest : List ℕ)
    → text ≡ front ++ rest
    → All
        (λ app.
          EndsWith (map xlatcase front) (map xlatcase app.regex)
          → (1 ≤ length rest) × (12 ≤ length app.regex + length rest))
        apps

-- A text that ends another one is not longer.
EndsWith-length :
    (front regex : List ℕ)
    → EndsWith (map xlatcase front) (map xlatcase regex)
    → length regex ≤ length front
EndsWith-length front regex (before, e) = omega (
  arith,
  ap (λ l. length l) e,
  length-append before (map xlatcase regex),
  length-map front xlatcase,
  length-map regex xlatcase,
)

-- A call of the automaton is inside the text, with the number of its application.
call-IsSound :
    (address : AppEntryT → ℕ) (apps : List AppEntryT) (text : List ℕ) (n : ℕ) (calls : List Match)
    → CallsApps address apps text calls
    → HasRoom apps text
    → length text < 2 ^ 31
    → All (λ a. IsNumber n a.app_id) apps
    → (m : Match) → IsIn m calls
    → IsInside text m × IsNumber n m.id
call-IsSound address apps text n calls found has_room short numbers m i =
    let (front, rest, app, split, known, ends, e) = found.only m i in
    subst (λ call. IsInside text call × IsNumber n call.id) (sym e)
      (sound front rest app split known ends)
  where
    room :
        (front rest : List ℕ) (app : AppEntryT)
        → text ≡ front ++ rest
        → IsIn app apps
        → EndsWith (map xlatcase front) (map xlatcase app.regex)
        → (1 ≤ length rest) × (12 ≤ length app.regex + length rest)
    room front rest app split known ends =
        All-IsIn
          (λ a.
            EndsWith (map xlatcase front) (map xlatcase a.regex)
            → (1 ≤ length rest) × (12 ≤ length a.regex + length rest))
          apps app (has_room front rest split) known ends

    sound :
        (front rest : List ℕ) (app : AppEntryT)
        → text ≡ front ++ rest
        → IsIn app apps
        → EndsWith (map xlatcase front) (map xlatcase app.regex)
        → IsInside text (call_for (pattern_of address app) front rest)
          × IsNumber n (call_for (pattern_of address app) front rest).id
    sound front [] app split known ends =
        absurd (omega (arith, (room front [] app split known ends).0))
    sound front (c ∷ rest) app split known ends = (
      call_for-IsInside text front c rest (pattern_of address app) split short
          (EndsWith-length front app.regex ends) (room front (c ∷ rest) app split known ends).1,
      All-IsIn (λ a. IsNumber n a.app_id) apps app numbers known,
    )

-- For applications that the tables can hold, the tables and the list that `install_Application`
-- leaves, and an automaton as `sig_parse_adapter_ac` makes it of the list: on a text of fewer than
-- 2 ^ 31 bytes, in which behind each place where the text of an application stands there is at least
-- one byte, and at least 12 from its beginning on, and where at most 100 calls stand under their
-- header, `httpParse2` makes no access outside its arrays and the text, and uses no null pointer. It keeps exactly those calls, in
-- order, and prints for them what `pattern_check` is to print.
pub installed_scan-IsParsed :
    (rounds : ℕ) (address : AppEntryT → ℕ) (root : List Application) (info : AppInfo)
    (app_list : List AppEntryT) (acsm : Acsm) (text : List ℕ) (s : MatchState)
    → IsLoadable root
    → IsInstalled root info app_list
    → (a : IsAppMatcher address app_list acsm) → length s.pattern ≡ pattern_size
    → All (λ c. c < 256) text
    → HasRoom app_list text
    → length text < 2 ^ 31
    → length (selected text (a.calls text) s.elementlast) ≤ pattern_size
    → Returns
        (http_parse2_on rounds acsm info text s)
        (IsParsed info text (a.calls text) s.elementlast)
installed_scan-IsParsed rounds address root info app_list acsm text s loadable installed a width
      bytes has_room short room =
    let numbers = installed-IsNumber root info app_list loadable installed in
    let sound =
      call-IsSound address app_list text (length info.eles) (a.calls text) (a.finds text bytes)
        has_room short numbers in
    let (r, run, parsed) =
      http_parse2-IsParsed a.calls info text s
        (IsInstalled-IsTable root info app_list loadable installed) width
        (All-each (IsInside text) (a.calls text) (λ m i. (sound m i).0))
        (selected-InTable info text (a.calls text) s.elementlast
          (All-each (λ m. IsNumber (length info.eles) m.id) (a.calls text) (λ m i. (sound m i).1)))
        room in
    (r, a.runs rounds info text s ∙ run, parsed)
