-- ===== src/Automaton/Compile/Adapter.antt =====
-- `sig_parse_adapter_ac` of app_identify/loader/acsmx2.c and `httpParse2` of
-- app_identify/searcher/http_search.c together: the calls for the text of a packet.
use orchid_linux.Base.{
  ℕ, ◌+◌, ◌<◌, ◌≡◌, ◌≢◌, refl, ap, ◌⊎◌, inl, inr, List, [], ◌∷◌, ◌++◌, map, arith, length,
  length-map, All, IsIn,
}
use orchid_linux.Loader.Types.{AppEntryT}
use orchid_linux.Matcher.Found.{Match}
use orchid_linux.Automaton.Types.{Acsm, Pattern}
use orchid_linux.Automaton.Build.Patterns.{settings}
use orchid_linux.Automaton.Compile.{xlatcase, convert_case, acsm_add_pattern, add_apps}
use orchid_linux.Automaton.Compile.Patterns.{total_bytes}
use orchid_linux.Automaton.Search.Calls.{call_for}
use orchid_linux.Automaton.Tree.Ends.{EndsWith}

-- The pattern of an application.
abbrev pub pattern_of : (AppEntryT → ℕ) → AppEntryT → Pattern
pattern_of address app = record {
  patrn = map xlatcase app.regex;
  casepatrn = app.regex;
  n = length app.regex;
  nocase = 1;
  offset = 0;
  depth = 0;
  negative = 0;
  udata = address app;
  iid = app.app_id;
}

-- The bytes of all texts.
abbrev pub regex_bytes : List AppEntryT → ℕ
regex_bytes [] = 0
regex_bytes (app ∷ apps) = length app.regex + regex_bytes apps

module _ (address : AppEntryT → ℕ) where
  -- What the loop over the applications leaves.
  pub record IsAdded (apps : List AppEntryT) (before after : Acsm) : Type 0 where
    pub settings_kept : settings after ≡ settings before
    pub new : after.max_states ≡ before.max_states
    pub bytes : total_bytes after.patterns ≡ total_bytes before.patterns + regex_bytes apps
    pub every : (app : AppEntryT) → IsIn app apps → IsIn (pattern_of address app) after.patterns
    pub old : (px : Pattern) → IsIn px before.patterns → IsIn px after.patterns
    pub only :
        (px : Pattern)
        → IsIn px after.patterns
        → IsIn px before.patterns
          ⊎ (app : AppEntryT) × IsIn app apps × (px ≡ pattern_of address app)

  pub add_apps-IsAdded :
      (apps : List AppEntryT) (p : Acsm) → IsAdded apps p (add_apps address apps p)
  unfolding add_apps acsm_add_pattern convert_case
  add_apps-IsAdded [] p = record {
    settings_kept = refl;
    new = refl;
    bytes = omega arith;
    every = λ app bad. absurd bad;
    old = λ px i. i;
    only = λ px i. inl i;
  }
  add_apps-IsAdded (app ∷ apps) p =
      let p' = acsm_add_pattern p app.regex (address app) 1 0 0 0 app.app_id in
      let a = add_apps-IsAdded apps p' in
      record {
        settings_kept = a.settings_kept;
        new = a.new;
        bytes = omega (arith, a.bytes, length-map app.regex xlatcase);
        every = λ app' i. elim i [
          | inl here ↦ a.old (pattern_of address app') (inl (ap (pattern_of address) here))
          | inr later ↦ a.every app' later
        ];
        old = λ px i. a.old px (inr i);
        only = λ px i. elim (a.only px i) [
          | inl (inl here) ↦ inr (app, inl refl, here)
          | inl (inr before) ↦ inl before
          | inr (app', later, e) ↦ inr (app', inr later, e)
        ];
      }

pub All-each :
    (P : Pattern → Type 0) (ps : List Pattern) → ((px : Pattern) → IsIn px ps → P px) → All P ps
All-each P [] h = tt
All-each P (px ∷ ps) h = (h px (inl refl), All-each P ps (λ q i. h q (inr i)))

xlatcase-byte : (c : ℕ) → c < 256 → xlatcase c < 256
unfolding xlatcase
xlatcase-byte c h = ground (arith, h)

pub map-bytes : (text : List ℕ) → All (λ c. c < 256) text → All (λ c. c < 256) (map xlatcase text)
map-bytes [] h = tt
map-bytes (c ∷ text) h = (xlatcase-byte c h.0, map-bytes text h.1)

pub map-nonempty : (text : List ℕ) → text ≢ [] → map xlatcase text ≢ []
map-nonempty [] h e = h refl
map-nonempty (c ∷ text) h e = absurd (cc e)

-- A text of at least one byte.
pub record IsText (app : AppEntryT) : Type 0 where
  pub nonempty : app.regex ≢ []
  pub bytes : All (λ c. c < 256) app.regex

-- The calls for a text: each is for an application whose text ends there, in capitals, and wherever
-- the text of an application ends there is one.
pub record CallsApps (address : AppEntryT → ℕ) (apps : List AppEntryT) (text : List ℕ)
    (calls : List Match) : Type 0 where
  pub only :
      (call : Match)
      → IsIn call calls
      → (front : List ℕ) × (rest : List ℕ) × (app : AppEntryT) × (text ≡ front ++ rest)
        × IsIn app apps
        × EndsWith (map xlatcase front) (map xlatcase app.regex)
        × (call ≡ call_for (pattern_of address app) front rest)
  pub every :
      (front rest : List ℕ) (app : AppEntryT)
      → text ≡ front ++ rest
      → IsIn app apps
      → EndsWith (map xlatcase front) (map xlatcase app.regex)
      → (first : AppEntryT) × IsIn first apps
        × EndsWith (map xlatcase front) (map xlatcase first.regex)
        × IsIn (call_for (pattern_of address first) front rest) calls
