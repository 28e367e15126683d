-- ===== src/Automaton/Compile/Whole.antt =====
-- The loader's automaton and the search of `httpParse2` on it.
use orchid_linux.Base.{
  ℕ, ◌+◌, ◌*◌, ◌^◌, ◌<◌, ◌≤◌, ◌≡◌, ◌≢◌, ap, sym, ◌∙◌, inl, inr, List, [], ◌∷◌, ◌++◌, map, arith,
  All, All-IsIn, IsIn, Returns, length, length-map,
}
use mathlib.Core.Path.{subst}
use orchid_linux.Loader.Types.{AppEntryT, AppInfo}
use orchid_linux.Matcher.Found.{Match, MatchState, http_parse2}
use orchid_linux.Automaton.Types.{Acsm, Pattern, acf_banded}
use orchid_linux.Automaton.Compile.{xlatcase, acsm_new, add_apps, sig_parse_adapter_ac}
use orchid_linux.Automaton.Compile.Adapter.{
  pattern_of, regex_bytes, add_apps-IsAdded, All-each, map-bytes, map-nonempty, IsText, CallsApps,
}
use orchid_linux.Automaton.Compile.Finds.{IsCompilable, IsMatcher}
use orchid_linux.Automaton.Compile.Matcher.{acsm_compile-IsMatcher}
use orchid_linux.Automaton.Scan.{http_parse2_on, http_parse2_on-http_parse2}
use orchid_linux.Automaton.Search.Calls.{
  call_for, banded_matches-call, call-banded_matches, length-banded_matches,
}
use orchid_linux.Automaton.Search.Runs.{banded_matches}
use orchid_linux.Automaton.Tree.Ends.{EndsWith}

-- The automaton before the first application.
abbrev new_banded : Acsm
new_banded = record acsm_new { format = acf_banded }

map-front :
    (P : ℕ → Type 0) (xs ys : List ℕ) → All P (map xlatcase (xs ++ ys)) → All P (map xlatcase xs)
map-front P [] ys h = tt
map-front P (x ∷ xs) ys h = (h.0, map-front P xs ys h.1)

module _ (address : AppEntryT → ℕ) (apps : List AppEntryT) (texts : All IsText apps) where
  -- What holds of the pattern of each application holds of all patterns.
  each_pattern :
      (P : Pattern → Type 0)
      → ((app : AppEntryT) → IsText app → P (pattern_of address app))
      → All P (add_apps address apps new_banded).patterns
  unfolding acsm_new
  each_pattern P h = All-each P (add_apps address apps new_banded).patterns (λ px i.
      elim ((add_apps-IsAdded address apps new_banded).only px i) [
        | inl bad ↦ absurd bad
        | inr (app, known, e) ↦ subst P (sym e) (h app (All-IsIn IsText apps app texts known))
      ])

  add_apps-IsCompilable :
      regex_bytes apps + 1 < 2 ^ 28 → IsCompilable (add_apps address apps new_banded)
  unfolding acsm_new
  add_apps-IsCompilable few =
      let a = add_apps-IsAdded address apps new_banded in
      let alphabet : (add_apps address apps new_banded).alphabet_size ≡ 256 = cc a.settings_kept in
      let dfa : (add_apps address apps new_banded).fsa ≡ 2 = cc a.settings_kept in
      let banded : (add_apps address apps new_banded).format ≡ acf_banded = cc a.settings_kept in
      let wide : (add_apps address apps new_banded).compress_states ≡ 0 = cc a.settings_kept in
      record {
        new = a.new;
        sizes =
            each_pattern (λ p. p.n ≡ length p.patrn) (λ app h. sym (length-map app.regex xlatcase));
        letters =
            subst
              (λ size.
                All (λ p. All (λ c. c < size) p.patrn) (add_apps address apps new_banded).patterns)
              (sym alphabet)
              (each_pattern (λ p. All (λ c. c < 256) p.patrn)
                (λ app h. map-bytes app.regex h.bytes));
        nonempty = each_pattern (λ p. p.patrn ≢ []) (λ app h. map-nonempty app.regex h.nonempty);
        few = omega (arith, few, a.bytes);
        alphabet = omega (arith, alphabet);
        dfa = dfa;
        banded = banded;
        wide = wide;
      }

  matcher-CallsApps :
      (f : Acsm) (m : IsMatcher (add_apps address apps new_banded) f) (text : List ℕ)
      → All (λ c. c < 256) text
      → CallsApps address apps text (banded_matches f m.next 0 text)
  unfolding acsm_new
  matcher-CallsApps f m text low =
      let a = add_apps-IsAdded address apps new_banded in
      let alphabet : (add_apps address apps new_banded).alphabet_size ≡ 256 = cc a.settings_kept in
      let letters : (front rest : List ℕ)
          → text ≡ front ++ rest
          → All (λ c. c < (add_apps address apps new_banded).alphabet_size) (map xlatcase front) =
        λ front rest e.
          subst (λ size. All (λ c. c < size) (map xlatcase front)) (sym alphabet)
            (map-front (λ c. c < 256) front rest
              (map-bytes (front ++ rest) (subst (λ t. All (λ c. c < 256) t) e low))) in
      let known : (px : Pattern)
          → IsIn px (add_apps address apps new_banded).patterns
          → (app : AppEntryT) × IsIn app apps × (px ≡ pattern_of address app) =
        λ px i. elim (a.only px i) [ inl bad ↦ absurd bad | inr app ↦ app ] in
      record {
        only = λ call i.
            let (front, rest, px, split, listed, e) = banded_matches-call f m.next text call i in
            let (added, ends) = (m.finds front px (letters front rest split)).0 listed in
            let (app, in_apps, is_px) = known px added in
            (
              front,
              rest,
              app,
              split,
              in_apps,
              subst (λ p. EndsWith (map xlatcase front) p.patrn) is_px ends,
              e ∙ ap (λ p. call_for p front rest) is_px,
            );
        every = λ front rest app split in_apps ends.
            let px = pattern_of address app in
            let listed =
              (m.finds front px (letters front rest split)).1 (a.every app in_apps, ends) in
            let (first, first_listed, call) = call-banded_matches f m.next front rest px listed in
            let (added, first_ends) =
              (m.finds front first (letters front rest split)).0 first_listed in
            let (app', in_apps', is_first) = known first added in
            (
              app',
              in_apps',
              subst (λ p. EndsWith (map xlatcase front) p.patrn) is_first first_ends,
              subst
                  (λ t.
                    IsIn (call_for (pattern_of address app') front rest)
                      (banded_matches f m.next 0 t))
                  (sym split)
                  (subst
                    (λ p. IsIn (call_for p front rest) (banded_matches f m.next 0 (front ++ rest)))
                    is_first call),
            );
      }

-- The automaton that the search of `httpParse2` runs on, and the calls it makes.
pub record IsAppMatcher (address : AppEntryT → ℕ) (apps : List AppEntryT) (f : Acsm) : Type 0 where
  pub calls : List ℕ → List Match
  pub runs :
      (rounds : ℕ) (info : AppInfo) (text : List ℕ) (s : MatchState)
      → http_parse2_on rounds f info text s ≡ http_parse2 calls info text s
  pub finds : (text : List ℕ) → All (λ c. c < 256) text → CallsApps address apps text (calls text)
  pub few : (text : List ℕ) → length (calls text) ≤ length text + 1

-- For applications whose texts have at least one byte each and fewer than 2 ^ 28 - 1 in all, and with
-- rounds for twice the bytes and one: `sig_parse_adapter_ac` returns an automaton. `httpParse2` on it
-- does what `httpParse2` does on a list of calls, and on a text of bytes each of these is for an
-- application whose text ends, in capitals, at the place of the call; at each place where the text of
-- an application ends there is a call, for an application whose text ends there. There are at most as
-- many calls as bytes and one.
pub sig_parse_adapter_ac-IsAppMatcher :
    (rounds : ℕ) (address : AppEntryT → ℕ) (apps : List AppEntryT)
    → All IsText apps
    → regex_bytes apps + 1 < 2 ^ 28
    → 2 * regex_bytes apps + 1 ≤ rounds
    → Returns (sig_parse_adapter_ac rounds address apps) (IsAppMatcher address apps)
unfolding sig_parse_adapter_ac acsm_new
sig_parse_adapter_ac-IsAppMatcher rounds address apps texts few fuel =
    let a = add_apps-IsAdded address apps new_banded in
    let (f, run, m) =
      acsm_compile-IsMatcher rounds (add_apps address apps new_banded)
        (add_apps-IsCompilable address apps texts few) (omega (arith, fuel, a.bytes)) in
    (
      f,
      run,
      record {
        calls = banded_matches f m.next 0;
        runs = λ rounds' info text s.
            http_parse2_on-http_parse2 rounds' f m.next m.size info text s m.table m.some_state
              m.dfa m.banded;
        finds = matcher-CallsApps address apps texts f m;
        few = length-banded_matches f m.next;
      },
    )
