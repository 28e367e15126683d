-- ===== src/Automaton/Examples/Installed.antt =====
-- A test of the loader's tables and automaton together: one application with one element.
use orchid_linux.Automaton.Tree.{IsStart}
use native.Mathlib.Decide.{dec_lt}
use mathlib.Core.Path.{subst}
use mathlib.Core.List.{reverse}
use orchid_linux.Base.{
  ℕ, refl, List, [], ◌∷◌, ◌++◌, map, arith, All, Returns, take, zero, suc, ◌<◌, ◌≡◌, ◌≤◌, ◌+◌, ◌-◌,
  ap, ◌∙◌, length, length-append,
}
use orchid_linux.Base.CString.{codes}
use orchid_linux.Loader.HttpSig.{init_http_sig}
use orchid_linux.Loader.Install.Apps.{layout, layout_patterns}
use orchid_linux.Loader.Install.Correct.{IsInstalled}
use orchid_linux.Loader.Install.Summary.{IsLoadable}
use orchid_linux.Loader.Types.{Application, AppEntryT, AppInfo, sig_single, protocol_http}
use orchid_linux.Matcher.Found.{no_matches}
use orchid_linux.Matcher.Found.Selected.{IsParsed}
use orchid_linux.Automaton.Types.{Acsm}
use orchid_linux.Automaton.Compile.{xlatcase}
use orchid_linux.Automaton.Compile.Adapter.{IsText}
use orchid_linux.Automaton.Compile.Whole.{IsAppMatcher, sig_parse_adapter_ac-IsAppMatcher}
use orchid_linux.Automaton.Scan.{http_parse2_on}
use orchid_linux.Automaton.Scan.Installed.{length-selected, installed_scan-IsParsed, HasRoom}
use orchid_linux.Automaton.Tree.Ends.{EndsWith-IsStart, EndsWith}

abbrev one_root : List Application
one_root =
    record {
      id = 1;
      category = 2;
      name = codes "ab";
      sigs =
          record {
            id = 1;
            proto = protocol_http;
            type = sig_single;
            enable = 1;
            priority = 1;
            dir = 0;
            match = [];
            ele_num = 1;
            elements = record { id = 1; match = codes "ab" } ∷ [];
          }
          ∷ [];
    }
    ∷ []

one_root-IsLoadable : IsLoadable one_root
one_root-IsLoadable = record {
  apps = ((omega arith, ((omega arith, tt), tt)), tt);
  app_nums = omega arith;
  sig_nums = omega arith;
  ele_nums = omega arith;
}

abbrev tables : AppInfo
tables = record {
  apps = [];
  sigs = record { sigid = 0x0002_0001; proto = 3; enable = 1; priority = 1; f_ele_index = 0 } ∷ [];
  eles = layout 0 0 one_root;
}

abbrev patterns : List AppEntryT
patterns = init_http_sig [] ++ layout_patterns 0 one_root

tables-IsInstalled : IsInstalled one_root tables patterns
tables-IsInstalled = record { eles = refl; sigs = refl; patterns = refl }

patterns-IsText : All IsText patterns
unfolding init_http_sig
patterns-IsText = (
  record {
    nonempty = λ e. absurd (cc e);
    bytes = (omega arith, (omega arith, (omega arith, (omega arith, tt))));
  },
  (
    record {
      nonempty = λ e. absurd (cc e);
      bytes = (omega arith, (omega arith, (omega arith, (omega arith, (omega arith, tt)))));
    },
    (
      record {
        nonempty = λ e. absurd (cc e);
        bytes = (
          omega arith,
          (
            omega arith,
            (
              omega arith,
              (
                omega arith,
                (
                  omega arith,
                  (omega arith, (omega arith, (omega arith, (omega arith, (omega arith, tt))))),
                ),
              ),
            ),
          ),
        );
      },
      (
        record {
          nonempty = λ e. absurd (cc e);
          bytes = (
            omega arith,
            (
              omega arith,
              (omega arith, (omega arith, (omega arith, (omega arith, (omega arith, tt))))),
            ),
          );
        },
        (
          record {
            nonempty = λ e. absurd (cc e);
            bytes = (omega arith, (omega arith, (omega arith, (omega arith, tt))));
          },
          (record { nonempty = λ e. absurd (cc e); bytes = (omega arith, (omega arith, tt)) }, tt),
        ),
      ),
    ),
  ),
)

matcher : (acsm : Acsm) × IsAppMatcher (λ app. app.app_id) patterns acsm
unfolding init_http_sig
matcher =
    let (acsm, run, a) =
      sig_parse_adapter_ac-IsAppMatcher 65 (λ app. app.app_id) patterns patterns-IsText
        (omega arith) (omega arith) in
    (acsm, a)

-- The only element, and 12 bytes behind it.
abbrev packet : List ℕ
packet = codes "Host: ab------------"

-- From the ninth byte on, the last byte that was read is a dash.
packet-dash :
    (j : ℕ)
    → j < 12
    → (later : List ℕ) × (reverse (map xlatcase (take (9 + j) packet)) ≡ 45 ∷ later)
unfolding xlatcase
packet-dash zero low = (_, refl)
packet-dash (suc zero) low = (_, refl)
packet-dash (suc (suc zero)) low = (_, refl)
packet-dash (suc (suc (suc zero))) low = (_, refl)
packet-dash (suc (suc (suc (suc zero)))) low = (_, refl)
packet-dash (suc (suc (suc (suc (suc zero))))) low = (_, refl)
packet-dash (suc (suc (suc (suc (suc (suc zero)))))) low = (_, refl)
packet-dash (suc (suc (suc (suc (suc (suc (suc zero))))))) low = (_, refl)
packet-dash (suc (suc (suc (suc (suc (suc (suc (suc zero)))))))) low = (_, refl)
packet-dash (suc (suc (suc (suc (suc (suc (suc (suc (suc zero))))))))) low = (_, refl)
packet-dash (suc (suc (suc (suc (suc (suc (suc (suc (suc (suc zero)))))))))) low = (_, refl)
packet-dash (suc (suc (suc (suc (suc (suc (suc (suc (suc (suc (suc zero))))))))))) low = (_, refl)
packet-dash (suc (suc (suc (suc (suc (suc (suc (suc (suc (suc (suc (suc j)))))))))))) low =
    absurd (omega (arith, low))

take-front : (front rest : List ℕ) → take (length front) (front ++ rest) ≡ front
take-front [] rest = refl
take-front (c ∷ front) rest = ap (λ cs. c ∷ cs) (take-front front rest)

All-all :
    (P : AppEntryT → Type 0) (apps : List AppEntryT) → ((app : AppEntryT) → P app) → All P apps
All-all P [] h = tt
All-all P (app ∷ apps) h = (h app, All-all P apps h)

-- No text of an application ends with a dash.
dash-NoneEnds :
    (front later rest : List ℕ)
    → reverse (map xlatcase front) ≡ 45 ∷ later
    → All
        (λ app.
          EndsWith (map xlatcase front) (map xlatcase app.regex)
          → (1 ≤ length rest) × (12 ≤ length app.regex + length rest))
        patterns
unfolding init_http_sig xlatcase
dash-NoneEnds front later rest e =
    let last = λ (w : List ℕ) (h : EndsWith (map xlatcase front) w).
      subst (λ r. IsStart (reverse w) r) e (EndsWith-IsStart (map xlatcase front) w h) in
    (
      λ h. absurd (omega (arith, (last (map xlatcase (codes "GET ")) h).0)),
      (
        λ h. absurd (omega (arith, (last (map xlatcase (codes "POST ")) h).0)),
        (
          λ h. absurd (omega (arith, (last (map xlatcase (codes "User-Agent")) h).0)),
          (
            λ h. absurd (omega (arith, (last (map xlatcase (codes "Referer")) h).0)),
            (
              λ h. absurd (omega (arith, (last (map xlatcase (codes "Host")) h).0)),
              (λ h. absurd (omega (arith, (last (map xlatcase (codes "ab")) h).0)), tt),
            ),
          ),
        ),
      ),
    )

packet-HasRoom : HasRoom patterns packet
packet-HasRoom front rest split =
    let whole : 20 ≡ length front + length rest =
      ap (λ l. length l) split ∙ length-append front rest in
    elim (dec_lt (length front) 9) [
      | yes early ↦
          All-all
            (λ app.
              EndsWith (map xlatcase front) (map xlatcase app.regex)
              → (1 ≤ length rest) × (12 ≤ length app.regex + length rest))
            patterns (λ app h. (omega (arith, whole, early), omega (arith, whole, early)))
      | no late ↦
          let (later, e) = packet-dash (length front - 9) (omega (arith, whole, late)) in
          let place : 9 + (length front - 9) ≡ length front = omega (arith, late) in
          let same : take (9 + (length front - 9)) packet ≡ front =
            ap (λ k. take k packet) place
            ∙ ap (take (length front)) split
            ∙ take-front front rest in
          dash-NoneEnds front later rest (subst (λ w. reverse (map xlatcase w) ≡ 45 ∷ later) same e)
    ]

installed_scan-IsParsed_example :
    Returns
      (http_parse2_on 0 matcher.0 tables packet no_matches)
      (IsParsed tables packet (matcher.1.calls packet) 0)
installed_scan-IsParsed_example =
    installed_scan-IsParsed 0 (λ app. app.app_id) one_root tables patterns matcher.0 packet
      no_matches one_root-IsLoadable tables-IsInstalled matcher.1 refl
      (
        omega arith,
        (
          omega arith,
          (
            omega arith,
            (
              omega arith,
              (
                omega arith,
                (
                  omega arith,
                  (
                    omega arith,
                    (
                      omega arith,
                      (
                        omega arith,
                        (
                          omega arith,
                          (
                            omega arith,
                            (
                              omega arith,
                              (
                                omega arith,
                                (
                                  omega arith,
                                  (
                                    omega arith,
                                    (
                                      omega arith,
                                      (
                                        omega arith,
                                        (omega arith, (omega arith, (omega arith, tt))),
                                      ),
                                    ),
                                  ),
                                ),
                              ),
                            ),
                          ),
                        ),
                      ),
                    ),
                  ),
                ),
              ),
            ),
          ),
        ),
      )
      packet-HasRoom (omega arith)
      (omega (arith, length-selected packet (matcher.1.calls packet) 0, matcher.1.few packet))
