-- ===== src/Program/Setup.antt =====
-- The start of the program: `parseApplication` and `load_sig` of app_identify/loader/sig_loader.c,
-- `resource_init` of main.c and `destroy_dp_session_table` of session.c.
--
-- `load_app` stands for `loadApp`: the applications that the parser reads from the file.
use orchid_linux.Base.{ℕ, Bool, List, [], ◌∷◌, Option, ◌==◌, if◌then◌else◌, Run, ok, ◌>>=◌}
use orchid_linux.Base.Int.{ℤ, negsuc}
use orchid_linux.Loader.Types.{Sig, Application, AppEntryT, AppInfo, AppStatistics, protocol_http}
use orchid_linux.Loader.HttpSig.{init_http_sig, parse_http_sig}
use orchid_linux.Loader.Install.{application_summary, no_statistics, install_application}
use orchid_linux.Loader.Dump.{Line, ArrayLine, dump_applications, dump_application_array}
use orchid_linux.Automaton.Types.{Acsm}
use orchid_linux.Automaton.Compile.{sig_parse_adapter_ac}
use orchid_linux.Regex.{Internals, regex_parse}
use orchid_linux.Matcher.Graph.{DfaGraph}
use orchid_linux.Session.Defs.{SessionTable, create_session_table, no_table}

-- The loops of `parseApplication` over the applications and their signatures.
unfoldable pub parse_sigs : List Sig → List AppEntryT → Run (List AppEntryT)
parse_sigs [] app_list = ok app_list
parse_sigs (sig ∷ sigs) app_list =
    (if sig.proto == protocol_http
      then parse_http_sig app_list sig.match sig.id sig.type
      else ok app_list)
    >>= parse_sigs sigs

unfoldable pub parse_apps : List Application → List AppEntryT → Run (List AppEntryT)
unfolding parse_sigs
parse_apps [] app_list = ok app_list
parse_apps (app ∷ root) app_list = parse_sigs app.sigs app_list >>= parse_apps root

module _ {Rules : Type 0} (no_rules : Rules) (push : List ℕ → ℕ → Rules → Rules)
    (build : Rules → Internals) where
  -- `parseApplication`, which the program calls where it is built with TEST_REGEX.
  unfoldable pub parse_application : (ℕ → Option (List ℕ)) → List Application → Run DfaGraph
  unfolding parse_apps
  parse_application memory root =
      parse_apps root (init_http_sig []) >>= regex_parse no_rules push build memory

-- What `load_sig` leaves: `app_summary`, `app_array`, `app_list`, `appgraph2`, and what it prints.
pub record Loaded : Type 0 where
  pub app_summary : AppStatistics
  pub app_array : AppInfo
  pub app_list : List AppEntryT
  pub appgraph2 : Acsm
  pub applications : List Line
  pub array : List ArrayLine

-- `load_sig` with TEST_AC. `memory` is what `malloc` gives for the tables, `address` where a text
-- stands, and `rounds` bounds the loops of the automaton.
unfoldable pub load_sig : AppInfo → (AppEntryT → ℕ) → ℕ → List Application → Run Loaded
load_sig memory address rounds app_root = do
  app_summary ← application_summary app_root no_statistics
  (app_root', (app_array, app_list)) ← install_application memory app_summary app_root
  array ← dump_application_array app_array app_summary
  appgraph2 ← sig_parse_adapter_ac rounds address app_list
  ok (record {
    app_summary = app_summary;
    app_array = app_array;
    app_list = app_list;
    appgraph2 = appgraph2;
    applications = dump_applications app_root;
    array = array;
  })

-- `resource_init`.
unfoldable pub resource_init :
    AppInfo → (AppEntryT → ℕ) → ℕ → Bool → List Application → Run (Loaded × SessionTable)
unfolding load_sig
resource_init memory address rounds table_memory app_root = do
  loaded ← load_sig memory address rounds app_root
  ok (loaded, (create_session_table table_memory no_table).1)

-- `destroy_dp_session_table`, which is yet to be written.
abbrev pub destroy_dp_session_table : SessionTable → ℤ × SessionTable
destroy_dp_session_table t = (negsuc 0, t)
