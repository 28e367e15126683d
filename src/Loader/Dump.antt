-- ===== src/Loader/Dump.antt =====
-- What app_identify/loader prints: `dump_applications`, `graph_dump` and `dump_application_array` of
-- sig_loader.c and `http_dump_sig_entrys` of http_parse.c, as lists of the arguments of `printf`.
use orchid_linux.Base.{
  ℕ, zero, suc, ◌+◌, List, [], ◌∷◌, ◌++◌, ◌==◌, if◌then◌else◌, map, Run, ok, fault, Fault, ◌>>=◌,
  read,
}
use orchid_linux.Loader.Types.{
  Element, Sig, Application, AppEntryT, AppStatistics, ElementEntry, AppInfo, max_category_id,
}
use orchid_linux.Matcher.Graph.{DfaGraph}

-- The lines of `dump_applications`.
pub data Line : Type 0 where
  app_line : ℕ → ℕ → List ℕ → Line
  sig_line : ℕ → ℕ → ℕ → ℕ → ℕ → ℕ → List ℕ → Line
  element_line : ℕ → List ℕ → Line

abbrev pub element_lines : List Element → List Line
element_lines elements = map (λ e. element_line e.id e.match) elements

unfoldable pub sig_lines : List Sig → List Line
sig_lines [] = []
sig_lines (sig ∷ sigs) =
    sig_line sig.id sig.proto sig.type sig.enable sig.priority sig.dir sig.match
    ∷ (element_lines sig.elements ++ sig_lines sigs)

unfoldable pub dump_applications : List Application → List Line
unfolding sig_lines
dump_applications [] = []
dump_applications (app ∷ root) =
    app_line app.id app.category app.name ∷ (sig_lines app.sigs ++ dump_applications root)

-- `http_dump_sig_entrys`.
abbrev pub http_dump_sig_entrys : List AppEntryT → List (ℕ × List ℕ)
http_dump_sig_entrys app_list = map (λ sig_entry. (sig_entry.app_id, sig_entry.regex)) app_list

-- So many entries of an array, from a place on.
unfoldable pub read_range : List ℕ → ℕ → ℕ → Run (List ℕ)
read_range xs at zero = ok []
read_range xs at (suc count) = do x ← read xs at; rest ← read_range xs (at + 1) count; ok (x ∷ rest)

-- The rows of `graph_dump`, from the row at `at` on. `i` is an `uchar`, so the source ends for an
-- alphabet of at most 255 entries only.
unfoldable pub dump_rows : DfaGraph → ℕ → ℕ → Run (List (List ℕ))
unfolding read_range
dump_rows graph at zero = ok []
dump_rows graph at (suc states) = do
  row ← read_range graph.next_table at graph.alphabet_size
  rest ← dump_rows graph (at + graph.alphabet_size) states
  ok (row ∷ rest)

-- `graph_dump`: the classes of the small letters, and the rows.
unfoldable pub graph_dump : DfaGraph → Run (List ℕ × List (List ℕ))
unfolding read_range dump_rows
graph_dump graph = do
  letters ← read_range graph.alphabet_table b'a' 26
  rows ← dump_rows graph 0 graph.state_num
  ok (letters, rows)

-- The lines of `dump_application_array`.
pub data ArrayLine : Type 0 where
  cate_line : ℕ → ℕ → ℕ → ArrayLine
  entry_line : ℕ → ArrayLine
  sig_entry_line : ℕ → ℕ → ℕ → ℕ → ArrayLine
  ele_line : ℕ → ℕ → ℕ → ArrayLine

-- The loop over the elements of a signature, up to one that expects none.
unfoldable pub dump_elements : List ElementEntry → List ArrayLine → Run (List ArrayLine)
dump_elements [] out = fault Fault.out_of_bounds
dump_elements (ele ∷ eles) out =
    let line = ele_line ele.sigindex ele.flag ele.exp_ele_index in
    let rest = dump_elements eles (out ++ line ∷ []) in
    if ele.exp_ele_index == 0xffff then ok (out ++ line ∷ []) else rest

-- The array from a place on, that may be its end.
unfoldable pub from_index : {A : Type 0} → List A → ℕ → Run (List A)
from_index xs zero = ok xs
from_index [] (suc i) = fault Fault.out_of_bounds
from_index (x ∷ xs) (suc i) = from_index xs i

-- The loop over the signatures from number `k` on: `cur_sig += k` moves a pointer that was moved.
unfoldable pub dump_sigs : AppInfo → ℕ → ℕ → ℕ → List ArrayLine → Run (List ArrayLine)
unfolding dump_elements from_index
dump_sigs tables zero k cur_sig out = ok out
dump_sigs tables (suc left) k cur_sig out = do
  sig ← read tables.sigs (cur_sig + k)
  let line : ArrayLine = sig_entry_line sig.sigid sig.proto sig.enable sig.priority
  eles ← from_index tables.eles sig.f_ele_index
  out' ← dump_elements eles (out ++ line ∷ [])
  dump_sigs tables left (k + 1) (cur_sig + k) out'

-- The loop over the applications of a category from number `j` on, with `cur_app += j`.
unfoldable pub dump_apps : AppInfo → ℕ → ℕ → ℕ → List ArrayLine → Run (List ArrayLine)
unfolding dump_sigs
dump_apps tables zero j cur_app out = ok out
dump_apps tables (suc left) j cur_app out = do
  app ← read tables.apps (cur_app + j)
  out' ← dump_sigs tables app.sig_num 0 app.sig_index (out ++ entry_line app.appid ∷ [])
  dump_apps tables left (j + 1) (cur_app + j) out'

-- The loop over the categories from `i` on.
unfoldable pub dump_categories :
    AppInfo → AppStatistics → ℕ → ℕ → List ArrayLine → Run (List ArrayLine)
unfolding dump_apps
dump_categories tables app_summary zero i out = ok out
dump_categories tables app_summary (suc left) i out = do
  index ← read app_summary.cate_index i
  num ← read app_summary.cate_num i
  out' ← dump_apps tables num 0 index (out ++ cate_line i index num ∷ [])
  dump_categories tables app_summary left (i + 1) out'

-- `dump_application_array`, without the three totals that it prints first.
unfoldable pub dump_application_array : AppInfo → AppStatistics → Run (List ArrayLine)
unfolding dump_categories
dump_application_array app_array app_summary =
    dump_categories app_array app_summary max_category_id 0 []
