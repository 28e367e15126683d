-- ===== src/Matcher/Check.antt =====
-- `pattern_check` of app_identify/searcher/http_search.c: which signatures the matched elements
-- complete. A line that the source prints is a report; an access outside a table is a fault.
pub mod Spec
pub mod Step
pub mod Advance
pub mod Branches
pub mod Steps
pub mod Correct
use orchid_linux.Base.{
  ℕ, bit_and, bit_or, Bool, true, false, List, [], ◌∷◌, ◌++◌, ◌==◌, ltb, if◌then◌else◌, length, Run,
  ok, fault, Fault, ◌>>=◌, read, ◌>>>◌,
}
use orchid_linux.Loader.Types.{ElementEntry, SigEntry, AppInfo, element_start, element_end}

-- EXP_ARRYR_SIZE
abbrev pub exp_array_size : ℕ
exp_array_size = 8

-- `printf("Match APP %x Category %x : sig index %x\n", …)`.
pub record Report : Type 0 where
  pub app : ℕ
  pub category : ℕ
  pub sig_index : ℕ

-- The first `exp_num` entries of `exp_array`, and what was printed.
pub record CheckState : Type 0 where
  pub exp_array : List ℕ
  pub reports : List Report

-- The arguments of `printf`, read through `sigs[cur_ele->sigindex]`.
unfoldable pub report : AppInfo → ElementEntry → Run Report
report info cur_ele = do
  sig ← read info.sigs cur_ele.sigindex
  ok (record {
    app = bit_and sig.sigid 0xffff;
    category = bit_and sig.sigid 0xffff_0000 >>> 16;
    sig_index = cur_ele.sigindex;
  })

-- `exp_array[exp_num++] = v`.
unfoldable pub push_exp : List ℕ → ℕ → Run (List ℕ)
push_exp exp_array v =
    if ltb (length exp_array) exp_array_size
    then ok (exp_array ++ v ∷ [])
    else fault Fault.out_of_bounds

-- The loop over `j`: every entry that expects this element goes on to the next one.
unfoldable pub advance :
    AppInfo → ElementEntry → ℕ → List ℕ → List Report → Run (List ℕ × List Report)
unfolding report
advance info cur_ele ele_offset [] printed = ok ([], printed)
advance info cur_ele ele_offset (v ∷ vs) printed =
    let hit = v == ele_offset in
    do
      printed' ←
          if hit
          then (if bit_and cur_ele.flag element_end == 0
              then ok printed
              else (report info cur_ele >>= λ r. ok (printed ++ r ∷ [])))
          else ok printed
      (vs', out) ← advance info cur_ele ele_offset vs printed'
      ok ((if hit then cur_ele.exp_ele_index else v) ∷ vs', out)

-- The three branches for one pattern: an element that is alone, a first one, a later one.
check_single : AppInfo → ElementEntry → CheckState → Run CheckState
unfolding report push_exp
check_single info cur_ele s = do
  r ← report info cur_ele
  exp_array ← push_exp s.exp_array cur_ele.exp_ele_index
  ok (record { exp_array = exp_array; reports = s.reports ++ r ∷ [] })

check_first : ElementEntry → CheckState → Run CheckState
unfolding push_exp
check_first cur_ele s = do
  exp_array ← push_exp s.exp_array cur_ele.exp_ele_index
  ok (record s { exp_array = exp_array })

check_later : AppInfo → ElementEntry → ℕ → CheckState → Run CheckState
unfolding advance
check_later info cur_ele ele_offset s = do
  (exp_array, reports) ← advance info cur_ele ele_offset s.exp_array s.reports
  ok (record { exp_array = exp_array; reports = reports })

-- The body of the loop over `i`, for one pattern.
unfoldable pub check_pattern : AppInfo → ℕ → CheckState → Run CheckState
unfolding check_single check_first check_later
check_pattern info pattern s =
    let ele_offset = bit_and pattern 0xffff in
    read info.eles ele_offset >>= λ cur_ele.
    if cur_ele.flag == bit_or element_end element_start
    then check_single info cur_ele s
    else if bit_and cur_ele.flag element_start == 0
    then check_later info cur_ele ele_offset s
    else check_first cur_ele s

-- The loop over `i`, with its `break`.
unfoldable pub check_patterns : AppInfo → List ℕ → CheckState → Run CheckState
check_patterns info [] s = ok s
check_patterns info (p ∷ ps) s = check_pattern info p s >>= λ s'.
    let rest = check_patterns info ps s' in
    if length s'.exp_array == exp_array_size then ok s' else rest

-- `pattern_check` over the first `pattern_count` patterns.
unfoldable pub pattern_check : AppInfo → List ℕ → Run (List Report)
pattern_check info patterns =
    check_patterns info patterns (record { exp_array = []; reports = [] }) >>= λ s. ok s.reports
