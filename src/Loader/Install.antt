-- ===== src/Loader/Install.antt =====
-- `get_Application_summary` and `install_Application` of app_identify/loader/sig_loader.c: the
-- list of applications becomes the arrays that the searcher reads, and the list of patterns.
--
-- The arrays come from `malloc`: their contents are an argument. A write outside an array is a
-- fault. What the source prints of the summary is not modelled.
pub mod Layout
pub mod Elements
pub mod Signatures
pub mod Apps
pub mod Summary
pub mod Kinds
pub mod Correct
mod Examples
use orchid_linux.Base.{
  write, ℕ, suc, ◌+◌, ◌-◌, ◌^◌, bit_and, bit_or, Bool, true, List, [], ◌∷◌, ◌++◌, ◌==◌, ltb,
  if◌then◌else◌, length, get_or, set, Run, ok, Fault, ◌>>=◌, or_fault, read, ◌<<<◌, u16, u32,
  replicate,
}
use orchid_linux.Loader.Types.{
  Element, Sig, Application, AppEntryT, AppStatistics, AppEntry, SigEntry, ElementEntry, AppInfo,
  max_category_id, element_start, element_mid, element_end,
}
use orchid_linux.Loader.HttpSig.{new_app_sig, init_http_sig}
use orchid_linux.Matcher.Ids.{element_code}

-- The three nested loops that count.
unfoldable pub count_elements : List Element → ℕ → ℕ
count_elements [] n = n
count_elements (e ∷ es) n = count_elements es (u32 (n + 1))

unfoldable pub count_sigs : List Sig → AppStatistics → AppStatistics
unfolding count_elements
count_sigs [] s = s
count_sigs (sig ∷ sigs) s = count_sigs sigs (record s {
  sig_nums = u32 (s.sig_nums + 1);
  ele_nums = count_elements sig.elements s.ele_nums;
})

unfoldable pub count_applications : List Application → AppStatistics → Run AppStatistics
count_applications [] s = ok s
count_applications (app ∷ apps) s = do
  n ← read s.cate_num app.category
  cate_num ← write s.cate_num app.category (u32 (n + 1))
  count_applications apps
      (count_sigs app.sigs (record s { app_nums = u32 (s.app_nums + 1); cate_num = cate_num }))

-- The loop over the categories: where each begins.
unfoldable pub cate_indices : ℕ → List ℕ → List ℕ
cate_indices cate_num [] = []
cate_indices cate_num (n ∷ ns) = cate_num ∷ cate_indices (u32 (cate_num + n)) ns

-- `get_Application_summary`, on the global `app_summary`.
unfoldable pub application_summary : List Application → AppStatistics → Run AppStatistics
application_summary root app_summary = do
  s ← count_applications root app_summary
  ok (record s { cate_index = cate_indices 0 s.cate_num })

-- `struct app_statistics_s app_summary;` before the first run.
abbrev pub no_statistics : AppStatistics
no_statistics = record {
  cate_index = replicate max_category_id 0;
  cate_num = replicate max_category_id 0;
  app_nums = 0;
  sig_nums = 0;
  ele_nums = 0;
}

-- What the loop over the elements of a signature changes; `cur_ele` is the entry written last.
pub record EleState : Type 0 where
  pub eles : List ElementEntry
  pub ele_offset : ℕ
  pub cur_ele : ℕ
  pub app_list : List AppEntryT

unfoldable pub install_element : ℕ → ℕ → Element → EleState → Run (Element × EleState)
unfolding write
install_element sig_offset ele_num element s = do
  let id = element_code element.id s.ele_offset
  sig_entry ← or_fault Fault.null_pointer (new_app_sig true id element.match)
  old ← read s.eles s.ele_offset
  let entry : ElementEntry = record {
    sigindex = u16 sig_offset;
    flag = bit_or old.flag (if ele_num == 0 then element_start else element_mid);
    exp_ele_index = u16 (s.ele_offset + 1);
  }
  eles ← write s.eles s.ele_offset entry
  ok (
    record element { id = id },
    record {
      eles = eles;
      ele_offset = u32 (s.ele_offset + 1);
      cur_ele = s.ele_offset;
      app_list = s.app_list ++ sig_entry ∷ [];
    },
  )

-- The loop over the elements, and then the marks on the last one.
unfoldable pub install_elements : ℕ → ℕ → List Element → EleState → Run (List Element × EleState)
unfolding write
install_elements sig_offset ele_num [] s =
    if ltb 0 ele_num
    then (do
      old ← read s.eles s.cur_ele
      eles ←
          write s.eles s.cur_ele
            (record old { flag = bit_or old.flag element_end; exp_ele_index = 0xffff })
      ok ([], record s { eles = eles }))
    else ok ([], s)
install_elements sig_offset ele_num (element ∷ elements) s = do
  (element', s1) ← install_element sig_offset ele_num element s
  (elements', s2) ← install_elements sig_offset (suc ele_num) elements s1
  ok (element' ∷ elements', s2)

-- What the loop over the signatures of an application changes.
pub record SigState : Type 0 where
  pub sigs : List SigEntry
  pub sig_offset : ℕ
  pub elements : EleState

unfoldable pub install_sigs : ℕ → ℕ → List Sig → SigState → Run (List Sig × SigState)
install_sigs category appid [] s = ok ([], s)
install_sigs category appid (sig ∷ sigs) s = do
  old ← read s.sigs s.sig_offset
  let cur_sig = record old {
    sigid = bit_or (u32 (bit_and category 0xffff <<< 16)) (bit_and appid 0xffff);
    proto = sig.proto;
    enable = sig.enable;
    priority = sig.priority;
  }
  written ← write s.sigs s.sig_offset cur_sig
  (elements, e) ← install_elements s.sig_offset 0 sig.elements s.elements
  (sigs', s') ←
      install_sigs category appid sigs
        (record { sigs = written; sig_offset = u32 (s.sig_offset + 1); elements = e })
  ok (record sig { elements = elements } ∷ sigs', s')

-- What the loop over the applications changes.
pub record InstallState : Type 0 where
  pub apps : List AppEntry
  pub cate_offset : List ℕ
  pub sigs : SigState

unfoldable pub install_apps :
    AppStatistics → List Application → InstallState → Run (List Application × InstallState)
install_apps app_summary [] s = ok ([], s)
install_apps app_summary (app ∷ later) s = do
  cate_index ← read app_summary.cate_index app.category
  offset ← read s.cate_offset app.category
  let cur_app = u32 (cate_index + offset)
  old ← read s.apps cur_app
  (sigs, s1) ← install_sigs app.category app.id app.sigs s.sigs
  apps ← write s.apps cur_app (record {
    appname = old.appname;
    appid = app.id;
    sig_index = s.sigs.sig_offset;
    sig_num = u32 (s1.sig_offset + 2 ^ 32 - s.sigs.sig_offset);
  })
  cate_offset ← write s.cate_offset app.category (u32 (offset + 1))
  (later', s2) ←
      install_apps app_summary later (record { apps = apps; cate_offset = cate_offset; sigs = s1 })
  ok (record app { sigs = sigs } ∷ later', s2)

-- The state in which the loops begin, with `init_http_sig` done.
abbrev pub install_start : AppInfo → InstallState
install_start memory = record {
  apps = memory.apps;
  cate_offset = replicate max_category_id 0;
  sigs = record {
    sigs = memory.sigs;
    sig_offset = 0;
    elements = record {
      eles = memory.eles;
      ele_offset = 0;
      cur_ele = 0;
      app_list = init_http_sig [];
    };
  };
}

-- `install_Application` with TEST_AC: the applications with the new numbers of their elements,
-- `app_array` and `app_list`.
unfoldable pub install_application :
    AppInfo → AppStatistics → List Application → Run (List Application × (AppInfo × List AppEntryT))
install_application memory app_summary root = do
  (root', s) ← install_apps app_summary root (install_start memory)
  ok (
    root',
    (
      record { apps = s.apps; sigs = s.sigs.sigs; eles = s.sigs.elements.eles },
      s.sigs.elements.app_list,
    ),
  )
