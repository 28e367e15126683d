-- ===== src/Loader/Install/Correct.antt =====
-- `install_Application` makes the tables that the searcher relies on.
use orchid_linux.Base.{
  ℕ, ◌≡◌, refl, ap, List, [], ◌∷◌, ◌++◌, some, arith, length, Returns, get_elem?,
}
use mathlib.Core.List.{append-nil}
use orchid_linux.Loader.Types.{Application, AppEntryT, AppStatistics, ElementEntry, AppInfo}
use orchid_linux.Loader.HttpSig.{init_http_sig}
use orchid_linux.Loader.Install.{install_start, install_application}
use orchid_linux.Loader.Install.Layout.{Clear}
use orchid_linux.Loader.Install.Apps.{sig_total, layout, layout_patterns, install_apps-AppsAdded}
use orchid_linux.Loader.Install.Summary.{IsLoadable, IsSummary}
use orchid_linux.Loader.Install.Kinds.{layout_kinds, HaveKinds-get, length-layout}
use orchid_linux.Matcher.Check.Spec.{IsTable}

-- The memory that `malloc` gives for the three arrays, where it is clear.
pub record IsMemory (s : AppStatistics) (memory : AppInfo) : Type 0 where
  pub apps : length memory.apps ≡ s.app_nums
  pub sigs : length memory.sigs ≡ s.sig_nums
  pub eles : length memory.eles ≡ s.ele_nums
  pub clear : Clear memory.eles

-- What `install_Application` leaves.
pub record IsInstalled (root : List Application) (info : AppInfo) (app_list : List AppEntryT)
    : Type 0 where
  pub eles : info.eles ≡ layout 0 0 root
  pub sigs : length info.sigs ≡ sig_total root
  pub patterns : app_list ≡ init_http_sig [] ++ layout_patterns 0 root

nothing_left : (xs ys zs : List ElementEntry) → xs ≡ ys ++ zs → length zs ≡ 0 → xs ≡ ys
nothing_left xs ys [] e h = rw append-nil at e
nothing_left xs ys (z ∷ zs) e h = absurd (omega arith)

-- With the summary of the applications and clear memory of its sizes, `install_Application` makes
-- no access outside its arrays: the table of elements is the layout of the signatures, one after
-- the other, and the list of patterns is the headers' and then those of the elements, in order.
pub install_application-IsInstalled :
    (memory : AppInfo) (s : AppStatistics) (root : List Application)
    → IsLoadable root
    → IsSummary root s
    → IsMemory s memory
    → Returns (install_application memory s root) (λ r. IsInstalled root r.1.0 r.1.1)
unfolding install_application
install_application-IsInstalled memory s root loadable summary arrays =
    let (r, run, a) =
      install_apps-AppsAdded s root [] memory.eles (install_start memory)
        (record { eles = refl; offset = refl; clear = arrays.clear })
        (omega (arith, loadable.sig_nums)) (omega (arith, arrays.sigs, summary.sig_nums))
        (omega (arith, loadable.ele_nums)) (omega (arith, arrays.eles, summary.ele_nums))
        summary.width refl (omega (arith, arrays.apps, summary.app_nums, loadable.app_nums))
        (rw (arrays.apps, summary.app_nums) summary.room) loadable.apps in
    (
      (
        r.0,
        (
          record { apps = r.1.apps; sigs = r.1.sigs.sigs; eles = r.1.sigs.elements.eles },
          r.1.sigs.elements.app_list,
        ),
      ),
      rw run refl,
      record {
        eles =
            nothing_left r.1.sigs.elements.eles (layout 0 0 root) a.elements.rest
              a.elements.here.eles
              (omega
                (arith, a.elements.size, length-layout 0 0 root, arrays.eles, summary.ele_nums));
        sigs = omega (arith, a.width, arrays.sigs, summary.sig_nums);
        patterns = a.elements.app_list;
      },
    )

-- Such tables are those that `pattern_check` takes.
pub IsInstalled-IsTable :
    (root : List Application) (info : AppInfo) (app_list : List AppEntryT)
    → IsLoadable root
    → IsInstalled root info app_list
    → IsTable info
IsInstalled-IsTable root info app_list loadable installed =
    let kinds = rw (← installed.eles) at (layout_kinds root) in
    let found = λ (off : ℕ) (e : ElementEntry) (h : get_elem? info.eles off ≡ some e).
      HaveKinds-get info.eles (sig_total root) 0 info.eles off off e kinds h (omega arith) in
    record {
      fits = omega (arith, ap length installed.eles, length-layout 0 0 root, loadable.ele_nums);
      kind = λ off e h. (found off e h).0;
      has_sig = λ off e h. omega (arith, (found off e h).1, installed.sigs);
    }

-- With the summary of the applications and clear memory of its sizes, `install_Application` leaves
-- the tables that `pattern_check` takes: every element has the flags of its place in its signature,
-- names the next one where there is one, and names a signature of the table.
pub install_application-IsTable :
    (memory : AppInfo) (s : AppStatistics) (root : List Application)
    → IsLoadable root
    → IsSummary root s
    → IsMemory s memory
    → Returns (install_application memory s root) (λ r. IsTable r.1.0)
install_application-IsTable memory s root loadable summary arrays =
    let (r, run, installed) =
      install_application-IsInstalled memory s root loadable summary arrays in
    (r, run, IsInstalled-IsTable root r.1.0 r.1.1 loadable installed)
