-- ===== src/Loader/Install/Apps.antt =====
-- The loop over the applications: every one has a slot of its category.
use orchid_linux.Base.{
  read-inside, write-inside, write, ℕ, ◌+◌, ◌<◌, ◌≤◌, ◌≡◌, ◌-◌, refl, List, [], ◌∷◌, ◌++◌, arith,
  length, length-append, length-set, ok, All, Returns, read, set, get_or, get_or-set_self,
  get_or-set_ne, get_elem?-eq-get_or, u32, ◌==◌, ==_refl, ==_ne, if◌then◌else◌, ◌^◌,
}
use native.Mathlib.Decide.{ℕ_discrete}
use orchid_linux.Loader.Types.{
  Sig, Application, AppEntryT, ElementEntry, AppEntry, AppStatistics, max_category_id,
}
use orchid_linux.Loader.Install.{SigState, InstallState, install_sigs, install_apps}
use orchid_linux.Loader.Install.Layout.{Fits}
use orchid_linux.Loader.Install.Elements.{IsAt, Added, Added-nothing, Added-both}
use orchid_linux.Loader.Install.Signatures.{
  element_count, sigs_entries, sigs_patterns, SigsAdded, install_sigs-SigsAdded,
  length-sigs_entries,
}

-- How many applications have the category.
abbrev pub category_count : ℕ → List Application → ℕ
category_count c [] = 0
category_count c (app ∷ later) = (if app.category == c then 1 else 0) + category_count c later

abbrev pub sig_total : List Application → ℕ
sig_total [] = 0
sig_total (app ∷ later) = length app.sigs + sig_total later

abbrev pub element_total : List Application → ℕ
element_total [] = 0
element_total (app ∷ later) = element_count app.sigs + element_total later

-- The entries of all the applications, and their patterns.
abbrev pub layout : ℕ → ℕ → List Application → List ElementEntry
layout i off [] = []
layout i off (app ∷ later) =
    sigs_entries i off app.sigs ++ layout (i + length app.sigs) (off + element_count app.sigs) later

abbrev pub layout_patterns : ℕ → List Application → List AppEntryT
layout_patterns off [] = []
layout_patterns off (app ∷ later) =
    sigs_patterns off app.sigs ++ layout_patterns (off + element_count app.sigs) later

-- An application that the tables can hold: a category below the bound, and texts that fit.
abbrev pub IsInstallable : Application → Type 0
IsInstallable app = (app.category < max_category_id) × All (λ sig. All Fits sig.elements) app.sigs

-- Each category has room for the applications that are left.
abbrev pub HasRoom : List ℕ → List ℕ → ℕ → List Application → Type 0
HasRoom index offset width root =
    (c : ℕ)
    → c < max_category_id
    → get_or index c 0 + (get_or offset c 0 + category_count c root) ≤ width

HasRoom-next :
    (index offset : List ℕ) (width : ℕ) (app : Application) (later : List Application)
    → length offset ≡ max_category_id
    → app.category < max_category_id
    → HasRoom index offset width (app ∷ later)
    → HasRoom index (set offset app.category (get_or offset app.category 0 + 1)) width later
HasRoom-next index offset width app later size inside room c hc = elim (ℕ_discrete app.category c) [
  | yes same ↦ rw (← same) (
      rw (get_or-set_self offset app.category (get_or offset app.category 0 + 1) 0 (omega arith))
        (omega (arith, rw (==_refl app.category) at (room app.category inside))))
  | no other ↦
      rw (get_or-set_ne offset app.category c (get_or offset app.category 0 + 1) 0 other)
        (omega (arith, rw (==_ne app.category c other) at (room c hc)))
]

-- What the loop over the applications does.
pub record AppsAdded (root : List Application) (before behind : List ElementEntry)
    (s s' : InstallState) : Type 0 where
  pub elements :
      Added before behind
        (layout s.sigs.sig_offset (length before) root)
        (layout_patterns (length before) root)
        s.sigs.elements
        s'.sigs.elements
  pub sig_offset : s'.sigs.sig_offset ≡ s.sigs.sig_offset + sig_total root
  pub width : length s'.sigs.sigs ≡ length s.sigs.sigs

AppsAdded-cons :
    {app : Application} {later : List Application} {before behind : List ElementEntry}
    {s s' : InstallState} (sigs : SigState) (apps : List AppEntry) (cate_offset : List ℕ)
    (added : SigsAdded app.sigs before behind s.sigs sigs)
    → AppsAdded later
        (before ++ sigs_entries s.sigs.sig_offset (length before) app.sigs)
        added.elements.rest
        (record { apps = apps; cate_offset = cate_offset; sigs = sigs })
        s'
    → AppsAdded (app ∷ later) before behind s s'
AppsAdded-cons {app} {later} {before} {behind} {s} {s'} sigs apps cate_offset added next =
    let entries = sigs_entries s.sigs.sig_offset (length before) app.sigs in
    let off : length (before ++ entries) ≡ length before + element_count app.sigs = omega (
      arith,
      length-append before entries,
      length-sigs_entries s.sigs.sig_offset (length before) app.sigs,
    ) in
    record {
      elements = Added-both added.elements (rw (off, added.sig_offset) at next.elements);
      sig_offset = omega (arith, next.sig_offset, added.sig_offset);
      width = omega (arith, next.width, added.width);
    }

pub read_or : (xs : List ℕ) (i : ℕ) → i < length xs → read xs i ≡ ok (get_or xs i 0)
read_or xs i h = rw (get_elem?-eq-get_or xs i 0 h)

-- What the source writes of an application.
abbrev entry_of : Application → AppEntry → InstallState → SigState → AppEntry
entry_of app old s s1 = record {
  appname = old.appname;
  appid = app.id;
  sig_index = s.sigs.sig_offset;
  sig_num = u32 (s1.sig_offset + 2 ^ 32 - s.sigs.sig_offset);
}

install_apps_step :
    (summary : AppStatistics) (app : Application) (later later' : List Application)
    (s s2 : InstallState) (s1 : SigState) (sigs : List Sig) (old : AppEntry) (apps : List AppEntry)
    (cate_offset : List ℕ) (index offset slot next : ℕ)
    → read summary.cate_index app.category ≡ ok index
    → read s.cate_offset app.category ≡ ok offset
    → u32 (index + offset) ≡ slot
    → read s.apps slot ≡ ok old
    → install_sigs app.category app.id app.sigs s.sigs ≡ ok (sigs, s1)
    → write s.apps slot (entry_of app old s s1) ≡ ok apps
    → u32 (offset + 1) ≡ next
    → write s.cate_offset app.category next ≡ ok cate_offset
    → install_apps summary later (record { apps = apps; cate_offset = cate_offset; sigs = s1 })
      ≡ ok (later', s2)
    → install_apps summary (app ∷ later) s ≡ ok (record app { sigs = sigs } ∷ later', s2)
unfolding install_apps
install_apps_step summary app later later' s s2 s1 sigs old apps cate_offset index offset slot next
      a b c d e f g h r =
    rw (a, b, c, d, e, f, g, h, r)

pub install_apps-AppsAdded :
    (summary : AppStatistics) (root : List Application) (before behind : List ElementEntry)
    (s : InstallState)
    → IsAt before behind s.sigs.elements
    → s.sigs.sig_offset + sig_total root < 65536
    → s.sigs.sig_offset + sig_total root ≤ length s.sigs.sigs
    → length before + element_total root < 65536
    → element_total root ≤ length behind
    → length summary.cate_index ≡ max_category_id
    → length s.cate_offset ≡ max_category_id
    → length s.apps < 2 ^ 32
    → HasRoom summary.cate_index s.cate_offset (length s.apps) root
    → All IsInstallable root
    → Returns (install_apps summary root s) (λ r. AppsAdded root before behind s r.1)
unfolding install_apps
install_apps-AppsAdded summary [] before behind s here hs hw he hb hi ho few room fits = (
  ([], s),
  refl,
  record { elements = Added-nothing here; sig_offset = omega arith; width = refl },
)
install_apps-AppsAdded summary (app ∷ later) before behind s here hs hw he hb hi ho few room fits =
    let c = app.category in
    let offset = get_or s.cate_offset c 0 in
    let slot = get_or summary.cate_index c 0 + offset in
    let fits_slot = rw (==_refl c) at (room c fits.0.0) in
    let wrap : u32 slot ≡ slot = omega (arith, fits_slot) in
    let wrap' : u32 (offset + 1) ≡ offset + 1 = omega (arith, fits_slot) in
    let (old, at_slot) = read-inside s.apps slot (omega (arith, fits_slot)) in
    let (r1, run1, added) =
      install_sigs-SigsAdded c app.id app.sigs before behind s.sigs here (omega arith) (omega arith)
        (omega arith) (omega arith) fits.0.1 in
    let cur_app = entry_of app old s r1.1 in
    let apps = set s.apps slot cur_app in
    let cate_offset = set s.cate_offset c (offset + 1) in
    let s1 : InstallState = record { apps = apps; cate_offset = cate_offset; sigs = r1.1 } in
    let entries = sigs_entries s.sigs.sig_offset (length before) app.sigs in
    let place = length-append before entries in
    let size = length-sigs_entries s.sigs.sig_offset (length before) app.sigs in
    let same_apps : length apps ≡ length s.apps = length-set s.apps slot cur_app in
    let (r2, run2, next) =
      install_apps-AppsAdded summary later (before ++ entries) added.elements.rest s1
        added.elements.here (omega (arith, added.sig_offset))
        (omega (arith, added.sig_offset, added.width)) (omega (arith, place, size))
        (omega (arith, added.elements.size, size)) hi
        (omega (arith, length-set s.cate_offset c (offset + 1))) (omega (arith, same_apps))
        (rw same_apps (
          HasRoom-next summary.cate_index s.cate_offset (length s.apps) app later ho fits.0.0 room))
        fits.1 in
    (
      (record app { sigs = r1.0 } ∷ r2.0, r2.1),
      install_apps_step summary app later r2.0 s r2.1 r1.1 r1.0 old apps cate_offset
          (get_or summary.cate_index c 0) offset slot (offset + 1)
          (read_or summary.cate_index c (omega (arith, fits.0.0)))
          (read_or s.cate_offset c (omega (arith, fits.0.0))) wrap at_slot run1
          (write-inside s.apps slot cur_app (omega (arith, fits_slot))) wrap'
          (write-inside s.cate_offset c (offset + 1) (omega (arith, fits.0.0))) run2,
      AppsAdded-cons r1.1 apps cate_offset added next,
    )
