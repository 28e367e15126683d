-- ===== src/Loader/Install/Summary.antt =====
-- `get_Application_summary` counts, and its indices leave each category room.
use orchid_linux.Base.{
  write-inside, write, ℕ, zero, suc, ◌+◌, ◌<◌, ◌≤◌, ◌≡◌, ◌≢◌, refl, ap, List, [], ◌∷◌, arith,
  length, length-set, replicate, ok, All, Returns, read, set, get_or, get_or-set_self,
  get_or-set_ne, get_or-replicate, u32, true, ◌==◌, ==_refl, ==_ne, if◌then◌else◌, ◌^◌,
}
use native.Mathlib.Decide.{ℕ_discrete}
use orchid_linux.Loader.Types.{Element, Sig, Application, AppStatistics, max_category_id}
use orchid_linux.Loader.Install.{
  count_elements, count_sigs, count_applications, cate_indices, application_summary, no_statistics,
}
use orchid_linux.Loader.Install.Signatures.{element_count}
use orchid_linux.Loader.Install.Apps.{
  category_count, sig_total, element_total, IsInstallable, HasRoom, read_or,
}

count_elements_lem :
    (es : List Element) (n : ℕ) → n + length es < 2 ^ 32 → count_elements es n ≡ n + length es
unfolding count_elements
count_elements_lem [] n h = omega arith
count_elements_lem (e ∷ es) n h =
    let wrap : u32 (n + 1) ≡ n + 1 = omega arith in
    rw (wrap, count_elements_lem es (n + 1) (omega arith)) (omega arith)

count_sigs_lem :
    (sigs : List Sig) (s : AppStatistics) (n m : ℕ)
    → s.sig_nums + length sigs ≡ n
    → s.ele_nums + element_count sigs ≡ m
    → n < 2 ^ 32
    → m < 2 ^ 32
    → count_sigs sigs s ≡ record s { sig_nums = n; ele_nums = m }
unfolding count_sigs
count_sigs_lem [] s n m en em hn hm =
    let en' : s.sig_nums ≡ n = omega arith in
    let em' : s.ele_nums ≡ m = omega arith in λ i. record s { sig_nums = en' i; ele_nums = em' i }
count_sigs_lem (sig ∷ sigs) s n m en em hn hm =
    let wrap : u32 (s.sig_nums + 1) ≡ s.sig_nums + 1 = omega arith in
    let eles = s.ele_nums + length sig.elements in
    rw (wrap, count_elements_lem sig.elements s.ele_nums (omega arith))
      (count_sigs_lem sigs (record s { sig_nums = s.sig_nums + 1; ele_nums = eles }) n m
        (omega arith) (omega arith) hn hm)

abbrev pub sum : List ℕ → ℕ
sum [] = 0
sum (n ∷ ns) = n + sum ns

sum-set : (ns : List ℕ) (i v : ℕ) → i < length ns → sum (set ns i v) + get_or ns i 0 ≡ sum ns + v
sum-set [] i v h = absurd (omega arith)
sum-set (n ∷ ns) zero v h = omega arith
sum-set (n ∷ ns) (suc i) v h = omega (arith, sum-set ns i v (omega arith))

get_or-le-sum : (ns : List ℕ) (i : ℕ) → get_or ns i 0 ≤ sum ns
get_or-le-sum [] i = omega arith
get_or-le-sum (n ∷ ns) zero = omega arith
get_or-le-sum (n ∷ ns) (suc i) = omega (arith, get_or-le-sum ns i)

length-cate_indices : (a : ℕ) (ns : List ℕ) → length (cate_indices a ns) ≡ length ns
unfolding cate_indices
length-cate_indices a [] = refl
length-cate_indices a (n ∷ ns) = omega (arith, length-cate_indices (u32 (a + n)) ns)

-- Each category ends before the total.
cate_indices_room :
    (a : ℕ) (ns : List ℕ) (c : ℕ)
    → a + sum ns < 2 ^ 32
    → c < length ns
    → get_or (cate_indices a ns) c 0 + get_or ns c 0 ≤ a + sum ns
unfolding cate_indices
cate_indices_room a [] c h hc = absurd (omega arith)
cate_indices_room a (n ∷ ns) zero h hc = omega arith
cate_indices_room a (n ∷ ns) (suc c) h hc =
    let wrap : u32 (a + n) ≡ a + n = omega arith in
    rw wrap (omega (arith, cate_indices_room (a + n) ns c (omega arith) (omega arith)))

-- What the loop over the applications counts.
pub record Counted (root : List Application) (s s' : AppStatistics) : Type 0 where
  pub app_nums : s'.app_nums ≡ s.app_nums + length root
  pub sig_nums : s'.sig_nums ≡ s.sig_nums + sig_total root
  pub ele_nums : s'.ele_nums ≡ s.ele_nums + element_total root
  pub width : length s'.cate_num ≡ max_category_id
  pub total : sum s'.cate_num ≡ sum s.cate_num + length root
  pub cate_num : (c : ℕ) → get_or s'.cate_num c 0 ≡ get_or s.cate_num c 0 + category_count c root

count_same :
    (app : Application) (later : List Application) (c : ℕ)
    → app.category ≡ c
    → category_count c (app ∷ later) ≡ 1 + category_count c later
count_same app later c same =
    let yes_same : (app.category == c) ≡ true = rw same (==_refl c) in
    ap (λ b. (if b then 1 else 0) + category_count c later) yes_same

count_other :
    (app : Application) (later : List Application) (c : ℕ)
    → app.category ≢ c
    → category_count c (app ∷ later) ≡ 0 + category_count c later
count_other app later c other =
    ap (λ b. (if b then 1 else 0) + category_count c later) (==_ne app.category c other)

count_here :
    (ns : List ℕ) (app : Application) (later : List Application) (c : ℕ)
    → app.category < length ns
    → get_or (set ns app.category (get_or ns app.category 0 + 1)) c 0 + category_count c later
      ≡ get_or ns c 0 + category_count c (app ∷ later)
count_here ns app later c inside =
    let next = get_or ns app.category 0 + 1 in
    elim (ℕ_discrete app.category c) [
      | yes same ↦
          let here : get_or (set ns app.category next) c 0 ≡ next =
            rw (← same) (get_or-set_self ns app.category next 0 inside) in
          let old : get_or ns app.category 0 ≡ get_or ns c 0 = ap (λ d. get_or ns d 0) same in
          omega (arith, count_same app later c same, here, old)
      | no other ↦
          omega (arith, count_other app later c other, get_or-set_ne ns app.category c next 0 other)
    ]

count_applications_step :
    (app : Application) (later : List Application) (s : AppStatistics) (n next apps : ℕ)
    (cate_num : List ℕ)
    → read s.cate_num app.category ≡ ok n
    → u32 (n + 1) ≡ next
    → write s.cate_num app.category next ≡ ok cate_num
    → u32 (s.app_nums + 1) ≡ apps
    → count_applications (app ∷ later) s
      ≡ count_applications later
          (count_sigs app.sigs (record s { app_nums = apps; cate_num = cate_num }))
unfolding count_applications
count_applications_step app later s n next apps cate_num a b c d = rw (a, b, c, d)

count_applications-Counted :
    (root : List Application) (s : AppStatistics)
    → length s.cate_num ≡ max_category_id
    → All IsInstallable root
    → s.app_nums + length root < 2 ^ 32
    → s.sig_nums + sig_total root < 2 ^ 32
    → s.ele_nums + element_total root < 2 ^ 32
    → sum s.cate_num + length root < 2 ^ 32
    → Returns (count_applications root s) (Counted root s)
unfolding count_applications
count_applications-Counted [] s width fits ha hs he ht = (
  s,
  refl,
  record {
    app_nums = omega arith;
    sig_nums = omega arith;
    ele_nums = omega arith;
    width = width;
    total = omega arith;
    cate_num = λ c. omega arith;
  },
)
count_applications-Counted (app ∷ later) s width fits ha hs he ht =
    let c = app.category in
    let n = get_or s.cate_num c 0 in
    let inside : c < length s.cate_num = omega (arith, fits.0.0) in
    let counted = set s.cate_num c (n + 1) in
    let total = sum-set s.cate_num c (n + 1) inside in
    let sigs = s.sig_nums + length app.sigs in
    let eles = s.ele_nums + element_count app.sigs in
    let s1 : AppStatistics = record s { app_nums = s.app_nums + 1; cate_num = counted } in
    let s2 : AppStatistics = record s1 { sig_nums = sigs; ele_nums = eles } in
    let step =
      count_applications_step app later s n (n + 1) (s.app_nums + 1) counted
        (read_or s.cate_num c inside) (omega (arith, get_or-le-sum s.cate_num c))
        (write-inside s.cate_num c (n + 1) inside) (omega arith) in
    let (s', run, rest) =
      count_applications-Counted later s2 (omega (arith, length-set s.cate_num c (n + 1))) fits.1
        (omega arith) (omega arith) (omega arith) (omega (arith, total)) in
    (
      s',
      rw (step, count_sigs_lem app.sigs s1 sigs eles refl refl (omega arith) (omega arith)) run,
      record {
        app_nums = omega (arith, rest.app_nums);
        sig_nums = omega (arith, rest.sig_nums);
        ele_nums = omega (arith, rest.ele_nums);
        width = rest.width;
        total = omega (arith, rest.total, total);
        cate_num = λ d. omega (arith, rest.cate_num d, count_here s.cate_num app later d inside);
      },
    )

-- A list of applications that the tables can hold.
pub record IsLoadable (root : List Application) : Type 0 where
  pub apps : All IsInstallable root
  pub app_nums : length root < 2 ^ 32
  pub sig_nums : sig_total root < 2 ^ 16
  pub ele_nums : element_total root < 2 ^ 16

-- What `get_Application_summary` finds.
pub record IsSummary (root : List Application) (s : AppStatistics) : Type 0 where
  pub app_nums : s.app_nums ≡ length root
  pub sig_nums : s.sig_nums ≡ sig_total root
  pub ele_nums : s.ele_nums ≡ element_total root
  pub width : length s.cate_index ≡ max_category_id
  pub cate_num : (c : ℕ) → c < max_category_id → get_or s.cate_num c 0 ≡ category_count c root
  pub room : HasRoom s.cate_index (replicate max_category_id 0) (length root) root

zeros : (i : ℕ) → get_or (replicate {A = ℕ} max_category_id 0) i 0 ≡ 0
zeros = get_or-replicate max_category_id 0

pub application_summary-IsSummary :
    (root : List Application)
    → IsLoadable root
    → Returns (application_summary root no_statistics) (IsSummary root)
unfolding application_summary
application_summary-IsSummary root ok_root =
    let (s, run, c) =
      count_applications-Counted root no_statistics refl ok_root.apps
        (omega (arith, ok_root.app_nums)) (omega (arith, ok_root.sig_nums))
        (omega (arith, ok_root.ele_nums)) (omega (arith, ok_root.app_nums)) in
    (
      record s { cate_index = cate_indices 0 s.cate_num },
      rw run,
      record {
        app_nums = omega (arith, c.app_nums);
        sig_nums = omega (arith, c.sig_nums);
        ele_nums = omega (arith, c.ele_nums);
        width = omega (arith, length-cate_indices 0 s.cate_num, c.width);
        cate_num = λ i inside. omega (arith, c.cate_num i, zeros i);
        room = λ i inside. omega (
          arith,
          c.cate_num i,
          zeros i,
          cate_indices_room 0 s.cate_num i (omega (arith, c.total, ok_root.app_nums))
              (omega (arith, c.width)),
          c.total,
        );
      },
    )
