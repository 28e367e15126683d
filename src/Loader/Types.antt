-- ===== src/Loader/Types.antt =====
-- The records of application.h, and `struct app_entry_t` of include/regexParse.h. A queue
-- (STAILQ) is the list of its elements, in order; a text in a fixed buffer is its bytes up to
-- the terminating zero.
use orchid_linux.Base.{ℕ, List}

abbrev pub max_app_length : ℕ
max_app_length = 16

abbrev pub max_sig_length : ℕ
max_sig_length = 128

abbrev pub protocol_udp : ℕ
protocol_udp = 1

abbrev pub protocol_tcp : ℕ
protocol_tcp = 2

abbrev pub protocol_http : ℕ
protocol_http = 3

abbrev pub sig_single : ℕ
sig_single = 1

abbrev pub sig_multi : ℕ
sig_multi = 2

abbrev pub sig_regex : ℕ
sig_regex = 3

abbrev pub max_category_id : ℕ
max_category_id = 16

abbrev pub element_start : ℕ
element_start = 1

abbrev pub element_mid : ℕ
element_mid = 2

abbrev pub element_end : ℕ
element_end = 4

-- `struct element_s`.
pub record Element : Type 0 where
  pub id : ℕ
  pub match : List ℕ

-- `struct sig_s`.
pub record Sig : Type 0 where
  pub id : ℕ
  pub proto : ℕ
  pub type : ℕ
  pub enable : ℕ
  pub priority : ℕ
  pub dir : ℕ
  pub match : List ℕ
  pub ele_num : ℕ
  pub elements : List Element

-- `struct application_s`.
pub record Application : Type 0 where
  pub id : ℕ
  pub category : ℕ
  pub name : List ℕ
  pub sigs : List Sig

-- `struct app_entry_t`: a pattern for the engines, with the number that they report.
pub record AppEntryT : Type 0 where
  pub app_id : ℕ
  pub regex : List ℕ

-- `struct app_statistics_s`; the arrays have `max_category_id` entries.
pub record AppStatistics : Type 0 where
  pub cate_index : List ℕ
  pub cate_num : List ℕ
  pub app_nums : ℕ
  pub sig_nums : ℕ
  pub ele_nums : ℕ

-- `struct app_entry_s`.
pub record AppEntry : Type 0 where
  pub appname : ℕ
  pub appid : ℕ
  pub sig_index : ℕ
  pub sig_num : ℕ

-- `struct sig_entry_s`.
pub record SigEntry : Type 0 where
  pub sigid : ℕ
  pub proto : ℕ
  pub enable : ℕ
  pub priority : ℕ
  pub f_ele_index : ℕ

-- `struct element_entry_s`.
pub record ElementEntry : Type 0 where
  pub sigindex : ℕ
  pub flag : ℕ
  pub exp_ele_index : ℕ

-- `struct app_info_s`, the tables that the searcher reads.
pub record AppInfo : Type 0 where
  pub apps : List AppEntry
  pub sigs : List SigEntry
  pub eles : List ElementEntry
