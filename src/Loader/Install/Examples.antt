-- ===== src/Loader/Install/Examples.antt =====
-- The theorems on the installation at two applications, and tests.
use orchid_linux.Base.{
  write, ◌≡◌, refl, sym, List, [], ◌∷◌, ok, fault, Fault, arith, replicate, Returns, length,
}
use orchid_linux.Base.CString.{codes}
use orchid_linux.Loader.Types.{
  Element, Sig, Application, AppInfo, AppStatistics, sig_multi, protocol_http,
}
use orchid_linux.Loader.Install.{
  application_summary, install_application, no_statistics, count_applications, count_sigs,
  count_elements, cate_indices,
}
use orchid_linux.Loader.Install.Summary.{IsLoadable, IsSummary, application_summary-IsSummary}
use orchid_linux.Loader.Install.Correct.{
  IsMemory, IsInstalled, install_application-IsInstalled, install_application-IsTable,
}
use orchid_linux.Matcher.Check.Spec.{IsTable}

abbrev sig_of : List Element → Sig
sig_of elements = record {
  id = 1;
  proto = protocol_http;
  type = sig_multi;
  enable = 1;
  priority = 1;
  dir = 0;
  match = [];
  ele_num = length elements;
  elements = elements;
}

abbrev root : List Application
root =
    record {
      id = 1;
      category = 2;
      name = codes "youku";
      sigs =
          sig_of (
            record { id = 1; match = codes "www.youku.com" }
            ∷ record { id = 2; match = codes "WOW64" }
            ∷ [])
          ∷ [];
    }
    ∷ record {
      id = 2;
      category = 1;
      name = codes "tudou";
      sigs = sig_of (record { id = 1; match = codes "www.tudou.com" } ∷ []) ∷ [];
    }
    ∷ []

root-IsLoadable : IsLoadable root
root-IsLoadable = record {
  apps = (
    (omega arith, ((omega arith, (omega arith, tt)), tt)),
    ((omega arith, ((omega arith, tt), tt)), tt),
  );
  app_nums = omega arith;
  sig_nums = omega arith;
  ele_nums = omega arith;
}

abbrev summary : AppStatistics
summary = (application_summary-IsSummary root root-IsLoadable).0

summary-IsSummary : IsSummary root summary
summary-IsSummary = (application_summary-IsSummary root root-IsLoadable).2

abbrev clear_memory : AppInfo
clear_memory = record {
  apps = replicate 2 (record { appname = 0; appid = 0; sig_index = 0; sig_num = 0 });
  sigs = replicate 2 (record { sigid = 0; proto = 0; enable = 0; priority = 0; f_ele_index = 0 });
  eles = replicate 3 (record { sigindex = 0; flag = 0; exp_ele_index = 0 });
}

clear_memory-IsMemory : IsMemory summary clear_memory
clear_memory-IsMemory = record {
  apps = sym summary-IsSummary.app_nums;
  sigs = sym summary-IsSummary.sig_nums;
  eles = sym summary-IsSummary.ele_nums;
  clear = (refl, (refl, (refl, tt)));
}

install_application-IsInstalled_example :
    Returns (install_application clear_memory summary root) (λ r. IsInstalled root r.1.0 r.1.1)
install_application-IsInstalled_example =
    install_application-IsInstalled clear_memory summary root root-IsLoadable summary-IsSummary
      clear_memory-IsMemory

install_application-IsTable_example :
    Returns (install_application clear_memory summary root) (λ r. IsTable r.1.0)
install_application-IsTable_example =
    install_application-IsTable clear_memory summary root root-IsLoadable summary-IsSummary
      clear_memory-IsMemory

-- The counts of the two applications.
counted :
    application_summary root no_statistics
    ≡ ok (record {
      cate_index = 0 ∷ 0 ∷ 1 ∷ replicate 13 2;
      cate_num = 0 ∷ 1 ∷ 1 ∷ replicate 13 0;
      app_nums = 2;
      sig_nums = 2;
      ele_nums = 3;
    })
unfolding application_summary count_applications count_sigs count_elements cate_indices write
counted = refl

-- A category outside the arrays.
bad_category :
    application_summary (record { id = 1; category = 16; name = []; sigs = [] } ∷ []) no_statistics
    ≡ fault Fault.out_of_bounds
unfolding application_summary count_applications
bad_category = refl
