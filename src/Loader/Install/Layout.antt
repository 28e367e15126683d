-- ===== src/Loader/Install/Layout.antt =====
-- The layout of the element table, and that the loop over the elements of a signature makes it.
use orchid_linux.Base.{
  write, ℕ, zero, suc, ◌+◌, ◌<◌, bit_or, ◌==◌, ==_ne, lt→ltb, ◌≡◌, refl, List, [], ◌∷◌, ◌++◌, arith,
  length, length-append, ok, All, read, set, get_elem?-append_length, true, some, u16, u32,
  if◌then◌else◌,
}
use mathlib.Core.List.{append_assoc}
use orchid_linux.Loader.Types.{
  Element, AppEntryT, ElementEntry, element_start, element_mid, max_sig_length,
}
use orchid_linux.Loader.HttpSig.{new_app_sig}
use orchid_linux.Loader.Install.{EleState, install_element, install_elements}
use orchid_linux.Matcher.Ids.{element_code}

-- The entries of a signature's later elements, from offset `off` on.
abbrev pub later_entries : ℕ → ℕ → List Element → List ElementEntry
later_entries i off [] = []
later_entries i off (e ∷ []) = record { sigindex = i; flag = 6; exp_ele_index = 0xffff } ∷ []
later_entries i off (e ∷ e' ∷ es) =
    record { sigindex = i; flag = 2; exp_ele_index = suc off } ∷ later_entries i (suc off) (e' ∷ es)

-- The entries of signature `i`, from offset `off` on.
abbrev pub sig_entries : ℕ → ℕ → List Element → List ElementEntry
sig_entries i off [] = []
sig_entries i off (e ∷ []) = record { sigindex = i; flag = 5; exp_ele_index = 0xffff } ∷ []
sig_entries i off (e ∷ e' ∷ es) =
    record { sigindex = i; flag = 1; exp_ele_index = suc off } ∷ later_entries i (suc off) (e' ∷ es)

-- The patterns for the elements, from offset `off` on.
abbrev pub patterns_of : ℕ → List Element → List AppEntryT
patterns_of off [] = []
patterns_of off (e ∷ es) =
    record { app_id = element_code e.id off; regex = e.match } ∷ patterns_of (suc off) es

-- The elements with their numbers.
abbrev pub numbered : ℕ → List Element → List Element
numbered off [] = []
numbered off (e ∷ es) =
    record { id = element_code e.id off; match = e.match } ∷ numbered (suc off) es

-- The text of the element fits the buffer of a pattern.
abbrev pub Fits : Element → Type 0
Fits e = length e.match < max_sig_length

-- The memory of the table is clear where it is not written yet.
abbrev pub Clear : List ElementEntry → Type 0
Clear = All (λ e. e.flag ≡ 0)

module _ {ℓ} {A : Type ℓ} where
  pub read-here :
      (before : List A) (a : A) (behind : List A)
      → read (before ++ a ∷ behind) (length before) ≡ ok a
  read-here before a behind = rw (get_elem?-append_length before a behind)

  pub set-here :
      (before : List A) (a b : A) (behind : List A)
      → set (before ++ a ∷ behind) (length before) b ≡ before ++ b ∷ behind
  set-here [] a b behind = refl
  set-here (x ∷ before) a b behind = rw (set-here before a b behind)

  pub write-here :
      (before : List A) (a b : A) (behind : List A)
      → write (before ++ a ∷ behind) (length before) b ≡ ok (before ++ b ∷ behind)
  unfolding write
  write-here before a b behind = rw (read-here before a behind, set-here before a b behind)

new_app_sig-Fits :
    (id : ℕ) (e : Element)
    → Fits e
    → new_app_sig true id e.match ≡ some (record { app_id = id; regex = e.match })
unfolding new_app_sig
new_app_sig-Fits id e fits = ground (arith, fits)

-- The state between two elements: what is written, and what is not yet.
abbrev pub between : List ElementEntry → List ElementEntry → ℕ → List AppEntryT → EleState
between before behind cur_ele app_list = record {
  eles = before ++ behind;
  ele_offset = length before;
  cur_ele = cur_ele;
  app_list = app_list;
}

-- The flag of an element before the marks on the last one.
abbrev pub flag_at : ℕ → ℕ
flag_at ele_num = if ele_num == 0 then 1 else 2

flag_at_lem : (n : ℕ) → bit_or 0 (if n == 0 then element_start else element_mid) ≡ flag_at n
flag_at_lem zero = refl
flag_at_lem (suc n) = rw (==_ne (suc n) 0 (omega arith))

pub flag_at-suc : (n : ℕ) → flag_at (suc n) ≡ 2
flag_at-suc n = rw (==_ne (suc n) 0 (omega arith))

pub install_element_lem :
    (i n : ℕ) (e : Element) (before : List ElementEntry) (old : ElementEntry)
    (behind : List ElementEntry) (cur : ℕ) (list : List AppEntryT)
    → i < 65536
    → length before + 1 < 65536
    → Fits e
    → old.flag ≡ 0
    → install_element i n e (between before (old ∷ behind) cur list)
      ≡ ok (
        record { id = element_code e.id (length before); match = e.match },
        record {
          eles =
              before
              ++ record { sigindex = i; flag = flag_at n; exp_ele_index = suc (length before) }
                ∷ behind;
          ele_offset = suc (length before);
          cur_ele = length before;
          app_list =
              list ++ record { app_id = element_code e.id (length before); regex = e.match } ∷ [];
        },
      )
unfolding install_element
install_element_lem i n e before old behind cur list hi hb fits clear =
    let same_sig : u16 i ≡ i = omega arith in
    let next : u16 (length before + 1) ≡ suc (length before) = omega arith in
    let offset : u32 (length before + 1) ≡ suc (length before) = omega arith in
    rw (
      new_app_sig-Fits (element_code e.id (length before)) e fits,
      read-here before old behind,
      set-here before old _ behind,
      clear,
      flag_at_lem n,
      same_sig,
      next,
      offset,
    )

-- The loop from a later element on, with the marks on the last one.
pub install_later :
    (i n : ℕ) (e : Element) (es : List Element) (before olds behind : List ElementEntry) (cur : ℕ)
    (list : List AppEntryT) (last end : ℕ)
    → i < 65536
    → end < 65536
    → length before + length es ≡ last
    → suc last ≡ end
    → All Fits (e ∷ es)
    → Clear olds
    → length olds ≡ length (e ∷ es)
    → install_elements i (suc n) (e ∷ es) (between before (olds ++ behind) cur list)
      ≡ ok (
        numbered (length before) (e ∷ es),
        record {
          eles = before ++ (later_entries i (length before) (e ∷ es) ++ behind);
          ele_offset = end;
          cur_ele = last;
          app_list = list ++ patterns_of (length before) (e ∷ es);
        },
      )
unfolding install_elements
install_later i n e es before [] behind cur list last end hi he hl hn fits clear same =
    absurd (omega arith)
install_later i n e [] before (old ∷ []) behind cur list last end hi he hl hn fits clear same =
    let at_last : length before ≡ last = omega arith in
    rw
      (
        install_element_lem i (suc n) e before old behind cur list hi (omega arith) fits.0 clear.0,
        flag_at-suc n,
        lt→ltb 0 (suc (suc n)) (omega arith),
        read-here before _ behind,
        set-here before _ _ behind,
        at_last,
        hn,
      )
      refl
install_later i n e [] before (old ∷ old' ∷ olds) behind cur list last end hi he hl hn fits clear
      same =
    absurd (omega arith)
install_later i n e (e' ∷ es) before (old ∷ olds) behind cur list last end hi he hl hn fits clear
      same =
    let entry : ElementEntry = record {
      sigindex = i;
      flag = 2;
      exp_ele_index = suc (length before);
    } in
    let pattern : AppEntryT = record {
      app_id = element_code e.id (length before);
      regex = e.match;
    } in
    let place : length (before ++ entry ∷ []) ≡ suc (length before) =
      omega (arith, length-append before (entry ∷ [])) in
    let run =
      install_later i (suc n) e' es (before ++ entry ∷ []) olds behind (length before)
        (list ++ pattern ∷ []) last end hi he (omega (arith, place)) hn fits.1 clear.1
        (omega arith) in
    let run' = rw (place, append_assoc, append_assoc, append_assoc) at run in
    rw
      (
        install_element_lem i (suc n) e before old (olds ++ behind) cur list hi (omega arith) fits.0
            clear.0,
        flag_at-suc n,
      )
      (rw run' refl)
