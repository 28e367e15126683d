-- ===== src/Loader/Install/Elements.antt =====
-- The loops over elements and signatures write the layout, one part after the other.
use orchid_linux.Base.{
  ℕ, zero, suc, ◌+◌, ◌<◌, ◌≤◌, ◌≡◌, refl, sym, ap, List, [], ◌∷◌, ◌++◌, arith, length,
  length-append, All, Returns,
}
use mathlib.Core.List.{append_assoc, append-nil}
use orchid_linux.Loader.Types.{Element, AppEntryT, ElementEntry}
use orchid_linux.Loader.Install.{EleState, install_elements}
use orchid_linux.Matcher.Ids.{element_code}
use orchid_linux.Loader.Install.Layout.{
  read-here, set-here, later_entries, sig_entries, patterns_of, numbered, Fits, Clear, between,
  install_element_lem, install_later,
}

-- The table is written up to the offset, with what is written, and clear behind it.
pub record IsAt (before behind : List ElementEntry) (s : EleState) : Type 0 where
  pub eles : s.eles ≡ before ++ behind
  pub offset : s.ele_offset ≡ length before
  pub clear : Clear behind

-- From `s` to `s'` the entries and the patterns were added.
pub record Added (before behind entries : List ElementEntry) (patterns : List AppEntryT)
    (s s' : EleState) : Type 0 where
  pub rest : List ElementEntry
  pub here : IsAt (before ++ entries) rest s'
  pub size : length behind ≡ length entries + length rest
  pub app_list : s'.app_list ≡ s.app_list ++ patterns

pub Added-nothing :
    {before behind : List ElementEntry} {s : EleState}
    → IsAt before behind s
    → Added before behind [] [] s s
Added-nothing {before} {behind} {s} here = record {
  rest = behind;
  here = rw append-nil here;
  size = omega arith;
  app_list = rw append-nil refl;
}

pub Added-both :
    {before behind e1 e2 : List ElementEntry} {p1 p2 : List AppEntryT} {s s1 s2 : EleState}
    → (a : Added before behind e1 p1 s s1) → Added (before ++ e1) a.rest e2 p2 s1 s2
    → Added before behind (e1 ++ e2) (p1 ++ p2) s s2
Added-both {before} {behind} {e1} {e2} {p1} {p2} {s} {s1} {s2} a b = record {
  rest = b.rest;
  here = rw append_assoc at b.here;
  size = omega (arith, a.size, b.size, length-append e1 e2);
  app_list = rw (b.app_list, a.app_list, append_assoc);
}

-- A clear part of the table is split.
split-Clear :
    (n : ℕ) (xs : List ElementEntry)
    → n ≤ length xs
    → Clear xs
    → (ys : List ElementEntry) × (zs : List ElementEntry) × (xs ≡ ys ++ zs)
      × (length ys ≡ n)
      × Clear ys
      × Clear zs
split-Clear zero xs h clear = ([], xs, refl, refl, tt, clear)
split-Clear (suc n) [] h clear = absurd (omega arith)
split-Clear (suc n) (x ∷ xs) h clear =
    let (ys, zs, e, l, cy, cz) = split-Clear n xs (omega arith) clear.1 in
    (x ∷ ys, zs, ap (λ t. x ∷ t) e, omega (arith, l), (clear.0, cy), cz)

pub length-later_entries :
    (i off : ℕ) (es : List Element) → length (later_entries i off es) ≡ length es
length-later_entries i off [] = refl
length-later_entries i off (e ∷ []) = refl
length-later_entries i off (e ∷ e' ∷ es) = ap suc (length-later_entries i (suc off) (e' ∷ es))

pub length-sig_entries : (i off : ℕ) (es : List Element) → length (sig_entries i off es) ≡ length es
length-sig_entries i off [] = refl
length-sig_entries i off (e ∷ []) = refl
length-sig_entries i off (e ∷ e' ∷ es) = ap suc (length-later_entries i (suc off) (e' ∷ es))

-- What the loop over the elements of signature `i` does.
abbrev pub ElementsAdded :
    ℕ
    → List Element
    → List ElementEntry
    → List ElementEntry
    → EleState
    → List Element × EleState
    → Type 0
ElementsAdded i es before behind s r =
    (r.0 ≡ numbered (length before) es)
    × Added before behind (sig_entries i (length before) es) (patterns_of (length before) es) s r.1

-- The result of the loop over the elements.
abbrev added_result :
    ℕ
    → List Element
    → List ElementEntry
    → List ElementEntry
    → List AppEntryT
    → ℕ
    → ℕ
    → List Element × EleState
added_result i es before behind list last end = (
  numbered (length before) es,
  record {
    eles = before ++ (sig_entries i (length before) es ++ behind);
    ele_offset = end;
    cur_ele = last;
    app_list = list ++ patterns_of (length before) es;
  },
)

at_between :
    (before behind : List ElementEntry) (s : EleState)
    → IsAt before behind s
    → s ≡ between before behind s.cur_ele s.app_list
at_between before behind s here = λ i. record {
  eles = here.eles i;
  ele_offset = here.offset i;
  cur_ele = s.cur_ele;
  app_list = s.app_list;
}

install_elements_one :
    (i : ℕ) (e : Element) (before : List ElementEntry) (old : ElementEntry)
    (behind : List ElementEntry) (cur : ℕ) (list : List AppEntryT)
    → i < 65536
    → length before + 1 < 65536
    → Fits e
    → old.flag ≡ 0
    → Clear behind
    → Returns
        (install_elements i 0 (e ∷ []) (between before (old ∷ behind) cur list))
        (ElementsAdded i (e ∷ []) before (old ∷ behind) (between before (old ∷ behind) cur list))
unfolding install_elements
install_elements_one i e before old behind cur list hi hb fits clear clears = (
  added_result i (e ∷ []) before behind list (length before) (suc (length before)),
  rw
      (
        install_element_lem i 0 e before old behind cur list hi hb fits clear,
        read-here before _ behind,
        set-here before _ _ behind,
      )
      refl,
  (
    refl,
    record {
      rest = behind;
      here = record {
        eles = sym (append_assoc before (sig_entries i (length before) (e ∷ [])) behind);
        offset = omega (arith, length-append before (sig_entries i (length before) (e ∷ [])));
        clear = clears;
      };
      size = omega arith;
      app_list = refl;
    },
  ),
)

install_elements_more :
    (i : ℕ) (e e' : Element) (es : List Element) (before : List ElementEntry) (old : ElementEntry)
    (olds behind : List ElementEntry) (cur : ℕ) (list : List AppEntryT)
    → i < 65536
    → length before + length (e ∷ e' ∷ es) < 65536
    → All Fits (e ∷ e' ∷ es)
    → Clear (old ∷ olds)
    → length olds ≡ length (e' ∷ es)
    → Clear behind
    → Returns
        (install_elements i 0 (e ∷ e' ∷ es) (between before (old ∷ (olds ++ behind)) cur list))
        (ElementsAdded i
          (e ∷ e' ∷ es)
          before
          (old ∷ (olds ++ behind))
          (between before (old ∷ (olds ++ behind)) cur list))
unfolding install_elements
install_elements_more i e e' es before old olds behind cur list hi hb fits clear same clears =
    let entry : ElementEntry = record {
      sigindex = i;
      flag = 1;
      exp_ele_index = suc (length before);
    } in
    let pattern : AppEntryT = record {
      app_id = element_code e.id (length before);
      regex = e.match;
    } in
    let place : length (before ++ entry ∷ []) ≡ suc (length before) =
      omega (arith, length-append before (entry ∷ [])) in
    let last = suc (length before) + length es in
    let run =
      install_later i 0 e' es (before ++ entry ∷ []) olds behind (length before)
        (list ++ pattern ∷ []) last (suc last) hi (omega arith) (omega (arith, place)) refl fits.1
        clear.1 same in
    let run' = rw (place, append_assoc, append_assoc, append_assoc) at run in
    let all = sig_entries i (length before) (e ∷ e' ∷ es) in
    (
      added_result i (e ∷ e' ∷ es) before behind list last (suc last),
      rw
          (install_element_lem i 0 e before old (olds ++ behind) cur list hi (omega arith) fits.0
            clear.0)
          (rw run' refl),
      (
        refl,
        record {
          rest = behind;
          here = record {
            eles = sym (append_assoc before all behind);
            offset = omega (
              arith,
              length-append before all,
              length-later_entries i (suc (length before)) (e' ∷ es),
            );
            clear = clears;
          };
          size = omega (
            arith,
            same,
            length-append olds behind,
            length-later_entries i (suc (length before)) (e' ∷ es),
          );
          app_list = refl;
        },
      ),
    )

-- The loop over the elements of a signature, and the marks on the last one.
pub install_elements-ElementsAdded :
    (i : ℕ) (es : List Element) (before behind : List ElementEntry) (s : EleState)
    → IsAt before behind s
    → i < 65536
    → length before + length es < 65536
    → length es ≤ length behind
    → All Fits es
    → Returns (install_elements i 0 es s) (ElementsAdded i es before behind s)
install_elements-ElementsAdded i [] before behind s here hi hb room fits =
    (([], s), unfold install_elements in refl, (refl, Added-nothing here))
install_elements-ElementsAdded i (e ∷ []) before [] s here hi hb room fits = absurd (omega arith)
install_elements-ElementsAdded i (e ∷ []) before (old ∷ behind) s here hi hb room fits =
    rw (at_between before (old ∷ behind) s here) (
      install_elements_one i e before old behind s.cur_ele s.app_list hi hb fits.0 here.clear.0
        here.clear.1)
install_elements-ElementsAdded i (e ∷ e' ∷ es) before [] s here hi hb room fits =
    absurd (omega arith)
install_elements-ElementsAdded i (e ∷ e' ∷ es) before (old ∷ rest) s here hi hb room fits =
    let (olds, behind, cut, same, c, cs) =
      split-Clear (length (e' ∷ es)) rest (omega arith) here.clear.1 in
    rw (at_between before (old ∷ rest) s here, cut)
      (install_elements_more i e e' es before old olds behind s.cur_ele s.app_list hi hb fits
        (here.clear.0, c) same cs)
