-- ===== src/Loader/Install/Kinds.antt =====
-- The entries of the layout have the kinds that the searcher takes them to have.
use orchid_linux.Base.{
  ℕ, zero, suc, ◌+◌, ◌<◌, ◌≤◌, ◌≡◌, refl, sym, ap, ◌∙◌, List, [], ◌∷◌, ◌++◌, some, arith, length,
  length-append, get_elem?, get_elem?-append_length,
}
use mathlib.Core.List.{append_assoc, append-nil}
use orchid_linux.Loader.Types.{Element, Sig, Application, ElementEntry}
use orchid_linux.Loader.Install.Layout.{later_entries, sig_entries}
use orchid_linux.Loader.Install.Elements.{length-sig_entries}
use orchid_linux.Loader.Install.Signatures.{element_count, sigs_entries, length-sigs_entries}
use orchid_linux.Loader.Install.Apps.{sig_total, element_total, layout}
use orchid_linux.Matcher.Check.Spec.{Kind, single, first, middle, last}

-- The entries stand in the table from `off` on.
record IsPart (table : List ElementEntry) (off : ℕ) (xs : List ElementEntry) : Type 0 where
  before : List ElementEntry
  behind : List ElementEntry
  whole : table ≡ before ++ (xs ++ behind)
  place : length before ≡ off

IsPart-tail :
    {table : List ElementEntry} {off : ℕ} (x : ElementEntry) (xs : List ElementEntry)
    → IsPart table off (x ∷ xs)
    → IsPart table (suc off) xs
IsPart-tail x xs part = record {
  before = part.before ++ x ∷ [];
  behind = part.behind;
  whole = part.whole ∙ sym (append_assoc part.before (x ∷ []) (xs ++ part.behind));
  place = omega (arith, length-append part.before (x ∷ []), part.place);
}

IsPart-left :
    {table : List ElementEntry} {off : ℕ} (xs ys : List ElementEntry)
    → IsPart table off (xs ++ ys)
    → IsPart table off xs
IsPart-left xs ys part = record {
  before = part.before;
  behind = ys ++ part.behind;
  whole = part.whole ∙ ap (λ t. part.before ++ t) (append_assoc xs ys part.behind);
  place = part.place;
}

IsPart-right :
    {table : List ElementEntry} {off end : ℕ} (xs ys : List ElementEntry)
    → off + length xs ≡ end
    → IsPart table off (xs ++ ys)
    → IsPart table end ys
IsPart-right xs ys e part = record {
  before = part.before ++ xs;
  behind = part.behind;
  whole =
      part.whole
      ∙ ap (λ t. part.before ++ t) (append_assoc xs ys part.behind)
      ∙ sym (append_assoc part.before xs (ys ++ part.behind));
  place = omega (arith, length-append part.before xs, part.place);
}

IsPart-get :
    {table : List ElementEntry} {off : ℕ} (x : ElementEntry) (xs : List ElementEntry)
    → IsPart table off (x ∷ xs)
    → get_elem? table off ≡ some x
IsPart-get x xs part =
    rw (part.whole, ← part.place) (get_elem?-append_length part.before x (xs ++ part.behind))

-- Each entry has a kind, and a signature below `n`.
abbrev pub HaveKinds : List ElementEntry → ℕ → ℕ → List ElementEntry → Type 0
HaveKinds table n off [] = Unit {0}
HaveKinds table n off (x ∷ xs) =
    Kind table off x × (x.sigindex < n) × HaveKinds table n (suc off) xs

module _ (table : List ElementEntry) (n : ℕ) where
  HaveKinds-append :
      (off end : ℕ) (xs ys : List ElementEntry)
      → off + length xs ≡ end
      → HaveKinds table n off xs
      → HaveKinds table n end ys
      → HaveKinds table n off (xs ++ ys)
  HaveKinds-append off end [] ys e h k = let same : off ≡ end = omega arith in rw same k
  HaveKinds-append off end (x ∷ xs) ys e h k =
      (h.0, h.1, HaveKinds-append (suc off) end xs ys (omega arith) h.2 k)

  pub HaveKinds-get :
      (off : ℕ) (xs : List ElementEntry) (j k : ℕ) (e : ElementEntry)
      → HaveKinds table n off xs
      → get_elem? xs j ≡ some e
      → off + j ≡ k
      → Kind table k e × (e.sigindex < n)
  HaveKinds-get off [] j k e h at_j place = absurd (grind arith)
  HaveKinds-get off (x ∷ xs) zero k e h at_j place =
      let here : off ≡ k = omega arith in let same : x ≡ e = cc in rw (← here, ← same) (h.0, h.1)
  HaveKinds-get off (x ∷ xs) (suc j) k e h at_j place =
      HaveKinds-get (suc off) xs j k e h.2 at_j (omega arith)

  next_same :
      (i off : ℕ) (e : Element) (es : List Element) (y : ElementEntry)
      → IsPart table off (later_entries i off (e ∷ es))
      → get_elem? table off ≡ some y
      → y.sigindex ≡ i
  next_same i off e [] y part h = grind (arith, IsPart-get _ _ part)
  next_same i off e (e' ∷ es) y part h = grind (arith, IsPart-get _ _ part)

  later-HaveKinds :
      (i off : ℕ) (e : Element) (es : List Element)
      → i < n
      → IsPart table off (later_entries i off (e ∷ es))
      → HaveKinds table n off (later_entries i off (e ∷ es))
  later-HaveKinds i off e [] hi part = (last refl refl, hi, tt)
  later-HaveKinds i off e (e' ∷ es) hi part =
      let tail = IsPart-tail _ _ part in
      (
        middle refl
            (record { next = refl; same_sig = λ y h. next_same i (suc off) e' es y tail h }),
        hi,
        later-HaveKinds i (suc off) e' es hi tail,
      )

  sig-HaveKinds :
      (i off : ℕ) (es : List Element)
      → i < n
      → IsPart table off (sig_entries i off es)
      → HaveKinds table n off (sig_entries i off es)
  sig-HaveKinds i off [] hi part = tt
  sig-HaveKinds i off (e ∷ []) hi part = (single refl refl, hi, tt)
  sig-HaveKinds i off (e ∷ e' ∷ es) hi part =
      let tail = IsPart-tail _ _ part in
      (
        first refl (record { next = refl; same_sig = λ y h. next_same i (suc off) e' es y tail h }),
        hi,
        later-HaveKinds i (suc off) e' es hi tail,
      )

  sigs-HaveKinds :
      (i off : ℕ) (sigs : List Sig)
      → i + length sigs ≤ n
      → IsPart table off (sigs_entries i off sigs)
      → HaveKinds table n off (sigs_entries i off sigs)
  sigs-HaveKinds i off [] hi part = tt
  sigs-HaveKinds i off (sig ∷ sigs) hi part =
      let xs = sig_entries i off sig.elements in
      let end = off + length sig.elements in
      let ys = sigs_entries (suc i) end sigs in
      let size : off + length xs ≡ end = omega (arith, length-sig_entries i off sig.elements) in
      HaveKinds-append off end xs ys size
        (sig-HaveKinds i off sig.elements (omega arith) (IsPart-left xs ys part))
        (sigs-HaveKinds (suc i) end sigs (omega arith) (IsPart-right xs ys size part))

  layout-HaveKinds :
      (i off : ℕ) (root : List Application)
      → i + sig_total root ≤ n
      → IsPart table off (layout i off root)
      → HaveKinds table n off (layout i off root)
  layout-HaveKinds i off [] hi part = tt
  layout-HaveKinds i off (app ∷ later) hi part =
      let xs = sigs_entries i off app.sigs in
      let end = off + element_count app.sigs in
      let ys = layout (i + length app.sigs) end later in
      let size : off + length xs ≡ end = omega (arith, length-sigs_entries i off app.sigs) in
      HaveKinds-append off end xs ys size
        (sigs-HaveKinds i off app.sigs (omega arith) (IsPart-left xs ys part))
        (layout-HaveKinds (i + length app.sigs) end later (omega arith)
          (IsPart-right xs ys size part))

-- The whole layout.
pub layout_kinds :
    (root : List Application) → HaveKinds (layout 0 0 root) (sig_total root) 0 (layout 0 0 root)
layout_kinds root =
    layout-HaveKinds (layout 0 0 root) (sig_total root) 0 0 root (omega arith) (record {
      before = [];
      behind = [];
      whole = sym (append-nil (layout 0 0 root));
      place = refl;
    })

pub length-layout :
    (i off : ℕ) (root : List Application) → length (layout i off root) ≡ element_total root
length-layout i off [] = refl
length-layout i off (app ∷ later) = omega (
  arith,
  length-append (sigs_entries i off app.sigs)
      (layout (i + length app.sigs) (off + element_count app.sigs) later),
  length-sigs_entries i off app.sigs,
  length-layout (i + length app.sigs) (off + element_count app.sigs) later,
)
