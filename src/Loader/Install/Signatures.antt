-- ===== src/Loader/Install/Signatures.antt =====
-- The loop over the signatures of an application, by that over the elements.
use orchid_linux.Base.{
  read-inside, write-inside, ℕ, suc, ◌+◌, ◌<◌, ◌≤◌, ◌≡◌, refl, List, [], ◌∷◌, ◌++◌, arith, length,
  length-append, length-set, All, Returns, set, u32, bit_or, bit_and, ◌<<<◌,
}
use orchid_linux.Loader.Types.{Sig, AppEntryT, ElementEntry, SigEntry}
use orchid_linux.Loader.Install.{EleState, SigState, install_sigs}
use orchid_linux.Loader.Install.Layout.{sig_entries, patterns_of, Fits}
use orchid_linux.Loader.Install.Elements.{
  IsAt, Added, Added-nothing, Added-both, install_elements-ElementsAdded, length-sig_entries,
}

-- The number of elements of all the signatures.
abbrev pub element_count : List Sig → ℕ
element_count [] = 0
element_count (sig ∷ sigs) = length sig.elements + element_count sigs

-- The entries of the signatures, of which the first is number `i` and begins at `off`.
abbrev pub sigs_entries : ℕ → ℕ → List Sig → List ElementEntry
sigs_entries i off [] = []
sigs_entries i off (sig ∷ sigs) =
    sig_entries i off sig.elements ++ sigs_entries (suc i) (off + length sig.elements) sigs

abbrev pub sigs_patterns : ℕ → List Sig → List AppEntryT
sigs_patterns off [] = []
sigs_patterns off (sig ∷ sigs) =
    patterns_of off sig.elements ++ sigs_patterns (off + length sig.elements) sigs

pub length-sigs_entries :
    (i off : ℕ) (sigs : List Sig) → length (sigs_entries i off sigs) ≡ element_count sigs
length-sigs_entries i off [] = refl
length-sigs_entries i off (sig ∷ sigs) = omega (
  arith,
  length-append (sig_entries i off sig.elements)
      (sigs_entries (suc i) (off + length sig.elements) sigs),
  length-sig_entries i off sig.elements,
  length-sigs_entries (suc i) (off + length sig.elements) sigs,
)

-- What the loop over the signatures does.
pub record SigsAdded (sigs : List Sig) (before behind : List ElementEntry) (s s' : SigState)
    : Type 0 where
  pub elements :
      Added before behind
        (sigs_entries s.sig_offset (length before) sigs)
        (sigs_patterns (length before) sigs)
        s.elements
        s'.elements
  pub sig_offset : s'.sig_offset ≡ s.sig_offset + length sigs
  pub width : length s'.sigs ≡ length s.sigs

SigsAdded-cons :
    {sig : Sig} {sigs : List Sig} {before behind : List ElementEntry} {s s' : SigState}
    (e : EleState) (written : List SigEntry)
    (added : Added before behind
      (sig_entries s.sig_offset (length before) sig.elements)
      (patterns_of (length before) sig.elements)
      s.elements
      e)
    → length written ≡ length s.sigs
    → SigsAdded sigs
        (before ++ sig_entries s.sig_offset (length before) sig.elements)
        added.rest
        (record { sigs = written; sig_offset = suc s.sig_offset; elements = e })
        s'
    → SigsAdded (sig ∷ sigs) before behind s s'
SigsAdded-cons {sig} {sigs} {before} {behind} {s} {s'} e written added width later =
    let entries = sig_entries s.sig_offset (length before) sig.elements in
    let off : length (before ++ entries) ≡ length before + length sig.elements = omega (
      arith,
      length-append before entries,
      length-sig_entries s.sig_offset (length before) sig.elements,
    ) in
    record {
      elements = Added-both added (rw off at later.elements);
      sig_offset = omega (arith, later.sig_offset);
      width = omega (arith, later.width, width);
    }

pub install_sigs-SigsAdded :
    (category appid : ℕ) (sigs : List Sig) (before behind : List ElementEntry) (s : SigState)
    → IsAt before behind s.elements
    → s.sig_offset + length sigs < 65536
    → s.sig_offset + length sigs ≤ length s.sigs
    → length before + element_count sigs < 65536
    → element_count sigs ≤ length behind
    → All (λ sig. All Fits sig.elements) sigs
    → Returns (install_sigs category appid sigs s) (λ r. SigsAdded sigs before behind s r.1)
unfolding install_sigs
install_sigs-SigsAdded category appid [] before behind s here hs hw he hb fits = (
  ([], s),
  refl,
  record { elements = Added-nothing here; sig_offset = omega arith; width = refl },
)
install_sigs-SigsAdded category appid (sig ∷ sigs) before behind s here hs hw he hb fits =
    let i = s.sig_offset in
    let (old, at_i) = read-inside s.sigs i (omega arith) in
    let cur_sig : SigEntry = record old {
      sigid = bit_or (u32 (bit_and category 0xffff <<< 16)) (bit_and appid 0xffff);
      proto = sig.proto;
      enable = sig.enable;
      priority = sig.priority;
    } in
    let written = set s.sigs i cur_sig in
    let ((elements, e), run, (numbers, added)) =
      install_elements-ElementsAdded i sig.elements before behind s.elements here (omega arith)
        (omega arith) (omega arith) fits.0 in
    let s1 : SigState = record { sigs = written; sig_offset = suc i; elements = e } in
    let size = length-sig_entries i (length before) sig.elements in
    let place = length-append before (sig_entries i (length before) sig.elements) in
    let width = length-set s.sigs i cur_sig in
    let (r, run', later) =
      install_sigs-SigsAdded category appid sigs
        (before ++ sig_entries i (length before) sig.elements) added.rest s1 added.here
        (omega arith) (omega (arith, width)) (omega (arith, place, size))
        (omega (arith, added.size, size)) fits.1 in
    let next : u32 (i + 1) ≡ suc i = omega arith in
    (
      (record sig { elements = elements } ∷ r.0, r.1),
      rw (at_i, write-inside s.sigs i cur_sig (omega arith), run, next, run'),
      SigsAdded-cons e written added width later,
    )
