-- ===== src/Loader/KeyPair/Built.antt =====
-- The lookups are one lookup, and a signature block whose text is written from conditions gives a
-- signature that the tables can hold.
use orchid_linux.Base.{
  ℕ, ◌≡◌, ◌≢◌, refl, inl, inr, ◌<◌, List, [], ◌∷◌, Option, none, some, length, map, All, Bool-cases,
  Returns, lt→ltb,
}
use orchid_linux.Base.CString.{codes, str_eq}
use orchid_linux.Loader.Types.{Sig, max_sig_length, sig_single}
use orchid_linux.Loader.HttpSig.RoundTrip.{
  Condition, print, element_of, IsPrintable, parse_http_sig_elements-print,
}
use orchid_linux.Loader.Install.Layout.{Fits}
use orchid_linux.Loader.KeyPair.{
  KeyPair, strtol, get_str_value_from_key, get_int_value_from_key, proto_to_value, sig_proto_value,
  match_type_to_value, match_type_value, assert_fits, build_sig,
}

-- The number that a lookup gives; 0 where the key is missing.
abbrev pub value_or_zero : (List ℕ → ℕ) → Option (List ℕ) → ℕ
value_or_zero f none = 0
value_or_zero f (some v) = f v

get_int-get_str :
    (pairs : List KeyPair) (key : List ℕ)
    → get_int_value_from_key pairs key ≡ value_or_zero strtol (get_str_value_from_key pairs key)
unfolding get_int_value_from_key get_str_value_from_key
get_int-get_str [] key = refl
get_int-get_str (pair ∷ head) key = elim (Bool-cases (str_eq pair.key key)) [
  | inl same ↦ rw same
  | inr other ↦ rw other (get_int-get_str head key)
]

proto-get_str :
    (pairs : List KeyPair)
    → sig_proto_value pairs
      ≡ value_or_zero proto_to_value (get_str_value_from_key pairs (codes "sig_proto"))
unfolding sig_proto_value get_str_value_from_key
proto-get_str [] = refl
proto-get_str (pair ∷ head) = elim (Bool-cases (str_eq pair.key (codes "sig_proto"))) [
  | inl same ↦ rw same
  | inr other ↦ rw other (proto-get_str head)
]

type-get_str :
    (pairs : List KeyPair)
    → match_type_value pairs
      ≡ value_or_zero match_type_to_value (get_str_value_from_key pairs (codes "sig_type"))
unfolding match_type_value get_str_value_from_key
type-get_str [] = refl
type-get_str (pair ∷ head) = elim (Bool-cases (str_eq pair.key (codes "sig_type"))) [
  | inl same ↦ rw same
  | inr other ↦ rw other (type-get_str head)
]

-- The loops of `get_int_value_from_key`, `get_sigProto_value` and `get_matchType_value` give the
-- number, the protocol and the kind that the text of `get_str_value_from_key` stands for, and 0
-- where the key is missing.
pub lookups_agree :
    (pairs : List KeyPair) (key : List ℕ)
    → (get_int_value_from_key pairs key ≡ value_or_zero strtol (get_str_value_from_key pairs key))
      × (sig_proto_value pairs
          ≡ value_or_zero proto_to_value (get_str_value_from_key pairs (codes "sig_proto")))
      × (match_type_value pairs
          ≡ value_or_zero match_type_to_value (get_str_value_from_key pairs (codes "sig_type")))
lookups_agree pairs key = (get_int-get_str pairs key, proto-get_str pairs, type-get_str pairs)

elements-Fits : (cs : List Condition) → All IsPrintable cs → All Fits (map element_of cs)
elements-Fits [] h = tt
elements-Fits (c ∷ cs) h = (h.0.1, elements-Fits cs h.1)

-- What the block of a signature with the text of the conditions gives.
pub record IsBuilt (cs : List Condition) (sig : Sig) : Type 0 where
  pub match : sig.match ≡ print cs
  pub elements : sig.elements ≡ map element_of cs
  pub ele_num : sig.ele_num ≡ length cs
  pub fits : All Fits sig.elements

-- A signature block of a kind other than AC_SINGLE, whose sig_match is written from printable
-- conditions and fits the buffer, gives a signature with those conditions as its elements, in
-- order, their number, and texts that `install_Application` can hold.
pub build_sig-IsBuilt :
    (pairs : List KeyPair) (cs : List Condition)
    → get_str_value_from_key pairs (codes "sig_match") ≡ some (print cs)
    → length (print cs) < max_sig_length
    → match_type_value pairs ≢ sig_single
    → All IsPrintable cs
    → Returns (build_sig pairs) (IsBuilt cs)
unfolding build_sig assert_fits
build_sig-IsBuilt pairs cs found short multi printable =
    rw
      (
        found,
        lt→ltb (length (print cs)) max_sig_length short,
        parse_http_sig_elements-print [] cs (match_type_value pairs) printable (inl multi),
      )
      (
        _,
        refl,
        record { match = refl; elements = refl; ele_num = refl; fits = elements-Fits cs printable },
      )
