-- ===== src/Loader/Examples.antt =====
-- The theorems on the loader at concrete signatures, and tests.
use orchid_linux.Base.{◌≡◌, refl, List, [], ◌∷◌, ok, fault, Fault, arith, All, inl, map, ◌≢◌}
use orchid_linux.Base.CString.{codes, tokens, starts_with}
use orchid_linux.Loader.Types.{sig_multi, sig_single}
use orchid_linux.Loader.HttpSig.{
  parse_http_sig_elements, parse_elements, get_element_id_from_sig, get_key_from_sig,
  new_sig_element,
}
use orchid_linux.Loader.HttpSig.RoundTrip.{
  Condition, host, ua, print, IsPrintable, parse_http_sig_elements-print, element_of,
}
use orchid_linux.Base.{◌≢◌, some, Returns}
use orchid_linux.Base.CString.{str_eq}
use orchid_linux.Loader.KeyPair.{
  KeyPair, strtol, get_str_value_from_key, get_int_value_from_key, proto_to_value, sig_proto_value,
  match_type_to_value, match_type_value, build_sig,
}
use orchid_linux.Loader.KeyPair.Built.{IsBuilt, build_sig-IsBuilt, value_or_zero, lookups_agree}

-- `sig_match` of the first signature of output/sig.conf.
youku_flv_sig :
    parse_http_sig_elements []
      (codes "http_host=www.youku.com&http_ua=WOW64&http_ua=gecko")
      sig_multi
    ≡ ok (
      record { id = 1; match = codes "www.youku.com" }
          ∷ record { id = 2; match = codes "WOW64" }
          ∷ record { id = 2; match = codes "gecko" }
          ∷ [],
      3,
    )
unfolding parse_http_sig_elements parse_elements tokens get_element_id_from_sig get_key_from_sig
    new_sig_element starts_with
youku_flv_sig = refl

-- A key that is not known gives the element 0.
tcp_sig :
    parse_http_sig_elements [] (codes "tcp_payload=aaa") sig_multi
    ≡ ok (record { id = 0; match = codes "aaa" } ∷ [], 1)
unfolding parse_http_sig_elements parse_elements tokens get_element_id_from_sig get_key_from_sig
    new_sig_element starts_with
tcp_sig = refl

-- A text with no `=` ends in the use of a null pointer.
no_value : parse_http_sig_elements [] (codes "http_host") sig_multi ≡ fault Fault.null_pointer
unfolding parse_http_sig_elements parse_elements tokens get_element_id_from_sig get_key_from_sig
    starts_with
no_value = refl

abbrev two_conditions : List Condition
two_conditions =
    record { key = host; value = codes "a.com" } ∷ record { key = ua; value = codes "x=1" } ∷ []

two_conditions-IsPrintable : All IsPrintable two_conditions
two_conditions-IsPrintable = grind arith

multi_not_single : sig_multi ≢ sig_single
multi_not_single = omega arith

parse_http_sig_elements-print_example :
    parse_http_sig_elements [] (print two_conditions) sig_multi
    ≡ ok (map element_of two_conditions, 2)
parse_http_sig_elements-print_example =
    parse_http_sig_elements-print [] two_conditions sig_multi two_conditions-IsPrintable
      (inl multi_not_single)

-- A block of output/sig.conf, with a shorter text.
abbrev pairs : List KeyPair
pairs =
    record { key = codes "sig_id"; value = codes "0x10" }
    ∷ record { key = codes "sig_proto"; value = codes "HTTP" }
    ∷ record { key = codes "sig_type"; value = codes "AC_MULTI" }
    ∷ record { key = codes "sig_match"; value = print two_conditions }
    ∷ []

pairs_match : get_str_value_from_key pairs (codes "sig_match") ≡ some (print two_conditions)
unfolding get_str_value_from_key str_eq
pairs_match = refl

pairs_multi : match_type_value pairs ≢ sig_single
unfolding match_type_value str_eq match_type_to_value
pairs_multi = omega arith

build_sig-IsBuilt_example : Returns (build_sig pairs) (IsBuilt two_conditions)
build_sig-IsBuilt_example =
    build_sig-IsBuilt pairs two_conditions pairs_match (omega arith) pairs_multi
      two_conditions-IsPrintable

lookups_agree_example :
    (get_int_value_from_key pairs (codes "sig_id")
      ≡ value_or_zero strtol (get_str_value_from_key pairs (codes "sig_id")))
    × (sig_proto_value pairs
        ≡ value_or_zero proto_to_value (get_str_value_from_key pairs (codes "sig_proto")))
    × (match_type_value pairs
        ≡ value_or_zero match_type_to_value (get_str_value_from_key pairs (codes "sig_type")))
lookups_agree_example = lookups_agree pairs (codes "sig_id")

sixteen : get_int_value_from_key pairs (codes "sig_id") ≡ 16
unfolding get_int_value_from_key str_eq strtol
sixteen = refl
