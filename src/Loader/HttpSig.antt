-- ===== src/Loader/HttpSig.antt =====
-- app_identify/loader/application.c and http_parse.c: a text such as
-- `http_host=a.com&http_ua=b` becomes a list of elements, or of patterns.
--
-- The flag of the two constructors says whether `malloc` gives memory; the parsers take it to.
-- A null pointer that the source uses without a test is the fault `null_pointer`.
pub mod RoundTrip
use orchid_linux.Base.{
  ℕ, ◌+◌, bit_and, bit_or, Bool, true, false, ◌&&◌, List, [], ◌∷◌, ◌++◌, Option, none, some, ◌==◌,
  leb, if◌then◌else◌, length, Run, ok, fault, Fault, ◌>>=◌, or_fault, ◌<<<◌,
}
use orchid_linux.Base.CString.{codes, starts_with, tokens}
use orchid_linux.Loader.Types.{Element, AppEntryT, max_sig_length, sig_single}

-- `new_app_sig`.
unfoldable pub new_app_sig : Bool → ℕ → List ℕ → Option AppEntryT
new_app_sig memory id sig =
    if leb max_sig_length (length sig)
    then none
    else (if memory then some (record { app_id = id; regex = sig }) else none)

-- `new_sig_element`.
unfoldable pub new_sig_element : Bool → ℕ → List ℕ → Option Element
new_sig_element memory id sig =
    if leb max_sig_length (length sig)
    then none
    else (if memory then some (record { id = id; match = sig }) else none)

-- `init_http_sig`; every text is shorter than the buffer.
unfoldable pub init_http_sig : List AppEntryT → List AppEntryT
init_http_sig app_list =
    app_list
    ++ (record { app_id = 0x0000_0404; regex = codes "GET " }
        ∷ record { app_id = 0x0000_0504; regex = codes "POST " }
        ∷ record { app_id = 0x0000_0a02; regex = codes "User-Agent" }
        ∷ record { app_id = 0x0000_0703; regex = codes "Referer" }
        ∷ record { app_id = 0x0000_0401; regex = codes "Host" }
        ∷ [])

-- `get_element_id_from_sig`.
unfoldable pub get_element_id_from_sig : List ℕ → ℕ
get_element_id_from_sig sig =
    if starts_with sig (codes "http_host")
    then 1
    else if starts_with sig (codes "http_ua")
    then 2
    else if starts_with sig (codes "http_re")
    then 3
    else if starts_with sig (codes "http_url")
    then 4
    else 0

-- `get_key_from_sig`: what follows the first `=` that is not the first byte; `none` is NULL.
unfoldable pub get_key_from_sig : List ℕ → Option (List ℕ)
get_key_from_sig [] = none
get_key_from_sig (c ∷ []) = none
get_key_from_sig (c ∷ d ∷ s) = if d == b'=' then some s else get_key_from_sig (d ∷ s)

-- `if (type == SIG_SINGLE && result) assert(0);`, with the tokens that are left.
unfoldable pub assert_single : ℕ → List (List ℕ) → Run (Unit {0})
assert_single type [] = ok tt
assert_single type (t ∷ ts) = if type == sig_single then fault Fault.assertion else ok tt

-- The loop of `parse_http_sig_` over the tokens that `strtok` gives.
unfoldable pub parse_elements : ℕ → List (List ℕ) → List Element → ℕ → Run (List Element × ℕ)
unfolding assert_single
parse_elements type [] list n = ok (list, n)
parse_elements type (result ∷ later) list n = do
  let element_id = get_element_id_from_sig result
  match ← or_fault Fault.null_pointer (get_key_from_sig result)
  element_entry ← or_fault Fault.null_pointer (new_sig_element true element_id match)
  _ ← assert_single type later
  parse_elements type later (list ++ element_entry ∷ []) (n + 1)

-- `parse_http_sig_`.
unfoldable pub parse_http_sig_elements : List Element → List ℕ → ℕ → Run (List Element × ℕ)
parse_http_sig_elements list sig type = parse_elements type (tokens b'&' sig) list 0

-- The loop of `parse_http_sig`.
unfoldable pub parse_patterns : ℕ → ℕ → List (List ℕ) → List AppEntryT → Run (List AppEntryT)
unfolding assert_single
parse_patterns sig_index type [] app_list = ok app_list
parse_patterns sig_index type (result ∷ later) app_list = do
  let id = get_element_id_from_sig result
  key ← or_fault Fault.null_pointer (get_key_from_sig result)
  let sig_id = bit_or (bit_and id 0xff <<< 24) sig_index
  sig_entry ← or_fault Fault.null_pointer (new_app_sig true sig_id key)
  _ ← assert_single type later
  parse_patterns sig_index type later (app_list ++ sig_entry ∷ [])

-- `parse_http_sig`.
unfoldable pub parse_http_sig : List AppEntryT → List ℕ → ℕ → ℕ → Run (List AppEntryT)
parse_http_sig app_list sig sig_index type =
    parse_patterns sig_index type (tokens b'&' sig) app_list
