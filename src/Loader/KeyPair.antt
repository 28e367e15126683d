-- ===== src/Loader/KeyPair.antt =====
-- app_identify/loader/key_pair.h, and the actions of loader/sig.y that build a signature and an
-- application from the pairs of their blocks.
--
-- A list of pairs is in the order of the file. `strtol` with base 0 is written out for numbers that
-- fit a `long`; the flex scanner and the tables of bison are not modelled.
pub mod Built
use orchid_linux.Base.{
  ℕ, zero, suc, ◌+◌, ◌-◌, ◌*◌, ◌^◌, Bool, true, false, ◌&&◌, ◌||◌, List, [], ◌∷◌, Option, none,
  some, ◌==◌, ltb, leb, if◌then◌else◌, length, Run, ok, fault, Fault, ◌>>=◌, or_fault, u32,
}
use orchid_linux.Base.CString.{codes, str_eq}
use orchid_linux.Loader.Types.{
  Sig, Application, max_app_length, max_sig_length, protocol_udp, protocol_tcp, protocol_http,
  sig_single, sig_multi, sig_regex,
}
use orchid_linux.Loader.HttpSig.{parse_http_sig_elements}

-- `struct key_pair_s`.
pub record KeyPair : Type 0 where
  pub key : List ℕ
  pub value : List ℕ

-- `create_pair_list` and `create_key_value_pair`; the flag says whether `malloc` gives memory.
pub create_pair_list : Bool → Option (List KeyPair)
create_pair_list memory = if memory then some [] else none

pub create_key_value_pair : Bool → List ℕ → List ℕ → Option KeyPair
create_key_value_pair memory key value =
    if memory then some (record { key = key; value = value }) else none

-- The value of a digit, for bases up to 16.
unfoldable pub digit_value : ℕ → Option ℕ
digit_value c =
    if leb b'0' c && leb c b'9'
    then some (c - b'0')
    else if leb b'a' c && leb c b'f'
    then some (c - b'a' + 10)
    else if leb b'A' c && leb c b'F'
    then some (c - b'A' + 10)
    else none

-- The digits of a number up to the first byte that is none.
unfoldable pub digits_of : ℕ → List ℕ → ℕ → ℕ
unfolding digit_value
digits_of base [] value = value
digits_of base (c ∷ s) value = elim (digit_value c) [
  | none ↦ value
  | some d ↦ (let rest = digits_of base s (value * base + d) in if ltb d base then rest else value)
]

is_hex_prefix : ℕ → List ℕ → Bool
unfolding digit_value
is_hex_prefix x [] = false
is_hex_prefix x (d ∷ s) =
    (x == b'x' || x == b'X') && elim (digit_value d) [ none ↦ false | some v ↦ true ]

-- The number without its sign: `0x` begins base 16, and another `0` base 8.
unfoldable pub unsigned_value : List ℕ → ℕ
unfolding digits_of is_hex_prefix
unsigned_value [] = 0
unsigned_value (c ∷ []) = digits_of 10 (c ∷ []) 0
unsigned_value (c ∷ x ∷ s) =
    if c == b'0'
    then (if is_hex_prefix x s then digits_of 16 s 0 else digits_of 8 (x ∷ s) 0)
    else digits_of 10 (c ∷ x ∷ s) 0

is_space : ℕ → Bool
is_space c = c == 32 || (leb 9 c && leb c 13)

-- `strtol(s, NULL, 0)` as a `uint`.
unfoldable pub strtol : List ℕ → ℕ
unfolding unsigned_value is_space
strtol [] = 0
strtol (c ∷ s) =
    let rest = strtol s in
    if is_space c
    then rest
    else if c == b'-'
    then u32 (2 ^ 32 - u32 (unsigned_value s))
    else if c == b'+'
    then u32 (unsigned_value s)
    else u32 (unsigned_value (c ∷ s))

-- `get_str_value_from_key`: the value of the first pair with the key; `none` is NULL.
unfoldable pub get_str_value_from_key : List KeyPair → List ℕ → Option (List ℕ)
get_str_value_from_key [] key = none
get_str_value_from_key (pair ∷ head) key =
    if str_eq pair.key key then some pair.value else get_str_value_from_key head key

-- `get_int_value_from_key`, by a loop of its own.
unfoldable pub get_int_value_from_key : List KeyPair → List ℕ → ℕ
get_int_value_from_key [] key = 0
get_int_value_from_key (pair ∷ head) key =
    if str_eq pair.key key then strtol pair.value else get_int_value_from_key head key

unfoldable pub proto_to_value : List ℕ → ℕ
proto_to_value proto =
    if str_eq proto (codes "UDP")
    then protocol_udp
    else if str_eq proto (codes "TCP")
    then protocol_tcp
    else if str_eq proto (codes "HTTP")
    then protocol_http
    else 0

unfoldable pub sig_proto_value : List KeyPair → ℕ
sig_proto_value [] = 0
sig_proto_value (pair ∷ head) =
    if str_eq pair.key (codes "sig_proto") then proto_to_value pair.value else sig_proto_value head

unfoldable pub match_type_to_value : List ℕ → ℕ
match_type_to_value type =
    if str_eq type (codes "AC_SINGLE")
    then sig_single
    else if str_eq type (codes "AC_MULTI")
    then sig_multi
    else if str_eq type (codes "REGEX")
    then sig_regex
    else 0

unfoldable pub match_type_value : List KeyPair → ℕ
match_type_value [] = 0
match_type_value (pair ∷ head) =
    if str_eq pair.key (codes "sig_type")
    then match_type_to_value pair.value
    else match_type_value head

-- `assert(strlen(text) < size)` on a text that must be there.
unfoldable pub assert_fits : Option (List ℕ) → ℕ → Run (List ℕ)
assert_fits text size = or_fault Fault.null_pointer text >>= λ s.
    if ltb (length s) size then ok s else fault Fault.assertion

-- The action of `app_sig`.
unfoldable pub build_sig : List KeyPair → Run Sig
build_sig pairs = do
  match ← assert_fits (get_str_value_from_key pairs (codes "sig_match")) max_sig_length
  let type = match_type_value pairs
  (elements, ele_num) ← parse_http_sig_elements [] match type
  ok (record {
    id = get_int_value_from_key pairs (codes "sig_id");
    proto = sig_proto_value pairs;
    type = type;
    enable = get_int_value_from_key pairs (codes "sig_enable");
    priority = get_int_value_from_key pairs (codes "sig_priority");
    dir = get_int_value_from_key pairs (codes "sig_dir");
    match = match;
    ele_num = ele_num;
    elements = elements;
  })

-- The action of `application`.
unfoldable pub build_application : List KeyPair → List Sig → Run Application
build_application pairs sigs = do
  name ← assert_fits (get_str_value_from_key pairs (codes "appname")) max_app_length
  ok (record {
    id = get_int_value_from_key pairs (codes "appid");
    category = get_int_value_from_key pairs (codes "category");
    name = name;
    sigs = sigs;
  })
