-- ===== src/Loader/HttpSig/RoundTrip.antt =====
-- A signature text that is written from conditions on the known keys is read back.
use mathlib.Core.List.{append-nil, append_assoc}
use native.Mathlib.Decide.{ℕ_discrete}
use orchid_linux.Base.{
  ℕ, ◌+◌, ◌<◌, ◌≡◌, ◌≢◌, ap, refl, ◌∙◌, true, List, [], ◌∷◌, ◌++◌, map, some, arith, ◌==◌,
  if◌then◌else◌, length, All, Run, ok, fault, Fault, ◌>>=◌, ==_ne, ◌⊎◌, inl, inr, ◌≤◌,
}
use orchid_linux.Base.CString.{codes, starts_with, Without, tokens, tokens-append, tokens_one}
use orchid_linux.Loader.Types.{Element, max_sig_length, sig_single}
use orchid_linux.Loader.HttpSig.{
  new_sig_element, get_element_id_from_sig, get_key_from_sig, assert_single, parse_elements,
  parse_http_sig_elements,
}

-- The keys that `get_element_id_from_sig` knows.
pub data HttpKey : Type 0 where
  host ua re url : HttpKey

abbrev pub key_text : HttpKey → List ℕ
key_text host = codes "http_host"
key_text ua = codes "http_ua"
key_text re = codes "http_re"
key_text url = codes "http_url"

abbrev pub key_id : HttpKey → ℕ
key_id host = 1
key_id ua = 2
key_id re = 3
key_id url = 4

-- One `key=value`.
pub record Condition : Type 0 where
  pub key : HttpKey
  pub value : List ℕ

abbrev pub print_condition : Condition → List ℕ
print_condition c = key_text c.key ++ b'=' ∷ c.value

abbrev pub print : List Condition → List ℕ
print [] = []
print (c ∷ []) = print_condition c
print (c ∷ d ∷ cs) = print_condition c ++ b'&' ∷ print (d ∷ cs)

abbrev pub element_of : Condition → Element
element_of c = record { id = key_id c.key; match = c.value }

-- The value holds no `&` and fits the buffer.
abbrev pub IsPrintable : Condition → Type 0
IsPrintable c = Without b'&' c.value × (length c.value < max_sig_length)

get_element_id-print :
    (k : HttpKey) (v : List ℕ) → get_element_id_from_sig (key_text k ++ b'=' ∷ v) ≡ key_id k
unfolding get_element_id_from_sig starts_with
get_element_id-print host v = refl
get_element_id-print ua v = refl
get_element_id-print re v = refl
get_element_id-print url v = refl

get_key-print : (k : HttpKey) (v : List ℕ) → get_key_from_sig (key_text k ++ b'=' ∷ v) ≡ some v
unfolding get_key_from_sig
get_key-print host v = refl
get_key-print ua v = refl
get_key-print re v = refl
get_key-print url v = refl

Without-print : (k : HttpKey) (v : List ℕ) → Without b'&' v → Without b'&' (key_text k ++ b'=' ∷ v)
Without-print host v h = grind arith
Without-print ua v h = grind arith
Without-print re v h = grind arith
Without-print url v h = grind arith

new_sig_element_fits :
    (id : ℕ) (v : List ℕ)
    → length v < max_sig_length
    → new_sig_element true id v ≡ some (record { id = id; match = v })
unfolding new_sig_element
new_sig_element_fits id v h = ground arith

tokens-print_last :
    (k : HttpKey) (v : List ℕ)
    → Without b'&' v
    → tokens b'&' (key_text k ++ b'=' ∷ v) ≡ (key_text k ++ b'=' ∷ v) ∷ []
tokens-print_last host v h = tokens_one b'&' b'h' _ (Without-print host v h)
tokens-print_last ua v h = tokens_one b'&' b'h' _ (Without-print ua v h)
tokens-print_last re v h = tokens_one b'&' b'h' _ (Without-print re v h)
tokens-print_last url v h = tokens_one b'&' b'h' _ (Without-print url v h)

tokens-print_first :
    (k : HttpKey) (v s : List ℕ)
    → Without b'&' v
    → tokens b'&' ((key_text k ++ b'=' ∷ v) ++ b'&' ∷ s) ≡ (key_text k ++ b'=' ∷ v) ∷ tokens b'&' s
tokens-print_first host v s h = tokens-append b'&' b'h' _ s (Without-print host v h)
tokens-print_first ua v s h = tokens-append b'&' b'h' _ s (Without-print ua v h)
tokens-print_first re v s h = tokens-append b'&' b'h' _ s (Without-print re v h)
tokens-print_first url v s h = tokens-append b'&' b'h' _ s (Without-print url v h)

tokens-print :
    (cs : List Condition) → All IsPrintable cs → tokens b'&' (print cs) ≡ map print_condition cs
unfolding tokens
tokens-print [] all = refl
tokens-print (c ∷ []) all = tokens-print_last c.key c.value all.0.0
tokens-print (c ∷ d ∷ cs) all =
    tokens-print_first c.key c.value (print (d ∷ cs)) all.0.0
    ∙ ap (λ (ts : List (List ℕ)). print_condition c ∷ ts) (tokens-print (d ∷ cs) all.1)

-- One round of the loop.
parse_elements_step :
    (type : ℕ) (c : Condition) (later : List (List ℕ)) (list : List Element) (n : ℕ)
    → IsPrintable c
    → parse_elements type (print_condition c ∷ later) list n ≡ (
        assert_single type later >>= λ _.
        parse_elements type later (list ++ element_of c ∷ []) (n + 1))
unfolding parse_elements
parse_elements_step type c later list n p = rw (
  get_key-print c.key c.value,
  get_element_id-print c.key c.value,
  new_sig_element_fits _ c.value p.1,
)

assert_single_passes :
    (type : ℕ) (later : List (List ℕ)) → type ≢ sig_single → assert_single type later ≡ ok tt
unfolding assert_single
assert_single_passes type [] multi = refl
assert_single_passes type (t ∷ ts) multi = rw (==_ne type sig_single multi)

parse_elements-print :
    (type : ℕ) (cs : List Condition) (list : List Element) (n : ℕ)
    → type ≢ sig_single
    → All IsPrintable cs
    → parse_elements type (map print_condition cs) list n
      ≡ ok (list ++ map element_of cs, n + length cs)
parse_elements-print type [] list n multi all =
    unfold parse_elements in rw append-nil (ground arith)
parse_elements-print type (c ∷ cs) list n multi all =
    rw
      (
        parse_elements_step type c (map print_condition cs) list n all.0,
        assert_single_passes type (map print_condition cs) multi,
        parse_elements-print type cs (list ++ element_of c ∷ []) (n + 1) multi all.1,
        append_assoc,
      )
      (ground arith)

-- What `parse_http_sig_` is to give for a text of conditions: their elements in order behind those
-- of the list, and their number; a failed assertion where a single condition is asked for and
-- more than one is written.
abbrev pub expected : List Element → List Condition → ℕ → Run (List Element × ℕ)
expected list [] type = ok (list, 0)
expected list (c ∷ []) type = ok (list ++ element_of c ∷ [], 1)
expected list (c ∷ d ∷ cs) type =
    if type == sig_single
    then fault Fault.assertion
    else ok (list ++ map element_of (c ∷ d ∷ cs), length (c ∷ d ∷ cs))

parse_elements-expected :
    (list : List Element) (cs : List Condition) (type : ℕ)
    → All IsPrintable cs
    → parse_elements type (map print_condition cs) list 0 ≡ expected list cs type
unfolding assert_single
parse_elements-expected list [] type all = unfold parse_elements in refl
parse_elements-expected list (c ∷ []) type all =
    unfold parse_elements in parse_elements_step type c [] list 0 all.0
parse_elements-expected list (c ∷ d ∷ cs) type all = elim (ℕ_discrete type sig_single) [
  | no multi ↦ rw (==_ne type sig_single multi) (
      parse_elements-print type (c ∷ d ∷ cs) list 0 multi all
      ∙ ap (λ (n : ℕ). ok (list ++ map element_of (c ∷ d ∷ cs), n)) (omega arith))
  | yes single ↦ rw (parse_elements_step type c (map print_condition (d ∷ cs)) list 0 all.0, single)
]

-- On such a text: what is expected.
parse_http_sig_elements-expected :
    (list : List Element) (cs : List Condition) (type : ℕ)
    → All IsPrintable cs
    → parse_http_sig_elements list (print cs) type ≡ expected list cs type
unfolding parse_http_sig_elements
parse_http_sig_elements-expected list cs type all =
    rw (tokens-print cs all) (parse_elements-expected list cs type all)

expected_back :
    (list : List Element) (cs : List Condition) (type : ℕ)
    → (type ≢ sig_single) ⊎ (length cs ≤ 1)
    → expected list cs type ≡ ok (list ++ map element_of cs, length cs)
expected_back list [] type fits = rw append-nil refl
expected_back list (c ∷ []) type fits = refl
expected_back list (c ∷ d ∷ cs) type (inl multi) = rw (==_ne type sig_single multi) refl
expected_back list (c ∷ d ∷ cs) type (inr one) = absurd (omega (arith, one))

-- `parse_http_sig_` reads back a text of conditions on known keys, whose values hold no `&` and
-- fit the buffer, where the type is not SIG_SINGLE or there is at most one condition: it puts the
-- elements of the conditions, in order, behind those of the list, and returns their number.
pub parse_http_sig_elements-print :
    (list : List Element) (cs : List Condition) (type : ℕ)
    → All IsPrintable cs
    → (type ≢ sig_single) ⊎ (length cs ≤ 1)
    → parse_http_sig_elements list (print cs) type ≡ ok (list ++ map element_of cs, length cs)
parse_http_sig_elements-print list cs type all fits =
    parse_http_sig_elements-expected list cs type all ∙ expected_back list cs type fits
