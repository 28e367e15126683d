-- ===== src/Matcher/Ids.antt =====
-- The macros of app_identify/searcher/http_search.c, and the numbers that they take apart: a
-- header pattern is `length << 8 | element`, an element of a signature is `element << 24 | offset`.
use orchid_linux.Base.{
  ℕ, ◌+◌, ◌*◌, ◌/◌, ◌%◌, ◌^◌, ◌<◌, ◌≡◌, ◌≢◌, ◌↔◌, ◌∙◌, sym, ap, bit_and, bit_or, Bool, true, false,
  arith, ◌==◌, if◌then◌else◌, ◌<<<◌, ◌>>>◌,
}
use orchid_linux.Base.Bits.{bit_and_above, bit_and_below, bit_or_fields}

unfoldable pub is_http_element : ℕ → Bool
is_http_element x = bit_and x 0xff00_0000 == 0

unfoldable pub http_element_id : ℕ → ℕ
http_element_id x = if bit_and x 0xff00_0000 == 0 then bit_and x 0xff else bit_and (x >>> 24) 0xff

unfoldable pub http_element_length : ℕ → ℕ
http_element_length x = bit_and x 0x00ff_ff00 >>> 8

-- `((element->id & 0xFF) << 24) | ele_offset` of `install_Application`.
unfoldable pub element_code : ℕ → ℕ → ℕ
element_code id offset = bit_or (bit_and id 0xff <<< 24) offset

byte_mask : (x : ℕ) → bit_and x 0xff ≡ x % 256
byte_mask x = bit_and_below 8 x

pub short_mask : (x : ℕ) → bit_and x 0xffff ≡ x % 65536
short_mask x = bit_and_below 16 x

top_mask : (x : ℕ) → bit_and x 0xff00_0000 ≡ x / 2 ^ 24 % 256 * 2 ^ 24
top_mask x =
    let e : x / 2 ^ 24 * 2 ^ 24 + x % 2 ^ 24 ≡ x = omega arith in
    ap (λ (t : ℕ). bit_and t 0xff00_0000) (sym e)
    ∙ bit_and_above 24 (x / 2 ^ 24) 255 (x % 2 ^ 24) (omega arith)
    ∙ ap (λ (t : ℕ). t * 2 ^ 24) (byte_mask (x / 2 ^ 24))

pub element_code_as_sum :
    (id offset : ℕ) → offset < 2 ^ 24 → element_code id offset ≡ id % 256 * 2 ^ 24 + offset
unfolding element_code
element_code_as_sum id offset h =
    bit_or_fields 24 (bit_and id 0xff) offset h ∙ omega (arith, byte_mask id)

-- The three macros as arithmetic.
pub is_http_element_iff : (x : ℕ) → (is_http_element x ≡ true) ↔ (x / 2 ^ 24 % 256 ≡ 0)
unfolding is_http_element
is_http_element_iff x = ground (arith, top_mask x)

pub http_element_id_lem :
    (x : ℕ) → http_element_id x ≡ (if x / 2 ^ 24 % 256 == 0 then x % 256 else x / 2 ^ 24 % 256)
unfolding http_element_id
http_element_id_lem x = ground (arith, top_mask x, byte_mask x, byte_mask (x / 2 ^ 24))

pub http_element_length_lem : (x : ℕ) → http_element_length x ≡ x / 256 % 65536
unfolding http_element_length
http_element_length_lem x =
    let e : x / 2 ^ 8 * 2 ^ 8 + x % 2 ^ 8 ≡ x = omega arith in
    let m =
      ap (λ (t : ℕ). bit_and t 0x00ff_ff00) (sym e)
      ∙ bit_and_above 8 (x / 2 ^ 8) 0xffff (x % 2 ^ 8) (omega arith) in
    omega (arith, m, short_mask (x / 2 ^ 8))

-- The number of an element with a known key, at an offset below 2 ^ 16, is read back by the
-- searcher: it is no header, its key is the element's, and its low half is the offset.
pub element_code_decodes :
    (id offset : ℕ)
    → id % 256 ≢ 0
    → offset < 2 ^ 16
    → (is_http_element (element_code id offset) ≡ false)
      × (http_element_id (element_code id offset) ≡ id % 256)
      × (bit_and (element_code id offset) 0xffff ≡ offset)
unfolding is_http_element
element_code_decodes id offset known h =
    let code = element_code id offset in
    let value = element_code_as_sum id offset (omega arith) in
    (
      ground (arith, top_mask code, value),
      ground (arith, http_element_id_lem code, value),
      omega (arith, short_mask code, value),
    )

-- The number of an element with an unknown key, at an offset below 2 ^ 16, reads as a header whose
-- element is the low byte of the offset.
pub element_code_unknown :
    (id offset : ℕ)
    → id % 256 ≡ 0
    → offset < 2 ^ 16
    → (is_http_element (element_code id offset) ≡ true)
      × (http_element_id (element_code id offset) ≡ offset % 256)
unfolding is_http_element
element_code_unknown id offset unknown h =
    let code = element_code id offset in
    let value = element_code_as_sum id offset (omega arith) in
    (ground (arith, top_mask code, value), ground (arith, http_element_id_lem code, value))
