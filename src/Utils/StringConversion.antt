-- ===== src/Utils/StringConversion.antt =====
-- core/src/utils/string_conversion.h and string_conversion.cpp.
use polkadot_light_client.Common.{
  leb, ◌==◌, if◌then◌else◌, if_intro, length, take, Bytes, codes, conversion_category, ok, err,
  fault, ErrorCode, Outcome, ℕ, ◌≡◌, refl, true, arith, take_all,
}

pub data ConversionError : Type 0 where
  invalid_size : ConversionError

abbrev pub conversion_error : ConversionError → ErrorCode
conversion_error invalid_size = record { category = conversion_category; value = 1 }

unfoldable pub conversion_message : ConversionError → Bytes
conversion_message invalid_size = codes "Invalid string length"

-- `memcpy` of so many bytes over the front of a buffer of that size; a source that is shorter is
-- read past its end.
unfoldable pub memcpy : ℕ → Bytes → Outcome Bytes
memcpy size source = if leb size (length source) then ok (take size source) else fault

unfoldable pub from_string : ℕ → Bytes → Outcome Bytes
unfolding memcpy
from_string size str =
    if length str == size then memcpy size str else err (conversion_error invalid_size)

unfoldable pub to_string : ℕ → Bytes → Outcome Bytes
unfolding memcpy
to_string size data' = memcpy size data'

memcpy_all : (xs : Bytes) → memcpy (length xs) xs ≡ ok xs
unfolding memcpy
memcpy_all xs =
    let fits : leb (length xs) (length xs) ≡ true = ground arith in rw (fits, take_all) refl

-- An array is read back from its text; a text of any other length is refused with InvalidSize, and
-- no text or array is read past its end.
pub from_string-to_string :
    (xs : Bytes) (size : ℕ)
    → (to_string (length xs) xs ≡ ok xs)
      × (from_string size xs
          ≡ (if length xs == size then ok xs else err (conversion_error invalid_size)))
unfolding from_string to_string
from_string-to_string xs size = (
  memcpy_all xs,
  if_intro
      (λ (r : Outcome Bytes).
        (if length xs == size then memcpy size xs else err (conversion_error invalid_size)) ≡ r)
      (length xs == size)
      (λ e. let same : size ≡ length xs = ground arith in rw (e, same) (memcpy_all xs))
      (λ e. rw e refl),
)
