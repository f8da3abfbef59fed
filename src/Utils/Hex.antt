-- ===== src/Utils/Hex.antt =====
-- core/src/utils/hex.h and hex.cpp.
pub mod Algorithm
pub mod Decode
pub mod RoundTrip
pub mod Outputs
pub mod Reference
mod Tests
use polkadot_light_client.Common.{
  leb, if◌then◌else◌, length, take, drop, replicate, Bytes, codes, bytes_eq, unhex_category, ok,
  err, fault, ErrorCode, Outcome, ◌>>=◌, ℕ, ◌+◌, ◌*◌, ◌++◌,
}
use Algorithm.{
  Boost, Decoding, written, throws_not_enough_input, throws_non_hex_input, throws_other,
}

pub data UnhexError : Type 0 where
  not_enough_input non_hex_input value_out_of_range missing_0x_prefix unknown : UnhexError

-- The numbers that the enumeration gives its members.
abbrev pub error_value : UnhexError → ℕ
error_value not_enough_input = 1
error_value non_hex_input = 2
error_value value_out_of_range = 3
error_value missing_0x_prefix = 4
error_value unknown = 5

abbrev pub unhex_error : UnhexError → ErrorCode
unhex_error e = record { category = unhex_category; value = error_value e }

unfoldable pub message : UnhexError → Bytes
message non_hex_input = codes "Input contains non-hex characters"
message not_enough_input = codes "Input contains odd number of characters"
message value_out_of_range = codes "Decoded value is out of range of requested type"
message missing_0x_prefix = codes "Missing expected 0x prefix"
message unknown = codes "Unknown error"

abbrev pub leading_chars : Bytes
leading_chars = codes "0x"

-- `string.replace(pos, …)` with as many characters, and the writes through an output iterator: the
-- text `new` goes over `old` from `pos` on.
unfoldable pub overwrite : ℕ → Bytes → Bytes → Bytes
overwrite pos new old = take pos old ++ (new ++ drop (pos + length new) old)

module _ (boost : Boost) where
  -- The three handlers of the `try` block. What was decoded before an exception is dropped.
  unfoldable pub caught : Decoding → Outcome Bytes
  caught (written blob) = ok blob
  caught throws_not_enough_input = err (unhex_error not_enough_input)
  caught throws_non_hex_input = err (unhex_error non_hex_input)
  caught throws_other = err (unhex_error unknown)

  unfoldable pub unhex : Bytes → Outcome Bytes
  unfolding caught
  unhex hex = caught (boost.unhex hex)

  unfoldable pub unhex_with_0x : Bytes → Outcome Bytes
  unfolding bytes_eq take drop
  unhex_with_0x hex_with_prefix =
      if bytes_eq (take (length leading_chars) hex_with_prefix) leading_chars
      then unhex (drop (length leading_chars) hex_with_prefix)
      else err (unhex_error missing_0x_prefix)

  -- `std::copy_n(blob.begin(), 32, …)` reads 32 bytes, whatever `blob` holds.
  unfoldable pub copy_32 : Bytes → Outcome Bytes
  copy_32 blob = if leb 32 (length blob) then ok (take 32 blob) else fault

  unfoldable pub unhex_with_0x_to_block_hash : Bytes → Outcome Bytes
  unfolding copy_32 ◌>>=◌
  unhex_with_0x_to_block_hash hex_with_prefix = do
    blob ← unhex_with_0x hex_with_prefix
    copy_32 blob

  unfoldable pub hex : Bytes → Bytes
  unfolding overwrite take drop
  hex hex_value =
      let result = replicate (length hex_value * 2 + length leading_chars) 0 in
      let prefixed = overwrite 0 (codes "0x") result in
      overwrite (length leading_chars) (boost.hex_lower hex_value) prefixed
