-- ===== src/Utils/Hex/Tests.antt =====
-- The decoder that Boost documents, run on the inputs of core/test/hex_test.cpp, and the properties
-- at concrete inputs.
use polkadot_light_client.Common.{
  take, drop, replicate, codes, bytes_eq, ok, err, fault, ◌≡◌, refl, [], ◌∷◌, arith,
}
use polkadot_light_client.Utils.Hex.Algorithm.{nibble}
use polkadot_light_client.Utils.Hex.Reference.{reference, reference-BoostLaws}
use polkadot_light_client.Utils.Hex.Decode.{all_hex_digits, unhex-eq}
use polkadot_light_client.Utils.Hex.RoundTrip.{unhex_with_0x-hex}
use polkadot_light_client.Utils.Hex.{
  not_enough_input, non_hex_input, missing_0x_prefix, unhex_error, message, overwrite, caught,
  unhex, unhex_with_0x, copy_32, unhex_with_0x_to_block_hash, hex,
}

unhex_test : unhex reference (codes "1a2b3c") ≡ ok (0x1a ∷ 0x2b ∷ 0x3c ∷ [])
unfolding unhex reference
unhex_test = refl

unhex_odd_test : unhex reference (codes "1a2b3") ≡ err (unhex_error not_enough_input)
unfolding unhex reference
unhex_odd_test = refl

unhex_bad_test : unhex reference (codes "1a2b3g") ≡ err (unhex_error non_hex_input)
unfolding unhex reference
unhex_bad_test = refl

unhex_with_0x_test : unhex_with_0x reference (codes "0x1a2b3c") ≡ ok (0x1a ∷ 0x2b ∷ 0x3c ∷ [])
unfolding unhex_with_0x unhex reference
unhex_with_0x_test = refl

unhex_with_0x_bad_test :
    unhex_with_0x reference (codes "1a2b3d") ≡ err (unhex_error missing_0x_prefix)
unfolding unhex_with_0x
unhex_with_0x_bad_test = refl

-- The repository's test of this call expects 32 bytes: the code reads them past the end of three.
block_hash_test : unhex_with_0x_to_block_hash reference (codes "0x1a2b3c") ≡ fault
unfolding unhex_with_0x_to_block_hash unhex_with_0x unhex reference
block_hash_test = refl

hex_test : hex reference (0x1a ∷ 0x2b ∷ 0x3c ∷ []) ≡ codes "0x1a2b3c"
unfolding hex reference replicate
hex_test = refl

message_test : message non_hex_input ≡ codes "Input contains non-hex characters"
unfolding message
message_test = refl

unhex-eq_example : unhex reference (codes "1a2b3") ≡ err (unhex_error not_enough_input)
unfolding all_hex_digits nibble
unhex-eq_example = unhex-eq reference-BoostLaws (codes "1a2b3")

unhex_with_0x-hex_example :
    unhex_with_0x reference (hex reference (26 ∷ 255 ∷ [])) ≡ ok (26 ∷ 255 ∷ [])
unhex_with_0x-hex_example = unhex_with_0x-hex reference-BoostLaws (26 ∷ 255 ∷ []) (omega arith)

short_hash_test : unhex_with_0x_to_block_hash reference (codes "0x1a2b3c") ≡ fault
unfolding unhex_with_0x_to_block_hash unhex_with_0x unhex caught copy_32 reference bytes_eq take
    drop overwrite
short_hash_test = refl
