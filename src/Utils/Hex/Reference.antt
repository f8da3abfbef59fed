-- ===== src/Utils/Hex/Reference.antt =====
-- An implementation of the documented behaviour of Boost's `unhex` and `hex_lower`, for tests.
use polkadot_light_client.Common.{
  Bytes, ℕ, ◌+◌, ◌*◌, ◌/◌, ◌%◌, ◌≡◌, refl, ap, ap₂, Option, none, some, [], ◌∷◌,
}
use polkadot_light_client.Utils.Hex.Algorithm.{
  written, throws_not_enough_input, throws_non_hex_input, Decoding, Boost, nibble, digit, prepend,
  BoostLaws,
}

-- A first digit and a second, either of them perhaps no digit, before the rest.
decode_pair : Option ℕ → Option ℕ → Decoding → Decoding
decode_pair none l rest = throws_non_hex_input
decode_pair (some h) none rest = throws_non_hex_input
decode_pair (some h) (some l) rest = prepend (h * 16 + l) rest

decode_last : Option ℕ → Decoding
decode_last none = throws_non_hex_input
decode_last (some h) = throws_not_enough_input

decode : Bytes → Decoding
unfolding decode_pair decode_last
decode [] = written []
decode (c ∷ []) = decode_last (nibble c)
decode (c ∷ d ∷ s) = decode_pair (nibble c) (nibble d) (decode s)

encode : Bytes → Bytes
encode [] = []
encode (b ∷ bs) = digit (b / 16) ∷ digit (b % 16) ∷ encode bs

unfoldable pub reference : Boost
unfolding decode encode nibble digit
reference = record { unhex = decode; hex_lower = encode }

decode_bad_first : (c : ℕ) (s : Bytes) → nibble c ≡ none → decode (c ∷ s) ≡ throws_non_hex_input
unfolding decode
decode_bad_first c [] e = rw e
decode_bad_first c (d ∷ s) e = rw e

pub reference-BoostLaws : BoostLaws reference
unfolding reference
reference-BoostLaws = record {
  unhex_nil = refl;
  unhex_pair = λ c d h l s e k. ap₂ (λ (x y : Option ℕ). decode_pair x y (decode s)) e k;
  unhex_odd = λ c h e. ap decode_last e;
  unhex_bad_first = decode_bad_first;
  unhex_bad_second = λ c d h s e k. ap₂ (λ (x y : Option ℕ). decode_pair x y (decode s)) e k;
  hex_lower_nil = refl;
  hex_lower_cons = λ b bs. refl;
}
