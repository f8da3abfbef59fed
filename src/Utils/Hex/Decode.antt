-- ===== src/Utils/Hex/Decode.antt =====
-- The ways in which decoding ends (core/src/utils/hex.cpp), for a `boost::algorithm::unhex` that
-- keeps its documentation.
use polkadot_light_client.Common.{
  ◌==◌, if◌then◌else◌, Option-cases, length, Bytes, ℕ, ◌+◌, ◌*◌, ◌%◌, ◌≡◌, inl, inr, Bool, true,
  false, ◌&&◌, none, some, [], ◌∷◌, ok, err, arith, Bool-cases, suc, sym, ap, ◌∙◌, Option,
}
use polkadot_light_client.Utils.Hex.Algorithm.{
  written, throws_not_enough_input, throws_non_hex_input, Decoding, Boost, nibble, BoostLaws,
  prepend,
}
use polkadot_light_client.Utils.Hex.{unhex, not_enough_input, non_hex_input, unhex_error}

-- The numbers that the pairs of digits of a text stand for.
abbrev pub value_or_zero : Option ℕ → ℕ
value_or_zero none = 0
value_or_zero (some n) = n

abbrev pub is_some : Option ℕ → Bool
is_some none = false
is_some (some n) = true

unfoldable pub pairs : Bytes → Bytes
pairs [] = []
pairs (c ∷ []) = []
pairs (c ∷ d ∷ s) = (value_or_zero (nibble c) * 16 + value_or_zero (nibble d)) ∷ pairs s

unfoldable pub all_hex_digits : Bytes → Bool
all_hex_digits [] = true
all_hex_digits (c ∷ s) = is_some (nibble c) && all_hex_digits s

-- What decoding a text has to give: the position of a wrong digit plays no part.
unfoldable pub decoding : Bytes → Decoding
decoding s =
    if all_hex_digits s
    then (if length s % 2 == 0 then written (pairs s) else throws_not_enough_input)
    else throws_non_hex_input

even_tail : (n : ℕ) → suc (suc n) % 2 ≡ n % 2
even_tail n = omega arith

decoding-pair :
    (c d h l : ℕ) (s : Bytes)
    → nibble c ≡ some h
    → nibble d ≡ some l
    → decoding (c ∷ d ∷ s) ≡ prepend (h * 16 + l) (decoding s)
unfolding decoding all_hex_digits pairs
decoding-pair c d h l s e k = elim (Bool-cases (all_hex_digits s)) [
  | inr bad ↦ rw (e, k, bad)
  | inl good ↦ elim (Bool-cases (length s % 2 == 0)) [
    | inl even ↦ rw (e, k, good, even_tail (length s), even)
    | inr odd ↦ rw (e, k, good, even_tail (length s), odd)
  ]
]

module _ {boost : Boost} (laws : BoostLaws boost) where
  unhex-eq-decoding : (s : Bytes) → boost.unhex s ≡ decoding s
  unfolding decoding all_hex_digits pairs
  unhex-eq-decoding [] = laws.unhex_nil
  unhex-eq-decoding (c ∷ []) = elim (Option-cases (nibble c)) [
    | inl e ↦ ground (arith, e, laws.unhex_bad_first c [] e)
    | inr (h, e) ↦ ground (arith, e, laws.unhex_odd c h e)
  ]
  unhex-eq-decoding (c ∷ d ∷ s) = elim (Option-cases (nibble c)) [
    | inl e ↦ ground (arith, e, laws.unhex_bad_first c (d ∷ s) e)
    | inr (h, e) ↦ elim (Option-cases (nibble d)) [
      | inl k ↦ ground (arith, e, k, laws.unhex_bad_second c d h s e k)
      | inr (l, k) ↦
          laws.unhex_pair c d h l s e k
          ∙ ap (prepend (h * 16 + l)) (unhex-eq-decoding s)
          ∙ sym (decoding-pair c d h l s e k)
    ]
  ]

  -- Decoding succeeds exactly on an even number of digits. An odd number of digits is reported as
  -- such, and a character that is no digit is reported first.
  pub unhex-eq :
      (s : Bytes)
      → unhex boost s ≡ (
          if all_hex_digits s
          then (if length s % 2 == 0 then ok (pairs s) else err (unhex_error not_enough_input))
          else err (unhex_error non_hex_input))
  unfolding unhex decoding
  unhex-eq s = ground (arith, unhex-eq-decoding s)
