-- ===== src/Utils/Hex/Outputs.antt =====
-- What the decoding functions of core/src/utils/hex.cpp give are bytes.
use polkadot_light_client.Common.{
  ◌==◌, if_intro, length, take, drop, All, Bytes, IsByte, bytes_eq, Ensures, Ensures-ok, ℕ, ◌%◌,
  ◌<◌, [], ◌∷◌, arith,
}
use polkadot_light_client.Utils.Hex.Algorithm.{Boost, nibble, BoostLaws}
use polkadot_light_client.Utils.Hex.Decode.{value_or_zero, pairs, all_hex_digits, unhex-eq}
use polkadot_light_client.Utils.Hex.{leading_chars, unhex, unhex_with_0x}

nibble_lt : (c : ℕ) → value_or_zero (nibble c) < 16
unfolding nibble
nibble_lt c = ground arith

pairs-IsByte : (s : Bytes) → All IsByte (pairs s)
unfolding pairs
pairs-IsByte [] = tt
pairs-IsByte (c ∷ []) = tt
pairs-IsByte (c ∷ d ∷ s) = (omega (arith, nibble_lt c, nibble_lt d), pairs-IsByte s)

module _ {boost : Boost} (laws : BoostLaws boost) where
  unhex-IsByte : (s : Bytes) → Ensures (All IsByte) (unhex boost s)
  unhex-IsByte s = rw (unhex-eq laws s) (
      if_intro (Ensures (All IsByte)) (all_hex_digits s)
        (λ _.
          if_intro (Ensures (All IsByte)) (length s % 2 == 0) (λ _. Ensures-ok (pairs-IsByte s))
            (λ _. record { at = λ b e. absurd (cc) }))
        (λ _. record { at = λ b e. absurd (cc) }))

  pub unhex_with_0x-IsByte : (s : Bytes) → Ensures (All IsByte) (unhex_with_0x boost s)
  unfolding unhex_with_0x
  unhex_with_0x-IsByte s =
      if_intro (Ensures (All IsByte)) (bytes_eq (take (length leading_chars) s) leading_chars)
        (λ _. unhex-IsByte (drop (length leading_chars) s))
        (λ _. record { at = λ b e. absurd (cc) })
