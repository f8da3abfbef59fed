-- ===== src/Utils/Hex/RoundTrip.antt =====
-- Encoding and then decoding (core/src/utils/hex.cpp).
use polkadot_light_client.Common.{
  length, drop, replicate, length-replicate, length-drop, drop_all, All, Bytes, IsByte, codes, ok,
  ℕ, ◌+◌, ◌*◌, ◌/◌, ◌%◌, ◌<◌, ◌≡◌, ap, ◌∙◌, some, [], ◌∷◌, ◌++◌, append-nil, arith,
}
use polkadot_light_client.Utils.Hex.Algorithm.{written, Boost, nibble, digit, BoostLaws}
use polkadot_light_client.Utils.Hex.{unhex, unhex_with_0x, hex}

nibble-digit : (n : ℕ) → n < 16 → nibble (digit n) ≡ some n
unfolding nibble digit
nibble-digit n h = ground arith

module _ {boost : Boost} (laws : BoostLaws boost) where
  length-hex_lower : (bs : Bytes) → length (boost.hex_lower bs) ≡ length bs * 2
  length-hex_lower [] = rw laws.hex_lower_nil (omega arith)
  length-hex_lower (b ∷ bs) = rw laws.hex_lower_cons (omega (arith, length-hex_lower bs))

  unhex-hex_lower : (bs : Bytes) → All IsByte bs → boost.unhex (boost.hex_lower bs) ≡ written bs
  unhex-hex_lower [] h = rw laws.hex_lower_nil laws.unhex_nil
  unhex-hex_lower (b ∷ bs) (hb, hbs) = rw laws.hex_lower_cons (
      laws.unhex_pair _ _ (b / 16) (b % 16) (boost.hex_lower bs)
        (nibble-digit (b / 16) (omega arith)) (nibble-digit (b % 16) (omega arith))
      ∙ rw (unhex-hex_lower bs hbs) (ap (λ (x : ℕ). written (x ∷ bs)) (omega arith)))

  -- The buffer is as long as what is written into it: nothing of the zeros is left.
  pub hex_lem : (bs : Bytes) → hex boost bs ≡ codes "0x" ++ boost.hex_lower bs
  unfolding hex
  hex_lem bs = rw (
    drop_all (2 + length (boost.hex_lower bs))
        (codes "0x" ++ drop 2 (replicate (length bs * 2 + 2) 0))
        (omega (
          arith,
          length-hex_lower bs,
          length-drop {A = ℕ} 2 (replicate (length bs * 2 + 2) 0),
          length-replicate {A = ℕ} (length bs * 2 + 2) 0,
        )),
    append-nil,
  )

  -- What `hex` prints, `unhexWith0x` reads back.
  pub unhex_with_0x-hex : (bs : Bytes) → All IsByte bs → unhex_with_0x boost (hex boost bs) ≡ ok bs
  unfolding unhex_with_0x unhex
  unhex_with_0x-hex bs h = rw (hex_lem bs, unhex-hex_lower bs h)

  pub hex-injective :
      (xs bs : Bytes) → All IsByte xs → All IsByte bs → hex boost xs ≡ hex boost bs → xs ≡ bs
  hex-injective xs bs ha hb e = cc (unhex_with_0x-hex xs ha, unhex_with_0x-hex bs hb)
