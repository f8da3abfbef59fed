-- ===== src/Chain/Spec/BlockIds.antt =====
-- Block identifiers (core/src/chain/spec.cpp, `parseBlockId`).
use polkadot_light_client.Common.{
  ltb, if◌then◌else◌, All, Bytes, ok, err, ℕ, ◌^◌, ◌≡◌, refl, Bool, true, false, none, some, [],
  ◌∷◌, ◌++◌, append-nil,
}
use polkadot_light_client.Utils.Hex.Algorithm.{Boost}
use polkadot_light_client.Chain.Spec.Numbers.{
  is_digit, leading_digits, decimal, from_chars, leading_digits-append, leading_digits-All,
}
use polkadot_light_client.Chain.Spec.{
  parser_error, number, spec_error, starts_with_0x, block_number, parse_block_id,
}

-- Empty, or with a character at the front that is no digit.
abbrev pub IsAfterNumber : Bytes → Type 0
IsAfterNumber [] = Unit {0}
IsAfterNumber (c ∷ rest) = is_digit c ≡ false

leading_digits_lem :
    (ds rest : Bytes)
    → All (λ d. is_digit d ≡ true) ds
    → IsAfterNumber rest
    → leading_digits (ds ++ rest) ≡ ds
leading_digits_lem ds [] h e = rw append-nil (leading_digits-All ds h)
leading_digits_lem ds (c ∷ rest) h e = leading_digits-append ds c rest h e

-- Unless it begins with 0x, a text that begins with digits is the number that they write, whatever
-- follows them; it is refused with ParserError if the number does not fit 32 bits.
pub parse_block_id_number :
    (boost : Boost) (d : ℕ) (ds rest : Bytes)
    → All (λ c. is_digit c ≡ true) (d ∷ ds)
    → IsAfterNumber rest
    → starts_with_0x (d ∷ (ds ++ rest)) ≡ false
    → parse_block_id boost (d ∷ (ds ++ rest)) ≡ (
        if ltb (decimal 0 (d ∷ ds)) (2 ^ 32)
        then ok (number (decimal 0 (d ∷ ds)))
        else err (spec_error parser_error))
unfolding parse_block_id from_chars
parse_block_id_number boost d ds rest h e k =
    rw (k, leading_digits_lem (d ∷ ds) rest h e)
      (fit (ltb (decimal 0 (d ∷ ds)) (2 ^ 32)) (decimal 0 (d ∷ ds)))
  where
    fit :
        (b : Bool) (n : ℕ)
        → block_number (if b then some n else none)
          ≡ (if b then ok (number n) else err (spec_error parser_error))
    fit true n = refl
    fit false n = refl
