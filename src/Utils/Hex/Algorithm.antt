-- ===== src/Utils/Hex/Algorithm.antt =====
-- What utils/hex.cpp calls of Boost.Algorithm: `unhex` into a back inserter, and `hex_lower`.
use polkadot_light_client.Common.{
  ltb, leb, if◌then◌else◌, Bytes, ℕ, ◌+◌, ◌-◌, ◌*◌, ◌/◌, ◌%◌, ◌≡◌, ◌&&◌, Option, none, some, [],
  ◌∷◌,
}

-- How a call of `boost::algorithm::unhex` ends.
pub data Decoding : Type 0 where
  written : Bytes → Decoding
  throws_not_enough_input throws_non_hex_input throws_other : Decoding

pub record Boost : Type 0 where
  pub unhex : Bytes → Decoding
  pub hex_lower : Bytes → Bytes

-- A hexadecimal digit of either case, as a number.
unfoldable pub nibble : ℕ → Option ℕ
nibble c =
    if leb b'0' c && leb c b'9'
    then some (c - b'0')
    else if leb b'a' c && leb c b'f'
    then some (c - b'a' + 10)
    else if leb b'A' c && leb c b'F'
    then some (c - b'A' + 10)
    else none

unfoldable pub digit : ℕ → ℕ
digit n = if ltb n 10 then n + b'0' else n - 10 + b'a'

abbrev pub prepend : ℕ → Decoding → Decoding
prepend b (written bs) = written (b ∷ bs)
prepend b throws_not_enough_input = throws_not_enough_input
prepend b throws_non_hex_input = throws_non_hex_input
prepend b throws_other = throws_other

-- The documented behaviour: digits are read in pairs, from the left, up to the first that is
-- missing or no digit; a byte is written as its two lower-case digits.
pub record BoostLaws (boost : Boost) : Type 0 where
  pub unhex_nil : boost.unhex [] ≡ written []
  pub unhex_pair :
      (c d h l : ℕ) (s : Bytes)
      → nibble c ≡ some h
      → nibble d ≡ some l
      → boost.unhex (c ∷ d ∷ s) ≡ prepend (h * 16 + l) (boost.unhex s)
  pub unhex_odd : (c h : ℕ) → nibble c ≡ some h → boost.unhex (c ∷ []) ≡ throws_not_enough_input
  pub unhex_bad_first :
      (c : ℕ) (s : Bytes) → nibble c ≡ none → boost.unhex (c ∷ s) ≡ throws_non_hex_input
  pub unhex_bad_second :
      (c d h : ℕ) (s : Bytes)
      → nibble c ≡ some h
      → nibble d ≡ none
      → boost.unhex (c ∷ d ∷ s) ≡ throws_non_hex_input
  pub hex_lower_nil : boost.hex_lower [] ≡ []
  pub hex_lower_cons :
      (b : ℕ) (bs : Bytes)
      → boost.hex_lower (b ∷ bs) ≡ digit (b / 16) ∷ digit (b % 16) ∷ boost.hex_lower bs
