-- ===== src/Chain/Spec/Numbers.antt =====
-- `std::from_chars` into a `uint32_t`, in base 10: the longest run of digits at the front is read, and
-- what follows it is left. There is no result without a digit, or for a number out of range.
use polkadot_light_client.Common.{
  ltb, leb, if◌then◌else◌, Bytes, ℕ, ◌+◌, ◌-◌, ◌*◌, ◌^◌, Bool, ◌&&◌, Option, none, some, [], ◌∷◌,
  All, ◌≡◌, refl, ap, true, false, ◌++◌,
}

abbrev pub is_digit : ℕ → Bool
is_digit c = leb b'0' c && leb c b'9'

unfoldable pub leading_digits : Bytes → Bytes
leading_digits [] = []
leading_digits (c ∷ s) = if is_digit c then c ∷ leading_digits s else []

unfoldable pub decimal : ℕ → Bytes → ℕ
decimal acc [] = acc
decimal acc (c ∷ s) = decimal (acc * 10 + (c - b'0')) s

abbrev pub in_range : ℕ → Bytes → Option ℕ
in_range bound [] = none
in_range bound (c ∷ s) = if ltb (decimal 0 (c ∷ s)) bound then some (decimal 0 (c ∷ s)) else none

unfoldable pub from_chars : Bytes → Option ℕ
unfolding leading_digits decimal
from_chars s = in_range (2 ^ 32) (leading_digits s)

-- Digits, then anything that is no digit: the digits are the number.
pub leading_digits-append :
    (ds : Bytes) (c : ℕ) (rest : Bytes)
    → All (λ d. is_digit d ≡ true) ds
    → is_digit c ≡ false
    → leading_digits (ds ++ c ∷ rest) ≡ ds
unfolding leading_digits
leading_digits-append [] c rest h e = rw e
leading_digits-append (d ∷ ds) c rest (k, h) e =
    rw k (ap (◌∷◌ d) (leading_digits-append ds c rest h e))

pub leading_digits-All : (ds : Bytes) → All (λ d. is_digit d ≡ true) ds → leading_digits ds ≡ ds
unfolding leading_digits
leading_digits-All [] h = refl
leading_digits-All (d ∷ ds) (k, h) = rw k (ap (◌∷◌ d) (leading_digits-All ds h))
