-- ===== src/Utils/Tests.antt =====
-- The stop handler and the conversions of text on small inputs.
use polkadot_light_client.Common.{
  ◌==◌, length, get_elem?, set_at, ok, err, ℕ, ◌+◌, ◌≤◌, ◌≡◌, refl, Bool, not, List, [], ◌∷◌,
}
use polkadot_light_client.Utils.MoveOnCopy.{
  copies, moves, takes, Holders, holder_of, copy_construct, move_construct, take_value, Use,
  use_holder, use_all, full, use_all-once,
}
use polkadot_light_client.Utils.Stoppable.{add, stop_loop, stop, alive_last_first, stop-eq}
use polkadot_light_client.Utils.StringConversion.{
  invalid_size, conversion_error, from_string, to_string, from_string-to_string,
}

-- Object 2 is gone.
abbrev alive : ℕ → Bool
alive s = not (s == 2)

stop_test : stop alive (add 3 (add 2 (add 1 []))) ≡ 3 ∷ 1 ∷ []
unfolding stop stop_loop get_elem?
stop_test = refl

stop-eq_example : stop alive (1 ∷ 2 ∷ 3 ∷ []) ≡ 3 ∷ 1 ∷ []
unfolding alive_last_first
stop-eq_example = stop-eq alive (1 ∷ 2 ∷ 3 ∷ [])

from_string-to_string_test :
    (to_string 2 (7 ∷ 8 ∷ []) ≡ ok (7 ∷ 8 ∷ []))
    × (from_string 3 (7 ∷ 8 ∷ []) ≡ err (conversion_error invalid_size))
from_string-to_string_test = from_string-to_string (7 ∷ 8 ∷ []) 3

-- An object is copied, the copy is moved, and the value taken out of each of the three.
abbrev uses : List Use
uses = copies 0 ∷ moves 1 ∷ takes 0 ∷ takes 1 ∷ takes 2 ∷ []

abbrev five : Holders ℕ
five = holder_of 5

uses_test : (use_all five uses).taken ≡ 5 ∷ []
unfolding use_all use_holder copy_construct move_construct take_value set_at get_elem?
uses_test = refl

use_all-once_example : full (use_all five uses).objects + length (use_all five uses).taken ≤ 1
use_all-once_example = use_all-once 5 uses
