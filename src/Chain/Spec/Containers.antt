-- ===== src/Chain/Spec/Containers.antt =====
-- `std::set` and `std::map`, with the orders of the keys in core/src/chain/spec.h: lists in the order
-- of iteration.
use polkadot_light_client.Common.{
  ltb, if◌then◌else◌, Bytes, bytes_eq, Bool, true, false, Option, none, some, List, [], ◌∷◌,
}

-- The order of `std::string`, `std::vector<uint8_t>` and `std::array<uint8_t, 32>`.
unfoldable pub less : Bytes → Bytes → Bool
less [] [] = false
less [] (y ∷ ys) = true
less (x ∷ xs) [] = false
less (x ∷ xs) (y ∷ ys) = if ltb x y then true else if ltb y x then false else less xs ys

module _ {A : Type 0} (lt : A → A → Bool) where
  -- `set.emplace(x)`
  unfoldable pub set_emplace : A → List A → List A
  set_emplace x [] = x ∷ []
  set_emplace x (y ∷ ys) =
      if lt x y then x ∷ y ∷ ys else if lt y x then y ∷ set_emplace x ys else y ∷ ys

module _ {V : Type 0} where
  -- `map.emplace(k, v)`: a key that is there keeps its value.
  unfoldable pub map_emplace : Bytes → V → List (Bytes × V) → List (Bytes × V)
  map_emplace k v [] = (k, v) ∷ []
  map_emplace k v ((j, w) ∷ m) =
      if less k j
      then (k, v) ∷ (j, w) ∷ m
      else if less j k
      then (j, w) ∷ map_emplace k v m
      else (j, w) ∷ m

  unfoldable pub map_find : Bytes → List (Bytes × V) → Option V
  map_find k [] = none
  map_find k ((j, w) ∷ m) = if bytes_eq j k then some w else map_find k m
