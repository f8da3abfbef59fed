-- ===== src/Network/Protobuf/Tests.antt =====
-- Writing and taking of protobuf messages on small inputs.
use polkadot_light_client.Common.{length, Bytes, ℕ, ◌≡◌, [], ◌∷◌}
use polkadot_light_client.Network.Protobuf.{
  write_to_vec, take_from_collection, write_to_vec-eq, take_from_collection-eq,
}

write_to_vec_test : write_to_vec (7 ∷ 8 ∷ []) (1 ∷ []) ≡ 1 ∷ 7 ∷ 8 ∷ []
write_to_vec_test = write_to_vec-eq (7 ∷ 8 ∷ []) (1 ∷ [])

abbrev size : Bytes → ℕ
size = length

take_from_collection-eq_test : take_from_collection size ((1 ∷ []) ∷ [] ∷ []) 9 ≡ 1 ∷ 0 ∷ []
take_from_collection-eq_test = take_from_collection-eq size ((1 ∷ []) ∷ [] ∷ []) 9
