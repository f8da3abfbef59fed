-- ===== src/Chain/Spec/Escapes.antt =====
-- Inputs on which `loadFromFile` does not end in a result (core/src/chain/spec.cpp), and those that
-- lack an entry.
use polkadot_light_client.Common.{
  Option-cases, Bytes, codes, ok, err, thrown, ◌>>=◌, ℕ, ◌≡◌, refl, ◌⊎◌, inl, inr, false, Option,
  none, some, List, [], ◌∷◌, ◌++◌,
}
use polkadot_light_client.Utils.Hex.Algorithm.{Boost}
use polkadot_light_client.Chain.Spec.Load.{
  is_null, endpoint_of, emplace_back, telemetry_loop, load_fields, load_from_file,
}
use polkadot_light_client.Chain.Spec.{missing_entry, spec_error, PropertyTree, Multiaddress, ensure}

module _ {Tree : Type 0} (ptree : PropertyTree Tree) (boost : Boost) where
  endpoint_of-cases :
      (cs : List (Bytes × Tree))
      → (endpoint_of ptree cs ≡ thrown) ⊎ ((o : Option (Bytes × ℕ)) × (endpoint_of ptree cs ≡ ok o))
  unfolding endpoint_of
  endpoint_of-cases [] = inr (none, refl)
  endpoint_of-cases (u ∷ []) = inr (none, refl)
  endpoint_of-cases (u ∷ p ∷ more) = elim (Option-cases (ptree.number p.1)) [
    | inl e ↦ inl (rw e)
    | inr (n, e) ↦ inr (some (ptree.text u.1, n), rw e)
  ]

  -- An endpoint whose second entry is no number.
  abbrev pub IsBadEndpoint : Bytes × Tree → Type 0
  IsBadEndpoint entry =
      (uri : Bytes × Tree) × (priority : Bytes × Tree) × (more : List (Bytes × Tree))
      × (ptree.children entry.1 ≡ uri ∷ priority ∷ more)
      × (ptree.number priority.1 ≡ none)

  telemetry_loop_throws :
      (before : List (Bytes × Tree)) (bad : Bytes × Tree) (after : List (Bytes × Tree))
      (endpoints : List (Bytes × ℕ))
      → IsBadEndpoint bad
      → telemetry_loop ptree boost (before ++ bad ∷ after) endpoints ≡ thrown
  unfolding telemetry_loop endpoint_of ◌>>=◌
  telemetry_loop_throws [] bad after endpoints (uri, priority, more, e, k) = rw (e, k)
  telemetry_loop_throws (entry ∷ es) bad after endpoints b =
      elim (endpoint_of-cases (ptree.children entry.1)) [
        | inl e ↦ rw e
        | inr (o, e) ↦ rw e (telemetry_loop_throws es bad after (emplace_back o endpoints) b)
      ]

module _ {Tree Address PeerId : Type 0} (ptree : PropertyTree Tree) (boost : Boost)
    (multi : Multiaddress Address PeerId) (file_path : Bytes) (tree : Tree)
    (read : ptree.read_json file_path ≡ some tree) where
  -- A telemetry endpoint whose priority is no number, in a file with the entries "name" and "id" and
  -- with telemetry endpoints that are not null, is not reported as an error: the exception of the
  -- property tree leaves `loadFromFile`, whatever the other endpoints and the later entries are.
  pub load_from_file_throws :
      (name id telemetry : Tree) (before : List (Bytes × Tree)) (bad : Bytes × Tree)
      (after : List (Bytes × Tree))
      → ptree.get_child_optional (codes "name") tree ≡ some name
      → ptree.get_child_optional (codes "id") tree ≡ some id
      → ptree.get_child_optional (codes "telemetryEndpoints") tree ≡ some telemetry
      → is_null (ptree.text telemetry) ≡ false
      → ptree.children telemetry ≡ before ++ bad ∷ after
      → IsBadEndpoint ptree boost bad
      → load_from_file ptree boost multi file_path ≡ thrown
  unfolding load_from_file load_fields ensure ◌>>=◌
  load_from_file_throws name id telemetry before bad after e1 e2 e3 e4 e5 b =
      rw (read, e1, e2, e3, e4, e5, telemetry_loop_throws ptree boost before bad after [] b)

  -- A file without the entry "name", or with it and without "id", is refused with MissingEntry.
  pub load_from_file_missing :
      (ptree.get_child_optional (codes "name") tree ≡ none)
        ⊎ (ptree.get_child_optional (codes "id") tree ≡ none)
      → load_from_file ptree boost multi file_path ≡ err (spec_error missing_entry)
  unfolding load_from_file load_fields ensure ◌>>=◌
  load_from_file_missing (inl e) = rw (read, e)
  load_from_file_missing (inr e) =
      elim (Option-cases (ptree.get_child_optional (codes "name") tree)) [
        | inl k ↦ rw (read, k)
        | inr (name, k) ↦ rw (read, k, e)
      ]
