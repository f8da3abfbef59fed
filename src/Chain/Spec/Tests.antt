-- ===== src/Chain/Spec/Tests.antt =====
-- The loader on a small file, and the properties at concrete inputs.
use polkadot_light_client.Chain.Spec.Sample.{
  tree, end, entry, JsonTree, value, list_of, reader, addresses, fork_blocks, raw_entries,
  with_telemetry, good, good_spec, good_test,
}
use polkadot_light_client.Common.{
  take, drop, replicate, All, IsIn, Bytes, codes, bytes_eq, ok, err, thrown, fault, ◌>>=◌, ◌≡◌,
  refl, ◌↔◌, inl, [], ◌∷◌,
}
use polkadot_light_client.Utils.Hex.Reference.{reference, reference-BoostLaws}
use polkadot_light_client.Utils.Hex.{
  overwrite, caught, unhex, unhex_with_0x, copy_32, unhex_with_0x_to_block_hash, hex,
}
use polkadot_light_client.Chain.Spec.Containers.{less, set_emplace, map_find}
use polkadot_light_client.Chain.Spec.Numbers.{leading_digits, decimal, from_chars}
use polkadot_light_client.Chain.Spec.BootNodes.{IsDialable}
use polkadot_light_client.Chain.Spec.Typing.{IsEntry, load_from_file-IsEntry}
use polkadot_light_client.Chain.Spec.Entries.{
  IsLoadOf, load_from_file_ok, load_from_file-IsDialable,
}
use polkadot_light_client.Chain.Spec.Genesis.{Matches, read_key_block_iff}
use polkadot_light_client.Chain.Spec.Blocks.{IsAscending, IsHashOf, blocks_loop_lem}
use polkadot_light_client.Chain.Spec.Escapes.{load_from_file_throws, load_from_file_missing}
use polkadot_light_client.Chain.Spec.BlockIds.{parse_block_id_number}
use polkadot_light_client.Chain.Spec.Load.{
  telemetry_loop, properties_loop, substitutes_loop, blocks_loop, read_key_block, top_tree,
  load_fields, load_genesis, load_from_file,
}
use polkadot_light_client.Chain.Spec.{missing_entry, number, spec_error, ensure, parse_block_id}
use polkadot_light_client.Chain.Spec.Complete.{load_from_file_iff}

load_from_file_ok_test : IsLoadOf (reader good) reference addresses (codes "spec.json") good_spec
load_from_file_ok_test =
    load_from_file_ok (reader good) reference addresses (codes "spec.json") good_spec good_test

load_from_file_iff_example :
    (load_from_file (reader good) reference addresses (codes "spec.json") ≡ ok good_spec) ↔ (
      IsLoadOf (reader good) reference addresses (codes "spec.json") good_spec
      × All (IsDialable addresses) good_spec.boot_nodes)
load_from_file_iff_example =
    load_from_file_iff (reader good) reference addresses (codes "spec.json") good_spec

load_from_file-IsDialable_test : All (IsDialable addresses) (codes "/p2p/12D3" ∷ [])
load_from_file-IsDialable_test =
    load_from_file-IsDialable (reader good) reference addresses (codes "spec.json") good_spec
      good_test

read_key_block_iff_example :
    (read_key_block
        (reader good)
        reference
        (list_of (entry (codes "0x3a63") (value (codes "0x0102")) end))
        []
      ≡ ok ((0x3a ∷ 0x63 ∷ [], 1 ∷ 2 ∷ []) ∷ []))
    ↔ Matches
        (reader good)
        reference
        (list_of (entry (codes "0x3a63") (value (codes "0x0102")) end))
        ((0x3a ∷ 0x63 ∷ [], 1 ∷ 2 ∷ []) ∷ [])
read_key_block_iff_example =
    read_key_block_iff (reader good) reference
      (list_of (entry (codes "0x3a63") (value (codes "0x0102")) end))
      ((0x3a ∷ 0x63 ∷ [], 1 ∷ 2 ∷ []) ∷ [])

fork_blocks_test :
    blocks_loop (reader good) reference (list_of fork_blocks) []
    ≡ ok (replicate 32 2 ∷ replicate 32 9 ∷ [])
unfolding blocks_loop ◌>>=◌ unhex_with_0x_to_block_hash unhex_with_0x unhex hex reference replicate
    take drop bytes_eq caught copy_32 overwrite set_emplace less
fork_blocks_test = refl

blocks_loop_lem_example :
    IsAscending (replicate 32 2 ∷ replicate 32 9 ∷ [])
    × ((a : Bytes)
        → IsIn a (replicate 32 2 ∷ replicate 32 9 ∷ [])
          ↔ IsHashOf (reader good) reference a (list_of fork_blocks))
blocks_loop_lem_example =
    blocks_loop_lem (reader good) reference (list_of fork_blocks)
      (replicate 32 2 ∷ replicate 32 9 ∷ []) fork_blocks_test

abbrev bad_endpoint : JsonTree
bad_endpoint = tree [] (entry [] (value (codes "/dns/t")) (entry [] (value (codes "high")) end))

abbrev unreadable : JsonTree
unreadable = with_telemetry (tree [] (entry [] bad_endpoint end)) raw_entries

load_from_file_throws_example :
    load_from_file (reader unreadable) reference addresses (codes "spec.json") ≡ thrown
unfolding map_find bytes_eq leading_digits from_chars
load_from_file_throws_example =
    load_from_file_throws (reader unreadable) reference addresses (codes "spec.json") unreadable
      refl (value (codes "Westend")) (value (codes "westend2"))
      (tree [] (entry [] bad_endpoint end)) [] ([], bad_endpoint) [] refl refl refl refl refl
      (([], value (codes "/dns/t")), ([], value (codes "high")), [], refl, refl)

load_from_file_missing_test :
    load_from_file (reader (value [])) reference addresses (codes "spec.json")
    ≡ err (spec_error missing_entry)
unfolding map_find bytes_eq
load_from_file_missing_test =
    load_from_file_missing (reader (value [])) reference addresses (codes "spec.json") (value [])
      refl (inl refl)

abbrev empty_raw : JsonTree
empty_raw = with_telemetry (value (codes "null")) end

no_raw_entries_test :
    load_from_file (reader empty_raw) reference addresses (codes "spec.json") ≡ fault
unfolding load_from_file ◌>>=◌ bytes_eq load_fields ensure map_find telemetry_loop substitutes_loop
    blocks_loop unhex_with_0x_to_block_hash unhex_with_0x hex unhex reference replicate load_genesis
    top_tree less set_emplace take drop caught copy_32 overwrite properties_loop
no_raw_entries_test = refl

parse_block_id_number_example : parse_block_id reference (codes "12abc") ≡ ok (number 12)
unfolding bytes_eq take decimal
parse_block_id_number_example =
    parse_block_id_number reference b'1' (codes "2") (codes "abc") (refl, (refl, tt)) refl refl

load_from_file-IsEntry_test : All IsEntry good_spec.genesis
load_from_file-IsEntry_test =
    load_from_file-IsEntry reference-BoostLaws (reader good) addresses (codes "spec.json") good_spec
      good_test
