-- ===== src/Chain/Spec/Sample.antt =====
-- A property tree, addresses and a small file, for tests.
use polkadot_light_client.Common.{
  if◌then◌else◌, length, take, drop, replicate, Bytes, codes, bytes_eq, library, ok, err, ◌>>=◌, ℕ,
  ◌≡◌, refl, Option, none, some, List, [], ◌∷◌,
}
use polkadot_light_client.Utils.Hex.Reference.{reference}
use polkadot_light_client.Utils.Hex.{
  overwrite, caught, unhex, unhex_with_0x, copy_32, unhex_with_0x_to_block_hash, hex,
}
use polkadot_light_client.Chain.Spec.Containers.{less, set_emplace, map_find}
use polkadot_light_client.Chain.Spec.Numbers.{leading_digits, from_chars}
use polkadot_light_client.Chain.Spec.Load.{
  endpoint_of, check_peer, boot_node, telemetry_loop, properties_loop, substitutes_loop,
  blocks_loop, read_key_block, children_default_loop, top_tree, load_fields, load_genesis,
  boot_nodes_loop, load_boot_nodes, load_from_file,
}
use polkadot_light_client.Chain.Spec.{PropertyTree, Multiaddress, Spec, empty_spec, ensure}

mutual
  pub data JsonTree : Type 0 where
    tree : Bytes → JsonEntries → JsonTree

  pub data JsonEntries : Type 0 where
    end : JsonEntries
    entry : Bytes → JsonTree → JsonEntries → JsonEntries

abbrev pub value : Bytes → JsonTree
value s = tree s end

abbrev pub text_of : JsonTree → Bytes
text_of (tree s es) = s

abbrev pub list_of : JsonEntries → List (Bytes × JsonTree)
list_of end = []
list_of (entry k t es) = (k, t) ∷ list_of es

abbrev pub entries_of : JsonTree → List (Bytes × JsonTree)
entries_of (tree s es) = list_of es

-- One step of a path, which is all that the loader asks for.
abbrev pub child_of : Bytes → JsonTree → Option JsonTree
child_of k t = map_find k (entries_of t)

abbrev pub whole_number : Bytes → Option ℕ
whole_number s = if bytes_eq (leading_digits s) s then from_chars s else none

abbrev pub reader : JsonTree → PropertyTree JsonTree
reader file = record {
  read_json = λ path. if bytes_eq path (codes "spec.json") then some file else none;
  get_child_optional = child_of;
  text = text_of;
  number = λ t. whole_number (text_of t);
  children = entries_of;
}

-- An address is its text; the peer is what follows "/p2p/".
abbrev pub addresses : Multiaddress Bytes ℕ
addresses = record {
  create = λ s. if bytes_eq (take 1 s) (codes "/") then some s else none;
  get_peer_id = λ a. if bytes_eq (take 5 a) (codes "/p2p/") then some (drop 5 a) else none;
  from_base58 =
      λ s. if bytes_eq s [] then err (record { category = library; value = 1 }) else ok (length s);
}

abbrev pub fork_blocks : JsonEntries
fork_blocks = entry [] (value (hex reference (replicate 32 9))) (
    entry [] (value (hex reference (replicate 32 2)))
      (entry [] (value (hex reference (replicate 32 9))) end))

abbrev pub raw_entries : JsonEntries
raw_entries =
    entry (codes "top") (tree [] (entry (codes "0x3a63") (value (codes "0x0102")) end)) end

abbrev pub with_telemetry : JsonTree → JsonEntries → JsonTree
with_telemetry telemetry raw = tree [] (
    entry (codes "name") (value (codes "Westend")) (
      entry (codes "id") (value (codes "westend2")) (
        entry (codes "telemetryEndpoints") telemetry (
          entry (codes "forkBlocks") (tree [] fork_blocks) (
            entry (codes "genesis") (tree [] (entry (codes "raw") (tree [] raw) end)) (
              entry (codes "bootNodes")
                (tree []
                  (entry [] (value (codes "/p2p/12D3")) (entry [] (value (codes "old")) end)))
                end))))))

abbrev pub good : JsonTree
good = with_telemetry (value (codes "null")) raw_entries

abbrev pub good_spec : Spec Bytes
good_spec = record empty_spec {
  name = codes "Westend";
  id = codes "westend2";
  chain_type = codes "Live";
  boot_nodes = codes "/p2p/12D3" ∷ [];
  fork_blocks = replicate 32 2 ∷ replicate 32 9 ∷ [];
  genesis = (0x3a ∷ 0x63 ∷ [], 1 ∷ 2 ∷ []) ∷ [];
}

pub good_test : load_from_file (reader good) reference addresses (codes "spec.json") ≡ ok good_spec
unfolding load_from_file ◌>>=◌ bytes_eq load_fields ensure map_find telemetry_loop substitutes_loop
    blocks_loop unhex_with_0x_to_block_hash unhex_with_0x hex unhex reference replicate load_genesis
    top_tree children_default_loop load_boot_nodes boot_nodes_loop read_key_block less set_emplace
    boot_node check_peer endpoint_of take drop caught copy_32 overwrite properties_loop
good_test = refl
