-- ===== src/Chain/Spec/Load.antt =====
-- core/src/chain/spec.cpp, from the property tree to the specification.
use polkadot_light_client.Common.{
  if◌then◌else◌, Bytes, codes, bytes_eq, ok, err, thrown, fault, Outcome, ◌>>=◌, ℕ, Bool, Option,
  none, some, List, [], ◌∷◌, ◌++◌,
}
use polkadot_light_client.Utils.Hex.Algorithm.{Boost}
use polkadot_light_client.Utils.Hex.{unhex_with_0x, unhex_with_0x_to_block_hash}
use polkadot_light_client.Chain.Spec.Containers.{less, set_emplace, map_emplace}
use polkadot_light_client.Chain.Spec.{
  missing_peer_id, parser_error, PropertyTree, Multiaddress, BlockId, block_id_less, GenesisRawData,
  Spec, empty_spec, ensure, parse_block_id, spec_error,
}

abbrev pub is_null : Bytes → Bool
is_null s = bytes_eq s (codes "null")

-- The children of an optional entry; none if it is missing or its text is "null".
abbrev pub unless_null : {Tree : Type 0} → PropertyTree Tree → Option Tree → List (Bytes × Tree)
unless_null ptree none = []
unless_null ptree (some t) = if is_null (ptree.text t) then [] else ptree.children t

abbrev pub text_or : {Tree : Type 0} → PropertyTree Tree → Bytes → Option Tree → Bytes
text_or ptree default none = default
text_or ptree default (some t) = ptree.text t

abbrev pub protocol_or : {Tree : Type 0} → PropertyTree Tree → Bytes → Option Tree → Bytes
protocol_or ptree default none = default
protocol_or ptree default (some t) = if is_null (ptree.text t) then default else ptree.text t

abbrev pub engine_of : {Tree : Type 0} → PropertyTree Tree → Option Tree → Option Bytes
engine_of ptree none = none
engine_of ptree (some t) = if is_null (ptree.text t) then none else some (ptree.text t)

-- `priority.get<size_t>("")` may throw.
abbrev pub priority_of : Bytes → Option ℕ → Outcome (Option (Bytes × ℕ))
priority_of uri none = thrown
priority_of uri (some n) = ok (some (uri, n))

-- The first two children of an endpoint; one with fewer is left out.
unfoldable pub endpoint_of :
    {Tree : Type 0} → PropertyTree Tree → List (Bytes × Tree) → Outcome (Option (Bytes × ℕ))
endpoint_of ptree [] = ok none
endpoint_of ptree (uri ∷ []) = ok none
endpoint_of ptree (uri ∷ priority ∷ more) = priority_of (ptree.text uri.1) (ptree.number priority.1)

abbrev pub emplace_back : {A : Type 0} → Option A → List A → List A
emplace_back none xs = xs
emplace_back (some x) xs = xs ++ x ∷ []

abbrev pub parsed : {Tree : Type 0} → Option Tree → Outcome Tree
parsed none = err (spec_error parser_error)
parsed (some tree) = ok tree

module _ {Address PeerId : Type 0} (multi : Multiaddress Address PeerId) where
  -- The address of a boot node, if there is one: its peer must be named, and by a valid name.
  unfoldable pub check_peer : Address → Option Bytes → Outcome (Option Address)
  check_peer address none = err (spec_error missing_peer_id)
  check_peer address (some peer_id_base58) = do
    _ ← multi.from_base58 peer_id_base58
    ok (some address)

  unfoldable pub boot_node : Option Address → Outcome (Option Address)
  unfolding check_peer
  boot_node none = ok none
  boot_node (some multiaddr) = check_peer multiaddr (multi.get_peer_id multiaddr)

module _ {Tree : Type 0} (ptree : PropertyTree Tree) (boost : Boost) where
  unfoldable pub telemetry_loop :
      List (Bytes × Tree) → List (Bytes × ℕ) → Outcome (List (Bytes × ℕ))
  telemetry_loop [] endpoints = ok endpoints
  telemetry_loop (entry ∷ es) endpoints = do
    endpoint ← endpoint_of ptree (ptree.children entry.1)
    telemetry_loop es (emplace_back endpoint endpoints)

  unfoldable pub properties_loop : List (Bytes × Tree) → List (Bytes × Bytes) → List (Bytes × Bytes)
  properties_loop [] properties = properties
  properties_loop (entry ∷ es) properties =
      properties_loop es (map_emplace entry.0 (ptree.text entry.1) properties)

  unfoldable pub substitutes_loop : List (Bytes × Tree) → List BlockId → Outcome (List BlockId)
  substitutes_loop [] ids = ok ids
  substitutes_loop (entry ∷ es) ids = do
    block_id ← parse_block_id boost entry.0
    substitutes_loop es (set_emplace block_id_less block_id ids)

  unfoldable pub blocks_loop : List (Bytes × Tree) → List Bytes → Outcome (List Bytes)
  blocks_loop [] blocks = ok blocks
  blocks_loop (entry ∷ es) blocks = do
    block_hash ← unhex_with_0x_to_block_hash boost (ptree.text entry.1)
    blocks_loop es (set_emplace less block_hash blocks)

  abbrev pub children_of : Option Tree → List (Bytes × Tree)
  children_of none = []
  children_of (some t) = ptree.children t

  unfoldable pub read_key_block : List (Bytes × Tree) → GenesisRawData → Outcome GenesisRawData
  read_key_block [] data' = ok data'
  read_key_block (child ∷ cs) data' = do
    key_processed ← unhex_with_0x boost child.0
    value_processed ← unhex_with_0x boost (ptree.text child.1)
    read_key_block cs (data' ++ (key_processed, value_processed) ∷ [])

  unfoldable pub children_default_loop :
      List (Bytes × Tree) → List (Bytes × GenesisRawData) → Outcome (List (Bytes × GenesisRawData))
  children_default_loop [] children = ok children
  children_default_loop (entry ∷ es) children = do
    child ← read_key_block (ptree.children entry.1) []
    key_processed ← unhex_with_0x boost entry.0
    children_default_loop es (map_emplace key_processed child children)

  -- The entry "top", or else the first entry, which `begin()` does not have in an empty tree.
  unfoldable pub top_tree : Option Tree → List (Bytes × Tree) → Outcome Tree
  top_tree (some top) entries = ok top
  top_tree none [] = fault
  top_tree none (entry ∷ es) = ok entry.1

  module _ {Address : Type 0} where
    unfoldable pub load_fields : Tree → Spec Address → Outcome (Spec Address)
    load_fields tree spec = do
      name ← ensure (ptree.get_child_optional (codes "name") tree)
      id ← ensure (ptree.get_child_optional (codes "id") tree)
      endpoints ←
          telemetry_loop
            (unless_null ptree (ptree.get_child_optional (codes "telemetryEndpoints") tree))
            spec.telemetry_endpoints
      substitutes ←
          substitutes_loop (children_of (ptree.get_child_optional (codes "codeSubstitutes") tree))
            spec.known_code_substitutes
      fork_blocks ←
          blocks_loop (unless_null ptree (ptree.get_child_optional (codes "forkBlocks") tree))
            spec.fork_blocks
      bad_blocks ←
          blocks_loop (unless_null ptree (ptree.get_child_optional (codes "badBlocks") tree))
            spec.bad_blocks
      ok (record spec {
        name = ptree.text name;
        id = ptree.text id;
        chain_type =
            text_or ptree (codes "Live") (ptree.get_child_optional (codes "chainType") tree);
        protocol_id =
            protocol_or ptree spec.protocol_id (ptree.get_child_optional (codes "protocolId") tree);
        telemetry_endpoints = endpoints;
        properties =
            properties_loop (unless_null ptree (ptree.get_child_optional (codes "properties") tree))
              spec.properties;
        consensus_engine =
            engine_of ptree (ptree.get_child_optional (codes "consensusEngine") tree);
        known_code_substitutes = substitutes;
        fork_blocks = fork_blocks;
        bad_blocks = bad_blocks;
      })

    unfoldable pub load_genesis : Tree → Spec Address → Outcome (Spec Address)
    load_genesis tree spec = do
      genesis ← ensure (ptree.get_child_optional (codes "genesis") tree)
      genesis_raw ← ensure (ptree.get_child_optional (codes "raw") genesis)
      top ←
          top_tree (ptree.get_child_optional (codes "top") genesis_raw) (ptree.children genesis_raw)
      children_default ←
          children_default_loop
            (children_of (ptree.get_child_optional (codes "childrenDefault") genesis_raw))
            spec.children_default
      genesis_data ← read_key_block (ptree.children top) spec.genesis
      ok (record spec { children_default = children_default; genesis = genesis_data })

  module _ {Address PeerId : Type 0} (multi : Multiaddress Address PeerId) where
    unfoldable pub boot_nodes_loop : List (Bytes × Tree) → List Address → Outcome (List Address)
    boot_nodes_loop [] nodes = ok nodes
    boot_nodes_loop (entry ∷ es) nodes = do
      node ← boot_node multi (multi.create (ptree.text entry.1))
      boot_nodes_loop es (emplace_back node nodes)

    unfoldable pub load_boot_nodes : Tree → Spec Address → Outcome (Spec Address)
    load_boot_nodes tree spec = do
      boot_nodes ← ensure (ptree.get_child_optional (codes "bootNodes") tree)
      nodes ← boot_nodes_loop (ptree.children boot_nodes) spec.boot_nodes
      ok (record spec { boot_nodes = nodes })

    unfoldable pub load_from_file : Bytes → Outcome (Spec Address)
    load_from_file file_path = do
      tree ← parsed (ptree.read_json file_path)
      with_fields ← load_fields tree empty_spec
      with_genesis ← load_genesis tree with_fields
      load_boot_nodes tree with_genesis
