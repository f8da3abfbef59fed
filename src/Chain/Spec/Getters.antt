-- ===== src/Chain/Spec/Getters.antt =====
-- The getters of core/src/chain/spec.h.
use polkadot_light_client.Common.{Bytes, ℕ, Option, List}
use polkadot_light_client.Chain.Spec.{BlockId, GenesisRawData, Spec}

module _ {Address : Type 0} (spec : Spec Address) where
  abbrev pub get_name : Bytes
  get_name = spec.name

  abbrev pub get_id : Bytes
  get_id = spec.id

  abbrev pub get_chain_type : Bytes
  get_chain_type = spec.chain_type

  abbrev pub get_boot_nodes : List Address
  get_boot_nodes = spec.boot_nodes

  abbrev pub get_known_code_substitutes : List BlockId
  get_known_code_substitutes = spec.known_code_substitutes

  abbrev pub get_protocol_id : Bytes
  get_protocol_id = spec.protocol_id

  abbrev pub get_properties : List (Bytes × Bytes)
  get_properties = spec.properties

  abbrev pub get_fork_blocks : List Bytes
  get_fork_blocks = spec.fork_blocks

  abbrev pub get_bad_blocks : List Bytes
  get_bad_blocks = spec.bad_blocks

  abbrev pub get_consensus_engine : Option Bytes
  get_consensus_engine = spec.consensus_engine

  abbrev pub get_genesis : GenesisRawData
  get_genesis = spec.genesis

  abbrev pub get_children_default : List (Bytes × GenesisRawData)
  get_children_default = spec.children_default

  abbrev pub get_telemetry_endpoints : List (Bytes × ℕ)
  get_telemetry_endpoints = spec.telemetry_endpoints
