-- ===== src/Chain/Spec.antt =====
-- core/src/chain/spec.h and spec.cpp. The property tree of Boost and the addresses of libp2p are
-- arguments; a text is a list of bytes. An error ends the load, and the half-filled object with it, so
-- that the steps return the object or the error.
pub mod Containers
pub mod Numbers
pub mod Load
pub mod Success
pub mod BootNodes
pub mod Entries
pub mod Complete
pub mod Genesis
pub mod Typing
pub mod Getters
pub mod Blocks
pub mod BlockIds
pub mod Escapes
pub mod Sample
mod Tests
use polkadot_light_client.Common.{
  ltb, if◌then◌else◌, take, Bytes, codes, bytes_eq, spec_category, ok, err, thrown, ErrorCode,
  Outcome, ◌>>=◌, ℕ, Bool, true, false, Option, none, some, List, [], ◌∷◌,
}
use polkadot_light_client.Utils.Hex.Algorithm.{Boost}
use polkadot_light_client.Utils.Hex.{unhex_with_0x, unhex_with_0x_to_block_hash}
use Containers.{less, map_find}
use Numbers.{from_chars}

pub data SpecError : Type 0 where
  missing_entry missing_peer_id parser_error not_implemented : SpecError

abbrev pub error_value : SpecError → ℕ
error_value missing_entry = 1
error_value missing_peer_id = 2
error_value parser_error = 3
error_value not_implemented = 4

abbrev pub spec_error : SpecError → ErrorCode
spec_error e = record { category = spec_category; value = error_value e }

unfoldable pub message : SpecError → Bytes
message missing_entry = codes "A required entry is missing in the config file"
message missing_peer_id = codes "Peer id is missing in a multiaddress provided in the config file"
message parser_error = codes "Internal parser error"
message not_implemented = codes "Known entry name, but parsing not implemented"

-- What the loader calls of `boost::property_tree`.
pub record PropertyTree (Tree : Type 0) : Type 0 where
  -- `read_json`; there is no tree where it throws `json_parser_error`
  pub read_json : Bytes → Option Tree
  pub get_child_optional : Bytes → Tree → Option Tree
  -- `data()` and `get<std::string>("")`
  pub text : Tree → Bytes
  -- `get<size_t>("")`; there is no number where it throws `ptree_bad_data`
  pub number : Tree → Option ℕ
  -- from `begin()` to `end()`
  pub children : Tree → List (Bytes × Tree)

-- What the loader calls of libp2p's addresses and peer identifiers.
pub record Multiaddress (Address PeerId : Type 0) : Type 0 where
  pub create : Bytes → Option Address
  pub get_peer_id : Address → Option Bytes
  pub from_base58 : Bytes → Outcome PeerId

pub data BlockId : Type 0 where
  hash : Bytes → BlockId
  number : ℕ → BlockId

-- The order of `boost::variant`: by the alternative, then by its value.
unfoldable pub block_id_less : BlockId → BlockId → Bool
unfolding less
block_id_less (hash a) (hash b) = less a b
block_id_less (hash a) (number b) = true
block_id_less (number a) (hash b) = false
block_id_less (number a) (number b) = ltb a b

abbrev pub GenesisRawData : Type 0
GenesisRawData = List (Bytes × Bytes)

pub record Spec (Address : Type 0) : Type 0 where
  pub name : Bytes
  pub id : Bytes
  pub chain_type : Bytes
  pub boot_nodes : List Address
  pub telemetry_endpoints : List (Bytes × ℕ)
  pub protocol_id : Bytes
  pub properties : List (Bytes × Bytes)
  pub fork_blocks : List Bytes
  pub bad_blocks : List Bytes
  pub consensus_engine : Option Bytes
  pub genesis : GenesisRawData
  pub children_default : List (Bytes × GenesisRawData)
  pub known_code_substitutes : List BlockId

-- The default member values.
abbrev pub empty_spec : {Address : Type 0} → Spec Address
empty_spec = record {
  name = [];
  id = [];
  chain_type = [];
  boot_nodes = [];
  telemetry_endpoints = [];
  protocol_id = codes "sup";
  properties = [];
  fork_blocks = [];
  bad_blocks = [];
  consensus_engine = none;
  genesis = [];
  children_default = [];
  known_code_substitutes = [];
}

unfoldable pub get_property : {Address : Type 0} → Spec Address → Bytes → Option Bytes
unfolding map_find
get_property spec property = map_find property spec.properties

unfoldable pub ensure {ℓ} : {A : Type ℓ} → Option A → Outcome A
ensure none = err (spec_error missing_entry)
ensure (some entry) = ok entry

-- `rfind("0x", 0) != npos`: the text begins with 0x.
abbrev pub starts_with_0x : Bytes → Bool
starts_with_0x s = bytes_eq (take 2 s) (codes "0x")

abbrev pub block_number : Option ℕ → Outcome BlockId
block_number none = err (spec_error parser_error)
block_number (some n) = ok (number n)

unfoldable pub parse_block_id : Boost → Bytes → Outcome BlockId
unfolding bytes_eq take ◌>>=◌
parse_block_id boost block_id_str =
    if starts_with_0x block_id_str
    then (do block_hash ← unhex_with_0x_to_block_hash boost block_id_str; ok (hash block_hash))
    else block_number (from_chars block_id_str)
