-- ===== src/Network/Incoming.antt =====
-- Streams that other peers open to this one: the handlers that core/src/network/peer_manager.cpp,
-- light2/protocol.cpp, sync2/protocol.cpp and grandpa/protocol.cpp set at the host.
use polkadot_light_client.Common.{
  if◌then◌else◌, Bytes, codes, Outcome, ℕ, Bool, ◌&&◌, Option, none, some, List, [], ◌∷◌,
}
use polkadot_light_client.Chain.Spec.Containers.{map_find}
use polkadot_light_client.Network.Grandpa.Protocol.{Roles, StreamCall, handle_stream}
use polkadot_light_client.Network.Light2.Protocol.{light_protocol}
use polkadot_light_client.Network.Sync2.{sync_protocol}

abbrev pub grandpa_protocol : Bytes
grandpa_protocol = codes "/paritytech/grandpa/1"

pub data StreamHandler : Type 0 where
  light_handler sync_handler ping_handler grandpa_handler : StreamHandler

-- The handlers of the host, by the names of their protocols; the last one set counts.
abbrev pub Handlers : Type 0
Handlers = List (Bytes × StreamHandler)

abbrev pub set_protocol_handler : Bytes → StreamHandler → Handlers → Handlers
set_protocol_handler protocol handler handlers = (protocol, handler) ∷ handlers

-- The part of `initProtocols` that sets handlers, with the name that libp2p gives its ping protocol.
unfoldable pub init_protocols : Bytes → Handlers
init_protocols ping_protocol = set_protocol_handler ping_protocol ping_handler (
    set_protocol_handler sync_protocol sync_handler
      (set_protocol_handler light_protocol light_handler []))

-- `start` of the GRANDPA protocol.
abbrev pub start_grandpa : Handlers → Handlers
start_grandpa handlers = set_protocol_handler grandpa_protocol grandpa_handler handlers

-- What is done to an incoming stream.
pub data Reaction : Type 0 where
  closes ping_handles : Reaction
  stream_calls : List StreamCall → Reaction

-- What a handler finds: its object lives, the stream names its peer, and what a handshake reads and
-- writes.
pub record Incoming : Type 0 where
  pub owner_lives : Bool
  pub peer_known : Bool
  pub read_res : Outcome Roles
  pub write_res : Outcome ℕ

-- A light client answers no request.
abbrev pub on_light_stream : Incoming → List Reaction
on_light_stream s = closes ∷ []

-- The handler is empty.
abbrev pub on_sync_stream : Incoming → List Reaction
on_sync_stream s = []

abbrev pub on_ping_stream : Incoming → List Reaction
on_ping_stream s = if s.owner_lives && s.peer_known then ping_handles ∷ [] else []

unfoldable pub on_grandpa_stream : Incoming → List Reaction
unfolding handle_stream
on_grandpa_stream s =
    stream_calls (handle_stream s.owner_lives s.peer_known s.read_res s.write_res) ∷ []

unfoldable pub react : StreamHandler → Incoming → List Reaction
unfolding on_grandpa_stream
react light_handler s = on_light_stream s
react sync_handler s = on_sync_stream s
react ping_handler s = on_ping_stream s
react grandpa_handler s = on_grandpa_stream s

abbrev pub react_if_set : Option StreamHandler → Incoming → List Reaction
react_if_set none s = []
react_if_set (some handler) s = react handler s

unfoldable pub on_stream : Handlers → Bytes → Incoming → List Reaction
unfolding map_find react
on_stream handlers protocol s = react_if_set (map_find protocol handlers) s

module _ (ping_protocol : Bytes) where
  abbrev pub running : Handlers
  running = start_grandpa (init_protocols ping_protocol)
