-- ===== src/Network/PeerManager/State.antt =====
-- The members of the peer manager (core/src/network/peer_manager.h), what it asks of libp2p and what
-- libp2p answers.
use polkadot_light_client.Common.{Bytes, ℕ, ◌+◌, ◌%◌, ◌^◌, Bool, Option, List, ◌∷◌}
use polkadot_light_client.Network.PeerManager.Table.{PeerId, PeerState, Peers, modify}

-- Anonymous-namespace constants.
abbrev pub min_connections : ℕ
min_connections = 10

abbrev pub max_connections : ℕ
max_connections = 20

pub data Call : Type 0 where
  host_connect host_disconnect start_pinging : PeerId → Call
  add_peer add_permanent_peer : PeerId → List Bytes → Call
  identify_start kademlia_start grandpa_start : Call
  -- a periodic timer, with its interval in milliseconds
  make_timer : ℕ → Call

-- What libp2p answers about a peer.
pub record Host : Type 0 where
  -- getBestConnectionForPeer gives a connection
  pub has_connection : PeerId → Bool
  -- AddressRepository::getAddresses
  pub get_addresses : PeerId → Option (List Bytes)
  -- the addresses of PeerRepository::getPeerInfo
  pub peer_addresses : PeerId → List Bytes
  -- connectedness is CAN_NOT_CONNECT
  pub can_not_connect : PeerId → Bool

pub record PeerManager : Type 0 where
  pub host_id : PeerId
  pub peers_info : Peers
  pub current_tick : ℕ
  pub calls : List Call

-- A `size_t` counter.
abbrev pub next_tick : ℕ → ℕ
next_tick t = (t + 1) % 2 ^ 64

unfoldable pub modify_peer : PeerId → (PeerState → PeerState) → PeerManager → PeerManager
modify_peer peer_id f m = record m { peers_info = modify peer_id f m.peers_info }

unfoldable pub call : Call → PeerManager → PeerManager
call c m = record m { calls = c ∷ m.calls }
