-- ===== src/Network/PeerManager/Start.antt =====
-- The constructors of core/src/network/peer_manager.cpp. The network of peers that libp2p keeps may
-- report peers while one is added to it: `Kademlia` says which, and each report is handled at once.
use polkadot_light_client.Common.{
  Bytes, ok, err, thrown, fault, Outcome, ◌>>=◌, Option, none, some, List, [], ◌∷◌,
}
use polkadot_light_client.Chain.Spec.{Multiaddress}
use polkadot_light_client.Network.PeerManager.Table.{PeerId}
use polkadot_light_client.Network.PeerManager.{
  add_permanent_peer, identify_start, kademlia_start, grandpa_start, make_timer, Host, PeerManager,
  call, on_discovered_peer, update_connections, initial,
}

pub record PeerInfo : Type 0 where
  pub id : PeerId
  pub addresses : List Bytes

-- The peers that are reported within one call of `addPeer`.
abbrev pub Kademlia : Type 0
Kademlia = PeerInfo → List PeerId

abbrev pub AddressBook : Type 0
AddressBook = Multiaddress Bytes PeerId

unfoldable pub on_discovered_peers : List PeerId → PeerManager → PeerManager
on_discovered_peers [] m = m
on_discovered_peers (peer_id ∷ ps) m = on_discovered_peers ps (on_discovered_peer peer_id m)

unfoldable pub add_peer_info : Kademlia → PeerInfo → PeerManager → PeerManager
unfolding on_discovered_peers
add_peer_info kademlia peer m =
    on_discovered_peers (kademlia peer) (call (add_permanent_peer peer.id peer.addresses) m)

abbrev pub add_if_some : Kademlia → Option PeerInfo → PeerManager → PeerManager
add_if_some kademlia none m = m
add_if_some kademlia (some peer) m = add_peer_info kademlia peer m

module _ (multi : AddressBook) where
  -- An identifier that libp2p cannot decode is logged.
  abbrev pub decoded_peer : Bytes → Outcome PeerId → Outcome (Option PeerInfo)
  decoded_peer multiaddr (ok peer_id) =
      ok (some (record { id = peer_id; addresses = multiaddr ∷ [] }))
  decoded_peer multiaddr (err e) = ok none
  decoded_peer multiaddr thrown = thrown
  decoded_peer multiaddr fault = fault

  -- `value()` throws where the address names no peer.
  unfoldable pub create_peer_info : Bytes → Outcome (Option PeerInfo)
  create_peer_info multiaddr = elim (multi.get_peer_id multiaddr) [
    | none ↦ thrown
    | some peer_id_base58 ↦ decoded_peer multiaddr (multi.from_base58 peer_id_base58)
  ]

  unfoldable pub parse_peer_info : Bytes → Outcome (Option PeerInfo)
  unfolding create_peer_info
  parse_peer_info peer = elim (multi.create peer) [
    | none ↦ ok none
    | some multiaddr ↦ create_peer_info multiaddr
  ]

-- The loop of either constructor, over texts or over addresses.
unfoldable pub add_peers :
    Kademlia → (Bytes → Outcome (Option PeerInfo)) → List Bytes → PeerManager → Outcome PeerManager
add_peers kademlia info [] m = ok m
add_peers kademlia info (peer ∷ peers) m = do
  peer_info ← info peer
  add_peers kademlia info peers (add_if_some kademlia peer_info m)

unfoldable pub start_and_update_connections : Host → PeerManager → PeerManager
start_and_update_connections h m =
    update_connections h
      (call (make_timer 200) (call grandpa_start (call kademlia_start (call identify_start m))))

-- A constructor: `host` is the host itself, as libp2p knows it after `initProtocols`.
unfoldable pub construct :
    Kademlia
    → Host
    → PeerInfo
    → (Bytes → Outcome (Option PeerInfo))
    → List Bytes
    → Outcome PeerManager
construct kademlia h host info peers = do
  m ← add_peers kademlia info peers (add_peer_info kademlia host (initial host.id))
  ok (start_and_update_connections h m)

unfoldable pub construct_from_texts :
    AddressBook → Kademlia → Host → PeerInfo → List Bytes → Outcome PeerManager
unfolding construct parse_peer_info
construct_from_texts multi kademlia h host peers =
    construct kademlia h host (parse_peer_info multi) peers

unfoldable pub construct_from_addresses :
    AddressBook → Kademlia → Host → PeerInfo → List Bytes → Outcome PeerManager
unfolding construct create_peer_info
construct_from_addresses multi kademlia h host peers =
    construct kademlia h host (create_peer_info multi) peers
