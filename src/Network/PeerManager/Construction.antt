-- ===== src/Network/PeerManager/Construction.antt =====
-- The constructors of the peer manager over the boot nodes of a specification
-- (core/src/network/peer_manager.cpp, core/src/chain/spec.cpp, app/src/main.cpp).
use polkadot_light_client.Common.{
  All, IsIn, Bytes, ok, thrown, Outcome, ◌>>=◌, ◌≡◌, refl, Option, none, some, List, [], ◌∷◌, ◌++◌,
}
use polkadot_light_client.Utils.Hex.Algorithm.{Boost}
use polkadot_light_client.Chain.Spec.{PropertyTree, Spec}
use polkadot_light_client.Chain.Spec.Load.{load_from_file}
use polkadot_light_client.Chain.Spec.BootNodes.{IsDialable}
use polkadot_light_client.Chain.Spec.Entries.{load_from_file-IsDialable}
use polkadot_light_client.Network.PeerManager.Table.{PeerId}
use polkadot_light_client.Network.PeerManager.Invariant.{
  IsSound, call-IsSound, on_discovered_peer-IsSound,
}
use polkadot_light_client.Network.PeerManager.Loops.{IsSettled}
use polkadot_light_client.Network.PeerManager.Reachable.{
  update_connections-IsSettled, initial-IsSound,
}
use polkadot_light_client.Network.PeerManager.Start.{
  PeerInfo, Kademlia, AddressBook, on_discovered_peers, add_peer_info, add_if_some,
  create_peer_info, parse_peer_info, add_peers, start_and_update_connections, construct,
  construct_from_texts, construct_from_addresses,
}
use polkadot_light_client.Network.PeerManager.Asking.{
  Asked, add_peer_info-Asked, start_and_update_connections-Asked, add_peer_info_asks,
}
use polkadot_light_client.Network.PeerManager.{
  add_permanent_peer, Call, Host, PeerManager, on_discovered_peer, initial,
}

on_discovered_peers-IsSound :
    (ps : List PeerId) (m : PeerManager) → IsSound m → IsSound (on_discovered_peers ps m)
unfolding on_discovered_peers
on_discovered_peers-IsSound [] m v = v
on_discovered_peers-IsSound (p ∷ ps) m v =
    on_discovered_peers-IsSound ps (on_discovered_peer p m) (on_discovered_peer-IsSound p m v)

pub add_peer_info-IsSound :
    (kademlia : Kademlia) (peer : PeerInfo) (m : PeerManager)
    → IsSound m
    → IsSound (add_peer_info kademlia peer m)
unfolding add_peer_info
add_peer_info-IsSound kademlia peer m v =
    on_discovered_peers-IsSound (kademlia peer) _ (call-IsSound _ m v)

pub start_and_update_connections-IsSettled :
    (h : Host) (m : PeerManager) → IsSound m → IsSettled (start_and_update_connections h m)
unfolding start_and_update_connections
start_and_update_connections-IsSettled h m v =
    update_connections-IsSettled h _
      (call-IsSound _ _ (call-IsSound _ _ (call-IsSound _ _ (call-IsSound _ m v))))

module _ (multi : AddressBook) where
  -- libp2p was asked to keep the peer that the address names, with this address.
  abbrev pub IsAdded : List Call → Bytes → Type 0
  IsAdded calls a =
      (text : Bytes) × (id : PeerId) × (multi.get_peer_id a ≡ some text)
      × (multi.from_base58 text ≡ ok id)
      × IsIn (add_permanent_peer id (a ∷ [])) calls

  create_peer_info_ok :
      (a text : Bytes) (id : PeerId)
      → multi.get_peer_id a ≡ some text
      → multi.from_base58 text ≡ ok id
      → create_peer_info multi a ≡ ok (some (record { id = id; addresses = a ∷ [] }))
  unfolding create_peer_info
  create_peer_info_ok a text id e k = rw (e, create_peer_info, k)

  -- The manager that adding these peers to `m` makes.
  record Added (peers : List Bytes) (m n : PeerManager) : Type 0 where
    sound : IsSound n
    keeps : (c : Call) → Asked c m → Asked c n
    added : (h : Host) → All (IsAdded (start_and_update_connections h n).calls) peers

  add_peers-Added :
      (kademlia : Kademlia) (peers : List Bytes) (m : PeerManager)
      → All (IsDialable multi) peers
      → IsSound m
      → (n : PeerManager) × (add_peers kademlia (create_peer_info multi) peers m ≡ ok n)
        × Added peers m n
  unfolding add_peers ◌>>=◌
  add_peers-Added kademlia [] m d v =
      (m, refl, record { sound = v; keeps = λ c a. a; added = λ h. tt })
  add_peers-Added kademlia (a ∷ peers) m ((text, id, e, k), d) v =
      let peer : PeerInfo = record { id = id; addresses = a ∷ [] } in
      let (n, made, more) =
        add_peers-Added kademlia peers (add_peer_info kademlia peer m) d
          (add_peer_info-IsSound kademlia peer m v) in
      (
        n,
        rw (create_peer_info_ok a text id e k) made,
        record {
          sound = more.sound;
          keeps = λ c asked. more.keeps c (add_peer_info-Asked c kademlia peer m asked);
          added = λ h. (
            (
              text,
              id,
              e,
              k,
              (start_and_update_connections-Asked _ h n
                  (more.keeps _ (add_peer_info_asks kademlia peer m))).is_in,
            ),
            more.added h,
          );
        },
      )

  construct_from_addresses_ok :
      (kademlia : Kademlia) (h : Host) (host : PeerInfo) (peers : List Bytes)
      → All (IsDialable multi) peers
      → (m : PeerManager) × (construct_from_addresses multi kademlia h host peers ≡ ok m)
        × IsSettled m
        × All (IsAdded m.calls) peers
  unfolding construct_from_addresses construct ◌>>=◌
  construct_from_addresses_ok kademlia h host peers d =
      let (n, made, more) =
        add_peers-Added kademlia peers (add_peer_info kademlia host (initial host.id)) d
          (add_peer_info-IsSound kademlia host (initial host.id) (initial-IsSound host.id)) in
      (
        start_and_update_connections h n,
        rw made,
        start_and_update_connections-IsSettled h n more.sound,
        more.added h,
      )

  -- Over the boot nodes of a loaded specification, as the program's `main` builds it, the peer manager
  -- is built without an exception. It then has no peer twice and not itself in its table, at most 20
  -- peers that count as connections, and has asked libp2p to keep the peer of every boot node.
  pub construct_from_addresses-load_from_file :
      {Tree : Type 0} (ptree : PropertyTree Tree) (boost : Boost) (file_path : Bytes)
      (spec : Spec Bytes) (kademlia : Kademlia) (h : Host) (host : PeerInfo)
      → load_from_file ptree boost multi file_path ≡ ok spec
      → (m : PeerManager) × (construct_from_addresses multi kademlia h host spec.boot_nodes ≡ ok m)
        × IsSettled m
        × All (IsAdded m.calls) spec.boot_nodes
  construct_from_addresses-load_from_file ptree boost file_path spec kademlia h host e =
      construct_from_addresses_ok kademlia h host spec.boot_nodes
        (load_from_file-IsDialable ptree boost multi file_path spec e)

  add_peers_throws :
      (kademlia : Kademlia) (info : Bytes → Outcome (Option PeerInfo)) (before : List Bytes)
      (bad : Bytes) (after : List Bytes) (m : PeerManager)
      → All (λ p. (o : Option PeerInfo) × (info p ≡ ok o)) before
      → info bad ≡ thrown
      → add_peers kademlia info (before ++ bad ∷ after) m ≡ thrown
  unfolding add_peers ◌>>=◌
  add_peers_throws kademlia info [] bad after m r e = rw e
  add_peers_throws kademlia info (p ∷ before) bad after m ((o, k), r) e =
      rw k (add_peers_throws kademlia info before bad after (add_if_some kademlia o m) r e)

  -- A text that is an address, but one that names no peer, makes the constructor over texts throw, if
  -- the texts before it do not.
  pub construct_from_texts_throws :
      (kademlia : Kademlia) (h : Host) (host : PeerInfo) (before : List Bytes) (bad address : Bytes)
      (after : List Bytes)
      → All (λ p. (o : Option PeerInfo) × (parse_peer_info multi p ≡ ok o)) before
      → multi.create bad ≡ some address
      → multi.get_peer_id address ≡ none
      → construct_from_texts multi kademlia h host (before ++ bad ∷ after) ≡ thrown
  unfolding construct_from_texts construct ◌>>=◌
  construct_from_texts_throws kademlia h host before bad address after r e k = rw (
      add_peers_throws kademlia (parse_peer_info multi) before bad after
        (add_peer_info kademlia host (initial host.id)) r
        (unfold parse_peer_info create_peer_info in rw (e, parse_peer_info, k, create_peer_info)))
