-- ===== src/Network/PeerManager/Lifetime.antt =====
-- The peer manager from either constructor of core/src/network/peer_manager.cpp on.
use polkadot_light_client.Common.{
  Bytes, ok, Outcome, bind_ok, ok-injective, ◌≡◌, subst, Option, none, some, List, [], ◌∷◌,
}
use polkadot_light_client.Network.PeerManager.Invariant.{IsSound}
use polkadot_light_client.Network.PeerManager.Loops.{IsSettled}
use polkadot_light_client.Network.PeerManager.Reachable.{
  update_connections-IsSettled, run-IsSound, initial-IsSound,
}
use polkadot_light_client.Network.PeerManager.Start.{
  PeerInfo, Kademlia, add_peer_info, add_if_some, add_peers, construct,
}
use polkadot_light_client.Network.PeerManager.Construction.{
  add_peer_info-IsSound, start_and_update_connections-IsSettled,
}
use polkadot_light_client.Network.PeerManager.{
  Host, PeerManager, update_connections, Event, run, initial,
}

module _ (kademlia : Kademlia) (info : Bytes → Outcome (Option PeerInfo)) where
  add_if_some-IsSound :
      (o : Option PeerInfo) (m : PeerManager) → IsSound m → IsSound (add_if_some kademlia o m)
  add_if_some-IsSound none m v = v
  add_if_some-IsSound (some peer) m v = add_peer_info-IsSound kademlia peer m v

  add_peers-IsSound :
      (peers : List Bytes) (m n : PeerManager)
      → IsSound m
      → add_peers kademlia info peers m ≡ ok n
      → IsSound n
  unfolding add_peers
  add_peers-IsSound [] m n v h = subst IsSound (ok-injective h) v
  add_peers-IsSound (peer ∷ peers) m n v h =
      let (o, more, e) = bind_ok _ (info peer) n h in
      add_peers-IsSound peers (add_if_some kademlia o m) n (add_if_some-IsSound o m v) more

  pub construct-IsSound :
      (h : Host) (host : PeerInfo) (peers : List Bytes) (m : PeerManager)
      → construct kademlia h host info peers ≡ ok m
      → IsSound m
  unfolding construct
  construct-IsSound h host peers m e =
      let (n, done, made) =
        bind_ok _ (add_peers kademlia info peers (add_peer_info kademlia host (initial host.id))) m
          e in
      let sound : IsSound n =
        add_peers-IsSound peers _ n
          (add_peer_info-IsSound kademlia host (initial host.id) (initial-IsSound host.id)) made in
      subst IsSound (ok-injective done) ((start_and_update_connections-IsSettled h n sound).sound)

  -- A peer manager that was constructed, by texts or by addresses and whatever is reported meanwhile,
  -- meets the invariant after any events, and has 20 connections at most after each timer.
  pub run-construct :
      (h : Host) (host : PeerInfo) (peers : List Bytes) (m : PeerManager) (es : List (Host × Event))
      (at_timer : Host)
      → construct kademlia h host info peers ≡ ok m
      → IsSound (run m es) × IsSettled (update_connections at_timer (run m es))
  run-construct h host peers m es at_timer e =
      let after = run-IsSound m es (construct-IsSound h host peers m e) in
      (after, update_connections-IsSettled at_timer (run m es) after)
