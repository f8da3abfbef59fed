-- ===== src/Network/PeerManager/Asking.antt =====
-- The calls of libp2p that core/src/network/peer_manager.cpp makes at its start stay on record.
use polkadot_light_client.Common.{
  ltb, ◌==◌, Bool-cases, if_intro, IsIn, ℕ, suc, ◌-◌, inl, inr, List, [], ◌∷◌, refl,
}
use polkadot_light_client.Network.PeerManager.Table.{
  PeerId, is_empty, find, contains, may_connect, may_disconnect, PeerState,
}
use polkadot_light_client.Network.PeerManager.Start.{
  on_discovered_peers, PeerInfo, Kademlia, add_peer_info, start_and_update_connections,
}
use polkadot_light_client.Network.PeerManager.{
  min_connections, max_connections, Call, Host, PeerManager, modify_peer, call, emplace_peer,
  on_discovered_peer, disconnect, get_connections_count, connect, start_connecting,
  start_disconnecting, connect_loop, disconnect_loop, update_connections, add_permanent_peer,
  next_tick, set_disconnected,
}

-- The call was made: it stays on record.
pub record Asked (c : Call) (m : PeerManager) : Type 0 where
  pub is_in : IsIn c m.calls

module _ (c : Call) where
  call-Asked : (d : Call) (m : PeerManager) → Asked c m → Asked c (call d m)
  unfolding call
  call-Asked d m a = record { is_in = inr a.is_in }

  modify_peer-Asked :
      (p : PeerId) (f : PeerState → PeerState) (m : PeerManager)
      → Asked c m
      → Asked c (modify_peer p f m)
  unfolding modify_peer
  modify_peer-Asked p f m a = record { is_in = a.is_in }

  connect-Asked : (h : Host) (p : PeerId) (m : PeerManager) → Asked c m → Asked c (connect h p m)
  unfolding connect
  connect-Asked h p m a =
      if_intro (Asked c) (p == m.host_id) (λ _. a)
        λ _.
          if_intro (Asked c) (is_empty (h.peer_addresses p)) (λ _. a)
            λ _. if_intro (Asked c) (h.can_not_connect p) (λ _. a) λ _. call-Asked _ m a

  disconnect-Asked : (p : PeerId) (m : PeerManager) → Asked c m → Asked c (disconnect p m)
  unfolding disconnect
  disconnect-Asked p m a =
      if_intro (Asked c) (p == m.host_id) (λ _. modify_peer-Asked p set_disconnected m a)
        λ _. call-Asked _ _ (modify_peer-Asked p set_disconnected m a)

  connect_loop-Asked :
      (h : Host) (ps : List PeerId) (n : ℕ) (m : PeerManager)
      → Asked c m
      → Asked c (connect_loop h ps n m)
  unfolding connect_loop
  connect_loop-Asked h [] n m a = a
  connect_loop-Asked h (p ∷ ps) n m a = elim (Bool-cases (may_connect (find p m.peers_info))) [
    | inl e ↦
        let tried =
          connect-Asked h p _ (modify_peer-Asked p (start_connecting m.current_tick) m a) in
        rw (e, connect_loop)
          (if_intro (Asked c) (suc n == max_connections) (λ _. tried)
            (λ _. connect_loop-Asked h ps (suc n) _ tried))
    | inr e ↦ rw (e, connect_loop) (connect_loop-Asked h ps n m a)
  ]

  disconnect_loop-Asked :
      (ps : List PeerId) (n : ℕ) (m : PeerManager) → Asked c m → Asked c (disconnect_loop ps n m)
  unfolding disconnect_loop
  disconnect_loop-Asked [] n m a = a
  disconnect_loop-Asked (p ∷ ps) n m a = elim (Bool-cases (may_disconnect (find p m.peers_info))) [
    | inl e ↦
        let gone =
          disconnect-Asked p _ (modify_peer-Asked p (start_disconnecting m.current_tick) m a) in
        rw (e, disconnect_loop)
          (if_intro (Asked c) (n - 1 == max_connections) (λ _. gone)
            (λ _. disconnect_loop-Asked ps (n - 1) _ gone))
    | inr e ↦ rw (e, disconnect_loop) (disconnect_loop-Asked ps n m a)
  ]

  update_connections-Asked :
      (h : Host) (m : PeerManager) → Asked c m → Asked c (update_connections h m)
  unfolding update_connections
  update_connections-Asked h m a =
      let ticked : Asked c (record m { current_tick = next_tick m.current_tick }) = record {
        is_in = a.is_in;
      } in
      if_intro (Asked c) (ltb (get_connections_count m.peers_info) min_connections)
        (λ _. connect_loop-Asked h _ _ _ ticked)
        λ _.
          if_intro (Asked c) (ltb max_connections (get_connections_count m.peers_info))
            (λ _. disconnect_loop-Asked _ _ _ ticked) (λ _. ticked)

  on_discovered_peer-Asked :
      (p : PeerId) (m : PeerManager) → Asked c m → Asked c (on_discovered_peer p m)
  unfolding on_discovered_peer emplace_peer
  on_discovered_peer-Asked p m a =
      if_intro (Asked c) (m.host_id == p) (λ _. a)
        λ _. if_intro (Asked c) (contains p m.peers_info) (λ _. a) λ _. record { is_in = a.is_in }

  on_discovered_peers-Asked :
      (ps : List PeerId) (m : PeerManager) → Asked c m → Asked c (on_discovered_peers ps m)
  unfolding on_discovered_peers
  on_discovered_peers-Asked [] m a = a
  on_discovered_peers-Asked (p ∷ ps) m a =
      on_discovered_peers-Asked ps (on_discovered_peer p m) (on_discovered_peer-Asked p m a)

  pub add_peer_info-Asked :
      (kademlia : Kademlia) (peer : PeerInfo) (m : PeerManager)
      → Asked c m
      → Asked c (add_peer_info kademlia peer m)
  unfolding add_peer_info
  add_peer_info-Asked kademlia peer m a =
      on_discovered_peers-Asked (kademlia peer) _ (call-Asked _ m a)

  pub start_and_update_connections-Asked :
      (h : Host) (m : PeerManager) → Asked c m → Asked c (start_and_update_connections h m)
  unfolding start_and_update_connections
  start_and_update_connections-Asked h m a =
      update_connections-Asked h _
        (call-Asked _ _ (call-Asked _ _ (call-Asked _ _ (call-Asked _ m a))))

pub add_peer_info_asks :
    (kademlia : Kademlia) (peer : PeerInfo) (m : PeerManager)
    → Asked (add_permanent_peer peer.id peer.addresses) (add_peer_info kademlia peer m)
unfolding add_peer_info call
add_peer_info_asks kademlia peer m =
    on_discovered_peers-Asked _ (kademlia peer) _ (record { is_in = inl refl })
