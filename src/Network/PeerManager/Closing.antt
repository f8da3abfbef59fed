-- ===== src/Network/PeerManager/Closing.antt =====
-- That core/src/network/peer_manager.cpp gives up no connection without a call of libp2p to close it.
use polkadot_light_client.Common.{
  ltb, ◌==◌, Bool-cases, if_intro, IsIn, ℕ, suc, ◌-◌, ◌≡◌, ◌≢◌, ◌⊎◌, inl, inr, true, List, [], ◌∷◌,
}
use polkadot_light_client.Network.PeerManager.{
  discovered, identified, connection, ping, timer, stops, get_connections_count, connect,
  start_connecting, start_disconnecting, connect_loop, disconnect_loop, update_connections,
  start_stopping, stop_loop, stop, Event, step, run, host_disconnect, min_connections,
  max_connections, Host, PeerManager, next_tick,
}
use polkadot_light_client.Network.PeerManager.Table.{
  PeerId, is_empty, find, may_connect, may_disconnect,
}
use polkadot_light_client.Network.PeerManager.Holding.{
  IsHeld, call-IsHeld, modify_peer-IsHeld, disconnect-IsHeld, on_discovered_peer-IsHeld,
  on_connected_peer-IsHeld, on_connection-IsHeld, on_ping-IsHeld,
}

module _ (p : PeerId) where
  connect-IsHeld : (h : Host) (q : PeerId) (m : PeerManager) → IsHeld p m → IsHeld p (connect h q m)
  unfolding connect
  connect-IsHeld h q m v =
      if_intro (IsHeld p) (q == m.host_id) (λ _. v)
        λ _.
          if_intro (IsHeld p) (is_empty (h.peer_addresses q)) (λ _. v)
            λ _. if_intro (IsHeld p) (h.can_not_connect q) (λ _. v) λ _. call-IsHeld p _ m v

  connect_loop-IsHeld :
      (h : Host) (ps : List PeerId) (n : ℕ) (m : PeerManager)
      → IsHeld p m
      → IsHeld p (connect_loop h ps n m)
  unfolding connect_loop
  connect_loop-IsHeld h [] n m v = v
  connect_loop-IsHeld h (q ∷ ps) n m v = elim (Bool-cases (may_connect (find q m.peers_info))) [
    | inl e ↦
        let w =
          connect-IsHeld h q _
            (modify_peer-IsHeld p q (start_connecting m.current_tick) m (λ s k on. inl on) v) in
        rw (e, connect_loop)
          (if_intro (IsHeld p) (suc n == max_connections) (λ _. w)
            (λ _. connect_loop-IsHeld h ps (suc n) _ w))
    | inr e ↦ rw (e, connect_loop) (connect_loop-IsHeld h ps n m v)
  ]

  disconnect_loop-IsHeld :
      (ps : List PeerId) (n : ℕ) (m : PeerManager) → IsHeld p m → IsHeld p (disconnect_loop ps n m)
  unfolding disconnect_loop
  disconnect_loop-IsHeld [] n m v = v
  disconnect_loop-IsHeld (q ∷ ps) n m v = elim (Bool-cases (may_disconnect (find q m.peers_info))) [
    | inl e ↦
        let w =
          disconnect-IsHeld p q _
            (modify_peer-IsHeld p q (start_disconnecting m.current_tick) m (λ s k on. inl on) v) in
        rw (e, disconnect_loop)
          (if_intro (IsHeld p) (n - 1 == max_connections) (λ _. w)
            (λ _. disconnect_loop-IsHeld ps (n - 1) _ w))
    | inr e ↦ rw (e, disconnect_loop) (disconnect_loop-IsHeld ps n m v)
  ]

  update_connections-IsHeld :
      (h : Host) (m : PeerManager) → IsHeld p m → IsHeld p (update_connections h m)
  unfolding update_connections
  update_connections-IsHeld h m v =
      let w : IsHeld p (record m { current_tick = next_tick m.current_tick }) = record {
        other = v.other;
        held = v.held;
      } in
      if_intro (IsHeld p) (ltb (get_connections_count m.peers_info) min_connections)
        (λ _. connect_loop-IsHeld h _ _ _ w)
        λ _.
          if_intro (IsHeld p) (ltb max_connections (get_connections_count m.peers_info))
            (λ _. disconnect_loop-IsHeld _ _ _ w) (λ _. w)

  stop_loop-IsHeld : (ps : List PeerId) (m : PeerManager) → IsHeld p m → IsHeld p (stop_loop ps m)
  unfolding stop_loop
  stop_loop-IsHeld [] m v = v
  stop_loop-IsHeld (q ∷ ps) m v = elim (Bool-cases (may_disconnect (find q m.peers_info))) [
    | inl e ↦
        rw (e, stop_loop)
          (stop_loop-IsHeld ps _ (
            call-IsHeld p (host_disconnect q) _
              (modify_peer-IsHeld p q start_stopping m (λ s k on. inl on) v)))
    | inr e ↦ rw (e, stop_loop) (stop_loop-IsHeld ps m v)
  ]

  step-IsHeld : (m : PeerManager) (e : Host × Event) → IsHeld p m → IsHeld p (step m e)
  unfolding step stop
  step-IsHeld m (h, discovered q) v = on_discovered_peer-IsHeld p q m v
  step-IsHeld m (h, identified q) v = on_connected_peer-IsHeld p h q m v
  step-IsHeld m (h, connection q c) v = on_connection-IsHeld p h q c m v
  step-IsHeld m (h, ping q e) v = on_ping-IsHeld p q e m v
  step-IsHeld m (h, timer) v = update_connections-IsHeld h m v
  step-IsHeld m (h, stops) v = stop_loop-IsHeld _ m v

  run-IsHeld : (m : PeerManager) (es : List (Host × Event)) → IsHeld p m → IsHeld p (run m es)
  unfolding run
  run-IsHeld m [] v = v
  run-IsHeld m (e ∷ es) v = run-IsHeld (step m e) es (step-IsHeld m e v)

-- A connected peer, other than the host itself, stays connected over any events, or the host was asked
-- meanwhile to disconnect it. The calls are on record from here on.
pub run-host_disconnect :
    (m : PeerManager) (p : PeerId) (es : List (Host × Event))
    → m.host_id ≢ p
    → may_disconnect (find p m.peers_info) ≡ true
    → (may_disconnect (find p (run (record m { calls = [] }) es).peers_info) ≡ true)
      ⊎ IsIn (host_disconnect p) (run (record m { calls = [] }) es).calls
run-host_disconnect m p es other on =
    (run-IsHeld p (record m { calls = [] }) es (record { other = other; held = inl on })).held
