-- ===== src/Network/PeerManager/Starvation.antt =====
-- What becomes of the other peers when attempts to connect fail (core/src/network/peer_manager.cpp).
use polkadot_light_client.Common.{
  ltb, ◌==◌, Bool-cases, if_intro, All, ℕ, ◌-◌, ◌≤◌, ◌≡◌, refl, inl, inr, true, List, [], ◌∷◌,
  arith,
}
use polkadot_light_client.Network.PeerManager.Table.{
  PeerId, PeerState, keys, find, contains, may_disconnect, find-modify,
}
use polkadot_light_client.Network.PeerManager.Counting.{
  count_if, is_pending, get_connections_count-eq, count_if-modify, count_if-emplace,
}
use polkadot_light_client.Network.PeerManager.Frame.{attempts}
use polkadot_light_client.Network.PeerManager.Loops.{may_disconnect-cases, pending-le-counts}
use polkadot_light_client.Network.PeerManager.{
  failed, unidentified, remote, discovered, identified, connection, ping, timer, stops,
  make_peer_state, emplace_peer, on_discovered_peer, set_disconnected, disconnect,
  get_connections_count, on_connection, start_disconnecting, disconnect_loop, update_connections,
  start_stopping, stop_loop, stop, Event, step, run, min_connections, max_connections, Host,
  PeerManager, next_tick, modify_peer, call,
}

-- An event in which no peer answers.
abbrev pub IsQuiet : Host × Event → Type 0
IsQuiet (h, discovered q) = Unit {0}
IsQuiet (h, identified q) = ⊥
IsQuiet (h, connection q failed) = Unit {0}
IsQuiet (h, connection q unidentified) = Unit {0}
IsQuiet (h, connection q (remote r)) = ⊥
IsQuiet (h, ping q e) = ⊥
IsQuiet (h, timer) = Unit {0}
IsQuiet (h, stops) = Unit {0}

record Starved (p : PeerId) (n : ℕ) (m : PeerManager) : Type 0 where
  full : min_connections ≤ count_if is_pending m.peers_info
  tried : attempts p m.calls ≡ n

module _ (p : PeerId) (n : ℕ) where
  modify_peer-Starved :
      (q : PeerId) (f : PeerState → PeerState) (m : PeerManager)
      → may_disconnect (find q m.peers_info) ≡ true
      → Starved p n m
      → Starved p n (modify_peer q f m)
  unfolding modify_peer
  modify_peer-Starved q f m c w =
      let (s, e, on) = may_disconnect-cases (find q m.peers_info) c in
      record {
        full = ground (arith, w.full, count_if-modify is_pending q f m.peers_info s e, on);
        tried = w.tried;
      }

  -- The entry is one that `stop` or `updateConnections` has just marked.
  release-Starved :
      (q : PeerId) (m : PeerManager)
      → may_disconnect (find q m.peers_info) ≡ true
      → Starved p n m
      → Starved p n (disconnect q (modify_peer q (start_disconnecting m.current_tick) m))
  unfolding disconnect modify_peer call attempts
  release-Starved q m c w =
      let f = start_disconnecting m.current_tick in
      let w1 = modify_peer-Starved q f m c w in
      let w2 =
        modify_peer-Starved q set_disconnected (modify_peer q f m)
          (rw find-modify (ground (arith, c))) w1 in
      if_intro (Starved p n) (q == m.host_id) (λ _. w2)
        (λ _. record { full = w2.full; tried = w2.tried })

  disconnect_loop-Starved :
      (qs : List PeerId) (k : ℕ) (m : PeerManager)
      → Starved p n m
      → Starved p n (disconnect_loop qs k m)
  unfolding disconnect_loop
  disconnect_loop-Starved [] k m w = w
  disconnect_loop-Starved (q ∷ qs) k m w =
      elim (Bool-cases (may_disconnect (find q m.peers_info))) [
        | inl c ↦
            let w1 = release-Starved q m c w in
            rw (c, disconnect_loop)
              (if_intro (Starved p n) (k - 1 == max_connections) (λ _. w1)
                (λ _. disconnect_loop-Starved qs (k - 1) _ w1))
        | inr c ↦ rw (c, disconnect_loop) (disconnect_loop-Starved qs k m w)
      ]

  stop_loop-Starved :
      (qs : List PeerId) (m : PeerManager) → Starved p n m → Starved p n (stop_loop qs m)
  unfolding stop_loop call attempts
  stop_loop-Starved [] m w = w
  stop_loop-Starved (q ∷ qs) m w = elim (Bool-cases (may_disconnect (find q m.peers_info))) [
    | inl c ↦
        let w1 = modify_peer-Starved q start_stopping m c w in
        rw (c, stop_loop) (stop_loop-Starved qs _ (record { full = w1.full; tried = w1.tried }))
    | inr c ↦ rw (c, stop_loop) (stop_loop-Starved qs m w)
  ]

  update_connections-Starved :
      (h : Host) (m : PeerManager) → Starved p n m → Starved p n (update_connections h m)
  unfolding update_connections
  update_connections-Starved h m w =
      let w1 : Starved p n (record m { current_tick = next_tick m.current_tick }) = record {
        full = w.full;
        tried = w.tried;
      } in
      if_intro (Starved p n) (ltb (get_connections_count m.peers_info) min_connections)
        (λ few. absurd (
          ground (
            arith,
            few,
            w.full,
            get_connections_count-eq m.peers_info,
            pending-le-counts m.peers_info,
          )))
        λ _.
          if_intro (Starved p n) (ltb max_connections (get_connections_count m.peers_info))
            (λ _. disconnect_loop-Starved _ _ _ w1) (λ _. w1)

  on_discovered_peer-Starved :
      (q : PeerId) (m : PeerManager) → Starved p n m → Starved p n (on_discovered_peer q m)
  unfolding on_discovered_peer emplace_peer
  on_discovered_peer-Starved q m w =
      if_intro (Starved p n) (m.host_id == q) (λ _. w)
        λ _.
          if_intro (Starved p n) (contains q m.peers_info) (λ _. w)
            λ _. record {
              full =
                  omega
                    (arith, w.full, count_if-emplace is_pending q (make_peer_state m) m.peers_info);
              tried = w.tried;
            }

  step-Starved :
      (m : PeerManager) (e : Host × Event) → IsQuiet e → Starved p n m → Starved p n (step m e)
  unfolding step stop on_connection
  step-Starved m (h, discovered q) k w = on_discovered_peer-Starved q m w
  step-Starved m (h, identified q) k w = absurd k
  step-Starved m (h, connection q failed) k w = w
  step-Starved m (h, connection q unidentified) k w = w
  step-Starved m (h, connection q (remote r)) k w = absurd k
  step-Starved m (h, ping q e) k w = absurd k
  step-Starved m (h, timer) k w = update_connections-Starved h m w
  step-Starved m (h, stops) k w = stop_loop-Starved (keys m.peers_info) m w

  run-Starved :
      (m : PeerManager) (es : List (Host × Event))
      → All IsQuiet es
      → Starved p n m
      → Starved p n (run m es)
  unfolding run
  run-Starved m [] k w = w
  run-Starved m (e ∷ es) (k, ks) w = run-Starved (step m e) es ks (step-Starved m e k w)

-- Once ten attempts are pending, no connection is tried again to any peer, discovered or not,
-- however often the timer fires and the attempts fail, as long as no peer reports by itself.
pub starvation :
    (p : PeerId) (m : PeerManager) (es : List (Host × Event))
    → min_connections ≤ count_if is_pending m.peers_info
    → All IsQuiet es
    → attempts p (run m es).calls ≡ attempts p m.calls
starvation p m es full quiet =
    (run-Starved p (attempts p m.calls) m es quiet (record { full = full; tried = refl })).tried
