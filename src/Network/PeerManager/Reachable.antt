-- ===== src/Network/PeerManager/Reachable.antt =====
-- The handlers of core/src/network/peer_manager.cpp in any order.
use polkadot_light_client.Common.{
  ltb, Bool-cases, if_intro, ℕ, suc, ◌≡◌, refl, sym, ◌∙◌, inl, inr, true, List, [], ◌∷◌, arith,
}
use polkadot_light_client.Network.PeerManager.Table.{PeerId, keys, find, may_disconnect}
use polkadot_light_client.Network.PeerManager.Counting.{
  count_if, get_connections_count-eq, connected_exists,
}
use polkadot_light_client.Network.PeerManager.Invariant.{
  IsSound, modify_peer-IsSound, call-IsSound, on_discovered_peer-IsSound, on_connected_peer-IsSound,
  on_ping-IsSound, on_connection-IsSound,
}
use polkadot_light_client.Network.PeerManager.Loops.{
  IsSettled, connect_loop-IsSettled, find-IsIn, disconnect_loop-IsSettled,
}
use polkadot_light_client.Network.PeerManager.{
  discovered, identified, connection, ping, timer, stops, min_connections, max_connections, Host,
  PeerManager, next_tick, get_connections_count, disconnect_loop, update_connections,
  start_stopping, stop_loop, stop, Event, step, run, initial,
}

ticked-IsSound : (t : ℕ) (m : PeerManager) → IsSound m → IsSound (record m { current_tick = t })
ticked-IsSound t m v = record {
  distinct = v.distinct;
  no_self = v.no_self;
  bounded = v.bounded;
  few_pending = v.few_pending;
}

-- Whatever the table, each round of `updateConnections` leaves 20 peers at most that count as
-- connections, and keeps the invariant.
pub update_connections-IsSettled :
    (h : Host) (m : PeerManager) → IsSound m → IsSettled (update_connections h m)
unfolding update_connections
update_connections-IsSettled h m v =
    let v1 = ticked-IsSound (next_tick m.current_tick) m v in
    let n = get_connections_count-eq m.peers_info in
    if_intro IsSettled (ltb (get_connections_count m.peers_info) min_connections)
      (λ few. connect_loop-IsSettled h _ _ _ (sym n) (ground arith) v1)
      λ enough.
        if_intro IsSettled (ltb max_connections (get_connections_count m.peers_info))
          (λ many. full many v1) (λ fine. record { sound = v1; settled = ground (arith, n) })
  where
    full :
        ltb max_connections (get_connections_count m.peers_info) ≡ true
        → IsSound (record m { current_tick = next_tick m.current_tick })
        → IsSettled (
            disconnect_loop
              (keys m.peers_info)
              (get_connections_count m.peers_info)
              (record m { current_tick = next_tick m.current_tick }))
    full many v1 =
        let n = get_connections_count-eq m.peers_info in
        let exact : get_connections_count m.peers_info ≡ suc max_connections =
          ground (arith, n, v.bounded) in
        let (q, s, e, on) =
          connected_exists m.peers_info v.distinct (ground (arith, n, exact, v.few_pending)) in
        rw exact (
          disconnect_loop-IsSettled q (keys m.peers_info) _ (find-IsIn q s m.peers_info e) (rw e on)
            (sym n ∙ exact) v1)

stop_loop-IsSound : (ps : List PeerId) (m : PeerManager) → IsSound m → IsSound (stop_loop ps m)
unfolding stop_loop
stop_loop-IsSound [] m v = v
stop_loop-IsSound (p ∷ ps) m v = elim (Bool-cases (may_disconnect (find p m.peers_info))) [
  | inl c ↦
      rw (c, stop_loop)
        (stop_loop-IsSound ps _
          (call-IsSound _ _ (modify_peer-IsSound p start_stopping m v (λ s e. ground arith))))
  | inr c ↦ rw (c, stop_loop) (stop_loop-IsSound ps m v)
]

pub step-IsSound : (m : PeerManager) (e : Host × Event) → IsSound m → IsSound (step m e)
unfolding step stop
step-IsSound m (h, discovered id) v = on_discovered_peer-IsSound id m v
step-IsSound m (h, identified id) v = on_connected_peer-IsSound h id m v
step-IsSound m (h, connection id c) v = on_connection-IsSound h id c m v
step-IsSound m (h, ping id e) v = on_ping-IsSound id e m v
step-IsSound m (h, timer) v = (update_connections-IsSettled h m v).sound
step-IsSound m (h, stops) v = stop_loop-IsSound (keys m.peers_info) m v

pub run-IsSound : (m : PeerManager) (es : List (Host × Event)) → IsSound m → IsSound (run m es)
unfolding run
run-IsSound m [] v = v
run-IsSound m (e ∷ es) v = run-IsSound (step m e) es (step-IsSound m e v)

pub initial-IsSound : (id : PeerId) → IsSound (initial id)
unfolding count_if find
initial-IsSound id = record {
  distinct = tt;
  no_self = refl;
  bounded = omega arith;
  few_pending = omega arith;
}

-- After any events, in any order and with any answers of libp2p: no peer stands twice in the table,
-- the host itself is not in it, at most 21 peers count as connections, and at most 20 of them wait
-- for one.
pub run-initial-IsSound : (id : PeerId) (es : List (Host × Event)) → IsSound (run (initial id) es)
run-initial-IsSound id es = run-IsSound (initial id) es (initial-IsSound id)
