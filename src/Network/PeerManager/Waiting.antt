-- ===== src/Network/PeerManager/Waiting.antt =====
-- What becomes of an attempt to connect that fails (core/src/network/peer_manager.cpp): the entry
-- keeps the action Connecting, which nothing but a report about that very peer takes back.
use polkadot_light_client.Common.{
  ltb, ◌==◌, Bool-cases, if_intro, All, ℕ, suc, ◌-◌, ◌≡◌, refl, ap, ◌≢◌, inl, inr, Bool, true,
  false, Option, some, List, [], ◌∷◌, arith,
}
use polkadot_light_client.Network.PeerManager.Table.{
  PeerId, PeerState, keys, find, may_connect, may_disconnect,
}
use polkadot_light_client.Network.PeerManager.Counting.{is_pending}
use polkadot_light_client.Network.PeerManager.Frame.{
  attempts, IsSilentOn, Waits, modify_peer-Waits, call-Waits, disconnect-Waits,
  on_discovered_peer-Waits, on_connected_peer-Waits, on_ping-Waits, connect-Waits,
}
use polkadot_light_client.Network.PeerManager.{
  failed, unidentified, remote, discovered, identified, connection, ping, timer, stops,
  get_connections_count, on_connection, start_connecting, start_disconnecting, connect_loop,
  disconnect_loop, update_connections, start_stopping, stop_loop, stop, Event, step, run,
  host_disconnect, min_connections, max_connections, Host, PeerManager, next_tick,
}

module _ (p : PeerId) (s : PeerState) (n : ℕ) (pending : is_pending s ≡ true) where
  -- The loops pass over an entry that is pending.
  not_chosen :
      (choose : Option PeerState → Bool) (q : PeerId) (m : PeerManager)
      → choose (some s) ≡ false
      → choose (find q m.peers_info) ≡ true
      → Waits p s n m
      → q ≢ p
  not_chosen choose q m no_choice c w e = cc (ap (λ (r : PeerId). find r m.peers_info) e, w.entry)

  connect_loop-Waits :
      (h : Host) (qs : List PeerId) (k : ℕ) (m : PeerManager)
      → Waits p s n m
      → Waits p s n (connect_loop h qs k m)
  unfolding connect_loop
  connect_loop-Waits h [] k m w = w
  connect_loop-Waits h (q ∷ qs) k m w = elim (Bool-cases (may_connect (find q m.peers_info))) [
    | inl c ↦
        let d = not_chosen may_connect q m (ground arith) c w in
        let w1 =
          connect-Waits p s n h q _ d
            (modify_peer-Waits p s n q (start_connecting m.current_tick) m d w) in
        rw (c, connect_loop)
          (if_intro (Waits p s n) (suc k == max_connections) (λ _. w1)
            (λ _. connect_loop-Waits h qs (suc k) _ w1))
    | inr c ↦ rw (c, connect_loop) (connect_loop-Waits h qs k m w)
  ]

  disconnect_loop-Waits :
      (qs : List PeerId) (k : ℕ) (m : PeerManager)
      → Waits p s n m
      → Waits p s n (disconnect_loop qs k m)
  unfolding disconnect_loop
  disconnect_loop-Waits [] k m w = w
  disconnect_loop-Waits (q ∷ qs) k m w = elim (Bool-cases (may_disconnect (find q m.peers_info))) [
    | inl c ↦
        let d = not_chosen may_disconnect q m (ground arith) c w in
        let w1 =
          disconnect-Waits p s n q _ d
            (modify_peer-Waits p s n q (start_disconnecting m.current_tick) m d w) in
        rw (c, disconnect_loop)
          (if_intro (Waits p s n) (k - 1 == max_connections) (λ _. w1)
            (λ _. disconnect_loop-Waits qs (k - 1) _ w1))
    | inr c ↦ rw (c, disconnect_loop) (disconnect_loop-Waits qs k m w)
  ]

  stop_loop-Waits :
      (qs : List PeerId) (m : PeerManager) → Waits p s n m → Waits p s n (stop_loop qs m)
  unfolding stop_loop
  stop_loop-Waits [] m w = w
  stop_loop-Waits (q ∷ qs) m w = elim (Bool-cases (may_disconnect (find q m.peers_info))) [
    | inl c ↦
        let d = not_chosen may_disconnect q m (ground arith) c w in
        rw (c, stop_loop)
          (stop_loop-Waits qs _ (
            call-Waits p s n (host_disconnect q) _ (unfold attempts in refl)
              (modify_peer-Waits p s n q start_stopping m d w)))
    | inr c ↦ rw (c, stop_loop) (stop_loop-Waits qs m w)
  ]

  update_connections-Waits :
      (h : Host) (m : PeerManager) → Waits p s n m → Waits p s n (update_connections h m)
  unfolding update_connections
  update_connections-Waits h m w =
      let w1 : Waits p s n (record m { current_tick = next_tick m.current_tick }) = record {
        entry = w.entry;
        tried = w.tried;
      } in
      if_intro (Waits p s n) (ltb (get_connections_count m.peers_info) min_connections)
        (λ _. connect_loop-Waits h _ _ _ w1)
        λ _.
          if_intro (Waits p s n) (ltb max_connections (get_connections_count m.peers_info))
            (λ _. disconnect_loop-Waits _ _ _ w1) (λ _. w1)

  step-Waits :
      (m : PeerManager) (e : Host × Event) → IsSilentOn p e → Waits p s n m → Waits p s n (step m e)
  unfolding step stop on_connection
  step-Waits m (h, discovered q) d w = on_discovered_peer-Waits p s n q m w
  step-Waits m (h, identified q) d w = on_connected_peer-Waits p s n h q m d w
  step-Waits m (h, connection q failed) d w = w
  step-Waits m (h, connection q unidentified) d w = w
  step-Waits m (h, connection q (remote r)) d w =
      if_intro (Waits p s n) (r == q) (λ _. on_connected_peer-Waits p s n h q m d w) (λ _. w)
  step-Waits m (h, ping q e) d w = on_ping-Waits p s n q e m d w
  step-Waits m (h, timer) d w = update_connections-Waits h m w
  step-Waits m (h, stops) d w = stop_loop-Waits (keys m.peers_info) m w

  run-Waits :
      (m : PeerManager) (es : List (Host × Event))
      → All (IsSilentOn p) es
      → Waits p s n m
      → Waits p s n (run m es)
  unfolding run
  run-Waits m [] d w = w
  run-Waits m (e ∷ es) (d, ds) w = run-Waits (step m e) es ds (step-Waits m e d w)

-- A peer to which a connection was tried and not made stays as it is, and is never tried again,
-- whatever happens (timers, failures, other peers, `stop`), until a connection to it or a ping of it
-- is reported.
pub never_retried :
    (p : PeerId) (s : PeerState) (m : PeerManager) (es : List (Host × Event))
    → find p m.peers_info ≡ some s
    → is_pending s ≡ true
    → All (IsSilentOn p) es
    → (find p (run m es).peers_info ≡ some s) × (attempts p (run m es).calls ≡ attempts p m.calls)
never_retried p s m es e pending silent =
    let w =
      run-Waits p s (attempts p m.calls) pending m es silent (record { entry = e; tried = refl }) in
    (w.entry, w.tried)
