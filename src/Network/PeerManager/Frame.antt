-- ===== src/Network/PeerManager/Frame.antt =====
-- What the handlers of core/src/network/peer_manager.cpp leave alone: the entry of another peer, and
-- the record of the attempts to connect to it.
use polkadot_light_client.Common.{
  ltb, ◌==◌, if◌then◌else◌, Option-cases, if_intro, ℕ, ◌+◌, ◌≡◌, refl, ◌≢◌, inl, inr, Bool, Option,
  none, some, List, [], ◌∷◌, arith,
}
use polkadot_light_client.Network.PeerManager.Table.{
  PeerId, PeerState, is_connected, is_empty, find, is_some, contains, find-modify, find-emplace,
}
use polkadot_light_client.Network.PeerManager.Counting.{one_if}
use polkadot_light_client.Network.PeerManager.{
  host_connect, host_disconnect, start_pinging, add_peer, failed, unidentified, remote, discovered,
  identified, connection, ping, timer, stops, max_connections, Call, Host, PeerManager, modify_peer,
  call, make_peer_state, emplace_peer, on_discovered_peer, set_disconnected, disconnect,
  get_connections_count, set_connected, set_no_connection, add_known_addresses, on_connected_entry,
  on_connected_peer, on_ping, connect, Event, add_permanent_peer, identify_start, kademlia_start,
  grandpa_start, make_timer,
}

-- The attempts to connect to `p` among the calls.
unfoldable pub attempts : PeerId → List Call → ℕ
attempts p [] = 0
attempts p (host_connect q ∷ cs) = one_if (q == p) + attempts p cs
attempts p (host_disconnect q ∷ cs) = attempts p cs
attempts p (start_pinging q ∷ cs) = attempts p cs
attempts p (add_peer q a ∷ cs) = attempts p cs
attempts p (add_permanent_peer q a ∷ cs) = attempts p cs
attempts p (identify_start ∷ cs) = attempts p cs
attempts p (kademlia_start ∷ cs) = attempts p cs
attempts p (grandpa_start ∷ cs) = attempts p cs
attempts p (make_timer t ∷ cs) = attempts p cs

-- An event that reports neither a connection to `p`, nor a ping of it.
abbrev pub IsSilentOn : PeerId → Host × Event → Type 0
IsSilentOn p (h, discovered q) = Unit {0}
IsSilentOn p (h, identified q) = q ≢ p
IsSilentOn p (h, connection q failed) = Unit {0}
IsSilentOn p (h, connection q unidentified) = Unit {0}
IsSilentOn p (h, connection q (remote r)) = q ≢ p
IsSilentOn p (h, ping q e) = q ≢ p
IsSilentOn p (h, timer) = Unit {0}
IsSilentOn p (h, stops) = Unit {0}

-- The entry of `p`, and how often a connection to it was tried.
pub record Waits (p : PeerId) (s : PeerState) (n : ℕ) (m : PeerManager) : Type 0 where
  pub entry : find p m.peers_info ≡ some s
  pub tried : attempts p m.calls ≡ n

module _ (p : PeerId) (s : PeerState) (n : ℕ) where
  pub modify_peer-Waits :
      (q : PeerId) (f : PeerState → PeerState) (m : PeerManager)
      → q ≢ p
      → Waits p s n m
      → Waits p s n (modify_peer q f m)
  unfolding modify_peer
  modify_peer-Waits q f m d w = record {
    entry = rw find-modify (ground (arith, w.entry, d));
    tried = w.tried;
  }

  pub call-Waits :
      (c : Call) (m : PeerManager)
      → attempts p (c ∷ []) ≡ 0
      → Waits p s n m
      → Waits p s n (call c m)
  unfolding call attempts
  call-Waits (host_connect q) m e w = record { entry = w.entry; tried = omega (arith, w.tried) }
  call-Waits (host_disconnect q) m e w = record { entry = w.entry; tried = w.tried }
  call-Waits (start_pinging q) m e w = record { entry = w.entry; tried = w.tried }
  call-Waits (add_peer q a) m e w = record { entry = w.entry; tried = w.tried }
  call-Waits (add_permanent_peer q a) m e w = record { entry = w.entry; tried = w.tried }
  call-Waits identify_start m e w = record { entry = w.entry; tried = w.tried }
  call-Waits kademlia_start m e w = record { entry = w.entry; tried = w.tried }
  call-Waits grandpa_start m e w = record { entry = w.entry; tried = w.tried }
  call-Waits (make_timer t) m e w = record { entry = w.entry; tried = w.tried }

  pub disconnect-Waits :
      (q : PeerId) (m : PeerManager) → q ≢ p → Waits p s n m → Waits p s n (disconnect q m)
  unfolding disconnect
  disconnect-Waits q m d w =
      let w1 = modify_peer-Waits q set_disconnected m d w in
      if_intro (Waits p s n) (q == m.host_id) (λ _. w1)
        (λ _. call-Waits (host_disconnect q) _ (unfold attempts in refl) w1)

  emplace_peer-Waits :
      (q : PeerId) (m : PeerManager)
      → find q m.peers_info ≡ none
      → Waits p s n m
      → Waits p s n (emplace_peer q m)
  unfolding emplace_peer
  emplace_peer-Waits q m new w = record {
    entry =
        rw (find-emplace q p (make_peer_state m) m.peers_info new) (ground (arith, w.entry, new));
    tried = w.tried;
  }

  found-Waits :
      (q : PeerId) (m : PeerManager)
      → Waits p s n m
      → Waits p s n (if contains q m.peers_info then m else emplace_peer q m)
  unfolding contains
  found-Waits q m w =
      if_intro (Waits p s n) (is_some (find q m.peers_info)) (λ _. w)
        (λ new. emplace_peer-Waits q m (ground arith) w)

  pub on_discovered_peer-Waits :
      (q : PeerId) (m : PeerManager) → Waits p s n m → Waits p s n (on_discovered_peer q m)
  unfolding on_discovered_peer
  on_discovered_peer-Waits q m w =
      if_intro (Waits p s n) (m.host_id == q) (λ _. w) (λ _. found-Waits q m w)

  add_known_addresses-Waits :
      (h : Host) (q : PeerId) (m : PeerManager)
      → Waits p s n m
      → Waits p s n (add_known_addresses h q m)
  unfolding add_known_addresses
  add_known_addresses-Waits h q m w = elim (Option-cases (h.get_addresses q)) [
    | inl e ↦ rw (e, add_known_addresses) w
    | inr (a, e) ↦
        rw (e, add_known_addresses) (call-Waits (add_peer q a) m (unfold attempts in refl) w)
  ]

  on_connected_entry-Waits :
      (h : Host) (q : PeerId) (entry : Option PeerState) (m : PeerManager)
      → q ≢ p
      → Waits p s n m
      → Waits p s n (on_connected_entry h q entry m)
  unfolding on_connected_entry
  on_connected_entry-Waits h q none m d w = w
  on_connected_entry-Waits h q (some t) m d w =
      if_intro (Waits p s n) (is_connected t.state) (λ _. w)
        λ _.
          if_intro (Waits p s n) (ltb max_connections (get_connections_count m.peers_info))
            (λ _. disconnect-Waits q m d w)
            λ _.
              let w1 = modify_peer-Waits q set_connected m d w in
              if_intro (Waits p s n) (h.has_connection q)
                (λ _. add_known_addresses-Waits h q _ (
                  if_intro (Waits p s n) t.is_pinging (λ _. w1)
                    (λ _. call-Waits (start_pinging q) _ (unfold attempts in refl) w1)))
                (λ _. modify_peer-Waits q set_no_connection m d w)

  pub on_connected_peer-Waits :
      (h : Host) (q : PeerId) (m : PeerManager)
      → q ≢ p
      → Waits p s n m
      → Waits p s n (on_connected_peer h q m)
  unfolding on_connected_peer
  on_connected_peer-Waits h q m d w =
      if_intro (Waits p s n) (m.host_id == q) (λ _. w)
        (λ _. on_connected_entry-Waits h q _ _ d (found-Waits q m w))

  pub on_ping-Waits :
      (q : PeerId) (e : Bool) (m : PeerManager)
      → q ≢ p
      → Waits p s n m
      → Waits p s n (on_ping q e m)
  unfolding on_ping
  on_ping-Waits q e m d w =
      if_intro (Waits p s n) e (λ _. disconnect-Waits q _ d (modify_peer-Waits q _ m d w))
        (λ _. modify_peer-Waits q _ m d w)

  pub connect-Waits :
      (h : Host) (q : PeerId) (m : PeerManager)
      → q ≢ p
      → Waits p s n m
      → Waits p s n (connect h q m)
  unfolding connect
  connect-Waits h q m d w =
      if_intro (Waits p s n) (q == m.host_id) (λ _. w)
        λ _.
          if_intro (Waits p s n) (is_empty (h.peer_addresses q)) (λ _. w)
            λ _.
              if_intro (Waits p s n) (h.can_not_connect q) (λ _. w)
                (λ _. call-Waits (host_connect q) m (unfold attempts in ground arith) w)
