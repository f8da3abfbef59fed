-- ===== src/Network/PeerManager/Holding.antt =====
-- How core/src/network/peer_manager.cpp keeps a connected peer, or asks for its disconnection: the
-- handlers of events of one peer.
use polkadot_light_client.Common.{
  ltb, ◌==◌, if◌then◌else◌, Bool-cases, Option-cases, if_intro, IsIn, ◌≡◌, refl, sym, ap, ◌∙◌, ◌≢◌,
  ◌⊎◌, inl, inr, Bool, true, false, Option, none, some, arith,
}
use polkadot_light_client.Network.PeerManager.{
  failed, unidentified, remote, make_peer_state, emplace_peer, on_discovered_peer, set_disconnected,
  disconnect, get_connections_count, set_connected, set_no_connection, add_known_addresses,
  on_connected_entry, on_connected_peer, on_ping, Connection, on_connection, host_disconnect,
  start_pinging, add_peer, max_connections, Call, Host, PeerManager, modify_peer, call,
}
use polkadot_light_client.Network.PeerManager.Table.{
  PeerId, PeerState, is_connected, find, is_some, contains, may_disconnect, find-modify,
  find-emplace,
}
use polkadot_light_client.Network.PeerManager.Loops.{may_disconnect-cases}

module _ (p : PeerId) where
  -- `p`, which is not the host, counts as connected, or the host was asked to disconnect it.
  pub record IsHeld (m : PeerManager) : Type 0 where
    pub other : m.host_id ≢ p
    pub held : (may_disconnect (find p m.peers_info) ≡ true) ⊎ IsIn (host_disconnect p) m.calls

  pub call-IsHeld : (c : Call) (m : PeerManager) → IsHeld m → IsHeld (call c m)
  unfolding call
  call-IsHeld c m v = record {
    other = v.other;
    held = elim v.held [ inl on ↦ inl on | inr asked ↦ inr (inr asked) ];
  }

  -- A write that leaves a connected peer connected, or goes to another peer.
  pub modify_peer-IsHeld :
      (q : PeerId) (f : PeerState → PeerState) (m : PeerManager)
      → ((s : PeerState)
          → find p m.peers_info ≡ some s
          → is_connected s.state ≡ true
          → (is_connected (f s).state ≡ true) ⊎ (q ≢ p))
      → IsHeld m
      → IsHeld (modify_peer q f m)
  unfolding modify_peer
  modify_peer-IsHeld q f m keeps v = record {
    other = v.other;
    held = elim v.held [
      | inr asked ↦ inr asked
      | inl on ↦
          let (s, e, k) = may_disconnect-cases (find p m.peers_info) on in
          inl (rw (find-modify q p f m.peers_info, e) (kept s k (keeps s e k)))
    ];
  }
    where
      kept :
          (s : PeerState)
          → is_connected s.state ≡ true
          → (is_connected (f s).state ≡ true) ⊎ (q ≢ p)
          → may_disconnect (if q == p then some (f s) else some s) ≡ true
      kept s k (inl on) = ground arith
      kept s k (inr d) = ground arith

  pub disconnect-IsHeld : (q : PeerId) (m : PeerManager) → IsHeld m → IsHeld (disconnect q m)
  unfolding disconnect modify_peer call
  disconnect-IsHeld q m v = elim (Bool-cases (q == p)) [
    | inl same ↦
        let not_host : (q == m.host_id) ≡ false = ground (arith, v.other) in
        rw (disconnect, not_host)
          (record { other = v.other; held = inr (inl (ap host_disconnect (ground arith))) })
    | inr d ↦
        let w = modify_peer-IsHeld q set_disconnected m (λ s e k. inr (ground arith)) v in
        if_intro IsHeld (q == m.host_id) (λ _. w) (λ _. call-IsHeld (host_disconnect q) _ w)
  ]

  emplace_peer-IsHeld :
      (q : PeerId) (m : PeerManager)
      → find q m.peers_info ≡ none
      → IsHeld m
      → IsHeld (emplace_peer q m)
  unfolding emplace_peer
  emplace_peer-IsHeld q m new v = record {
    other = v.other;
    held = elim v.held [
      | inr asked ↦ inr asked
      | inl on ↦
          inl (rw (find-emplace q p (make_peer_state m) m.peers_info new) (ground (arith, on, new)))
    ];
  }

  found-IsHeld :
      (q : PeerId) (m : PeerManager)
      → IsHeld m
      → IsHeld (if contains q m.peers_info then m else emplace_peer q m)
  unfolding contains
  found-IsHeld q m v =
      if_intro IsHeld (is_some (find q m.peers_info)) (λ _. v)
        (λ new. emplace_peer-IsHeld q m (ground arith) v)

  pub on_discovered_peer-IsHeld :
      (q : PeerId) (m : PeerManager) → IsHeld m → IsHeld (on_discovered_peer q m)
  unfolding on_discovered_peer
  on_discovered_peer-IsHeld q m v =
      if_intro IsHeld (m.host_id == q) (λ _. v) (λ _. found-IsHeld q m v)

  add_known_addresses-IsHeld :
      (h : Host) (q : PeerId) (m : PeerManager) → IsHeld m → IsHeld (add_known_addresses h q m)
  unfolding add_known_addresses
  add_known_addresses-IsHeld h q m v = elim (Option-cases (h.get_addresses q)) [
    | inl e ↦ rw (e, add_known_addresses) v
    | inr (a, e) ↦ rw (e, add_known_addresses) (call-IsHeld (add_peer q a) m v)
  ]

  on_connected_entry-IsHeld :
      (h : Host) (q : PeerId) (entry : Option PeerState) (m : PeerManager)
      → find q m.peers_info ≡ entry
      → IsHeld m
      → IsHeld (on_connected_entry h q entry m)
  unfolding on_connected_entry
  on_connected_entry-IsHeld h q none m e v = v
  on_connected_entry-IsHeld h q (some t) m e v =
      if_intro IsHeld (is_connected t.state) (λ _. v)
        λ off.
          if_intro IsHeld (ltb max_connections (get_connections_count m.peers_info))
            (λ _. disconnect-IsHeld q m v)
            λ _.
              let w = modify_peer-IsHeld q set_connected m (λ s k on. inl refl) v in
              if_intro IsHeld (h.has_connection q)
                (λ _.
                  add_known_addresses-IsHeld h q _ (
                    if_intro IsHeld t.is_pinging (λ _. w) (λ _. call-IsHeld (start_pinging q) _ w)))
                (λ _.
                  modify_peer-IsHeld q set_no_connection m (λ s k on. inr (other_entry off s k on))
                    v)
    where
      other_entry :
          is_connected t.state ≡ false
          → (s : PeerState) → find p m.peers_info ≡ some s
          → is_connected s.state ≡ true
          → q ≢ p
      other_entry off s k on same =
          let both : some t ≡ some s = sym e ∙ ap (λ (x : PeerId). find x m.peers_info) same ∙ k in
          cc

  pub on_connected_peer-IsHeld :
      (h : Host) (q : PeerId) (m : PeerManager) → IsHeld m → IsHeld (on_connected_peer h q m)
  unfolding on_connected_peer
  on_connected_peer-IsHeld h q m v =
      if_intro IsHeld (m.host_id == q) (λ _. v)
        (λ _. on_connected_entry-IsHeld h q _ _ refl (found-IsHeld q m v))

  pub on_connection-IsHeld :
      (h : Host) (q : PeerId) (c : Connection) (m : PeerManager)
      → IsHeld m
      → IsHeld (on_connection h q c m)
  unfolding on_connection
  on_connection-IsHeld h q failed m v = v
  on_connection-IsHeld h q unidentified m v = v
  on_connection-IsHeld h q (remote r) m v =
      if_intro IsHeld (r == q) (λ _. on_connected_peer-IsHeld h q m v) (λ _. v)

  pub on_ping-IsHeld : (q : PeerId) (e : Bool) (m : PeerManager) → IsHeld m → IsHeld (on_ping q e m)
  unfolding on_ping
  on_ping-IsHeld q e m v =
      if_intro IsHeld e (λ _. disconnect-IsHeld q _ (modify_peer-IsHeld q _ m (λ s k on. inl on) v))
        (λ _. modify_peer-IsHeld q _ m (λ s k on. inl on) v)
