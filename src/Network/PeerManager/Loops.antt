-- ===== src/Network/PeerManager/Loops.antt =====
-- The loops of `updateConnections` and `stop` (core/src/network/peer_manager.cpp).
use polkadot_light_client.Common.{
  suc, ◌≤◌, ◌<◌, ◌≡◌, refl, true, false, Option, none, some, [], ◌∷◌, arith, ◌==◌, Bool-cases,
  if_intro, ℕ, ◌-◌, ◌⊎◌, inl, inr, List, IsIn,
}
use polkadot_light_client.Network.PeerManager.Table.{
  PeerId, PeerState, is_connected, Peers, find, may_connect, may_disconnect, modify,
  Distinct-modify, keys, find-modify,
}
use polkadot_light_client.Network.PeerManager.Counting.{count_if, is_pending, count_if-modify}
use polkadot_light_client.Network.PeerManager.Invariant.{
  IsSound, connect-IsSound, no_self-modify, modify_peer-IsSound, disconnect-IsSound,
}
use polkadot_light_client.Network.PeerManager.{
  max_connections, Host, PeerManager, modify_peer, call, set_disconnected, disconnect, counts,
  connect, start_connecting, start_disconnecting, connect_loop, disconnect_loop,
}

pub may_connect-cases :
    (o : Option PeerState)
    → may_connect o ≡ true
    → (s : PeerState) × (o ≡ some s) × (counts s ≡ false) × (is_connected s.state ≡ false)
may_connect-cases none h = cc
may_connect-cases (some s) h = (s, refl, ground arith, ground arith)

pub may_disconnect-cases :
    (o : Option PeerState)
    → may_disconnect o ≡ true
    → (s : PeerState) × (o ≡ some s) × (is_connected s.state ≡ true)
may_disconnect-cases none h = cc
may_disconnect-cases (some s) h = (s, refl, ground arith)

pub pending-le-counts : (ps : Peers) → count_if is_pending ps ≤ count_if counts ps
unfolding count_if
pending-le-counts [] = omega arith
pending-le-counts ((p, s) ∷ ps) = ground (arith, pending-le-counts ps)

peers_info-connect :
    (h : Host) (id : PeerId) (m : PeerManager) → (connect h id m).peers_info ≡ m.peers_info
unfolding connect call
peers_info-connect h id m = ground arith

pub peers_info-disconnect :
    (id : PeerId) (m : PeerManager)
    → (disconnect id m).peers_info ≡ modify id set_disconnected m.peers_info
unfolding disconnect call modify_peer
peers_info-disconnect id m = ground arith

-- The table is sound, and 20 peers count at most.
pub record IsSettled (m : PeerManager) : Type 0 where
  pub sound : IsSound m
  pub settled : count_if counts m.peers_info ≤ max_connections

-- One attempt to connect makes one more peer count.
module _ (h : Host) (p : PeerId) (m : PeerManager)
    (c : may_connect (find p m.peers_info) ≡ true) where
  count-start_connecting :
      count_if counts (modify p (start_connecting m.current_tick) m.peers_info)
      ≡ suc (count_if counts m.peers_info)
  count-start_connecting =
      let (s, e, idle, _) = may_connect-cases (find p m.peers_info) c in
      ground (arith, count_if-modify counts p (start_connecting m.current_tick) m.peers_info s e)

  count-attempt :
      count_if counts (connect h p (modify_peer p (start_connecting m.current_tick) m)).peers_info
      ≡ suc (count_if counts m.peers_info)
  unfolding modify_peer
  count-attempt = rw peers_info-connect count-start_connecting

  attempt-IsSettled :
      count_if counts m.peers_info < max_connections
      → IsSound m
      → IsSettled (connect h p (modify_peer p (start_connecting m.current_tick) m))
  unfolding modify_peer
  attempt-IsSettled lt v = record {
    sound = connect-IsSound h p _ (record {
      distinct = Distinct-modify p _ m.peers_info v.distinct;
      no_self = no_self-modify p (start_connecting m.current_tick) m v;
      bounded = omega (arith, lt, count-start_connecting);
      few_pending = omega (
        arith,
        lt,
        count-start_connecting,
        pending-le-counts (modify p (start_connecting m.current_tick) m.peers_info),
      );
    });
    settled = omega (arith, count-attempt);
  }

-- Started with the number `n` of peers that count, below 20, the loop stops at 20 if not before.
pub connect_loop-IsSettled :
    (h : Host) (ps : List PeerId) (n : ℕ) (m : PeerManager)
    → count_if counts m.peers_info ≡ n
    → n < max_connections
    → IsSound m
    → IsSettled (connect_loop h ps n m)
unfolding connect_loop
connect_loop-IsSettled h [] n m e lt v = record { sound = v; settled = omega arith }
connect_loop-IsSettled h (p ∷ ps) n m e lt v =
    elim (Bool-cases (may_connect (find p m.peers_info))) [
      | inl c ↦
          rw (c, connect_loop)
            (if_intro IsSettled (suc n == max_connections)
              (λ _. attempt-IsSettled h p m c (omega arith) v)
              (λ more.
                connect_loop-IsSettled h ps (suc n) _ (omega (arith, count-attempt h p m c))
                  (ground arith) (attempt-IsSettled h p m c (omega arith) v).sound))
      | inr c ↦ rw (c, connect_loop) (connect_loop-IsSettled h ps n m e lt v)
    ]

-- One round of the other loop.
module _ (p : PeerId) (m : PeerManager) where
  release-IsSound :
      IsSound m → IsSound (disconnect p (modify_peer p (start_disconnecting m.current_tick) m))
  release-IsSound v =
      disconnect-IsSound p _
        (modify_peer-IsSound p (start_disconnecting m.current_tick) m v (λ s e. ground arith))

  count-release :
      may_disconnect (find p m.peers_info) ≡ true
      → suc (
          count_if counts
            (disconnect p (modify_peer p (start_disconnecting m.current_tick) m)).peers_info)
        ≡ count_if counts m.peers_info
  unfolding modify_peer
  count-release c =
      let f = start_disconnecting m.current_tick in
      let (s, e, on) = may_disconnect-cases (find p m.peers_info) c in
      rw peers_info-disconnect (
        ground (
          arith,
          find-modify p p f m.peers_info,
          count_if-modify counts p f m.peers_info s e,
          count_if-modify counts p set_disconnected (modify p f m.peers_info) (f s)
              (ground (arith, find-modify p p f m.peers_info)),
        ))

disconnect_loop-IsSound :
    (ps : List PeerId) (n : ℕ) (m : PeerManager) → IsSound m → IsSound (disconnect_loop ps n m)
unfolding disconnect_loop
disconnect_loop-IsSound [] n m v = v
disconnect_loop-IsSound (p ∷ ps) n m v = elim (Bool-cases (may_disconnect (find p m.peers_info))) [
  | inl c ↦
      rw (c, disconnect_loop)
        (if_intro IsSound (n - 1 == max_connections) (λ _. release-IsSound p m v)
          (λ _. disconnect_loop-IsSound ps (n - 1) _ (release-IsSound p m v)))
  | inr c ↦ rw (c, disconnect_loop) (disconnect_loop-IsSound ps n m v)
]

pub find-IsIn : (q : PeerId) (s : PeerState) (ps : Peers) → find q ps ≡ some s → IsIn q (keys ps)
unfolding find
find-IsIn q s [] e = absurd (cc)
find-IsIn q s ((p, t) ∷ ps) e = elim (Bool-cases (p == q)) [
  | inl hit ↦ inl (ground arith)
  | inr miss ↦ inr (find-IsIn q s ps (ground arith))
]

-- With 21 peers that count, the first connected one that the loop meets is the last it needs.
pub disconnect_loop-IsSettled :
    (q : PeerId) (ps : List PeerId) (m : PeerManager)
    → IsIn q ps
    → may_disconnect (find q m.peers_info) ≡ true
    → count_if counts m.peers_info ≡ suc max_connections
    → IsSound m
    → IsSettled (disconnect_loop ps (suc max_connections) m)
unfolding disconnect_loop
disconnect_loop-IsSettled q [] m i on full v = absurd i
disconnect_loop-IsSettled q (p ∷ ps) m i on full v =
    elim (Bool-cases (may_disconnect (find p m.peers_info))) [
      | inl c ↦
          rw (c, disconnect_loop)
            (record { sound = release-IsSound p m v; settled = omega (arith, count-release p m c) })
      | inr c ↦ rw (c, disconnect_loop) (disconnect_loop-IsSettled q ps m (later c i) on full v)
    ]
  where
    later : may_disconnect (find p m.peers_info) ≡ false → (q ≡ p) ⊎ IsIn q ps → IsIn q ps
    later c (inl e) = absurd (cc)
    later c (inr k) = k
