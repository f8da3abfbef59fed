-- ===== src/Network/PeerManager/Invariant.antt =====
-- What every handler of core/src/network/peer_manager.cpp preserves.
use polkadot_light_client.Common.{
  ltb, ◌==◌, if◌then◌else◌, Option-cases, ◌+◌, ◌≤◌, ◌≡◌, inl, inr, false, none, some, arith,
  if_intro, Bool, true, refl, Option,
}
use polkadot_light_client.Network.PeerManager.Table.{
  PeerId, PeerState, Peers, find, contains, modify, find-modify, find-emplace, Distinct,
  Distinct-modify, Distinct-emplace, is_connected, is_empty,
}
use polkadot_light_client.Network.PeerManager.Counting.{
  one_if, count_if, is_pending, count_if-emplace, count_if-modify_le, get_connections_count-eq,
  count_if-modify,
}
use polkadot_light_client.Network.PeerManager.{
  max_connections, Call, Host, PeerManager, modify_peer, call, make_peer_state, emplace_peer,
  on_discovered_peer, set_disconnected, disconnect, counts, get_connections_count, set_connected,
  add_known_addresses, on_connected_entry, failed, unidentified, remote, set_no_connection,
  on_connected_peer, on_ping, connect, Connection, on_connection,
}

-- No peer stands twice in the table, the host itself is not in it, and the connections are bounded.
pub record IsSound (m : PeerManager) : Type 0 where
  pub distinct : Distinct m.peers_info
  pub no_self : find m.host_id m.peers_info ≡ none
  pub bounded : count_if counts m.peers_info ≤ max_connections + 1
  pub few_pending : count_if is_pending m.peers_info ≤ max_connections

one_if_le : (b : Bool) → one_if b ≤ 1
one_if_le true = omega arith
one_if_le false = omega arith

-- A write by which no entry starts to count, or to wait for a connection.
abbrev pub IsCalm : (PeerState → PeerState) → PeerState → Type 0
IsCalm f s =
    (one_if (counts (f s)) ≤ one_if (counts s))
    × (one_if (is_pending (f s)) ≤ one_if (is_pending s))

module _ (id : PeerId) (f : PeerState → PeerState) (m : PeerManager) (v : IsSound m) where
  pub no_self-modify : find m.host_id (modify id f m.peers_info) ≡ none
  no_self-modify = rw find-modify (ground (arith, v.no_self))

  pub modify_peer-IsSound :
      ((s : PeerState) → find id m.peers_info ≡ some s → IsCalm f s) → IsSound (modify_peer id f m)
  unfolding modify_peer
  modify_peer-IsSound calm = record {
    distinct = Distinct-modify id f m.peers_info v.distinct;
    no_self = no_self-modify;
    bounded =
        omega (arith, v.bounded, count_if-modify_le counts id f m.peers_info (λ s e. (calm s e).0));
    few_pending = omega (
      arith,
      v.few_pending,
      count_if-modify_le is_pending id f m.peers_info (λ s e. (calm s e).1),
    );
  }

pub call-IsSound : (c : Call) (m : PeerManager) → IsSound m → IsSound (call c m)
unfolding call
call-IsSound c m v = record {
  distinct = v.distinct;
  no_self = v.no_self;
  bounded = v.bounded;
  few_pending = v.few_pending;
}

pub disconnect-IsSound : (id : PeerId) (m : PeerManager) → IsSound m → IsSound (disconnect id m)
unfolding disconnect
disconnect-IsSound id m v =
    let v1 : IsSound (modify_peer id set_disconnected m) =
      modify_peer-IsSound id set_disconnected m v (λ s e. omega arith) in
    if_intro IsSound (id == m.host_id) (λ _. v1) (λ _. call-IsSound _ _ v1)

emplace_peer-IsSound :
    (id : PeerId) (m : PeerManager)
    → (m.host_id == id) ≡ false
    → find id m.peers_info ≡ none
    → IsSound m
    → IsSound (emplace_peer id m)
unfolding emplace_peer
emplace_peer-IsSound id m other new v = record {
  distinct = Distinct-emplace id _ m.peers_info new v.distinct;
  no_self =
      rw (find-emplace id m.host_id (make_peer_state m) m.peers_info new)
        (ground (arith, v.no_self));
  bounded = rw count_if-emplace (omega (arith, v.bounded));
  few_pending = rw count_if-emplace (omega (arith, v.few_pending));
}

contains-find : (id : PeerId) (ps : Peers) → contains id ps ≡ false → find id ps ≡ none
unfolding contains
contains-find id ps h = ground arith

-- The look-up that inserts.
found-IsSound :
    (id : PeerId) (m : PeerManager)
    → (m.host_id == id) ≡ false
    → IsSound m
    → IsSound (if contains id m.peers_info then m else emplace_peer id m)
found-IsSound id m other v =
    if_intro IsSound (contains id m.peers_info) (λ _. v)
      (λ new. emplace_peer-IsSound id m other (contains-find id m.peers_info new) v)

pub on_discovered_peer-IsSound :
    (id : PeerId) (m : PeerManager) → IsSound m → IsSound (on_discovered_peer id m)
unfolding on_discovered_peer
on_discovered_peer-IsSound id m v =
    if_intro IsSound (m.host_id == id) (λ _. v) (λ other. found-IsSound id m other v)

add_known_addresses-IsSound :
    (h : Host) (id : PeerId) (m : PeerManager) → IsSound m → IsSound (add_known_addresses h id m)
unfolding add_known_addresses
add_known_addresses-IsSound h id m v = elim (Option-cases (h.get_addresses id)) [
  | inl e ↦ rw (e, add_known_addresses) v
  | inr (a, e) ↦ rw (e, add_known_addresses) (call-IsSound _ m v)
]

-- A new connection is accepted while 20 count at most, so that 21 do afterwards.
set_connected-IsSound :
    (id : PeerId) (s : PeerState) (m : PeerManager)
    → find id m.peers_info ≡ some s
    → ltb max_connections (get_connections_count m.peers_info) ≡ false
    → IsSound m
    → IsSound (modify_peer id set_connected m)
unfolding modify_peer
set_connected-IsSound id s m e room v = record {
  distinct = Distinct-modify id set_connected m.peers_info v.distinct;
  no_self = no_self-modify id set_connected m v;
  bounded = omega (
    arith,
    count_le,
    get_connections_count-eq m.peers_info,
    count_if-modify counts id set_connected m.peers_info s e,
    one_if_le (counts (set_connected s)),
  );
  few_pending = omega (
    arith,
    v.few_pending,
    count_if-modify_le is_pending id set_connected m.peers_info (λ t k. omega arith),
  );
}
  where
    count_le : get_connections_count m.peers_info ≤ max_connections
    count_le = ground arith

set_no_connection-IsSound :
    (id : PeerId) (s : PeerState) (m : PeerManager)
    → find id m.peers_info ≡ some s
    → is_connected s.state ≡ false
    → IsSound m
    → IsSound (modify_peer id set_no_connection m)
set_no_connection-IsSound id s m e c v =
    modify_peer-IsSound id set_no_connection m v (λ t k. ground arith)

on_connected_entry-IsSound :
    (h : Host) (id : PeerId) (entry : Option PeerState) (m : PeerManager)
    → find id m.peers_info ≡ entry
    → IsSound m
    → IsSound (on_connected_entry h id entry m)
unfolding on_connected_entry
on_connected_entry-IsSound h id none m e v = v
on_connected_entry-IsSound h id (some s) m e v =
    if_intro IsSound (is_connected s.state) (λ _. v)
      λ c.
        if_intro IsSound (ltb max_connections (get_connections_count m.peers_info))
          (λ _. disconnect-IsSound id m v)
          λ room.
            let v1 : IsSound (modify_peer id set_connected m) =
              set_connected-IsSound id s m e room v in
            if_intro IsSound (h.has_connection id)
              (λ _.
                add_known_addresses-IsSound h id _
                  (if_intro IsSound s.is_pinging (λ _. v1) (λ _. call-IsSound _ _ v1)))
              (λ _. set_no_connection-IsSound id s m e c v)

pub on_connected_peer-IsSound :
    (h : Host) (id : PeerId) (m : PeerManager) → IsSound m → IsSound (on_connected_peer h id m)
unfolding on_connected_peer
on_connected_peer-IsSound h id m v =
    if_intro IsSound (m.host_id == id) (λ _. v)
      λ other.
        on_connected_entry-IsSound h id _
          (if contains id m.peers_info then m else emplace_peer id m) refl
          (found-IsSound id m other v)

pub on_ping-IsSound :
    (id : PeerId) (e : Bool) (m : PeerManager) → IsSound m → IsSound (on_ping id e m)
unfolding on_ping
on_ping-IsSound id e m v =
    if_intro IsSound e
      (λ _. disconnect-IsSound id _ (modify_peer-IsSound id _ m v (λ s k. omega arith)))
      (λ _. modify_peer-IsSound id _ m v (λ s k. omega arith))

pub connect-IsSound :
    (h : Host) (id : PeerId) (m : PeerManager) → IsSound m → IsSound (connect h id m)
unfolding connect
connect-IsSound h id m v =
    if_intro IsSound (id == m.host_id) (λ _. v)
      λ _.
        if_intro IsSound (is_empty (h.peer_addresses id)) (λ _. v)
          λ _. if_intro IsSound (h.can_not_connect id) (λ _. v) (λ _. call-IsSound _ m v)

pub on_connection-IsSound :
    (h : Host) (id : PeerId) (c : Connection) (m : PeerManager)
    → IsSound m
    → IsSound (on_connection h id c m)
unfolding on_connection
on_connection-IsSound h id failed m v = v
on_connection-IsSound h id unidentified m v = v
on_connection-IsSound h id (remote r) m v =
    if_intro IsSound (r == id) (λ _. on_connected_peer-IsSound h id m v) (λ _. v)
