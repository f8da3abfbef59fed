-- ===== src/Network/PeerManager.antt =====
-- core/src/network/peer_manager.h and peer_manager.cpp: the table of peers and its event handlers.
-- libp2p is an argument: `Host` holds its answers at the time of a call, and what the manager asks
-- of it is recorded in `calls`, the latest first. A callback of libp2p is a later event.
pub mod Table
pub mod State
pub mod Counting
pub mod Invariant
pub mod Loops
pub mod Reachable
pub mod Frame
pub mod Waiting
pub mod Starvation
pub mod Listing
pub mod Start
pub mod Asking
pub mod Construction
pub mod Texts
pub mod Lifetime
pub mod Order
pub mod View
pub mod Refines
pub mod Choices
pub mod Stopping
pub mod Refinement
pub mod Progress
pub mod Ticks
pub mod Clock
pub mod Holding
pub mod Closing
pub mod Shutdown
mod Tests
unfoldable pub use State.*
use polkadot_light_client.Common.{
  ltb, ◌==◌, if◌then◌else◌, Bytes, ℕ, suc, ◌+◌, ◌-◌, ◌%◌, ◌^◌, Bool, true, false, ◌||◌, Option,
  none, some, List, [], ◌∷◌,
}
use Table.{
  disconnected, connected, no_action, connecting, disconnecting, PeerId, PeerState, is_connected,
  is_connecting, is_disconnecting, is_empty, Peers, keys, find, contains, may_connect,
  may_disconnect, modify, emplace,
}

abbrev pub make_peer_state : PeerManager → PeerState
make_peer_state m = record {
  state = disconnected;
  action = no_action;
  last_activity = m.current_tick;
  is_pinging = false;
}

unfoldable pub emplace_peer : PeerId → PeerManager → PeerManager
emplace_peer peer_id m = record m { peers_info = emplace peer_id (make_peer_state m) m.peers_info }

unfoldable pub on_discovered_peer : PeerId → PeerManager → PeerManager
on_discovered_peer peer_id m =
    if m.host_id == peer_id
    then m
    else if contains peer_id m.peers_info
    then m
    else emplace_peer peer_id m

abbrev pub update_tick : ℕ → PeerState → PeerState
update_tick current_tick s = record s { last_activity = current_tick }

abbrev pub set_disconnected : PeerState → PeerState
set_disconnected s = record s { action = no_action; state = disconnected }

unfoldable pub disconnect : PeerId → PeerManager → PeerManager
disconnect peer_id m =
    let m1 = modify_peer peer_id set_disconnected m in
    if peer_id == m.host_id then m1 else call (host_disconnect peer_id) m1

-- A peer counts when it is connected, or when an attempt to connect to it is on record.
abbrev pub counts : PeerState → Bool
counts s = is_connected s.state || is_connecting s.action

unfoldable pub get_connections_count : Peers → ℕ
get_connections_count [] = 0
get_connections_count ((peer, s) ∷ ps) =
    if counts s then suc (get_connections_count ps) else get_connections_count ps

abbrev pub set_connected : PeerState → PeerState
set_connected s = record s { state = connected }

abbrev pub set_no_connection : PeerState → PeerState
set_no_connection s = record s {
  state = disconnected;
  action = if is_disconnecting s.action then no_action else s.action;
}

unfoldable pub add_known_addresses : Host → PeerId → PeerManager → PeerManager
add_known_addresses h peer_id m = elim (h.get_addresses peer_id) [
  | none ↦ m
  | some addresses ↦ call (add_peer peer_id addresses) m
]

-- The part of `onConnectedPeer` below its look-up, for the entry of the peer. It is there after the
-- look-up: the first clause does not arise.
unfoldable pub on_connected_entry : Host → PeerId → Option PeerState → PeerManager → PeerManager
on_connected_entry h peer_id none m = m
on_connected_entry h peer_id (some s) m =
    if is_connected s.state
    then m
    else if ltb max_connections (get_connections_count m.peers_info)
    then disconnect peer_id m
    else if h.has_connection peer_id
    then (let m1 = modify_peer peer_id set_connected m in
        let m2 = if s.is_pinging then m1 else call (start_pinging peer_id) m1 in
        add_known_addresses h peer_id m2)
    else modify_peer peer_id set_no_connection m

unfoldable pub on_connected_peer : Host → PeerId → PeerManager → PeerManager
on_connected_peer h peer_id m =
    if m.host_id == peer_id
    then m
    else (let m1 = if contains peer_id m.peers_info then m else emplace_peer peer_id m in
        on_connected_entry h peer_id (find peer_id m1.peers_info) m1)

-- The callback that `startPinging` is given: the session, or an error.
unfoldable pub on_ping : PeerId → Bool → PeerManager → PeerManager
on_ping peer_id has_error m =
    if has_error
    then disconnect peer_id
        (modify_peer peer_id (λ s. update_tick m.current_tick (record s { is_pinging = false })) m)
    else modify_peer peer_id (λ s. update_tick m.current_tick (record s { is_pinging = true })) m

unfoldable pub connect : Host → PeerId → PeerManager → PeerManager
connect h peer_id m =
    if peer_id == m.host_id
    then m
    else if is_empty (h.peer_addresses peer_id)
    then m
    else if h.can_not_connect peer_id
    then m
    else call (host_connect peer_id) m

-- What the callback that `connect` gives to the host is called with: no connection, a connection
-- with no remote peer, or the identifier of the remote peer.
pub data Connection : Type 0 where
  failed unidentified : Connection
  remote : PeerId → Connection

unfoldable pub on_connection : Host → PeerId → Connection → PeerManager → PeerManager
on_connection h peer_id failed m = m
on_connection h peer_id unidentified m = m
on_connection h peer_id (remote r) m = if r == peer_id then on_connected_peer h peer_id m else m

abbrev pub start_connecting : ℕ → PeerState → PeerState
start_connecting current_tick s = update_tick current_tick (record s { action = connecting })

abbrev pub start_disconnecting : ℕ → PeerState → PeerState
start_disconnecting current_tick s = update_tick current_tick (record s { action = disconnecting })

-- The loops of `updateConnections` go over the keys of the table, whose entries they look up: no
-- key comes or goes meanwhile.
unfoldable pub connect_loop : Host → List PeerId → ℕ → PeerManager → PeerManager
connect_loop h [] connected_count m = m
connect_loop h (peer ∷ ps) connected_count m = elim (may_connect (find peer m.peers_info)) [
  | true ↦
      let m2 = connect h peer (modify_peer peer (start_connecting m.current_tick) m) in
      if suc connected_count == max_connections
      then m2
      else connect_loop h ps (suc connected_count) m2
  | false ↦ connect_loop h ps connected_count m
]

unfoldable pub disconnect_loop : List PeerId → ℕ → PeerManager → PeerManager
disconnect_loop [] connected_count m = m
disconnect_loop (peer ∷ ps) connected_count m = elim (may_disconnect (find peer m.peers_info)) [
  | true ↦
      let m2 = disconnect peer (modify_peer peer (start_disconnecting m.current_tick) m) in
      if connected_count - 1 == max_connections
      then m2
      else disconnect_loop ps (connected_count - 1) m2
  | false ↦ disconnect_loop ps connected_count m
]

unfoldable pub update_connections : Host → PeerManager → PeerManager
update_connections h m =
    let m1 = record m { current_tick = next_tick m.current_tick } in
    let connected_count = get_connections_count m.peers_info in
    if ltb connected_count min_connections
    then connect_loop h (keys m.peers_info) connected_count m1
    else if ltb max_connections connected_count
    then disconnect_loop (keys m.peers_info) connected_count m1
    else m1

abbrev pub start_stopping : PeerState → PeerState
start_stopping s = record s { action = disconnecting }

unfoldable pub stop_loop : List PeerId → PeerManager → PeerManager
stop_loop [] m = m
stop_loop (peer ∷ ps) m = elim (may_disconnect (find peer m.peers_info)) [
  | true ↦ stop_loop ps (call (host_disconnect peer) (modify_peer peer start_stopping m))
  | false ↦ stop_loop ps m
]

unfoldable pub stop : PeerManager → PeerManager
stop m = stop_loop (keys m.peers_info) m

unfoldable pub connected_keys : Peers → List PeerId
connected_keys [] = []
connected_keys ((peer, s) ∷ ps) =
    if is_connected s.state then peer ∷ connected_keys ps else connected_keys ps

unfoldable pub get_peers_info : PeerManager → List PeerId
get_peers_info m = connected_keys m.peers_info

-- What reaches the manager after its construction.
pub data Event : Type 0 where
  discovered : PeerId → Event
  identified : PeerId → Event
  connection : PeerId → Connection → Event
  ping : PeerId → Bool → Event
  timer stops : Event

unfoldable pub step : PeerManager → Host × Event → PeerManager
step m (h, discovered peer_id) = on_discovered_peer peer_id m
step m (h, identified peer_id) = on_connected_peer h peer_id m
step m (h, connection peer_id c) = on_connection h peer_id c m
step m (h, ping peer_id has_error) = on_ping peer_id has_error m
step m (h, timer) = update_connections h m
step m (h, stops) = stop m

unfoldable pub run : PeerManager → List (Host × Event) → PeerManager
run m [] = m
run m (e ∷ es) = run (step m e) es

-- The members before the constructors' bodies run.
abbrev pub initial : PeerId → PeerManager
initial id = record { host_id = id; peers_info = []; current_tick = 0; calls = [] }
