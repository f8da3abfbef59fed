-- ===== src/Network/PeerManager/View.antt =====
-- What the peer manager of core/src/network/peer_manager.h promises of its table, as a finite map:
-- the order of the entries is forgotten, and the timer chooses the peers it takes.
use polkadot_light_client.Common.{
  ltb, ◌==◌, if◌then◌else◌, ℕ, ◌+◌, ◌-◌, ◌≤◌, ◌<◌, ◌≡◌, Bool, true, false, Option, none, some,
}
use polkadot_light_client.Network.PeerManager.Table.{
  disconnected, no_action, PeerId, PeerState, is_connected, find, may_connect, may_disconnect,
  apply_to,
}
use polkadot_light_client.Network.PeerManager.Counting.{one_if, count_if}
use polkadot_light_client.Network.PeerManager.{
  failed, unidentified, remote, discovered, identified, connection, ping, timer, stops, update_tick,
  set_disconnected, counts, get_connections_count, set_connected, set_no_connection,
  start_connecting, start_disconnecting, start_stopping, Event, min_connections, max_connections,
  Host, PeerManager, next_tick,
}

-- `count` is the number of peers that count as connections.
pub record View : Type 0 where
  pub owner : PeerId
  pub tick : ℕ
  pub entry : PeerId → Option PeerState
  pub count : ℕ

abbrev pub weight : Option PeerState → ℕ
weight none = 0
weight (some s) = one_if (counts s)

-- One peer gets a new entry.
unfoldable pub put : PeerId → Option PeerState → View → View
put q o v = record v {
  entry = λ j. if q == j then o else v.entry j;
  count = v.count + weight o - weight (v.entry q);
}

-- The entry of a peer, or the one that is made for it.
abbrev pub entry_at : ℕ → Option PeerState → PeerState
entry_at t none = record {
  state = disconnected;
  action = no_action;
  last_activity = t;
  is_pinging = false;
}
entry_at t (some s) = s

abbrev pub discover : PeerId → View → View
discover q v = put q (some (entry_at v.tick (v.entry q))) v

-- What becomes of a peer that is not connected yet, with so many connections.
abbrev verdict : Host → PeerId → ℕ → PeerState → PeerState
verdict h id count s =
    if ltb max_connections count
    then set_disconnected s
    else if h.has_connection id
    then set_connected s
    else set_no_connection s

abbrev pub decide_on : Host → PeerId → ℕ → PeerState → PeerState
decide_on h q n s = if is_connected s.state then s else verdict h q n s

abbrev pub answered : ℕ → Bool → PeerState → PeerState
answered t true s = set_disconnected (update_tick t (record s { is_pinging = false }))
answered t false s = update_tick t (record s { is_pinging = true })

abbrev pub shut : Option PeerState → Option PeerState
shut none = none
shut (some s) = if is_connected s.state then some (start_stopping s) else some s

abbrev pub meet : Host → PeerId → View → View
meet h q v =
    if v.owner == q then v else put q (some (decide_on h q v.count (entry_at v.tick (v.entry q)))) v

-- The events that leave no choice.
unfoldable pub react : View → Host × Event → View
react v (h, discovered q) = if v.owner == q then v else discover q v
react v (h, identified q) = meet h q v
react v (h, connection q failed) = v
react v (h, connection q unidentified) = v
react v (h, connection q (remote r)) = if r == q then meet h q v else v
react v (h, ping q e) = put q (apply_to (answered v.tick e) (v.entry q)) v
react v (h, timer) = v
react v (h, stops) = record v { entry = λ j. shut (v.entry j) }

abbrev pub redial : ℕ → PeerId → View → View
redial t p v = put p (apply_to (start_connecting t) (v.entry p)) v

abbrev pub drop_at : ℕ → PeerId → View → View
drop_at t p v = put p (apply_to (λ s. set_disconnected (start_disconnecting t s)) (v.entry p)) v

-- Peers that may be dialled are dialled in some order, until 20 count or no such peer is left.
pub data Dials (t : ℕ) : View → View → Type 0 where
  filled : {v : View} → v.count ≡ max_connections → Dials t v v
  exhausted : {v : View} → ((p : PeerId) → may_connect (v.entry p) ≡ false) → Dials t v v
  dial :
      {v w : View}
      → (p : PeerId) → may_connect (v.entry p) ≡ true
      → Dials t (redial t p v) w
      → Dials t v w

-- Connected peers are dropped in some order, until 20 count or no peer is connected.
pub data Drops (t : ℕ) : View → View → Type 0 where
  settled : {v : View} → v.count ≡ max_connections → Drops t v v
  emptied : {v : View} → ((p : PeerId) → may_disconnect (v.entry p) ≡ false) → Drops t v v
  drop_peer :
      {v w : View}
      → (p : PeerId) → may_disconnect (v.entry p) ≡ true
      → Drops t (drop_at t p v) w
      → Drops t v w

abbrev pub tick_on : View → View
tick_on v = record v { tick = next_tick v.tick }

-- What an event may make of the map.
pub data Allows (v : View) (e : Host × Event) (w : View) : Type 0 where
  reacts : ¬ (e.1 ≡ timer) → w ≡ react v e → Allows v e w
  dials :
      e.1 ≡ timer
      → v.count < min_connections
      → Dials (next_tick v.tick) (tick_on v) w
      → Allows v e w
  drops :
      e.1 ≡ timer
      → max_connections < v.count
      → Drops (next_tick v.tick) (tick_on v) w
      → Allows v e w
  rests :
      e.1 ≡ timer
      → min_connections ≤ v.count
      → v.count ≤ max_connections
      → w ≡ tick_on v
      → Allows v e w

-- The manager as the map: the host, the tick, every entry and the number of connections.
pub record Shows (m : PeerManager) (v : View) : Type 0 where
  pub is_owner : m.host_id ≡ v.owner
  pub is_tick : m.current_tick ≡ v.tick
  pub is_entry : (j : PeerId) → find j m.peers_info ≡ v.entry j
  pub is_count : count_if counts m.peers_info ≡ v.count

abbrev pub view : PeerManager → View
view m = record {
  owner = m.host_id;
  tick = m.current_tick;
  entry = λ j. find j m.peers_info;
  count = get_connections_count m.peers_info;
}
