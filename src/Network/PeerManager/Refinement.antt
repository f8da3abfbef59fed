-- ===== src/Network/PeerManager/Refinement.antt =====
-- The peer manager of core/src/network/peer_manager.h and peer_manager.cpp refines the map of peers.
use polkadot_light_client.Common.{
  ◌==◌, if◌then◌else◌, ℕ, refl, ap, Bool, true, false, ltb, if_intro, IsIn, ◌≡◌, sym, subst, ◌∙◌,
  some, List, [], ◌∷◌, arith,
}
use polkadot_light_client.Network.PeerManager.Table.{PeerId, apply_to, PeerState, keys}
use polkadot_light_client.Network.PeerManager.View.{
  View, put, discover, answered, meet, tick_on, Allows, Shows, reacts, dials, drops, rests, react,
  view,
}
use polkadot_light_client.Network.PeerManager.Refines.{
  if_Shows, found-Shows, on_connected_peer-Shows, modify_peer-Shows,
}
use polkadot_light_client.Network.PeerManager.{
  remote, timer, on_discovered_peer, on_ping, on_connection, update_connections, Event, Host,
  PeerManager, next_tick, failed, unidentified, discovered, identified, connection, ping, stops,
  update_tick, get_connections_count, step, min_connections, max_connections, modify_peer,
}
use polkadot_light_client.Network.PeerManager.Counting.{get_connections_count-eq}
use polkadot_light_client.Network.PeerManager.Loops.{
  may_connect-cases, may_disconnect-cases, find-IsIn,
}
use polkadot_light_client.Network.PeerManager.Choices.{
  connect_loop-Dials, both-Shows, disconnect_loop-Drops,
}
use polkadot_light_client.Network.PeerManager.Stopping.{stop-Shows}

ticked-Shows :
    {m : PeerManager} {v : View}
    → Shows m v
    → Shows (record m { current_tick = next_tick m.current_tick }) (tick_on v)
ticked-Shows s = record {
  is_owner = s.is_owner;
  is_tick = ap next_tick s.is_tick;
  is_entry = s.is_entry;
  is_count = s.is_count;
}

on_ping-Shows :
    (q : PeerId) (e : Bool) {m : PeerManager} {v : View}
    → Shows m v
    → Shows (on_ping q e m) (put q (apply_to (answered v.tick e) (v.entry q)) v)
unfolding on_ping
on_ping-Shows q true {m} {v} s =
    both-Shows q (λ t p. update_tick t (record p { is_pinging = false })) s
on_ping-Shows q false {m} {v} s =
    let f : ℕ → PeerState → PeerState = λ t p. update_tick t (record p { is_pinging = true }) in
    subst
      (λ (x : ℕ). Shows (modify_peer q (f m.current_tick) m) (put q (apply_to (f x) (v.entry q)) v))
      s.is_tick (modify_peer-Shows s q (f m.current_tick))

on_discovered_peer-Shows :
    (q : PeerId) {m : PeerManager} {v : View}
    → Shows m v
    → Shows (on_discovered_peer q m) (if v.owner == q then v else discover q v)
unfolding on_discovered_peer
on_discovered_peer-Shows q {m} {v} s =
    if_Shows (m.host_id == q) (v.owner == q) (ap (λ (x : ℕ). x == q) s.is_owner) s (found-Shows q s)

on_connection-Shows :
    (h : Host) (q r : PeerId) {m : PeerManager} {v : View}
    → Shows m v
    → Shows (on_connection h q (remote r) m) (if r == q then meet h q v else v)
unfolding on_connection
on_connection-Shows h q r s = if_Shows (r == q) (r == q) refl (on_connected_peer-Shows h q s) s

-- Some result of the map that the event allows, and that the new state of the manager shows.
record Allowed (v : View) (e : Host × Event) (m : PeerManager) : Type 0 where
  result : View
  allowed : Allows v e result
  shown : Shows m result

update_connections-Allowed :
    (h : Host) {m : PeerManager} {v : View}
    → Shows m v
    → Allowed v (h, timer) (update_connections h m)
unfolding update_connections
update_connections-Allowed h {m} {v} s =
    let s1 = ticked-Shows s in
    let all_keys : (j : PeerId)
        → (t : PeerState) → v.entry j ≡ some t
        → IsIn j (keys m.peers_info) =
      λ j t e. find-IsIn j t m.peers_info (s.is_entry j ∙ e) in
    let n : get_connections_count m.peers_info ≡ v.count =
      get_connections_count-eq m.peers_info ∙ s.is_count in
    if_intro (Allowed v (h, timer)) (ltb (get_connections_count m.peers_info) min_connections)
      (λ few.
        let r =
          connect_loop-Dials h (next_tick v.tick) (keys m.peers_info) _ _ (tick_on v) s1 refl
            (sym n) (ground arith)
            (λ j c. let (t, e, _, _) = may_connect-cases (v.entry j) c in all_keys j t e) in
        record {
          result = r.result;
          allowed = dials refl (ground (arith, n)) r.allowed;
          shown = r.shown;
        })
      λ enough.
        if_intro (Allowed v (h, timer)) (ltb max_connections (get_connections_count m.peers_info))
          (λ many.
            let r =
              disconnect_loop-Drops (next_tick v.tick) (keys m.peers_info) _ _ (tick_on v) s1 refl
                (sym n) (ground arith)
                (λ j c. let (t, e, _) = may_disconnect-cases (v.entry j) c in all_keys j t e) in
            record {
              result = r.result;
              allowed = drops refl (ground (arith, n)) r.allowed;
              shown = r.shown;
            })
          (λ fine. record {
            result = tick_on v;
            allowed = rests refl (ground (arith, n)) (ground (arith, n)) refl;
            shown = s1;
          })

reacted :
    {v : View} {m : PeerManager} (e : Host × Event)
    → ¬ (e.1 ≡ timer)
    → Shows m (react v e)
    → Allowed v e m
reacted {v} e other s = record { result = react v e; allowed = reacts other refl; shown = s }

-- Every event is handled as the map allows.
pub step-Allows :
    (m : PeerManager) (v : View) (e : Host × Event)
    → Shows m v
    → (w : View) × Allows v e w × Shows (step m e) w
unfolding step react on_connection
step-Allows m v e s = let r = step-Allowed e in (r.result, r.allowed, r.shown)
  where
    step-Allowed : (e : Host × Event) → Allowed v e (step m e)
    step-Allowed (h, discovered q) = reacted _ (λ k. cc) (on_discovered_peer-Shows q s)
    step-Allowed (h, identified q) = reacted _ (λ k. cc) (on_connected_peer-Shows h q s)
    step-Allowed (h, connection q failed) = reacted _ (λ k. cc) s
    step-Allowed (h, connection q unidentified) = reacted _ (λ k. cc) s
    step-Allowed (h, connection q (remote r)) = reacted _ (λ k. cc) (on_connection-Shows h q r s)
    step-Allowed (h, ping q e) = reacted _ (λ k. cc) (on_ping-Shows q e s)
    step-Allowed (h, timer) = update_connections-Allowed h s
    step-Allowed (h, stops) = reacted _ (λ k. cc) (stop-Shows s)

-- A history of the map that the events allow.
pub data Follows : View → List (Host × Event) → View → Type 0 where
  over : {v : View} → Follows v [] v
  after :
      {v w u : View} {e : Host × Event} {es : List (Host × Event)}
      → Allows v e w
      → Follows w es u
      → Follows v (e ∷ es) u

pub view-Shows : (m : PeerManager) → Shows m (view m)
view-Shows m = record {
  is_owner = refl;
  is_tick = refl;
  is_entry = λ j. refl;
  is_count = sym (get_connections_count-eq m.peers_info);
}
