-- ===== src/Network/PeerManager/Tests/Orders.antt =====
-- Witnesses for orders of the table, the timer and the calls of libp2p, of core/src/network/peer_manager.cpp.
use polkadot_light_client.Common.{
  IsIn, codes, suc, ◌%◌, ◌^◌, ◌≡◌, refl, ap, ◌↔◌, ◌⊎◌, Bool, true, false, List, [], ◌∷◌,
}
use polkadot_light_client.Chain.Spec.Sample.{addresses}
use polkadot_light_client.Network.PeerManager.{
  discovered, ping, timer, emplace_peer, on_discovered_peer, get_connections_count,
  update_connections, stop, get_peers_info, Event, step, run, host_disconnect, Host, PeerManager,
}
use polkadot_light_client.Network.PeerManager.Table.{
  disconnected, connected, no_action, connecting, PeerId, PeerState, find, contains, may_disconnect,
  emplace, Distinct,
}
use polkadot_light_client.Network.PeerManager.Tests.{
  reachable, echo, self, constructed, constructed_test,
}
use polkadot_light_client.Network.PeerManager.Order.{
  swap, handles, rehashes, here, next, Reach, get_peers_info-Reorder, Reach-construct,
}
use polkadot_light_client.Network.PeerManager.Invariant.{IsSound}
use polkadot_light_client.Network.PeerManager.Loops.{IsSettled}
use polkadot_light_client.Network.PeerManager.Start.{parse_peer_info}
use polkadot_light_client.Network.PeerManager.Clock.{
  reports, elapses, nothing_yet, and_then, Clocked, with_timer, elapse, Occurred, due, Failed,
  Occurred-construct,
}
use polkadot_light_client.Network.PeerManager.Progress.{Round, update_connections-Round}
use polkadot_light_client.Network.PeerManager.Closing.{run-host_disconnect}
use polkadot_light_client.Network.PeerManager.Shutdown.{asked, stop-calls}

-- The manager that was constructed, after one more peer was discovered, and in another order.
abbrev tried : PeerState
tried = record { state = disconnected; action = connecting; last_activity = 1; is_pinging = false }

abbrev fresh : PeerState
fresh = record { state = disconnected; action = no_action; last_activity = 1; is_pinging = false }

abbrev oldest_first : PeerManager
oldest_first = record constructed { peers_info = (4, tried) ∷ (7, fresh) ∷ [] }

abbrev newest_first : PeerManager
newest_first = record constructed { peers_info = (7, fresh) ∷ (4, tried) ∷ [] }

discovered_test : oldest_first ≡ step constructed (reachable, discovered 7)
unfolding step on_discovered_peer emplace_peer find contains emplace
discovered_test = refl

reached : Reach constructed newest_first
reached =
    next (next here (handles (reachable, discovered 7) discovered_test))
      (rehashes newest_first.peers_info (swap (4, tried) (7, fresh)) refl)

Reach-construct_example :
    IsSound newest_first × IsSettled (update_connections reachable newest_first)
Reach-construct_example =
    Reach-construct echo (parse_peer_info addresses) reachable self
      (codes "/p2p/12D3" ∷ codes "old" ∷ []) constructed newest_first reachable constructed_test
      reached

oldest_first_test : Distinct oldest_first.peers_info
unfolding find
oldest_first_test = (refl, (refl, tt))

get_peers_info-Reorder_test :
    ((q : PeerId) → IsIn q (get_peers_info oldest_first) ↔ IsIn q (get_peers_info newest_first))
    × (get_connections_count oldest_first.peers_info
        ≡ get_connections_count newest_first.peers_info)
get_peers_info-Reorder_test =
    get_peers_info-Reorder oldest_first newest_first.peers_info (swap (4, tried) (7, fresh))
      oldest_first_test

-- The same with its timer, after one wait.
abbrev later : Clocked
later = elapse reachable false (record (with_timer constructed) { manager = oldest_first })

later_reached : Occurred (with_timer constructed) later
later_reached =
    and_then
      (and_then nothing_yet (
        reports (reachable, discovered 7) (λ k. cc)
          (ap (λ (m : PeerManager). record (with_timer constructed) { manager = m })
            discovered_test)))
      (elapses reachable false refl)

Occurred-construct_example :
    IsSound later.manager
    × (later.manager.current_tick ≡ suc later.m_timer.calls % 2 ^ 64)
    × (((¬ Failed later_reached)
          × (elapse reachable false later
              ≡ due (update_connections reachable later.manager) (suc later.m_timer.calls)))
        ⊎ (Failed later_reached × ((error : Bool) → elapse reachable error later ≡ later)))
Occurred-construct_example =
    Occurred-construct echo (parse_peer_info addresses) reachable self
      (codes "/p2p/12D3" ∷ codes "old" ∷ []) constructed later reachable constructed_test
      later_reached

update_connections-Round_example : Round oldest_first (update_connections reachable oldest_first)
update_connections-Round_example = update_connections-Round reachable oldest_first

-- A connected peer, whose ping fails.
abbrev linked : PeerManager
linked = record constructed {
  peers_info = (4, record tried { state = connected; action = no_action }) ∷ [];
}

abbrev lost : List (Host × Event)
lost = (reachable, ping 4 true) ∷ (reachable, timer) ∷ []

run-host_disconnect_example :
    (may_disconnect (find 4 (run (record linked { calls = [] }) lost).peers_info) ≡ true)
    ⊎ IsIn (host_disconnect 4) (run (record linked { calls = [] }) lost).calls
unfolding find
run-host_disconnect_example = run-host_disconnect linked 4 lost (λ e. cc) refl

linked_test : Distinct linked.peers_info
unfolding find
linked_test = (refl, tt)

stop-calls_example : (stop linked).calls ≡ asked (get_peers_info linked) linked.calls
stop-calls_example = stop-calls linked linked_test
