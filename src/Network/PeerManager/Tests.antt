-- ===== src/Network/PeerManager/Tests.antt =====
-- Runs of the peer table on small inputs, and the properties at concrete inputs.
use polkadot_light_client.Common.{
  if_intro, take, drop, All, IsIn, Bytes, codes, bytes_eq, ok, thrown, ◌>>=◌, Returns, ◌≡◌, refl,
  ◌↔◌, true, false, none, some, List, [], ◌∷◌, arith,
}
use polkadot_light_client.Utils.Hex.Reference.{reference}
use polkadot_light_client.Chain.Spec.Sample.{reader, addresses, good, good_spec, good_test}
use polkadot_light_client.Network.PeerManager.Lifetime.{run-construct}
use polkadot_light_client.Network.PeerManager.Start.{
  PeerInfo, Kademlia, on_discovered_peers, add_peer_info, create_peer_info, parse_peer_info,
  add_peers, start_and_update_connections, construct, construct_from_texts,
  construct_from_addresses,
}
use polkadot_light_client.Network.PeerManager.Construction.{
  IsAdded, construct_from_addresses-load_from_file, construct_from_texts_throws,
}
use polkadot_light_client.Network.PeerManager.Table.{
  disconnected, connecting, PeerState, is_connected, Peers, find, contains, modify, emplace,
}
use polkadot_light_client.Network.PeerManager.Counting.{count_if}
use polkadot_light_client.Network.PeerManager.Invariant.{IsSound}
use polkadot_light_client.Network.PeerManager.Loops.{IsSettled}
use polkadot_light_client.Network.PeerManager.Reachable.{
  update_connections-IsSettled, run-initial-IsSound,
}
use polkadot_light_client.Network.PeerManager.Frame.{attempts}
use polkadot_light_client.Network.PeerManager.Starvation.{starvation}
use polkadot_light_client.Network.PeerManager.Waiting.{never_retried}
use polkadot_light_client.Network.PeerManager.Listing.{get_peers_info_iff}
use polkadot_light_client.Network.PeerManager.View.{View}
use polkadot_light_client.Network.PeerManager.{
  failed, unidentified, remote, discovered, identified, connection, ping, timer, emplace_peer,
  on_discovered_peer, disconnect, get_connections_count, add_known_addresses, on_connected_entry,
  on_connected_peer, on_ping, connect, on_connection, connect_loop, update_connections,
  connected_keys, get_peers_info, Event, step, run, initial, host_connect, add_permanent_peer,
  identify_start, kademlia_start, grandpa_start, make_timer, Host, PeerManager, modify_peer, call,
}
use polkadot_light_client.Network.PeerManager.Texts.{IsNameless, construct_from_texts_iff}
mod Orders

-- libp2p knows an address of every peer, and has a connection to each.
abbrev pub reachable : Host
reachable = record {
  has_connection = λ p. true;
  get_addresses = λ p. some (codes "/ip4/127.0.0.1" ∷ []);
  peer_addresses = λ p. codes "/ip4/127.0.0.1" ∷ [];
  can_not_connect = λ p. false;
}

-- Two peers are found, tried and connected; the second is then lost to a failing ping.
abbrev history : List (Host × Event)
history =
    (reachable, discovered 1)
    ∷ (reachable, discovered 2)
    ∷ (reachable, timer)
    ∷ (reachable, connection 1 (remote 1))
    ∷ (reachable, identified 2)
    ∷ (reachable, ping 2 true)
    ∷ []

history_lists : get_peers_info (run (initial 0) history) ≡ 1 ∷ []
unfolding run step get_peers_info connected_keys on_discovered_peer on_connected_peer
    on_connected_entry on_connection on_ping update_connections connect_loop connect disconnect
    add_known_addresses modify_peer call emplace_peer get_connections_count find modify emplace
    contains
history_lists = refl

run-initial-IsSound_test : IsSound (run (initial 0) history)
run-initial-IsSound_test = run-initial-IsSound 0 history

update_connections-IsSettled_example :
    IsSettled (update_connections reachable (run (initial 0) history))
update_connections-IsSettled_example =
    update_connections-IsSettled reachable (run (initial 0) history) (run-initial-IsSound 0 history)

get_peers_info_iff_test : IsIn 1 (get_peers_info (run (initial 0) history)) ↔ (
    (s : PeerState) × (find 1 (run (initial 0) history).peers_info ≡ some s)
    × (is_connected s.state ≡ true))
get_peers_info_iff_test =
    get_peers_info_iff (run (initial 0) history) 1 (run-initial-IsSound 0 history).distinct

abbrev attempted : PeerState
attempted = record {
  state = disconnected;
  action = connecting;
  last_activity = 1;
  is_pinging = false;
}

abbrev ten_attempts : Peers
ten_attempts =
    (1, attempted)
    ∷ (2, attempted)
    ∷ (3, attempted)
    ∷ (4, attempted)
    ∷ (5, attempted)
    ∷ (6, attempted)
    ∷ (7, attempted)
    ∷ (8, attempted)
    ∷ (9, attempted)
    ∷ (10, attempted)
    ∷ []

abbrev starving : PeerManager
starving = record { host_id = 0; peers_info = ten_attempts; current_tick = 1; calls = [] }

-- All fail, and one more peer is found.
abbrev failures : List (Host × Event)
failures =
    (reachable, connection 1 failed)
    ∷ (reachable, connection 2 unidentified)
    ∷ (reachable, discovered 11)
    ∷ (reachable, timer)
    ∷ []

never_retried_example :
    (find 1 (run starving failures).peers_info ≡ some attempted)
    × (attempts 1 (run starving failures).calls ≡ attempts 1 [])
unfolding find
never_retried_example = never_retried 1 attempted starving failures refl refl (omega arith)

starvation_example : attempts 11 (run starving failures).calls ≡ attempts 11 []
unfolding count_if
starvation_example = starvation 11 starving failures (omega arith) (omega arith)

-- Each peer that is added is reported at once.
abbrev pub echo : Kademlia
echo = λ peer. peer.id ∷ []

abbrev pub self : PeerInfo
self = record { id = 0; addresses = [] }

-- What the constructor makes of one boot node and a text that is no address.
abbrev pub constructed : PeerManager
constructed = record {
  host_id = 0;
  peers_info =
      (
        4,
        record { state = disconnected; action = connecting; last_activity = 1; is_pinging = false },
      )
      ∷ [];
  current_tick = 1;
  calls =
      host_connect 4
      ∷ make_timer 200
      ∷ grandpa_start
      ∷ kademlia_start
      ∷ identify_start
      ∷ add_permanent_peer 4 (codes "/p2p/12D3" ∷ [])
      ∷ add_permanent_peer 0 []
      ∷ [];
}

construct_test :
    construct_from_texts addresses echo reachable self (codes "/p2p/12D3" ∷ codes "old" ∷ [])
    ≡ ok constructed
unfolding construct_from_texts construct ◌>>=◌ add_peers bytes_eq take drop
    start_and_update_connections update_connections get_connections_count call add_peer_info
    on_discovered_peer contains find emplace_peer emplace connect_loop connect create_peer_info
    on_discovered_peers parse_peer_info modify modify_peer
construct_test = refl

construct_from_addresses-load_from_file_example :
    (m : PeerManager) × (construct_from_addresses addresses echo reachable self
        (codes "/p2p/12D3" ∷ [])
      ≡ ok m)
    × IsSettled m
    × All (IsAdded addresses m.calls) (codes "/p2p/12D3" ∷ [])
construct_from_addresses-load_from_file_example =
    construct_from_addresses-load_from_file addresses (reader good) reference (codes "spec.json")
      good_spec echo reachable self good_test

construct_from_texts_throws_test :
    construct_from_texts addresses echo reachable self (codes "old" ∷ codes "/ip4/127.0.0.1" ∷ [])
    ≡ thrown
unfolding parse_peer_info bytes_eq take
construct_from_texts_throws_test =
    construct_from_texts_throws addresses echo reachable self (codes "old" ∷ [])
      (codes "/ip4/127.0.0.1") (codes "/ip4/127.0.0.1") [] ((none, refl), tt) refl refl

pub constructed_test :
    construct echo reachable self (parse_peer_info addresses) (codes "/p2p/12D3" ∷ codes "old" ∷ [])
    ≡ ok constructed
unfolding construct_from_texts
constructed_test = construct_test

run-construct_test :
    IsSound (run constructed history)
    × IsSettled (update_connections reachable (run constructed history))
run-construct_test =
    run-construct echo (parse_peer_info addresses) reachable self
      (codes "/p2p/12D3" ∷ codes "old" ∷ []) constructed history reachable constructed_test

abbrev texts : List Bytes
texts = codes "old" ∷ codes "/ip4/127.0.0.1" ∷ []

decodes : (text : Bytes) → Returns (addresses.from_base58 text)
decodes text = if_intro Returns (bytes_eq text []) (λ _. tt) (λ _. tt)

construct_from_texts_iff_example :
    (construct_from_texts addresses echo reachable self texts ≡ thrown)
    ↔ ((t : Bytes) × IsIn t texts × IsNameless addresses t)
construct_from_texts_iff_example =
    construct_from_texts_iff addresses decodes echo reachable self texts
