-- ===== src/Network/PeerManager/Order.antt =====
-- The iteration order of the `unordered_map` of core/src/network/peer_manager.h may change at any
-- time: steps of the manager and of its map.
use polkadot_light_client.Common.{
  ◌≡◌, refl, sym, subst, ◌∙◌, Bool, [], ◌∷◌, arith, IsIn, ◌↔◌, Bytes, ok, Outcome, Option, List,
}
use polkadot_light_client.Network.PeerManager.Table.{PeerId, PeerState, Peers, find, Distinct}
use polkadot_light_client.Network.PeerManager.Counting.{
  count_if, is_pending, get_connections_count-eq,
}
use polkadot_light_client.Network.PeerManager.Invariant.{IsSound}
use polkadot_light_client.Network.PeerManager.Loops.{IsSettled}
use polkadot_light_client.Network.PeerManager.Start.{PeerInfo, Kademlia, construct}
use polkadot_light_client.Network.PeerManager.Lifetime.{construct-IsSound}
use polkadot_light_client.Network.PeerManager.Listing.{get_peers_info_iff}
use polkadot_light_client.Network.PeerManager.Reachable.{update_connections-IsSettled, step-IsSound}
use polkadot_light_client.Network.PeerManager.{
  counts, get_connections_count, update_connections, Event, step, Host, PeerManager, get_peers_info,
}

-- The same entries in another order.
pub data Reorder : Peers → Peers → Type 0 where
  nothing : Reorder [] []
  keep :
      {ps qs : Peers}
      → (entry : PeerId × PeerState) → Reorder ps qs
      → Reorder (entry ∷ ps) (entry ∷ qs)
  swap : {ps : Peers} → (e f : PeerId × PeerState) → Reorder (e ∷ f ∷ ps) (f ∷ e ∷ ps)
  join : {ps qs rs : Peers} → Reorder ps qs → Reorder qs rs → Reorder ps rs

-- One event that the manager handles, or a new order of its map.
pub data Step (m n : PeerManager) : Type 0 where
  handles : (e : Host × Event) → n ≡ step m e → Step m n
  rehashes : (ps : Peers) → Reorder m.peers_info ps → n ≡ record m { peers_info = ps } → Step m n

pub data Reach (m : PeerManager) : PeerManager → Type 0 where
  here : Reach m m
  next : {n o : PeerManager} → Reach m n → Step n o → Reach m o

count_if-Reorder :
    (p : PeerState → Bool) {ps qs : Peers} → Reorder ps qs → count_if p ps ≡ count_if p qs
unfolding count_if
count_if-Reorder p nothing = refl
count_if-Reorder p (keep (j, s) r) = omega (arith, count_if-Reorder p r)
count_if-Reorder p (swap (i, s) (j, t)) = omega arith
count_if-Reorder p (join r q) = count_if-Reorder p r ∙ count_if-Reorder p q

-- The same look-ups, from a table with distinct keys.
record IsSameMap (ps qs : Peers) : Type 0 where
  distinct : Distinct qs
  same : (j : PeerId) → find j ps ≡ find j qs

Reorder-IsSameMap : {ps qs : Peers} → Reorder ps qs → Distinct ps → IsSameMap ps qs
unfolding find
Reorder-IsSameMap nothing d = record { distinct = tt; same = λ j. refl }
Reorder-IsSameMap (keep (i, s) r) d =
    let k = Reorder-IsSameMap r d.1 in
    record { distinct = (cc (k.same i, d.0), k.distinct); same = λ j. ground (arith, k.same j) }
Reorder-IsSameMap (swap (i, s) (j, t)) d = record {
  distinct = ground (arith, d);
  same = λ k. ground (arith, d);
}
Reorder-IsSameMap (join r q) d =
    let k = Reorder-IsSameMap r d in
    let l = Reorder-IsSameMap q k.distinct in
    record { distinct = l.distinct; same = λ j. k.same j ∙ l.same j }

module _ {ps qs : Peers} (r : Reorder ps qs) where
  find-Reorder : (j : PeerId) → Distinct ps → find j ps ≡ find j qs
  find-Reorder j d = (Reorder-IsSameMap r d).same j

  Distinct-Reorder : Distinct ps → Distinct qs
  Distinct-Reorder d = (Reorder-IsSameMap r d).distinct

pub rehash-IsSound :
    (m : PeerManager) (ps : Peers)
    → Reorder m.peers_info ps
    → IsSound m
    → IsSound (record m { peers_info = ps })
rehash-IsSound m ps r v = record {
  distinct = Distinct-Reorder r v.distinct;
  no_self = cc (find-Reorder r m.host_id v.distinct, v.no_self);
  bounded = omega (arith, v.bounded, count_if-Reorder counts r);
  few_pending = omega (arith, v.few_pending, count_if-Reorder is_pending r);
}

Step-IsSound : {m n : PeerManager} → Step m n → IsSound m → IsSound n
Step-IsSound {m} (handles e is) v = subst IsSound (sym is) (step-IsSound m e v)
Step-IsSound {m} (rehashes ps r is) v = subst IsSound (sym is) (rehash-IsSound m ps r v)

Reach-IsSound : {m n : PeerManager} → Reach m n → IsSound m → IsSound n
Reach-IsSound here v = v
Reach-IsSound (next r st) v = Step-IsSound st (Reach-IsSound r v)

pub Reach-IsSettled :
    (at_timer : Host) {m n : PeerManager}
    → Reach m n
    → IsSound m
    → IsSound n × IsSettled (update_connections at_timer n)
Reach-IsSettled at_timer {n = n} r v =
    let w = Reach-IsSound r v in (w, update_connections-IsSettled at_timer n w)

-- The public calls that read the table give the same in every order.
get_connections_count-Reorder :
    {ps qs : Peers} → Reorder ps qs → get_connections_count ps ≡ get_connections_count qs
get_connections_count-Reorder {ps} {qs} r =
    get_connections_count-eq ps ∙ count_if-Reorder counts r ∙ sym (get_connections_count-eq qs)

-- Which peers `getPeersInfo` lists, and the number of connections, do not depend on the order of the
-- table.
pub get_peers_info-Reorder :
    (m : PeerManager) (ps : Peers)
    → Reorder m.peers_info ps
    → Distinct m.peers_info
    → ((q : PeerId)
        → IsIn q (get_peers_info m) ↔ IsIn q (get_peers_info (record m { peers_info = ps })))
      × (get_connections_count m.peers_info ≡ get_connections_count ps)
get_peers_info-Reorder m ps r d = (same_peers, get_connections_count-Reorder r)
  where
    n : PeerManager
    n = record m { peers_info = ps }

    same_peers : (q : PeerId) → IsIn q (get_peers_info m) ↔ IsIn q (get_peers_info n)
    same_peers q =
        let before = get_peers_info_iff m q d in
        let after = get_peers_info_iff n q (Distinct-Reorder r d) in
        let e = find-Reorder r q d in
        (
          λ i. let (s, is, on) = before.0 i in after.1 (s, cc (e, is), on),
          λ i. let (s, is, on) = after.0 i in before.1 (s, cc (e, is), on),
        )

-- A peer manager that was constructed, by texts or by addresses and whatever is reported meanwhile,
-- meets the invariant after any events and any changes of the order of its table, and has 20
-- connections at most after each timer.
pub Reach-construct :
    (kademlia : Kademlia) (info : Bytes → Outcome (Option PeerInfo)) (h : Host) (host : PeerInfo)
    (peers : List Bytes) (m n : PeerManager) (at_timer : Host)
    → construct kademlia h host info peers ≡ ok m
    → Reach m n
    → IsSound n × IsSettled (update_connections at_timer n)
Reach-construct kademlia info h host peers m n at_timer made r =
    Reach-IsSettled at_timer r (construct-IsSound kademlia info h host peers m made)
