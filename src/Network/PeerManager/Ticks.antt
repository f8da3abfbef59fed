-- ===== src/Network/PeerManager/Ticks.antt =====
-- What advances the tick of core/src/network/peer_manager.cpp: a round of `updateConnections`.
use polkadot_light_client.Common.{
  Bytes, ok, Outcome, bind_ok, ok-injective, ℕ, ◌≡◌, refl, sym, ap, ◌∙◌, Option, none, some, List,
  [], ◌∷◌, arith,
}
use polkadot_light_client.Network.PeerManager.{
  failed, unidentified, remote, discovered, identified, connection, ping, timer, stops,
  emplace_peer, on_discovered_peer, update_connections, Event, step, initial, Host, PeerManager,
  next_tick, call,
}
use polkadot_light_client.Network.PeerManager.Table.{PeerId}
use polkadot_light_client.Network.PeerManager.View.{
  filled, exhausted, dial, settled, emptied, drop_peer, reacts, dials, drops, rests, View, put,
  react, Dials, Drops, Allows, view,
}
use polkadot_light_client.Network.PeerManager.Refinement.{step-Allows, view-Shows}
use polkadot_light_client.Network.PeerManager.Start.{
  PeerInfo, Kademlia, on_discovered_peers, add_peer_info, add_if_some, add_peers,
  start_and_update_connections, construct,
}
use polkadot_light_client.Network.PeerManager.Choices.{tick-put}

react-tick : (v : View) (e : Host × Event) → (react v e).tick ≡ v.tick
unfolding react put
react-tick v (h, discovered q) = ground arith
react-tick v (h, identified q) = ground arith
react-tick v (h, connection q failed) = refl
react-tick v (h, connection q unidentified) = refl
react-tick v (h, connection q (remote r)) = ground arith
react-tick v (h, ping q e) = refl
react-tick v (h, timer) = refl
react-tick v (h, stops) = refl

Dials-tick : {t : ℕ} {v w : View} → Dials t v w → w.tick ≡ v.tick
Dials-tick (filled e) = refl
Dials-tick (exhausted h) = refl
Dials-tick {v = v} (dial p c d) = Dials-tick d ∙ tick-put p _ v

Drops-tick : {t : ℕ} {v w : View} → Drops t v w → w.tick ≡ v.tick
Drops-tick (settled e) = refl
Drops-tick (emptied h) = refl
Drops-tick {v = v} (drop_peer p c d) = Drops-tick d ∙ tick-put p _ v

timer-tick : {v w : View} {h : Host} → Allows v (h, timer) w → w.tick ≡ next_tick v.tick
timer-tick (reacts other e) = absurd (other refl)
timer-tick (dials is few d) = Dials-tick d
timer-tick (drops is many d) = Drops-tick d
timer-tick (rests is enough few e) = ap (λ (w : View). w.tick) e

other-tick : {v w : View} {e : Host × Event} → ¬ (e.1 ≡ timer) → Allows v e w → w.tick ≡ v.tick
other-tick {v} {e = e} other (reacts k same) = ap (λ (w : View). w.tick) same ∙ react-tick v e
other-tick other (dials is few d) = absurd (other is)
other-tick other (drops is many d) = absurd (other is)
other-tick other (rests is enough few e) = absurd (other is)

-- A round advances the tick, and nothing else does.
pub update_connections-tick :
    (h : Host) (m : PeerManager) → (update_connections h m).current_tick ≡ next_tick m.current_tick
unfolding step
update_connections-tick h m =
    let (w, allowed, shown) = step-Allows m (view m) (h, timer) (view-Shows m) in
    shown.is_tick ∙ timer-tick allowed

pub step-tick :
    (m : PeerManager) (e : Host × Event)
    → ¬ (e.1 ≡ timer)
    → (step m e).current_tick ≡ m.current_tick
step-tick m e other =
    let (w, allowed, shown) = step-Allows m (view m) e (view-Shows m) in
    shown.is_tick ∙ other-tick other allowed

on_discovered_peer-tick :
    (p : PeerId) (m : PeerManager) → (on_discovered_peer p m).current_tick ≡ m.current_tick
unfolding on_discovered_peer emplace_peer
on_discovered_peer-tick p m = ground arith

on_discovered_peers-tick :
    (ps : List PeerId) (m : PeerManager) → (on_discovered_peers ps m).current_tick ≡ m.current_tick
unfolding on_discovered_peers
on_discovered_peers-tick [] m = refl
on_discovered_peers-tick (p ∷ ps) m = on_discovered_peers-tick ps _ ∙ on_discovered_peer-tick p m

module _ (kademlia : Kademlia) (info : Bytes → Outcome (Option PeerInfo)) where
  add_peer_info-tick :
      (peer : PeerInfo) (m : PeerManager)
      → (add_peer_info kademlia peer m).current_tick ≡ m.current_tick
  unfolding add_peer_info call
  add_peer_info-tick peer m = on_discovered_peers-tick (kademlia peer) _

  add_if_some-tick :
      (o : Option PeerInfo) (m : PeerManager)
      → (add_if_some kademlia o m).current_tick ≡ m.current_tick
  add_if_some-tick none m = refl
  add_if_some-tick (some peer) m = add_peer_info-tick peer m

  add_peers-tick :
      (peers : List Bytes) (m n : PeerManager)
      → add_peers kademlia info peers m ≡ ok n
      → n.current_tick ≡ m.current_tick
  unfolding add_peers
  add_peers-tick [] m n h = ap (λ (k : PeerManager). k.current_tick) (sym (ok-injective h))
  add_peers-tick (peer ∷ peers) m n h =
      let (o, more, e) = bind_ok _ (info peer) n h in
      add_peers-tick peers _ n more ∙ add_if_some-tick o m

  -- The constructor has done the first round.
  pub construct-tick :
      (h : Host) (host : PeerInfo) (peers : List Bytes) (m : PeerManager)
      → construct kademlia h host info peers ≡ ok m
      → m.current_tick ≡ 1
  unfolding construct start_and_update_connections call
  construct-tick h host peers m e =
      let (n, done, made) =
        bind_ok _ (add_peers kademlia info peers (add_peer_info kademlia host (initial host.id))) m
          e in
      ap (λ (k : PeerManager). k.current_tick) (sym (ok-injective done))
      ∙ update_connections-tick h _
      ∙ ap next_tick (add_peers-tick peers _ n made ∙ add_peer_info-tick host (initial host.id))
