-- ===== src/Network/PeerManager/Progress.antt =====
-- What a round of `updateConnections` in core/src/network/peer_manager.cpp comes to.
-- As many connections as there may be, or no peer that passes a test.
use polkadot_light_client.Common.{
  ℕ, ◌≤◌, ◌<◌, ◌≡◌, refl, ap, ◌∙◌, ◌⊎◌, inl, inr, Bool, false, Option,
}
use polkadot_light_client.Network.PeerManager.{
  timer, get_connections_count, update_connections, step, min_connections, max_connections, Host,
  PeerManager,
}
use polkadot_light_client.Network.PeerManager.Table.{
  PeerId, PeerState, find, may_connect, may_disconnect,
}
use polkadot_light_client.Network.PeerManager.View.{
  filled, exhausted, dial, settled, emptied, drop_peer, reacts, dials, drops, rests, View, Dials,
  Drops, Allows, Shows, view,
}
use polkadot_light_client.Network.PeerManager.Refinement.{step-Allows, view-Shows}
use polkadot_light_client.Network.PeerManager.Counting.{get_connections_count-eq}

abbrev FullOr : ℕ → (PeerId → Bool) → Type 0
FullOr n test = (n ≡ max_connections) ⊎ ((p : PeerId) → test p ≡ false)

Dials-end : {t : ℕ} {v w : View} → Dials t v w → FullOr w.count (λ p. may_connect (w.entry p))
Dials-end (filled full) = inl full
Dials-end (exhausted none_left) = inr none_left
Dials-end (dial p c d) = Dials-end d

Drops-end : {t : ℕ} {v w : View} → Drops t v w → FullOr w.count (λ p. may_disconnect (w.entry p))
Drops-end (settled full) = inl full
Drops-end (emptied none_left) = inr none_left
Drops-end (drop_peer p c d) = Drops-end d

-- A round from `m` to `n`.
pub data Round (m n : PeerManager) : Type 0 where
  too_few :
      get_connections_count m.peers_info < min_connections
      → FullOr (get_connections_count n.peers_info) (λ p. may_connect (find p n.peers_info))
      → Round m n
  too_many :
      max_connections < get_connections_count m.peers_info
      → FullOr (get_connections_count n.peers_info) (λ p. may_disconnect (find p n.peers_info))
      → Round m n
  within :
      min_connections ≤ get_connections_count m.peers_info
      → get_connections_count m.peers_info ≤ max_connections
      → ((p : PeerId) → find p n.peers_info ≡ find p m.peers_info)
      → Round m n

FullOr-Shows :
    (test : Option PeerState → Bool) {m : PeerManager} {v : View}
    → Shows m v
    → FullOr v.count (λ p. test (v.entry p))
    → FullOr (get_connections_count m.peers_info) (λ p. test (find p m.peers_info))
FullOr-Shows test s (inl full) = inl (get_connections_count-eq _ ∙ s.is_count ∙ full)
FullOr-Shows test s (inr none_left) = inr (λ p. ap test (s.is_entry p) ∙ none_left p)

timer-Round :
    {h : Host} (m : PeerManager) {n : PeerManager} {w : View}
    → Shows n w
    → Allows (view m) (h, timer) w
    → Round m n
timer-Round m s (reacts other e) = absurd (other refl)
timer-Round m s (dials is few d) = too_few few (FullOr-Shows may_connect s (Dials-end d))
timer-Round m s (drops is many d) = too_many many (FullOr-Shows may_disconnect s (Drops-end d))
timer-Round m s (rests is enough few e) =
    within enough few (λ p. s.is_entry p ∙ ap (λ (w : View). w.entry p) e)

-- With fewer than 10 connections, a round leaves 20, or no peer that is disconnected and idle. With
-- more than 20 it leaves 20, or no peer that is connected. Otherwise every entry stays.
pub update_connections-Round : (h : Host) (m : PeerManager) → Round m (update_connections h m)
unfolding step
update_connections-Round h m =
    let (w, allowed, shown) = step-Allows m (view m) (h, timer) (view-Shows m) in
    timer-Round m shown allowed
