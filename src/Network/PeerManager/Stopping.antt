-- ===== src/Network/PeerManager/Stopping.antt =====
-- What `stop` of core/src/network/peer_manager.cpp makes of every entry of the table.
use polkadot_light_client.Common.{
  ◌==◌, if◌then◌else◌, Bool-cases, Option-cases, IsIn, ◌≡◌, refl, sym, ap, ◌∙◌, ◌⊎◌, inl, inr, true,
  false, Option, none, some, List, [], ◌∷◌, arith,
}
use polkadot_light_client.Network.PeerManager.Table.{
  PeerId, PeerState, is_connected, keys, find, may_disconnect, modify, find-modify,
}
use polkadot_light_client.Network.PeerManager.Counting.{count_if, count_if-modify}
use polkadot_light_client.Network.PeerManager.Loops.{may_disconnect-cases, find-IsIn}
use polkadot_light_client.Network.PeerManager.View.{View, shut, Shows}
use polkadot_light_client.Network.PeerManager.{
  counts, start_stopping, stop_loop, stop, host_disconnect, PeerManager, modify_peer, call,
}

-- What `stop` makes of the entry of `j`.
abbrev shut_in : PeerId → List PeerId → Option PeerState → Option PeerState
shut_in j [] o = o
shut_in j (p ∷ ps) o = shut_in j ps (if p == j then shut o else o)

shut-shut : (o : Option PeerState) → shut (shut o) ≡ shut o
shut-shut none = refl
shut-shut (some s) = ground arith

shut_in_done :
    (j : PeerId) (ps : List PeerId) (o : Option PeerState) → shut_in j ps (shut o) ≡ shut o
shut_in_done j [] o = refl
shut_in_done j (p ∷ ps) o = elim (Bool-cases (p == j)) [
  | inl e ↦ rw (e, shut-shut o) (shut_in_done j ps o)
  | inr e ↦ rw e (shut_in_done j ps o)
]

shut_in_all :
    (j : PeerId) (ps : List PeerId) (o : Option PeerState) → IsIn j ps → shut_in j ps o ≡ shut o
shut_in_all j [] o i = absurd i
shut_in_all j (p ∷ ps) o (inl e) =
    let hit : (p == j) ≡ true = ground arith in rw hit (shut_in_done j ps o)
shut_in_all j (p ∷ ps) o (inr i) = elim (Bool-cases (p == j)) [
  | inl e ↦ rw e (shut_in_done j ps o)
  | inr e ↦ rw e (shut_in_all j ps o i)
]

record Stopped (ps : List PeerId) (m n : PeerManager) : Type 0 where
  owner : n.host_id ≡ m.host_id
  tick : n.current_tick ≡ m.current_tick
  entries : (j : PeerId) → find j n.peers_info ≡ shut_in j ps (find j m.peers_info)
  count : count_if counts n.peers_info ≡ count_if counts m.peers_info

module _ (p : PeerId) (ps : List PeerId) (m n : PeerManager) where
  taken-Stopped :
      may_disconnect (find p m.peers_info) ≡ true
      → Stopped ps (call (host_disconnect p) (modify_peer p start_stopping m)) n
      → Stopped (p ∷ ps) m n
  unfolding call modify_peer
  taken-Stopped c r =
      let (s, e, on) = may_disconnect-cases (find p m.peers_info) c in
      record {
        owner = r.owner;
        tick = r.tick;
        entries = λ j. r.entries j ∙ ap (shut_in j ps) (marked j s e on);
        count =
            ground (arith, r.count, count_if-modify counts p start_stopping m.peers_info s e, on);
      }
    where
      marked :
          (j : PeerId) (s : PeerState)
          → find p m.peers_info ≡ some s
          → is_connected s.state ≡ true
          → find j (modify p start_stopping m.peers_info)
            ≡ (if p == j then shut (find j m.peers_info) else find j m.peers_info)
      marked j s e on = find-modify p j start_stopping m.peers_info ∙ ground (arith, e, on)

  passed-Stopped :
      may_disconnect (find p m.peers_info) ≡ false → Stopped ps m n → Stopped (p ∷ ps) m n
  passed-Stopped c r = record {
    owner = r.owner;
    tick = r.tick;
    entries = λ j. r.entries j ∙ ap (shut_in j ps) (kept j);
    count = r.count;
  }
    where
      kept :
          (j : PeerId)
          → find j m.peers_info
            ≡ (if p == j then shut (find j m.peers_info) else find j m.peers_info)
      kept j = ground (arith, c)

stop_loop-Stopped : (ps : List PeerId) (m : PeerManager) → Stopped ps m (stop_loop ps m)
unfolding stop_loop
stop_loop-Stopped [] m = record { owner = refl; tick = refl; entries = λ j. refl; count = refl }
stop_loop-Stopped (p ∷ ps) m = elim (Bool-cases (may_disconnect (find p m.peers_info))) [
  | inl c ↦
      rw (c, stop_loop)
        (taken-Stopped p ps m _ c
          (stop_loop-Stopped ps (call (host_disconnect p) (modify_peer p start_stopping m))))
  | inr c ↦ rw (c, stop_loop) (passed-Stopped p ps m _ c (stop_loop-Stopped ps m))
]

pub stop-Shows :
    {m : PeerManager} {v : View}
    → Shows m v
    → Shows (stop m) (record v { entry = λ j. shut (v.entry j) })
unfolding stop
stop-Shows {m} {v} s = record {
  is_owner = r.owner ∙ s.is_owner;
  is_tick = r.tick ∙ s.is_tick;
  is_entry = λ j. r.entries j ∙ shut_known j (Option-cases (find j m.peers_info));
  is_count = r.count ∙ s.is_count;
}
  where
    r : Stopped (keys m.peers_info) m (stop_loop (keys m.peers_info) m)
    r = stop_loop-Stopped (keys m.peers_info) m

    shut_known :
        (j : PeerId)
        → (find j m.peers_info ≡ none) ⊎ ((t : PeerState) × (find j m.peers_info ≡ some t))
        → shut_in j (keys m.peers_info) (find j m.peers_info) ≡ shut (v.entry j)
    shut_known j (inl e) = rw (e, sym (s.is_entry j) ∙ e) (shut_in_done j (keys m.peers_info) none)
    shut_known j (inr (t, e)) =
        shut_in_all j (keys m.peers_info) _ (find-IsIn j t m.peers_info e)
        ∙ ap (λ (o : Option PeerState). shut o) (s.is_entry j)
