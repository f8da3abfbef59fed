-- ===== src/Network/PeerManager/Shutdown.antt =====
-- What `stop` of core/src/network/peer_manager.cpp asks of libp2p.
-- The requests to disconnect these peers, on top of other calls; the latest stands first.
use polkadot_light_client.Common.{
  ◌==◌, if◌then◌else◌, ==_refl, Bool-cases, All, ◌≡◌, refl, ap, ◌∙◌, inl, inr, Option, none, some,
  List, [], ◌∷◌, arith,
}
use polkadot_light_client.Network.PeerManager.{
  start_stopping, stop_loop, stop, connected_keys, get_peers_info, host_disconnect, Call,
  PeerManager, modify_peer, call,
}
use polkadot_light_client.Network.PeerManager.Table.{
  PeerId, PeerState, is_connected, Peers, keys, find, may_disconnect, modify, apply_to, find-modify,
  Distinct,
}

unfoldable pub asked : List PeerId → List Call → List Call
asked [] calls = calls
asked (p ∷ ps) calls = asked ps (host_disconnect p ∷ calls)

-- The table says of these entries whether they are connected.
abbrev IsKnown : Peers → PeerId × PeerState → Type 0
IsKnown table entry = may_disconnect (find entry.0 table) ≡ is_connected entry.1.state

found-entries : (ps : Peers) → Distinct ps → All (λ e. find e.0 ps ≡ some e.1) ps
unfolding find
found-entries [] d = tt
found-entries ((k, s) ∷ ps) (new, d) = (rw (==_refl k) refl, older ps (found-entries ps d))
  where
    older :
        (es : Peers)
        → All (λ e. find e.0 ps ≡ some e.1) es
        → All (λ e. find e.0 ((k, s) ∷ ps) ≡ some e.1) es
    older [] h = tt
    older ((j, t) ∷ es) (e, h) = (ground (arith, e, new), older es h)

IsKnown-entries :
    (table es : Peers) → All (λ e. find e.0 table ≡ some e.1) es → All (IsKnown table) es
IsKnown-entries table [] h = tt
IsKnown-entries table ((j, t) ∷ es) (e, h) = (ap may_disconnect e, IsKnown-entries table es h)

start_stopping-IsKnown :
    (p : PeerId) (table es : Peers)
    → All (IsKnown table) es
    → All (IsKnown (modify p start_stopping table)) es
start_stopping-IsKnown p table [] h = tt
start_stopping-IsKnown p table ((j, t) ∷ es) (e, h) = (
  rw (find-modify p j start_stopping table) (same (find j table) e),
  start_stopping-IsKnown p table es h,
)
  where
    same :
        (o : Option PeerState)
        → may_disconnect o ≡ is_connected t.state
        → may_disconnect (if p == j then apply_to start_stopping o else o) ≡ is_connected t.state
    same none e = ground arith
    same (some s) e = ground arith

stop_loop-calls :
    (es : Peers) (m : PeerManager)
    → All (IsKnown m.peers_info) es
    → (stop_loop (keys es) m).calls ≡ asked (connected_keys es) m.calls
unfolding stop_loop connected_keys asked modify_peer call
stop_loop-calls [] m h = refl
stop_loop-calls ((p, s) ∷ es) m (e, h) = elim (Bool-cases (is_connected s.state)) [
  | inl on ↦
      rw (e ∙ on, on, stop_loop)
        (stop_loop-calls es (call (host_disconnect p) (modify_peer p start_stopping m))
          (start_stopping-IsKnown p m.peers_info es h))
  | inr off ↦ rw (e ∙ off, off, stop_loop) (stop_loop-calls es m h)
]

-- In a table with no peer twice, `stop` asks libp2p to disconnect exactly the peers that
-- `getPeersInfo` lists, in that order, and asks nothing else.
pub stop-calls :
    (m : PeerManager) → Distinct m.peers_info → (stop m).calls ≡ asked (get_peers_info m) m.calls
unfolding stop get_peers_info
stop-calls m d =
    stop_loop-calls m.peers_info m
      (IsKnown-entries m.peers_info m.peers_info (found-entries m.peers_info d))
