-- ===== src/Network/PeerManager/Listing.antt =====
-- What `getPeersInfo` lists, and what a new connection changes (core/src/network/peer_manager.cpp).
use polkadot_light_client.Common.{
  ◌==◌, Bool-cases, if_intro, ◌≡◌, ◌↔◌, ◌⊎◌, inl, inr, true, some, [], ◌∷◌, arith, none, IsIn,
}
use polkadot_light_client.Network.PeerManager.Table.{
  PeerId, PeerState, is_connected, Peers, find, Distinct,
}
use polkadot_light_client.Network.PeerManager.{PeerManager, connected_keys, get_peers_info}

abbrev IsConnectedIn : Peers → PeerId → Type 0
IsConnectedIn ps q = (s : PeerState) × (find q ps ≡ some s) × (is_connected s.state ≡ true)

IsConnectedIn-cons :
    (q p : PeerId) (t : PeerState) (ps : Peers)
    → find p ps ≡ none
    → IsConnectedIn ps q
    → IsConnectedIn ((p, t) ∷ ps) q
unfolding find
IsConnectedIn-cons q p t ps new (s, e, on) = (s, ground (arith, new, e), on)

connected_keys_sound :
    (q : PeerId) (ps : Peers) → Distinct ps → IsIn q (connected_keys ps) → IsConnectedIn ps q
unfolding connected_keys find
connected_keys_sound q [] d i = absurd i
connected_keys_sound q ((p, t) ∷ ps) d i = elim (Bool-cases (is_connected t.state)) [
  | inl on ↦
      first on (λ k. IsConnectedIn-cons q p t ps d.0 (connected_keys_sound q ps d.1 k))
        (rw (on, connected_keys) at i)
  | inr off ↦
      IsConnectedIn-cons q p t ps d.0
        (connected_keys_sound q ps d.1 (rw (off, connected_keys) at i))
]
  where
    first :
        is_connected t.state ≡ true
        → (IsIn q (connected_keys ps) → IsConnectedIn ((p, t) ∷ ps) q)
        → (q ≡ p) ⊎ IsIn q (connected_keys ps)
        → IsConnectedIn ((p, t) ∷ ps) q
    first on other (inl e) = (t, ground arith, on)
    first on other (inr k) = other k

connected_keys_complete :
    (q : PeerId) (ps : Peers) (s : PeerState)
    → find q ps ≡ some s
    → is_connected s.state ≡ true
    → IsIn q (connected_keys ps)
unfolding connected_keys find
connected_keys_complete q [] s e on = absurd (cc)
connected_keys_complete q ((p, t) ∷ ps) s e on = elim (Bool-cases (p == q)) [
  | inl hit ↦ rw (let c : is_connected t.state ≡ true = ground arith in c) (inl (ground arith))
  | inr miss ↦
      if_intro (IsIn q) (is_connected t.state)
        (λ _. inr (connected_keys_complete q ps s (ground arith) on))
        (λ _. connected_keys_complete q ps s (ground arith) on)
]

-- `getPeersInfo` lists a peer exactly if the table has it as Connected.
pub get_peers_info_iff :
    (m : PeerManager) (q : PeerId)
    → Distinct m.peers_info
    → IsIn q (get_peers_info m)
      ↔ ((s : PeerState) × (find q m.peers_info ≡ some s) × (is_connected s.state ≡ true))
unfolding get_peers_info
get_peers_info_iff m q d = (
  connected_keys_sound q m.peers_info d,
  λ (s, e, on). connected_keys_complete q m.peers_info s e on,
)
