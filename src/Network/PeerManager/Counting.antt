-- ===== src/Network/PeerManager/Counting.antt =====
-- How writes to the table change the number of its entries of some kind
-- (core/src/network/peer_manager.cpp, `getConnectionsCount`).
use polkadot_light_client.Common.{
  ◌==◌, ==_refl, Bool-cases, Option-cases, ℕ, ◌+◌, ◌≤◌, ◌<◌, ◌≡◌, refl, inl, inr, Bool, true, false,
  not, ◌&&◌, none, some, [], ◌∷◌, arith,
}
use polkadot_light_client.Network.PeerManager.Table.{
  PeerId, PeerState, is_connected, is_connecting, Peers, find, modify, emplace, Distinct,
}
use polkadot_light_client.Network.PeerManager.{counts, get_connections_count}

abbrev pub one_if : Bool → ℕ
one_if true = 1
one_if false = 0

unfoldable pub count_if : (PeerState → Bool) → Peers → ℕ
count_if p [] = 0
count_if p ((peer, s) ∷ ps) = one_if (p s) + count_if p ps

-- An attempt to connect is on record, and there is no connection.
abbrev pub is_pending : PeerState → Bool
is_pending s = not (is_connected s.state) && is_connecting s.action

pub get_connections_count-eq : (ps : Peers) → get_connections_count ps ≡ count_if counts ps
unfolding get_connections_count count_if
get_connections_count-eq [] = refl
get_connections_count-eq ((peer, s) ∷ ps) = ground (arith, get_connections_count-eq ps)

module _ (p : PeerState → Bool) where
  pub count_if-modify :
      (id : PeerId) (f : PeerState → PeerState) (ps : Peers) (s : PeerState)
      → find id ps ≡ some s
      → count_if p (modify id f ps) + one_if (p s) ≡ count_if p ps + one_if (p (f s))
  unfolding count_if modify find
  count_if-modify id f [] s h = cc
  count_if-modify id f ((j, t) ∷ ps) s h = elim (Bool-cases (j == id)) [
    | inl hit ↦ rw hit (let same : t ≡ s = ground arith in rw same (omega arith))
    | inr miss ↦ rw miss (omega (arith, count_if-modify id f ps s (ground arith)))
  ]

  pub count_if-emplace :
      (id : PeerId) (s : PeerState) (ps : Peers)
      → count_if p (emplace id s ps) ≡ count_if p ps + one_if (p s)
  unfolding count_if emplace
  count_if-emplace id s [] = omega arith
  count_if-emplace id s ((j, t) ∷ ps) = omega (arith, count_if-emplace id s ps)

pub modify-none :
    (id : PeerId) (f : PeerState → PeerState) (ps : Peers) → find id ps ≡ none → modify id f ps ≡ ps
unfolding modify find
modify-none id f [] h = refl
modify-none id f ((j, t) ∷ ps) h = ground (arith, modify-none id f ps)

-- A write that makes no entry one of the kind does not raise the number.
pub count_if-modify_le :
    (p : PeerState → Bool) (id : PeerId) (f : PeerState → PeerState) (ps : Peers)
    → ((s : PeerState) → find id ps ≡ some s → one_if (p (f s)) ≤ one_if (p s))
    → count_if p (modify id f ps) ≤ count_if p ps
count_if-modify_le p id f ps h = elim (Option-cases (find id ps)) [
  | inl e ↦ rw (modify-none id f ps e) (omega arith)
  | inr (s, e) ↦ omega (arith, count_if-modify p id f ps s e, h s e)
]

-- Of more connections than pending attempts, one at least is connected.
pub connected_exists :
    (ps : Peers)
    → Distinct ps
    → count_if is_pending ps < count_if counts ps
    → (peer : PeerId) × (s : PeerState) × (find peer ps ≡ some s) × (is_connected s.state ≡ true)
unfolding count_if find
connected_exists [] d h = absurd (omega arith)
connected_exists ((j, t) ∷ ps) d h = elim (Bool-cases (is_connected t.state)) [
  | inl here ↦ (j, t, rw (==_refl j), here)
  | inr not_here ↦
      let (peer, s, e, c) = connected_exists ps d.1 (ground arith) in
      (peer, s, ground (arith, d.0), c)
]
