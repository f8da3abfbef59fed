-- ===== src/Network/PeerManager/Table.antt =====
-- The table `m_peers_info` of core/src/network/peer_manager.h, an `unordered_map`: a list of entries
-- in the order in which the map iterates over them. A peer identifier is a number, since the program
-- only compares it.
use polkadot_light_client.Common.{
  ◌==◌, if◌then◌else◌, Bytes, ℕ, ◌≡◌, refl, Bool, true, false, not, ◌&&◌, Option, none, some, List,
  [], ◌∷◌, ◌++◌, arith,
}

abbrev pub PeerId : Type 0
PeerId = ℕ

pub data ConnectionState : Type 0 where
  disconnected connected : ConnectionState

-- `no_action` is the source's None.
pub data ConnectionAction : Type 0 where
  no_action connecting disconnecting : ConnectionAction

pub record PeerState : Type 0 where
  pub state : ConnectionState
  pub action : ConnectionAction
  pub last_activity : ℕ
  pub is_pinging : Bool

abbrev pub is_connected : ConnectionState → Bool
is_connected connected = true
is_connected disconnected = false

abbrev pub is_connecting : ConnectionAction → Bool
is_connecting connecting = true
is_connecting no_action = false
is_connecting disconnecting = false

abbrev pub is_disconnecting : ConnectionAction → Bool
is_disconnecting disconnecting = true
is_disconnecting no_action = false
is_disconnecting connecting = false

abbrev pub is_idle : ConnectionAction → Bool
is_idle no_action = true
is_idle connecting = false
is_idle disconnecting = false

abbrev pub is_empty : List Bytes → Bool
is_empty [] = true
is_empty (a ∷ addresses) = false

abbrev pub Peers : Type 0
Peers = List (PeerId × PeerState)

abbrev pub keys : Peers → List PeerId
keys [] = []
keys ((p, s) ∷ ps) = p ∷ keys ps

unfoldable pub find : PeerId → Peers → Option PeerState
find id [] = none
find id ((p, s) ∷ ps) = if p == id then some s else find id ps

abbrev pub is_some : Option PeerState → Bool
is_some none = false
is_some (some s) = true

unfoldable pub contains : PeerId → Peers → Bool
contains id ps = is_some (find id ps)

-- The conditions of the two loops of `updateConnections`, on the entry of a key.
abbrev pub may_connect : Option PeerState → Bool
may_connect none = false
may_connect (some s) = not (is_connected s.state) && is_idle s.action

abbrev pub may_disconnect : Option PeerState → Bool
may_disconnect none = false
may_disconnect (some s) = is_connected s.state

-- A write through the iterator that `find` gives; nothing happens at `end()`.
unfoldable pub modify : PeerId → (PeerState → PeerState) → Peers → Peers
modify id f [] = []
modify id f ((p, s) ∷ ps) = if p == id then (p, f s) ∷ ps else (p, s) ∷ modify id f ps

-- `emplace` of a key that is not there.
unfoldable pub emplace : PeerId → PeerState → Peers → Peers
emplace id s ps = ps ++ (id, s) ∷ []

keys-modify :
    (id : PeerId) (f : PeerState → PeerState) (ps : Peers) → keys (modify id f ps) ≡ keys ps
unfolding modify
keys-modify id f [] = refl
keys-modify id f ((p, s) ∷ ps) = ground (arith, keys-modify id f ps)

abbrev pub apply_to : (PeerState → PeerState) → Option PeerState → Option PeerState
apply_to f none = none
apply_to f (some s) = some (f s)

pub find-modify :
    (id j : PeerId) (f : PeerState → PeerState) (ps : Peers)
    → find j (modify id f ps) ≡ (if id == j then apply_to f (find j ps) else find j ps)
unfolding find modify
find-modify id j f [] = ground arith
find-modify id j f ((p, s) ∷ ps) = ground (arith, find-modify id j f ps)

pub find-emplace :
    (id j : PeerId) (s : PeerState) (ps : Peers)
    → find id ps ≡ none
    → find j (emplace id s ps) ≡ (if id == j then some s else find j ps)
unfolding find emplace
find-emplace id j s [] h = refl
find-emplace id j s ((p, t) ∷ ps) h = ground (arith, find-emplace id j s ps)

-- No key stands twice.
abbrev pub Distinct : Peers → Type 0
Distinct [] = Unit {0}
Distinct ((p, s) ∷ ps) = (find p ps ≡ none) × Distinct ps

pub Distinct-modify :
    (id : PeerId) (f : PeerState → PeerState) (ps : Peers) → Distinct ps → Distinct (modify id f ps)
unfolding modify
Distinct-modify id f [] d = tt
Distinct-modify id f ((p, s) ∷ ps) d =
    ground (arith, Distinct-modify id f ps d.1, find-modify id p f ps)

pub Distinct-emplace :
    (id : PeerId) (s : PeerState) (ps : Peers)
    → find id ps ≡ none
    → Distinct ps
    → Distinct (emplace id s ps)
unfolding emplace find
Distinct-emplace id s [] h d = (refl, tt)
Distinct-emplace id s ((p, t) ∷ ps) h d =
    ground
      (arith, Distinct-emplace id s ps (ground arith) d.1, find-emplace id p s ps (ground arith))
