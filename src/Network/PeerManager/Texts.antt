-- ===== src/Network/PeerManager/Texts.antt =====
-- When the constructor over texts of core/src/network/peer_manager.cpp throws.
use polkadot_light_client.Common.{
  Option-cases, IsIn, Bytes, ok, err, thrown, fault, Outcome, ◌>>=◌, Returns, ◌≡◌, refl, subst, ◌↔◌,
  ◌⊎◌, inl, inr, Option, none, some, List, [], ◌∷◌,
}
use polkadot_light_client.Network.PeerManager.{initial, Host, PeerManager}
use polkadot_light_client.Network.PeerManager.Table.{PeerId}
use polkadot_light_client.Network.PeerManager.Start.{
  PeerInfo, Kademlia, AddressBook, add_peer_info, add_if_some, decoded_peer, create_peer_info,
  parse_peer_info, add_peers, start_and_update_connections, construct, construct_from_texts,
}

ok-thrown : {A B : Type 0} (r : Outcome A) (f : A → B) → (do a ← r; ok (f a)) ≡ thrown → r ≡ thrown
unfolding ◌>>=◌
ok-thrown (ok a) f h = absurd (cc)
ok-thrown (err e) f h = absurd (cc)
ok-thrown thrown f h = refl
ok-thrown fault f h = absurd (cc)

module _ (multi : AddressBook) where
  -- The text is an address that names no peer.
  abbrev pub IsNameless : Bytes → Type 0
  IsNameless t =
      (address : Bytes) × (multi.create t ≡ some address) × (multi.get_peer_id address ≡ none)

  nameless_throws : (t : Bytes) → IsNameless t → parse_peer_info multi t ≡ thrown
  unfolding parse_peer_info create_peer_info
  nameless_throws t (address, made, nameless) =
      rw (parse_peer_info, made, create_peer_info, nameless) refl

  -- `PeerId::fromBase58` gives a result and throws nothing.
  module _ (decodes : (text : Bytes) → Returns (multi.from_base58 text)) where
    decoded_peer_ok :
        (address : Bytes) (r : Outcome PeerId)
        → Returns r
        → (o : Option PeerInfo) × (decoded_peer multi address r ≡ ok o)
    decoded_peer_ok address (ok id) k = (_, refl)
    decoded_peer_ok address (err e) k = (_, refl)
    decoded_peer_ok address thrown k = absurd k
    decoded_peer_ok address fault k = absurd k

    parse_peer_info-cases :
        (t : Bytes) → IsNameless t ⊎ ((o : Option PeerInfo) × (parse_peer_info multi t ≡ ok o))
    unfolding parse_peer_info create_peer_info
    parse_peer_info-cases t = elim (Option-cases (multi.create t)) [
      | inl none_made ↦ inr (none, rw (parse_peer_info, none_made) refl)
      | inr (address, made) ↦ elim (Option-cases (multi.get_peer_id address)) [
        | inl nameless ↦ inl (address, made, nameless)
        | inr (text, named) ↦
            let (o, e) = decoded_peer_ok address (multi.from_base58 text) (decodes text) in
            inr (o, rw (parse_peer_info, made, create_peer_info, named) e)
      ]
    ]

    module _ (kademlia : Kademlia) where
      add_peers_throws_if :
          (peers : List Bytes) (m : PeerManager) (t : Bytes)
          → IsIn t peers
          → IsNameless t
          → add_peers kademlia (parse_peer_info multi) peers m ≡ thrown
      unfolding add_peers ◌>>=◌
      add_peers_throws_if [] m t i bad = absurd i
      add_peers_throws_if (p ∷ peers) m t (inl e) bad =
          rw (nameless_throws p (subst IsNameless e bad)) refl
      add_peers_throws_if (p ∷ peers) m t (inr i) bad = elim (parse_peer_info-cases p) [
        | inl first ↦ rw (nameless_throws p first) refl
        | inr (o, e) ↦ rw e (add_peers_throws_if peers (add_if_some kademlia o m) t i bad)
      ]

      add_peers_throws_only_if :
          (peers : List Bytes) (m : PeerManager)
          → add_peers kademlia (parse_peer_info multi) peers m ≡ thrown
          → (t : Bytes) × IsIn t peers × IsNameless t
      unfolding add_peers ◌>>=◌
      add_peers_throws_only_if [] m h = absurd (cc)
      add_peers_throws_only_if (p ∷ peers) m h = elim (parse_peer_info-cases p) [
        | inl first ↦ (p, inl refl, first)
        | inr (o, e) ↦
            let (t, i, bad) =
              add_peers_throws_only_if peers (add_if_some kademlia o m) (rw e at h) in
            (t, inr i, bad)
      ]

    -- The constructor over texts throws exactly if one of them is an address that names no peer.
    pub construct_from_texts_iff :
        (kademlia : Kademlia) (h : Host) (host : PeerInfo) (peers : List Bytes)
        → (construct_from_texts multi kademlia h host peers ≡ thrown)
          ↔ ((t : Bytes) × IsIn t peers × IsNameless t)
    unfolding construct_from_texts construct ◌>>=◌
    construct_from_texts_iff kademlia h host peers = (
      λ e. add_peers_throws_only_if kademlia peers _ (
          ok-thrown
            (add_peers kademlia (parse_peer_info multi) peers
              (add_peer_info kademlia host (initial host.id)))
            (start_and_update_connections h) e),
      λ x. let (t, i, bad) = x in rw (add_peers_throws_if kademlia peers _ t i bad) refl,
    )
