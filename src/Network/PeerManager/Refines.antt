-- ===== src/Network/PeerManager/Refines.antt =====
-- The handlers of core/src/network/peer_manager.cpp do to their table what the map of peers allows.
use polkadot_light_client.Common.{
  Option-cases, ◌≤◌, ◌≡◌, inl, inr, Option, none, some, [], ◌∷◌, arith, ltb, ◌==◌, if◌then◌else◌,
  Bool-cases, if_intro, sym, ◌∙◌, Bool, true, false, ==_refl, ℕ, ◌+◌, ◌-◌, refl, subst, ap,
}
use polkadot_light_client.Network.PeerManager.Table.{
  PeerId, PeerState, Peers, find, apply_to, find-modify, find-emplace, is_connected, contains,
}
use polkadot_light_client.Network.PeerManager.Counting.{
  count_if, count_if-modify, count_if-emplace, modify-none, get_connections_count-eq,
}
use polkadot_light_client.Network.PeerManager.View.{
  View, weight, put, entry_at, Shows, discover, decide_on, meet,
}
use polkadot_light_client.Network.PeerManager.{
  make_peer_state, emplace_peer, counts, Call, PeerManager, modify_peer, call, set_disconnected,
  disconnect, set_connected, set_no_connection, add_known_addresses, on_connected_entry,
  on_connected_peer, max_connections, Host,
}

count-le : (q : PeerId) (ps : Peers) → weight (find q ps) ≤ count_if counts ps
unfolding find count_if
count-le q [] = omega arith
count-le q ((j, t) ∷ ps) = ground (arith, count-le q ps)

module _ {m : PeerManager} {v : View} (s : Shows m v) where
  pub modify_peer-Shows :
      (q : PeerId) (f : PeerState → PeerState)
      → Shows (modify_peer q f m) (put q (apply_to f (v.entry q)) v)
  unfolding modify_peer put
  modify_peer-Shows q f = record {
    is_owner = s.is_owner;
    is_tick = s.is_tick;
    is_entry = λ j. rw find-modify (ground (arith, s.is_entry j));
    is_count = elim (Option-cases (find q m.peers_info)) [
      | inl e ↦ rw (modify-none q f m.peers_info e) (ground (arith, s.is_count, s.is_entry q))
      | inr (t, e) ↦
          ground (arith, s.is_count, s.is_entry q, count_if-modify counts q f m.peers_info t e)
    ];
  }

  emplace_peer-Shows :
      (q : PeerId)
      → find q m.peers_info ≡ none
      → Shows (emplace_peer q m) (put q (some (entry_at v.tick none)) v)
  unfolding emplace_peer put
  emplace_peer-Shows q new = record {
    is_owner = s.is_owner;
    is_tick = s.is_tick;
    is_entry = λ j.
        rw (find-emplace q j (make_peer_state m) m.peers_info new)
          (ground (arith, s.is_entry j, s.is_tick));
    is_count = rw count_if-emplace (ground (arith, s.is_count, s.is_entry q, new));
  }

  put_same : (q : PeerId) (o : Option PeerState) → v.entry q ≡ o → Shows m (put q o v)
  unfolding put
  put_same q o e = record {
    is_owner = s.is_owner;
    is_tick = s.is_tick;
    is_entry = λ j. ground (arith, s.is_entry j, e);
    is_count = rw e (omega (arith, s.is_count));
  }

  pub call-Shows : (c : Call) → Shows (call c m) v
  unfolding call
  call-Shows c = record {
    is_owner = s.is_owner;
    is_tick = s.is_tick;
    is_entry = s.is_entry;
    is_count = s.is_count;
  }

  modify_known :
      (q : PeerId) (f : PeerState → PeerState) (t : PeerState)
      → v.entry q ≡ some t
      → Shows (modify_peer q f m) (put q (some (f t)) v)
  modify_known q f t e =
      subst (λ (o : Option PeerState). Shows (modify_peer q f m) (put q (apply_to f o) v)) e
        (modify_peer-Shows q f)

  pub put-put :
      (q : PeerId) (o o1 : Option PeerState) (n : PeerManager)
      → Shows n (put q o (put q o1 v))
      → Shows n (put q o v)
  unfolding put
  put-put q o o1 n t = record {
    is_owner = t.is_owner;
    is_tick = t.is_tick;
    is_entry = λ j. ground (arith, t.is_entry j);
    is_count = ground (arith, t.is_count, s.is_count, s.is_entry q, count-le q m.peers_info);
  }

pub if_Shows :
    (b c : Bool) {m n : PeerManager} {v w : View}
    → b ≡ c
    → Shows m v
    → Shows n w
    → Shows (if b then m else n) (if c then v else w)
if_Shows true true e s t = s
if_Shows true false e s t = cc
if_Shows false true e s t = cc
if_Shows false false e s t = t

if_put :
    (b : Bool) {m n : PeerManager} (v : View) (q : PeerId) (s t : PeerState)
    → Shows m (put q (some s) v)
    → Shows n (put q (some t) v)
    → Shows (if b then m else n) (put q (some (if b then s else t)) v)
if_put true v q s t a c = a
if_put false v q s t a c = c

module _ (q : PeerId) where
  pub disconnect-Shows :
      {m : PeerManager} {v : View}
      → Shows m v
      → Shows (disconnect q m) (put q (apply_to set_disconnected (v.entry q)) v)
  unfolding disconnect
  disconnect-Shows {m = m} {v} s =
      let t = modify_peer-Shows s q set_disconnected in
      if_intro (λ n. Shows n (put q (apply_to set_disconnected (v.entry q)) v)) (q == m.host_id)
        (λ _. t) (λ _. call-Shows t _)

  disconnect_known :
      {m : PeerManager} {v : View} (t : PeerState)
      → Shows m v
      → v.entry q ≡ some t
      → Shows (disconnect q m) (put q (some (set_disconnected t)) v)
  disconnect_known {m = m} {v} t s e =
      subst
        (λ (o : Option PeerState). Shows (disconnect q m) (put q (apply_to set_disconnected o) v)) e
        (disconnect-Shows s)

  pub found-Shows :
      {m : PeerManager} {v : View}
      → Shows m v
      → Shows (if contains q m.peers_info then m else emplace_peer q m) (discover q v)
  unfolding contains
  found-Shows {m = m} {v} s = elim (Option-cases (find q m.peers_info)) [
    | inl e ↦ rw (e, sym (s.is_entry q) ∙ e) (emplace_peer-Shows s q e)
    | inr (t, e) ↦ rw (e, sym (s.is_entry q) ∙ e) (put_same s q (some t) (sym (s.is_entry q) ∙ e))
  ]

  count-discover : (v : View) → (discover q v).count ≡ v.count
  unfolding put
  count-discover v = rest (v.entry q)
    where
      rest :
          (o : Option PeerState) → v.count + weight (some (entry_at v.tick o)) - weight o ≡ v.count
      rest none = omega arith
      rest (some t) = omega arith

  entry-discover : (v : View) → (discover q v).entry q ≡ some (entry_at v.tick (v.entry q))
  unfolding put
  entry-discover v = rw (==_refl q) refl

module _ (h : Host) (q : PeerId) where
  known-Shows : {m : PeerManager} {v : View} → Shows m v → Shows (add_known_addresses h q m) v
  unfolding add_known_addresses
  known-Shows {m = m} s = elim (Option-cases (h.get_addresses q)) [
    | inl e ↦ rw (e, add_known_addresses) s
    | inr (a, e) ↦ rw (e, add_known_addresses) (call-Shows s _)
  ]

  on_connected_entry-Shows :
      {m : PeerManager} {v : View} (t : PeerState)
      → Shows m v
      → v.entry q ≡ some t
      → Shows (on_connected_entry h q (some t) m) (put q (some (decide_on h q v.count t)) v)
  unfolding on_connected_entry
  on_connected_entry-Shows {m = m} {v} t s e = elim (Bool-cases (is_connected t.state)) [
    | inl on ↦ rw on (put_same s q (some t) e)
    | inr off ↦
        rw (off, get_connections_count-eq m.peers_info ∙ s.is_count)
          (if_put (ltb max_connections v.count) v q _ _ (disconnect_known q t s e) (
            if_put (h.has_connection q) v q _ _
              (known-Shows (
                if_intro (λ n. Shows n (put q (some (set_connected t)) v)) t.is_pinging (λ _. taken)
                  (λ _. call-Shows taken _)))
              (modify_known s q set_no_connection t e)))
  ]
    where
      taken : Shows (modify_peer q set_connected m) (put q (some (set_connected t)) v)
      taken = modify_known s q set_connected t e

  pub on_connected_peer-Shows :
      {m : PeerManager} {v : View} → Shows m v → Shows (on_connected_peer h q m) (meet h q v)
  unfolding on_connected_peer
  on_connected_peer-Shows {m = m} {v} s =
      if_Shows (m.host_id == q) (v.owner == q) (ap (λ (x : ℕ). x == q) s.is_owner) s (
        let t = entry_at v.tick (v.entry q) in
        let sf = found-Shows q s in
        rw (sf.is_entry q ∙ entry-discover q v) (
          put-put s q _ _ _ (
            subst
              (λ (n : ℕ).
                Shows
                  (on_connected_entry h q (some t)
                    (if contains q m.peers_info then m else emplace_peer q m))
                  (put q (some (decide_on h q n t)) (discover q v)))
              (count-discover q v) (on_connected_entry-Shows t sf (entry-discover q v)))))
