-- ===== src/Network/PeerManager/Choices.antt =====
-- The loops of core/src/network/peer_manager.cpp choose among what the map of peers allows.
use polkadot_light_client.Common.{
  ◌==◌, if_intro, ℕ, suc, ◌-◌, ◌≡◌, ◌≢◌, true, arith, Bool-cases, IsIn, ◌<◌, inl, inr, List, [],
  ◌∷◌, refl, subst, ◌∙◌, Option, ==_refl, some, ap, none,
}
use polkadot_light_client.Network.PeerManager.Table.{
  PeerId, is_empty, may_connect, may_disconnect, find, PeerState, apply_to,
}
use polkadot_light_client.Network.PeerManager.Loops.{may_connect-cases, may_disconnect-cases}
use polkadot_light_client.Network.PeerManager.View.{
  View, put, redial, drop_at, Shows, filled, exhausted, dial, Dials, settled, emptied, drop_peer,
  Drops,
}
use polkadot_light_client.Network.PeerManager.Refines.{
  call-Shows, modify_peer-Shows, put-put, disconnect-Shows,
}
use polkadot_light_client.Network.PeerManager.{
  connect, Host, PeerManager, start_connecting, connect_loop, max_connections, modify_peer,
  disconnect, start_disconnecting, disconnect_loop, set_disconnected,
}

connect-Shows :
    (h : Host) (p : PeerId) {m : PeerManager} {v : View} → Shows m v → Shows (connect h p m) v
unfolding connect
connect-Shows h p {m} {v} s =
    if_intro (λ n. Shows n v) (p == m.host_id) (λ _. s)
      λ _.
        if_intro (λ n. Shows n v) (is_empty (h.peer_addresses p)) (λ _. s)
          λ _. if_intro (λ n. Shows n v) (h.can_not_connect p) (λ _. s) λ _. call-Shows s _

pub tick-put : (q : PeerId) (o : Option PeerState) (v : View) → (put q o v).tick ≡ v.tick
unfolding put
tick-put q o v = refl

-- One round of either loop, on the map.
module _ (t : ℕ) (p : PeerId) (v : View) where
  count-redial : may_connect (v.entry p) ≡ true → (redial t p v).count ≡ suc v.count
  unfolding put
  count-redial c = let (s, e, idle, _) = may_connect-cases (v.entry p) c in rw e (ground arith)

  redial_taken :
      (j : PeerId)
      → may_connect ((redial t p v).entry j) ≡ true
      → (may_connect (v.entry j) ≡ true) × (p ≢ j)
  unfolding put
  redial_taken j c = ground (arith, c)

  count-drop_at : may_disconnect (v.entry p) ≡ true → (drop_at t p v).count ≡ v.count - 1
  unfolding put
  count-drop_at c = let (s, e, on) = may_disconnect-cases (v.entry p) c in rw e (ground arith)

  drop_at_taken :
      (j : PeerId)
      → may_disconnect ((drop_at t p v).entry j) ≡ true
      → (may_disconnect (v.entry j) ≡ true) × (p ≢ j)
  unfolding put
  drop_at_taken j c = ground (arith, c)

-- The state `m` is one of those that `R` relates to `v`.
pub record Chosen (R : View → View → Type 0) (v : View) (m : PeerManager) : Type 0 where
  pub result : View
  pub allowed : R v result
  pub shown : Shows m result

pub connect_loop-Dials :
    (h : Host) (t : ℕ) (ps : List PeerId) (n : ℕ) (m : PeerManager) (v : View)
    → Shows m v
    → v.tick ≡ t
    → v.count ≡ n
    → n < max_connections
    → ((j : PeerId) → may_connect (v.entry j) ≡ true → IsIn j ps)
    → Chosen (Dials t) v (connect_loop h ps n m)
unfolding connect_loop
connect_loop-Dials h t [] n m v s at e lt left = record {
  result = v;
  allowed = exhausted (λ j. ground (arith, left j));
  shown = s;
}
connect_loop-Dials h t (p ∷ ps) n m v s at e lt left =
    elim (Bool-cases (may_connect (find p m.peers_info))) [
      | inl c ↦
          let c1 : may_connect (v.entry p) ≡ true = cc (c, s.is_entry p) in
          let s1 : Shows (connect h p (modify_peer p (start_connecting m.current_tick) m))
              (redial t p v) =
            subst
              (λ (x : ℕ).
                Shows (connect h p (modify_peer p (start_connecting m.current_tick) m))
                  (redial x p v))
              (s.is_tick ∙ at)
              (connect-Shows h p (modify_peer-Shows s p (start_connecting m.current_tick))) in
          let k = count-redial t p v c1 in
          rw (c, connect_loop)
            (if_intro (Chosen (Dials t) v) (suc n == max_connections)
              (λ full. record {
                result = redial t p v;
                allowed = dial p c1 (filled (ground (arith, k)));
                shown = s1;
              })
              (λ more.
                let after =
                  connect_loop-Dials h t ps (suc n) _ (redial t p v) s1 (tick-put p _ v ∙ at)
                    (omega (arith, k)) (ground arith)
                    (λ j d. ground (arith, redial_taken t p v j d, left j)) in
                record {
                  result = after.result;
                  allowed = dial p c1 after.allowed;
                  shown = after.shown;
                }))
      | inr c ↦
          rw (c, connect_loop)
            (connect_loop-Dials h t ps n m v s at e lt
              (λ j d. ground (arith, s.is_entry p, left j)))
    ]

entry-put : (q : PeerId) (o : Option PeerState) (v : View) → (put q o v).entry q ≡ o
unfolding put
entry-put q o v = rw (==_refl q) refl

-- A write and the disconnection after it, both at the current tick.
pub both-Shows :
    (q : PeerId) (f : ℕ → PeerState → PeerState) {m : PeerManager} {v : View}
    → Shows m v
    → Shows
        (disconnect q (modify_peer q (f m.current_tick) m))
        (put q (apply_to (λ s. set_disconnected (f v.tick s)) (v.entry q)) v)
both-Shows q f {m} {v} s =
    let o1 = apply_to (f m.current_tick) (v.entry q) in
    subst
      (λ (o : Option PeerState).
        Shows (disconnect q (modify_peer q (f m.current_tick) m)) (put q o v))
      (ap (apply_to set_disconnected) (entry-put q o1 v) ∙ joined (v.entry q) s.is_tick)
      (put-put s q _ o1 _ (disconnect-Shows q (modify_peer-Shows s q (f m.current_tick))))
  where
    joined :
        (o : Option PeerState)
        → m.current_tick ≡ v.tick
        → apply_to set_disconnected (apply_to (f m.current_tick) o)
          ≡ apply_to (λ s. set_disconnected (f v.tick s)) o
    joined none e = refl
    joined (some t) e = ap (λ (x : ℕ). some (set_disconnected (f x t))) e

pub disconnect_loop-Drops :
    (t : ℕ) (ps : List PeerId) (n : ℕ) (m : PeerManager) (v : View)
    → Shows m v
    → v.tick ≡ t
    → v.count ≡ n
    → max_connections < n
    → ((j : PeerId) → may_disconnect (v.entry j) ≡ true → IsIn j ps)
    → Chosen (Drops t) v (disconnect_loop ps n m)
unfolding disconnect_loop
disconnect_loop-Drops t [] n m v s at e lt left = record {
  result = v;
  allowed = emptied (λ j. ground (arith, left j));
  shown = s;
}
disconnect_loop-Drops t (p ∷ ps) n m v s at e lt left =
    elim (Bool-cases (may_disconnect (find p m.peers_info))) [
      | inl c ↦
          let c1 : may_disconnect (v.entry p) ≡ true = cc (c, s.is_entry p) in
          let s1 : Shows (disconnect p (modify_peer p (start_disconnecting m.current_tick) m))
              (drop_at t p v) =
            subst
              (λ (x : ℕ).
                Shows (disconnect p (modify_peer p (start_disconnecting m.current_tick) m))
                  (drop_at x p v))
              at (both-Shows p start_disconnecting s) in
          let k = count-drop_at t p v c1 in
          rw (c, disconnect_loop)
            (if_intro (Chosen (Drops t) v) (n - 1 == max_connections)
              (λ full. record {
                result = drop_at t p v;
                allowed = drop_peer p c1 (settled (ground (arith, k)));
                shown = s1;
              })
              (λ more.
                let after =
                  disconnect_loop-Drops t ps (n - 1) _ (drop_at t p v) s1 (tick-put p _ v ∙ at)
                    (omega (arith, k)) (ground arith)
                    (λ j d. ground (arith, drop_at_taken t p v j d, left j)) in
                record {
                  result = after.result;
                  allowed = drop_peer p c1 after.allowed;
                  shown = after.shown;
                }))
      | inr c ↦
          rw (c, disconnect_loop)
            (disconnect_loop-Drops t ps n m v s at e lt
              (λ j d. ground (arith, s.is_entry p, left j)))
    ]
