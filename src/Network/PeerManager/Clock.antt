-- ===== src/Network/PeerManager/Clock.antt =====
-- The peer manager of core/src/network/peer_manager.cpp with the timer of core/src/runner/timer.cpp,
-- whose handler is `updateConnections`.
use polkadot_light_client.Common.{
  ◌==◌, if◌then◌else◌, Bytes, ok, Outcome, ℕ, suc, ◌%◌, ◌^◌, ◌≡◌, refl, sym, ap, subst, ◌∙◌, ◌⊎◌,
  inl, inr, Bool, true, false, Option, List, arith,
}
use polkadot_light_client.Network.PeerManager.{
  timer, update_connections, Event, step, Host, PeerManager, next_tick,
}
use polkadot_light_client.Network.PeerManager.Table.{Peers}
use polkadot_light_client.Network.PeerManager.Ticks.{
  update_connections-tick, step-tick, construct-tick,
}
use polkadot_light_client.Network.PeerManager.Invariant.{IsSound}
use polkadot_light_client.Network.PeerManager.Start.{PeerInfo, Kademlia, construct}
use polkadot_light_client.Network.PeerManager.Lifetime.{construct-IsSound}
use polkadot_light_client.Network.PeerManager.Reachable.{update_connections-IsSettled, step-IsSound}
use polkadot_light_client.Network.PeerManager.Order.{Reorder, rehash-IsSound}
use polkadot_light_client.Runner.Timer.{State, start, on_wait, end_wait}
use polkadot_light_client.Runner.Ticking.{ticking}

-- The manager with the timer that it makes in `startAndUpdateConnections`.
pub record Clocked : Type 0 where
  pub manager : PeerManager
  pub m_timer : State

abbrev pub with_timer : PeerManager → Clocked
with_timer m = record { manager = m; m_timer = start }

-- A wait of the timer ends: where that calls the handler, the connections are updated.
unfoldable pub elapse : Host → Bool → Clocked → Clocked
elapse h error s =
    let ended = end_wait s.m_timer.pending error false s.m_timer in
    record {
      manager =
          if ended.calls == s.m_timer.calls then s.manager else update_connections h s.manager;
      m_timer = ended;
    }

-- What happens: a report of libp2p or a call of `stop`, a new order of the table, or the end of a
-- wait.
pub data Occurs (s t : Clocked) : Type 0 where
  reports :
      (e : Host × Event)
      → ¬ (e.1 ≡ timer)
      → t ≡ record s { manager = step s.manager e }
      → Occurs s t
  rehashed :
      (ps : Peers)
      → Reorder s.manager.peers_info ps
      → t ≡ record s { manager = record s.manager { peers_info = ps } }
      → Occurs s t
  elapses : (h : Host) (error : Bool) → t ≡ elapse h error s → Occurs s t

pub data Occurred (s : Clocked) : Clocked → Type 0 where
  nothing_yet : Occurred s s
  and_then : {t u : Clocked} → Occurred s t → Occurs t u → Occurred s u

-- The manager and the timer that a wait is pending for.
abbrev pub due : PeerManager → ℕ → Clocked
due m calls = record { manager = m; m_timer = ticking calls }

elapse-due :
    (h : Host) (m : PeerManager) (calls : ℕ)
    → elapse h false (due m calls) ≡ due (update_connections h m) (suc calls)
unfolding elapse on_wait
elapse-due h m calls = let other : (suc calls == calls) ≡ false = ground arith in rw other refl

elapse_error :
    (h : Host) (m : PeerManager) (calls : ℕ)
    → elapse h true (due m calls)
      ≡ record { manager = m; m_timer = record (ticking calls) { pending = 0 } }
unfolding elapse on_wait
elapse_error h m calls = let same : (calls == calls) ≡ true = ground arith in rw same refl

elapse_idle : (h : Host) (error : Bool) (s : Clocked) → s.m_timer.pending ≡ 0 → elapse h error s ≡ s
unfolding elapse
elapse_idle h error s e =
    let same : (s.m_timer.calls == s.m_timer.calls) ≡ true = ground arith in rw (e, same) refl

-- A wait ended in an error.
abbrev pub IsError : {s t : Clocked} → Occurs s t → Type 0
IsError (reports e other is) = ⊥
IsError (rehashed ps r is) = ⊥
IsError (elapses h error is) = error ≡ true

abbrev pub Failed : {s t : Clocked} → Occurred s t → Type 0
Failed nothing_yet = ⊥
Failed (and_then o e) = Failed o ⊎ IsError e

-- The manager meets its invariant, its tick counts the rounds, and the timer waits, or has ended with
-- a failure.
record IsClocked (is_over : Type 0) (s : Clocked) : Type 0 where
  sound : IsSound s.manager
  tick : s.manager.current_tick ≡ suc s.m_timer.calls % 2 ^ 64
  waits :
      ((¬ is_over) × (s.m_timer ≡ ticking s.m_timer.calls)) ⊎ (is_over × (s.m_timer.pending ≡ 0))

-- The same failures, told otherwise.
no_more : {F G : Type 0} → (F → G) → (G → F) → {s : Clocked} → IsClocked F s → IsClocked G s
no_more f g v = record {
  sound = v.sound;
  tick = v.tick;
  waits = elim v.waits [ inl (fine, e) ↦ inl (λ x. fine (g x), e) | inr (bad, e) ↦ inr (f bad, e) ];
}

module _ {is_over : Type 0} where
  elapse-due-IsClocked :
      (h : Host) (error : Bool) (m : PeerManager) (calls : ℕ)
      → ¬ is_over
      → IsSound m
      → m.current_tick ≡ suc calls % 2 ^ 64
      → IsClocked (is_over ⊎ (error ≡ true)) (elapse h error (due m calls))
  elapse-due-IsClocked h true m calls fine v e =
      subst (IsClocked (is_over ⊎ (true ≡ true))) (sym (elapse_error h m calls))
        (record { sound = v; tick = e; waits = inr (inr refl, refl) })
  elapse-due-IsClocked h false m calls fine v e =
      subst (IsClocked (is_over ⊎ (false ≡ true))) (sym (elapse-due h m calls)) (record {
        sound = (update_connections-IsSettled h m v).sound;
        tick = update_connections-tick h m ∙ ap next_tick e ∙ omega arith;
        waits = inl (not_failed, refl);
      })
    where
      not_failed : is_over ⊎ (false ≡ true) → ⊥
      not_failed (inl x) = fine x
      not_failed (inr x) = cc

  module _ (s : Clocked) (v : IsClocked is_over s) where
    changed-IsClocked :
        (m : PeerManager)
        → IsSound m
        → m.current_tick ≡ s.manager.current_tick
        → IsClocked (is_over ⊎ ⊥) (record s { manager = m })
    changed-IsClocked m sound e =
        no_more inl only_left (record { sound = sound; tick = e ∙ v.tick; waits = v.waits })
      where
        only_left : is_over ⊎ ⊥ → is_over
        only_left (inl x) = x
        only_left (inr x) = absurd x

    elapse-IsClocked :
        (h : Host) (error : Bool) → IsClocked (is_over ⊎ (error ≡ true)) (elapse h error s)
    elapse-IsClocked h error = elim v.waits [
      | inr (bad, ended) ↦
          subst (IsClocked (is_over ⊎ (error ≡ true))) (sym (elapse_idle h error s ended))
            (no_more inl (λ x. bad) v)
      | inl (fine, waiting) ↦
          subst
            (λ (t : State).
              IsClocked (is_over ⊎ (error ≡ true)) (elapse h error (record s { m_timer = t })))
            (sym waiting)
            (elapse-due-IsClocked h error s.manager s.m_timer.calls fine v.sound v.tick)
    ]

    Occurs-IsClocked : {t : Clocked} → (e : Occurs s t) → IsClocked (is_over ⊎ IsError e) t
    Occurs-IsClocked (reports e other is) =
        subst (IsClocked (is_over ⊎ ⊥)) (sym is)
          (changed-IsClocked _ (step-IsSound s.manager e v.sound) (step-tick s.manager e other))
    Occurs-IsClocked (rehashed ps r is) =
        subst (IsClocked (is_over ⊎ ⊥)) (sym is)
          (changed-IsClocked _ (rehash-IsSound s.manager ps r v.sound) refl)
    Occurs-IsClocked (elapses h error is) =
        subst (IsClocked (is_over ⊎ (error ≡ true))) (sym is) (elapse-IsClocked h error)

Occurred-IsClocked : {s t : Clocked} → (o : Occurred s t) → IsClocked ⊥ s → IsClocked (Failed o) t
Occurred-IsClocked nothing_yet v = v
Occurred-IsClocked (and_then o e) v = Occurs-IsClocked _ (Occurred-IsClocked o v) e

-- The manager that was constructed, with its timer, after any reports, calls of `stop`, new orders of
-- its table and ends of waits: it meets its invariant, and its tick is the number of its rounds,
-- modulo 2^64, the one of the constructor and one for each call of the handler. If no wait has ended
-- in an error, the next one that ends without an error is a round, after which a wait is pending
-- again, also after `stop`. If one has, nothing happens any more when a wait ends.
pub Occurred-construct :
    (kademlia : Kademlia) (info : Bytes → Outcome (Option PeerInfo)) (h : Host) (host : PeerInfo)
    (peers : List Bytes) (m : PeerManager) (s : Clocked) (at_timer : Host)
    → construct kademlia h host info peers ≡ ok m
    → (o : Occurred (with_timer m) s)
    → IsSound s.manager
      × (s.manager.current_tick ≡ suc s.m_timer.calls % 2 ^ 64)
      × (((¬ Failed o)
            × (elapse at_timer false s
                ≡ due (update_connections at_timer s.manager) (suc s.m_timer.calls)))
          ⊎ (Failed o × ((error : Bool) → elapse at_timer error s ≡ s)))
Occurred-construct kademlia info h host peers m s at_timer made o =
    let v = Occurred-IsClocked o (record {
      sound = construct-IsSound kademlia info h host peers m made;
      tick = construct-tick kademlia info h host peers m made;
      waits = inl (λ x. x, refl);
    }) in
    (
      v.sound,
      v.tick,
      elim v.waits [
        | inl (fine, waiting) ↦ inl (
          fine,
          ap (λ (t : State). elapse at_timer false (record s { m_timer = t })) waiting
              ∙ elapse-due at_timer s.manager s.m_timer.calls,
        )
        | inr (bad, ended) ↦ inr (bad, λ error. elapse_idle at_timer error s ended)
      ],
    )
