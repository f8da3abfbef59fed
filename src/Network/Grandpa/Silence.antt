-- ===== src/Network/Grandpa/Silence.antt =====
-- What the protocol of core/src/network/grandpa/protocol.cpp comes to.
use polkadot_light_client.Common.{
  if_intro, ErrorCode, Outcome, ℕ, zero, suc, ◌≡◌, refl, Bool, false, List, [], ◌∷◌, ◌⊎◌,
}
use polkadot_light_client.Network.Grandpa.Messages.{Message}
use polkadot_light_client.Network.Grandpa.Protocol.{
  starts, stops, message_read, Protocol, new_protocol, start, stop, reading_round, Event, read_if,
  step, run, ended, on_received, moved_from,
}

module _ {PeerId : Type 0} where
  -- Not running, with this many messages for the observer.
  record IsIdle (seen : List (PeerId × Message)) (p : Protocol PeerId) : Type 0 where
    idle : p.is_running ≡ false
    silent : p.observed ≡ seen

  reading_round-IsIdle :
      (seen : List (PeerId × Message)) (owner_lives : Bool) (received : ErrorCode ⊎ Message)
      (p : Protocol PeerId)
      → IsIdle seen p
      → IsIdle seen (reading_round moved_from owner_lives received p).0
  unfolding reading_round on_received
  reading_round-IsIdle seen owner_lives received p i =
      let after : IsIdle seen (ended p) = record { idle = i.idle; silent = i.silent } in
      if_intro (λ (r : Protocol PeerId × Outcome (Unit {0})). IsIdle seen r.0) owner_lives
        (λ _.
          if_intro (λ (r : Protocol PeerId × Outcome (Unit {0})). IsIdle seen r.0) p.is_running
            (λ _. after) (λ _. after))
        (λ _. after)

  step-IsIdle :
      (seen : List (PeerId × Message)) (p : Protocol PeerId) (e : Event)
      → IsIdle seen p
      → IsIdle seen (step p e).0
  unfolding step start stop
  step-IsIdle seen p starts i =
      if_intro (IsIdle seen) p.is_running (λ _. i)
        (λ _. record { idle = i.idle; silent = i.silent })
  step-IsIdle seen p stops i =
      if_intro (IsIdle seen) p.is_running (λ _. record { idle = refl; silent = i.silent }) (λ _. i)
  step-IsIdle seen p (message_read owner_lives received) i = reads p.reading
    where
      reads : (n : ℕ) → IsIdle seen (read_if n owner_lives received p).0
      reads zero = i
      reads (suc n) = reading_round-IsIdle seen owner_lives received p i

  run-IsIdle :
      (seen : List (PeerId × Message)) (p : Protocol PeerId) (es : List Event)
      → IsIdle seen p
      → IsIdle seen (run p es)
  unfolding run
  run-IsIdle seen p [] i = i
  run-IsIdle seen p (e ∷ es) i = run-IsIdle seen (step p e).0 es (step-IsIdle seen p e i)

  -- However often the protocol is started and stopped, and whatever is read, it never counts as
  -- running, and the observer is given no message.
  pub run-new_protocol :
      (es : List Event)
      → ((run {PeerId = PeerId} new_protocol es).is_running ≡ false)
        × ((run {PeerId = PeerId} new_protocol es).observed ≡ [])
  run-new_protocol es =
      let i = run-IsIdle [] new_protocol es (record { idle = refl; silent = refl }) in
      (i.idle, i.silent)
