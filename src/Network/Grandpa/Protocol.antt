-- ===== src/Network/Grandpa/Protocol.antt =====
-- core/src/network/grandpa/protocol.h and protocol.cpp, and common/roles.h. The tasks of the protocol
-- wait for the stream: what each gets of it is an argument.
use polkadot_light_client.Common.{
  ◌==◌, if◌then◌else◌, ok, err, thrown, fault, Outcome, ℕ, zero, suc, ◌+◌, ◌-◌, ◌/◌, ◌%◌, Bool,
  true, false, ◌&&◌, List, [], ◌∷◌, ErrorCode, ◌⊎◌, inl, inr, Option, none, some, ◌++◌,
}
use polkadot_light_client.Network.Grandpa.Messages.{Message}

-- The byte of a handshake. The second of its bits is the flag of a light client.
abbrev pub Roles : Type 0
Roles = ℕ

abbrev pub set_light : Roles → Roles
set_light roles = if roles / 2 % 2 == 0 then roles + 2 else roles

-- The members, with what the tasks have done: the messages that the observer was given.
pub record Protocol (PeerId : Type 0) : Type 0 where
  pub is_running : Bool
  pub handler_set : Bool
  -- the reading tasks that wait for a message
  pub reading : ℕ
  pub observed : List (PeerId × Message)

-- What happens to a protocol: a waiting task gets a message, or an error.
pub data Event : Type 0 where
  starts stops : Event
  message_read : Bool → ErrorCode ⊎ Message → Event

module _ {PeerId : Type 0} where
  abbrev pub new_protocol : Protocol PeerId
  new_protocol = record { is_running = false; handler_set = false; reading = 0; observed = [] }

  -- The handler is set, and a reading task runs up to its first wait, on a loopback stream.
  unfoldable pub start : Protocol PeerId → Protocol PeerId
  start p = if p.is_running then p else record p { handler_set = true; reading = suc p.reading }

  unfoldable pub stop : Protocol PeerId → Protocol PeerId
  stop p = if p.is_running then record p { is_running = false } else p

  abbrev pub ended : Protocol PeerId → Protocol PeerId
  ended p = record p { reading = p.reading - 1 }

  -- A round of `readingTask` that got a message or an error, for a protocol that runs. Each use of a
  -- null stream is a fault.
  unfoldable pub on_received :
      Option PeerId → ErrorCode ⊎ Message → Protocol PeerId → Protocol PeerId × Outcome (Unit {0})
  on_received none received p = (ended p, fault)
  on_received (some peer_id) (inl e) p = (ended p, ok tt)
  on_received (some peer_id) (inr m) p =
      (record p { observed = p.observed ++ (peer_id, m) ∷ [] }, ok tt)

  abbrev pub reset_stream : Option PeerId → Protocol PeerId → Protocol PeerId × Outcome (Unit {0})
  reset_stream none p = (ended p, fault)
  reset_stream (some peer_id) p = (ended p, ok tt)

  -- A round of `readingTask`, by its stream, if it has one, with the remote peer of it.
  unfoldable pub reading_round :
      Option PeerId
      → Bool
      → ErrorCode ⊎ Message
      → Protocol PeerId
      → Protocol PeerId × Outcome (Unit {0})
  unfolding on_received
  reading_round stream owner_lives received p =
      if owner_lives
      then (if p.is_running then on_received stream received p else (ended p, ok tt))
      else reset_stream stream p

  -- The stream of a reading task after `std::move`.
  abbrev pub moved_from : Option PeerId
  moved_from = none

  -- A message or an error reaches a task that waits; none may.
  abbrev pub read_if :
      ℕ → Bool → ErrorCode ⊎ Message → Protocol PeerId → Protocol PeerId × Outcome (Unit {0})
  read_if zero owner_lives received p = (p, ok tt)
  read_if (suc n) owner_lives received p = reading_round moved_from owner_lives received p

  unfoldable pub step : Protocol PeerId → Event → Protocol PeerId × Outcome (Unit {0})
  unfolding start stop reading_round
  step p starts = (start p, ok tt)
  step p stops = (stop p, ok tt)
  step p (message_read owner_lives received) = read_if p.reading owner_lives received p

  unfoldable pub run : Protocol PeerId → List Event → Protocol PeerId
  unfolding step
  run p [] = p
  run p (e ∷ es) = run (step p e).0 es

-- What is done to a stream.
pub data StreamCall : Type 0 where
  write_roles : Roles → StreamCall
  reset : StreamCall

-- `incomingStreamTask`: the roles read, and the result of writing those of a light client.
unfoldable pub answer_handshake : Outcome ℕ → List StreamCall
answer_handshake (ok written) = write_roles (set_light 0) ∷ []
answer_handshake (err e) = write_roles (set_light 0) ∷ reset ∷ []
answer_handshake thrown = write_roles (set_light 0) ∷ []
answer_handshake fault = write_roles (set_light 0) ∷ []

unfoldable pub incoming_stream_task : Outcome Roles → Outcome ℕ → List StreamCall
unfolding answer_handshake
incoming_stream_task (ok roles) write_res = answer_handshake write_res
incoming_stream_task (err e) write_res = reset ∷ []
incoming_stream_task thrown write_res = []
incoming_stream_task fault write_res = []

-- The handler of streams: nothing is done without the protocol or without the peer.
unfoldable pub handle_stream : Bool → Bool → Outcome Roles → Outcome ℕ → List StreamCall
unfolding incoming_stream_task
handle_stream owner_lives peer_known read_res write_res =
    if owner_lives && peer_known then incoming_stream_task read_res write_res else []
