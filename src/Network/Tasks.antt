-- ===== src/Network/Tasks.antt =====
-- The tasks of core/src/network/protobuf/message_reader_writer.h, light2/protocol.cpp and
-- sync2/protocol.cpp, as coroutines that wait for the callbacks of libp2p.
use polkadot_light_client.Common.{Bytes, ok, Outcome, ℕ, ◌≡◌, List, ◌∷◌, ◌>>=◌, err, thrown, fault}
use polkadot_light_client.Utils.Coroutine.{
  returns, Coroutine, resume_in_callback, co_await, unless_error,
}
use polkadot_light_client.Utils.Coroutine.Interleaving.{replay, replay-unless_error, replay-returns}
use polkadot_light_client.Network.Light2.Messages.{ProtoRequest, ProtoResponse}
use polkadot_light_client.Network.Protobuf.{Streams, read_message, write_message}
use polkadot_light_client.Network.Sync2
use polkadot_light_client.Network.Light2.Protocol.{light_protocol, send}

-- What a task asks of libp2p.
pub data Question (PeerId Stream Request : Type 0) : Type 0 where
  opens_stream : PeerId → Bytes → Question PeerId Stream Request
  writes_to : Stream → Request → Question PeerId Stream Request
  reads_from : Stream → Question PeerId Stream Request

-- What the callback of a question is called with.
abbrev pub Reply :
    {PeerId Stream Request : Type 0} → Type 0 → Question PeerId Stream Request → Type 0
Reply {Stream = Stream} Response (opens_stream peer_id protocol) = Outcome Stream
Reply Response (writes_to stream msg) = Outcome ℕ
Reply Response (reads_from stream) = Outcome Response

-- A function of libp2p for each of the answers.
abbrev pub Replies : Type 0 → Type 0 → Type 0 → Type 0 → Type 0
Replies PeerId Stream Request Response = (q : Question PeerId Stream Request) → Reply Response q

-- The streams of a peer that opens_stream, is written to and is read from at three different times.
abbrev pub streams_at :
    {PeerId Stream Request Response : Type 0}
    → Replies PeerId Stream Request Response
    → Replies PeerId Stream Request Response
    → Replies PeerId Stream Request Response
    → Streams PeerId Stream Request Response
streams_at at_open at_write at_read = record {
  new_stream = λ peer_id protocol. at_open (opens_stream peer_id protocol);
  write = λ stream msg. at_write (writes_to stream msg);
  read = λ stream. at_read (reads_from stream);
}

module _ {PeerId Stream Request Response : Type 0} where
  unfoldable pub read_task :
      {A : Type 0}
      → (Response → Outcome A)
      → Stream
      → Coroutine (Question PeerId Stream Request) (Reply Response) (Outcome A)
  unfolding co_await
  read_task from_proto stream =
      co_await (resume_in_callback (reads_from stream))
        (unless_error (λ response. returns (from_proto response)))

  unfoldable pub write_task :
      {A : Type 0}
      → (A → Request)
      → A
      → Stream
      → Coroutine (Question PeerId Stream Request) (Reply Response) (Outcome (Unit {0}))
  unfolding co_await
  write_task to_proto msg stream =
      co_await (resume_in_callback (writes_to stream (to_proto msg)))
        (unless_error (λ written. returns (ok tt)))

  -- `send` of the light protocol.
  unfoldable pub light_task :
      {A B : Type 0}
      → (A → Request)
      → (Response → Outcome B)
      → A
      → PeerId
      → Coroutine (Question PeerId Stream Request) (Reply Response) (Outcome B)
  unfolding co_await read_task write_task
  light_task to_proto from_proto request peer_id =
      co_await (resume_in_callback (opens_stream peer_id light_protocol)) (
        unless_error (λ stream.
          co_await (write_task to_proto request stream)
            (unless_error (λ written. read_task from_proto stream))))

  -- `send` of the sync protocol.
  unfoldable pub sync_task :
      Request
      → PeerId
      → Coroutine (Question PeerId Stream Request) (Reply Response) (Outcome Response)
  unfolding co_await
  sync_task request peer_id =
      co_await (resume_in_callback (opens_stream peer_id Sync2.sync_protocol)) (
        unless_error (λ stream. co_await (resume_in_callback (writes_to stream request)) (
          unless_error (λ written.
            co_await (resume_in_callback (reads_from stream))
              (unless_error (λ response. returns (ok response)))))))

-- The answers to a task that has written, and to one that has opened its stream.
module _ {PeerId Stream A B : Type 0} (to_proto : A → ProtoRequest)
    (from_proto : ProtoResponse → Outcome B) (request : A)
    (at_open at_write at_read : Replies PeerId Stream ProtoRequest ProtoResponse)
    (more : List (Replies PeerId Stream ProtoRequest ProtoResponse)) where
  abbrev streams : Streams PeerId Stream ProtoRequest ProtoResponse
  streams = streams_at at_open at_write at_read

  replay-read_task :
      (stream : Stream)
      → replay (at_read ∷ more) (read_task from_proto stream)
        ≡ returns (read_message streams from_proto stream)
  unfolding read_task read_message co_await replay
  replay-read_task stream =
      replay-unless_error more _ _ (at_read (reads_from stream))
        (λ response. replay-returns more (from_proto response))

  -- A request of the light protocol ends with its third answer at the latest, as if libp2p had
  -- answered at once.
  pub replay-light_task :
      (peer_id : PeerId)
      → replay
          (at_open ∷ at_write ∷ at_read ∷ more)
          (light_task to_proto from_proto request peer_id)
        ≡ returns (send streams to_proto from_proto request peer_id)
  unfolding light_task send write_message write_task co_await replay ◌>>=◌
  replay-light_task peer_id =
      replay-unless_error (at_write ∷ at_read ∷ more) _ _
        (at_open (opens_stream peer_id light_protocol))
        λ (stream : Stream). wrote stream (at_write (writes_to stream (to_proto request)))
    where
      wrote :
          (stream : Stream) (o : Outcome ℕ)
          → replay (at_read ∷ more) (
              co_await
                (unless_error (λ written. returns (ok tt)) o)
                (unless_error (λ done. read_task from_proto stream)))
            ≡ returns (
                ◌>>=◌ {0, 0} {A = Unit {0}} {B = B}
                  (◌>>=◌ {0, 0} {A = ℕ} {B = Unit {0}} o (λ written. ok tt))
                  (λ done. read_message streams from_proto stream))
      wrote stream (ok n) = replay-read_task stream
      wrote stream (err e) = replay-returns (at_read ∷ more) (err e)
      wrote stream thrown = replay-returns (at_read ∷ more) thrown
      wrote stream fault = replay-returns (at_read ∷ more) fault

module _ {PeerId Stream Request Response : Type 0} (request : Request)
    (at_open at_write at_read : Replies PeerId Stream Request Response)
    (more : List (Replies PeerId Stream Request Response)) where
  pub replay-sync_task :
      (peer_id : PeerId)
      → replay (at_open ∷ at_write ∷ at_read ∷ more) (sync_task request peer_id)
        ≡ returns (Sync2.send (streams_at at_open at_write at_read) request peer_id)
  unfolding sync_task Sync2.send co_await replay
  replay-sync_task peer_id =
      replay-unless_error (at_write ∷ at_read ∷ more) _ _
        (at_open (opens_stream peer_id Sync2.sync_protocol))
        λ (stream : Stream).
          replay-unless_error (at_read ∷ more) _ _ (at_write (writes_to stream request))
            λ (n : ℕ). read_all (at_read (reads_from stream))
    where
      read_all :
          (o : Outcome Response)
          → replay more (unless_error (λ response. returns (ok response)) o) ≡ returns o
      read_all (ok r) = replay-returns more (ok r)
      read_all (err e) = replay-returns more (err e)
      read_all thrown = replay-returns more thrown
      read_all fault = replay-returns more fault
