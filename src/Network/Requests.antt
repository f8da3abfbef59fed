-- ===== src/Network/Requests.antt =====
-- Requests of core/src/network/light2/protocol.cpp and sync2/protocol.cpp that wait at the same time.
use polkadot_light_client.Common.{get_elem?, ok, Outcome, ℕ, ◌≡◌, some, List, ◌∷◌}
use polkadot_light_client.Utils.Coroutine.{returns, Coroutine, resume_all}
use polkadot_light_client.Utils.Coroutine.Interleaving.{replay, own, resume_all-own}
use polkadot_light_client.Network.Tasks.{
  Question, Reply, Replies, streams_at, light_task, sync_task, replay-light_task, replay-sync_task,
}
use polkadot_light_client.Network.Light2.Messages.{ProtoRequest, ProtoResponse}
use polkadot_light_client.Network.Light2.Protocol.{send}
use polkadot_light_client.Network.Sync2

-- The `i`-th of the tasks ends with this result, whatever becomes of the others.
abbrev pub EndsWith :
    {Ask : Type 0} {Answer : Ask → Type 0} {A : Type 0}
    → ℕ
    → List (ℕ × ((q : Ask) → Answer q))
    → List (Coroutine Ask Answer A)
    → A
    → Type 0
EndsWith {Ask} {Answer} {A} i es cs r =
    (ds : List (Coroutine Ask Answer A)) × (resume_all es cs ≡ ok ds)
    × (get_elem? ds i ≡ some (returns r))

EndsWith-replay :
    {Ask : Type 0} {Answer : Ask → Type 0} {A : Type 0} (i : ℕ)
    (es : List (ℕ × ((q : Ask) → Answer q))) (cs : List (Coroutine Ask Answer A))
    (c : Coroutine Ask Answer A) (r : A)
    → get_elem? cs i ≡ some c
    → replay (own i es) c ≡ returns r
    → EndsWith i es cs r
EndsWith-replay i es cs c r e ended =
    let (ds, all, at) = resume_all-own es cs i c e in (ds, all, cc (at, ended))

module _ {PeerId Stream : Type 0} (i : ℕ)
    (es : List (ℕ × Replies PeerId Stream ProtoRequest ProtoResponse))
    (at_open at_write at_read : Replies PeerId Stream ProtoRequest ProtoResponse)
    (more : List (Replies PeerId Stream ProtoRequest ProtoResponse)) where
  -- Of several requests of the light protocol that wait at once, each one that got three answers has
  -- ended, in whatever order the answers came. Its result is that of `send` with its own answers.
  pub light_task-EndsWith :
      {A B : Type 0}
      (cs : List
        (Coroutine (Question PeerId Stream ProtoRequest) (Reply ProtoResponse) (Outcome B)))
      (to_proto : A → ProtoRequest) (from_proto : ProtoResponse → Outcome B) (request : A)
      (peer_id : PeerId)
      → get_elem? cs i ≡ some (light_task to_proto from_proto request peer_id)
      → own i es ≡ at_open ∷ at_write ∷ at_read ∷ more
      → EndsWith i es cs
          (send (streams_at at_open at_write at_read) to_proto from_proto request peer_id)
  light_task-EndsWith cs to_proto from_proto request peer_id e answers =
      EndsWith-replay i es cs _ _ e (
        rw answers
          (replay-light_task to_proto from_proto request at_open at_write at_read more peer_id))

module _ {PeerId Stream Request Response : Type 0} (i : ℕ)
    (es : List (ℕ × Replies PeerId Stream Request Response))
    (at_open at_write at_read : Replies PeerId Stream Request Response)
    (more : List (Replies PeerId Stream Request Response)) where
  -- The same for the requests of the sync protocol.
  pub sync_task-EndsWith :
      (cs : List (Coroutine (Question PeerId Stream Request) (Reply Response) (Outcome Response)))
      (request : Request) (peer_id : PeerId)
      → get_elem? cs i ≡ some (sync_task request peer_id)
      → own i es ≡ at_open ∷ at_write ∷ at_read ∷ more
      → EndsWith i es cs (Sync2.send (streams_at at_open at_write at_read) request peer_id)
  sync_task-EndsWith cs request peer_id e answers =
      EndsWith-replay i es cs _ _ e
        (rw answers (replay-sync_task request at_open at_write at_read more peer_id))
