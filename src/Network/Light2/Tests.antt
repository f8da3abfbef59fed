-- ===== src/Network/Light2/Tests.antt =====
-- Nodes that answer, and the properties of the light and sync protocols at concrete inputs.
use polkadot_light_client.Network.Sync2
use polkadot_light_client.Network.Sync2
use polkadot_light_client.Network.Sync2
use polkadot_light_client.Network.Sync2
use polkadot_light_client.Common.{
  ◌==◌, if◌then◌else◌, if_intro, replicate, get_elem?, codes, library, ok, err, fault, Outcome,
  ◌>>=◌, Returns, ℕ, ◌≡◌, refl, ◌↔◌, none, some, List, [], ◌∷◌,
}
use polkadot_light_client.Network.Errors.{invalid_response, protocol_error}
use polkadot_light_client.Utils.Coroutine.{Coroutine}
use polkadot_light_client.Utils.Coroutine.Interleaving.{own}
use polkadot_light_client.Network.Tasks.{
  opens_stream, writes_to, reads_from, Question, Reply, Replies, streams_at, light_task, sync_task,
}
use polkadot_light_client.Network.Requests.{EndsWith, light_task-EndsWith, sync_task-EndsWith}
use polkadot_light_client.Network.Protobuf.{Streams}
use polkadot_light_client.Network.Light2.Messages.{
  remote_call_request, remote_read_request, remote_read_response, response_not_set, ProtoRequest,
  ProtoResponse, RemoteReadRequest, RemoteReadResponse, read_to_proto, read_from_proto,
}
use polkadot_light_client.Network.Light2.Protocol.{light_protocol, send, send_read}
use polkadot_light_client.Network.Light2.Sending.{
  IsExchange, send_read_iff, send_read_invalid, send_blocks_iff,
}
use polkadot_light_client.Network.Light2.Missing.{ReturnsAlways, send_read-fault_iff}
use polkadot_light_client.Network.Sync2
use polkadot_light_client.Network.Sync2
use polkadot_light_client.Network.Sync2
use polkadot_light_client.Network.Sync2

-- Peer 3 answers every request with this response.
abbrev pub answering : ProtoResponse → Streams ℕ ℕ ProtoRequest ProtoResponse
answering response = record {
  new_stream =
      λ peer protocol. if peer == 3 then ok 30 else err (record { category = library; value = 1 });
  write = λ stream request. ok 5;
  read = λ stream. ok response;
}

abbrev pub request : RemoteReadRequest
request = record { block = replicate 32 1; keys = codes ":code" ∷ codes ":heappages" ∷ [] }

send_read_test :
    send_read (answering (remote_read_response (some (1 ∷ [])))) request 4
    ≡ err (record { category = library; value = 1 })
unfolding send_read send ◌>>=◌
send_read_test = refl

send_read_iff_example :
    (send_read (answering (remote_read_response (some (1 ∷ [])))) request 3
      ≡ ok (record { proof = 1 ∷ [] }))
    ↔ IsExchange
        (answering (remote_read_response (some (1 ∷ []))))
        light_protocol
        3
        (remote_read_request request.block request.keys)
        (remote_read_response (some (1 ∷ [])))
send_read_iff_example =
    send_read_iff (answering (remote_read_response (some (1 ∷ [])))) request 3
      (record { proof = 1 ∷ [] })

send_read_invalid_test :
    send_read (answering response_not_set) request 3 ≡ err (protocol_error invalid_response)
send_read_invalid_test =
    send_read_invalid (answering response_not_set) request 3 response_not_set
      (30, 5, refl, refl, refl) (λ proof e. absurd (cc))

send_blocks_iff_test :
    (Sync2.send (answering response_not_set) (remote_call_request [] [] []) 3 ≡ ok response_not_set)
    ↔ IsExchange
        (answering response_not_set)
        Sync2.sync_protocol
        3
        (remote_call_request [] [] [])
        response_not_set
send_blocks_iff_test =
    send_blocks_iff (answering response_not_set) (remote_call_request [] [] []) 3 response_not_set

-- Two requests at once, the answers to the second between those to the first.
abbrev replies : ProtoResponse → Replies ℕ ℕ ProtoRequest ProtoResponse
replies response (opens_stream peer protocol) = ok 30
replies response (writes_to stream msg) = ok 5
replies response (reads_from stream) = ok response

abbrev first_reply : Replies ℕ ℕ ProtoRequest ProtoResponse
first_reply = replies (remote_read_response (some (1 ∷ [])))

abbrev second_reply : Replies ℕ ℕ ProtoRequest ProtoResponse
second_reply = replies (remote_read_response (some (2 ∷ [])))

abbrev replies_of_two : List (ℕ × Replies ℕ ℕ ProtoRequest ProtoResponse)
replies_of_two =
    (0, first_reply)
    ∷ (1, second_reply)
    ∷ (1, second_reply)
    ∷ (0, first_reply)
    ∷ (1, second_reply)
    ∷ (0, first_reply)
    ∷ []

abbrev request_task :
    Coroutine (Question ℕ ℕ ProtoRequest) (Reply ProtoResponse) (Outcome RemoteReadResponse)
request_task = light_task read_to_proto read_from_proto request 3

light_task-EndsWith_example : EndsWith 1 replies_of_two (request_task ∷ request_task ∷ []) (
    send
      (streams_at second_reply second_reply second_reply)
      read_to_proto
      read_from_proto
      request
      3)
unfolding own get_elem?
light_task-EndsWith_example =
    light_task-EndsWith 1 replies_of_two second_reply second_reply second_reply []
      (request_task ∷ request_task ∷ []) read_to_proto read_from_proto request 3 refl refl

-- Two requests for blocks at once, of peers that share a protocol of messages.
abbrev block_request : ProtoRequest
block_request = remote_call_request [] [] []

abbrev two_syncs :
    List (Coroutine (Question ℕ ℕ ProtoRequest) (Reply ProtoResponse) (Outcome ProtoResponse))
two_syncs = sync_task block_request 3 ∷ sync_task block_request 4 ∷ []

sync_task-EndsWith_example :
    EndsWith 1 replies_of_two two_syncs
      (Sync2.send (streams_at second_reply second_reply second_reply) block_request 4)
unfolding own get_elem?
sync_task-EndsWith_example =
    sync_task-EndsWith 1 replies_of_two second_reply second_reply second_reply [] two_syncs
      block_request 4 refl refl

abbrev no_proof : ProtoResponse
no_proof = remote_read_response none

answering-ReturnsAlways : (response : ProtoResponse) → ReturnsAlways (answering response)
answering-ReturnsAlways response = record {
  opens = λ peer protocol. if_intro Returns (peer == 3) (λ _. tt) (λ _. tt);
  writes = λ stream request. tt;
  reads = λ stream. tt;
}

send_read-fault_iff_example :
    (send_read (answering no_proof) request 3 ≡ fault)
    ↔ IsExchange
        (answering no_proof)
        light_protocol
        3
        (remote_read_request request.block request.keys)
        (remote_read_response none)
send_read-fault_iff_example =
    send_read-fault_iff (answering no_proof) (answering-ReturnsAlways no_proof) request 3
