-- ===== src/Network/Light2/Messages.antt =====
-- core/src/network/light2/messages.h, with the messages that light.proto describes. A response that
-- holds no message has none of the kinds, and the proof of one may not be set: `release_proof` is
-- then a null pointer.
use polkadot_light_client.Common.{Bytes, ok, err, Outcome, ◌>>=◌, Option, List, [], ◌∷◌, ◌++◌}
use polkadot_light_client.Network.Errors.{invalid_response, protocol_error}
use polkadot_light_client.Network.Protobuf.{take_from_ptr}

-- The generated request: one of three messages.
pub data ProtoRequest : Type 0 where
  remote_call_request : Bytes → Bytes → Bytes → ProtoRequest
  remote_read_request : Bytes → List Bytes → ProtoRequest
  remote_read_child_request : Bytes → Bytes → List Bytes → ProtoRequest

-- The generated response: one of two messages with a proof, if it is set, or none.
pub data ProtoResponse : Type 0 where
  remote_call_response remote_read_response : Option Bytes → ProtoResponse
  response_not_set : ProtoResponse

pub record RemoteCallRequest : Type 0 where
  pub block : Bytes
  pub method : Bytes
  pub data' : Bytes

pub record RemoteReadRequest : Type 0 where
  pub block : Bytes
  pub keys : List Bytes

pub record RemoteReadChildRequest : Type 0 where
  pub block : Bytes
  pub storage_key : Bytes
  pub keys : List Bytes

pub record RemoteCallResponse : Type 0 where
  pub proof : Bytes

pub record RemoteReadResponse : Type 0 where
  pub proof : Bytes

-- `msg.add_keys(…)` for each key.
unfoldable pub add_keys : List Bytes → List Bytes → List Bytes
add_keys [] keys = keys
add_keys (key ∷ more) keys = add_keys more (keys ++ key ∷ [])

-- The text of a block hash is its 32 bytes.
abbrev pub call_to_proto : RemoteCallRequest → ProtoRequest
call_to_proto request = remote_call_request request.block request.method request.data'

unfoldable pub read_to_proto : RemoteReadRequest → ProtoRequest
unfolding add_keys
read_to_proto request = remote_read_request request.block (add_keys request.keys [])

unfoldable pub read_child_to_proto : RemoteReadChildRequest → ProtoRequest
unfolding add_keys
read_child_to_proto request =
    remote_read_child_request request.block request.storage_key (add_keys request.keys [])

unfoldable pub call_from_proto : ProtoResponse → Outcome RemoteCallResponse
unfolding ◌>>=◌
call_from_proto (remote_call_response released) = do
  proof ← take_from_ptr released
  ok (record { proof = proof })
call_from_proto (remote_read_response proof) = err (protocol_error invalid_response)
call_from_proto response_not_set = err (protocol_error invalid_response)

unfoldable pub read_from_proto : ProtoResponse → Outcome RemoteReadResponse
unfolding ◌>>=◌
read_from_proto (remote_call_response proof) = err (protocol_error invalid_response)
read_from_proto (remote_read_response released) = do
  proof ← take_from_ptr released
  ok (record { proof = proof })
read_from_proto response_not_set = err (protocol_error invalid_response)
