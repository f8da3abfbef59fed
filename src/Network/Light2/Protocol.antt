-- ===== src/Network/Light2/Protocol.antt =====
-- core/src/network/light2/protocol.h and protocol.cpp.
use polkadot_light_client.Common.{Bytes, codes, Outcome, ◌>>=◌}
use polkadot_light_client.Network.Protobuf.{Streams, read_message, write_message}
use polkadot_light_client.Network.Light2.Messages.{
  ProtoRequest, ProtoResponse, RemoteCallRequest, RemoteReadRequest, RemoteReadChildRequest,
  RemoteCallResponse, RemoteReadResponse, call_to_proto, read_to_proto, read_child_to_proto,
  call_from_proto, read_from_proto,
}

abbrev pub light_protocol : Bytes
light_protocol = codes "/dot/light/2"

module _ {PeerId Stream : Type 0} (streams : Streams PeerId Stream ProtoRequest ProtoResponse) where
  unfoldable pub send :
      {Request Response : Type 0}
      → (Request → ProtoRequest)
      → (ProtoResponse → Outcome Response)
      → Request
      → PeerId
      → Outcome Response
  unfolding read_message write_message
  send to_proto from_proto request peer_id = do
    stream ← streams.new_stream peer_id light_protocol
    written ← write_message streams to_proto request stream
    read_message streams from_proto stream

  unfoldable pub send_call : RemoteCallRequest → PeerId → Outcome RemoteCallResponse
  unfolding send
  send_call request peer_id = send call_to_proto call_from_proto request peer_id

  unfoldable pub send_read : RemoteReadRequest → PeerId → Outcome RemoteReadResponse
  unfolding send
  send_read request peer_id = send read_to_proto read_from_proto request peer_id

  unfoldable pub send_read_child : RemoteReadChildRequest → PeerId → Outcome RemoteReadResponse
  unfolding send
  send_read_child request peer_id = send read_child_to_proto read_from_proto request peer_id
