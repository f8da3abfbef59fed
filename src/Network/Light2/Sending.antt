-- ===== src/Network/Light2/Sending.antt =====
-- When a request of core/src/network/light2/protocol.cpp or sync2/protocol.cpp is answered.
use polkadot_light_client.Network.Sync2
use polkadot_light_client.Common.{
  Bytes, ok, err, Outcome, ◌>>=◌, bind_ok, ok-injective, ℕ, ◌≡◌, refl, sym, ap, subst, ◌∙◌, ◌≢◌,
  ◌↔◌, Option, none, some, List, [], ◌∷◌, ◌++◌, append-nil, append_assoc,
}
use polkadot_light_client.Network.Errors.{invalid_response, protocol_error}
use polkadot_light_client.Network.Protobuf.{Streams, read_message, write_message}
use polkadot_light_client.Network.Light2.Messages.{
  remote_read_request, remote_call_response, remote_read_response, response_not_set, ProtoRequest,
  ProtoResponse, RemoteReadRequest, RemoteReadResponse, add_keys, read_to_proto, read_from_proto,
}
use polkadot_light_client.Network.Light2.Protocol.{light_protocol, send, send_read}
use polkadot_light_client.Network.Sync2

add_keys-append : (more keys : List Bytes) → add_keys more keys ≡ keys ++ more
unfolding add_keys
add_keys-append [] keys = sym (append-nil keys)
add_keys-append (key ∷ more) keys =
    add_keys-append more (keys ++ key ∷ []) ∙ append_assoc keys (key ∷ []) more

pub read_to_proto-eq :
    (request : RemoteReadRequest)
    → read_to_proto request ≡ remote_read_request request.block request.keys
unfolding read_to_proto
read_to_proto-eq request = ap (remote_read_request request.block) (add_keys-append request.keys [])

module _ {PeerId Stream Request Response : Type 0}
    (streams : Streams PeerId Stream Request Response) where
  -- The stream was opened, the request written to it, and the response read from it.
  abbrev pub IsExchange : Bytes → PeerId → Request → Response → Type 0
  IsExchange protocol peer_id request response =
      (stream : Stream) × (written : ℕ) × (streams.new_stream peer_id protocol ≡ ok stream)
      × (streams.write stream request ≡ ok written)
      × (streams.read stream ≡ ok response)

module _ {PeerId Stream : Type 0} (streams : Streams PeerId Stream ProtoRequest ProtoResponse) where
  send-IsExchange :
      {Request Response : Type 0} (to_proto : Request → ProtoRequest)
      (from_proto : ProtoResponse → Outcome Response) (request : Request) (peer_id : PeerId)
      (r : Response)
      → send streams to_proto from_proto request peer_id ≡ ok r
      → (response : ProtoResponse) × (from_proto response ≡ ok r)
        × IsExchange streams light_protocol peer_id (to_proto request) response
  unfolding send read_message write_message
  send-IsExchange to_proto from_proto request peer_id r h =
      let (stream, h1, opened) = bind_ok _ (streams.new_stream peer_id light_protocol) r h in
      let (u, h2, e) = bind_ok _ (write_message streams to_proto request stream) r h1 in
      let (written, h3, wrote) = bind_ok _ (streams.write stream (to_proto request)) u e in
      let (response, h4, read) = bind_ok _ (streams.read stream) r h2 in
      (response, h4, (stream, written, opened, wrote, read))

  pub IsExchange-send :
      {Request Response : Type 0} (to_proto : Request → ProtoRequest)
      (from_proto : ProtoResponse → Outcome Response) (request : Request) (peer_id : PeerId)
      (response : ProtoResponse)
      → IsExchange streams light_protocol peer_id (to_proto request) response
      → send streams to_proto from_proto request peer_id ≡ from_proto response
  unfolding send read_message write_message ◌>>=◌
  IsExchange-send to_proto from_proto request peer_id response
        (stream, written, opened, wrote, read) =
      rw (opened, wrote, read) refl

  read_from_proto-ok :
      (response : ProtoResponse) (r : RemoteReadResponse)
      → read_from_proto response ≡ ok r
      → response ≡ remote_read_response (some r.proof)
  unfolding read_from_proto
  read_from_proto-ok (remote_call_response proof) r h = absurd (cc)
  read_from_proto-ok (remote_read_response none) r h = absurd (cc)
  read_from_proto-ok (remote_read_response (some proof)) r h =
      ap (λ (x : RemoteReadResponse). remote_read_response (some x.proof)) (ok-injective h)
  read_from_proto-ok response_not_set r h = absurd (cc)

  -- A request for storage is answered exactly if a stream to the peer opened, the block and all keys
  -- in order were written to it, and a response to such a request came back, with a proof that is set.
  pub send_read_iff :
      (request : RemoteReadRequest) (peer_id : PeerId) (r : RemoteReadResponse)
      → (send_read streams request peer_id ≡ ok r)
        ↔ IsExchange streams light_protocol peer_id
            (remote_read_request request.block request.keys)
            (remote_read_response (some r.proof))
  unfolding send_read
  send_read_iff request peer_id r = (
    λ h.
        let (response, e, x) = send-IsExchange read_to_proto read_from_proto request peer_id r h in
        subst
          (λ (p : ProtoRequest).
            IsExchange streams light_protocol peer_id p (remote_read_response (some r.proof)))
          (read_to_proto-eq request)
          (subst (IsExchange streams light_protocol peer_id (read_to_proto request))
            (read_from_proto-ok response r e) x),
    λ x.
        IsExchange-send read_to_proto read_from_proto request peer_id
          (remote_read_response (some r.proof))
          (subst
            (λ (p : ProtoRequest).
              IsExchange streams light_protocol peer_id p (remote_read_response (some r.proof)))
            (sym (read_to_proto-eq request)) x)
        ∙ unfold read_from_proto in refl,
  )

  -- A response to another kind of request, or an empty one, is refused with InvalidResponse.
  pub send_read_invalid :
      (request : RemoteReadRequest) (peer_id : PeerId) (response : ProtoResponse)
      → IsExchange streams light_protocol peer_id
          (remote_read_request request.block request.keys)
          response
      → ((proof : Option Bytes) → response ≢ remote_read_response proof)
      → send_read streams request peer_id ≡ err (protocol_error invalid_response)
  unfolding send_read read_from_proto
  send_read_invalid request peer_id response x other =
      IsExchange-send read_to_proto read_from_proto request peer_id response (
        subst (λ (p : ProtoRequest). IsExchange streams light_protocol peer_id p response)
          (sym (read_to_proto-eq request)) x)
      ∙ refused response other
    where
      refused :
          (response : ProtoResponse)
          → ((proof : Option Bytes) → response ≢ remote_read_response proof)
          → read_from_proto response ≡ err (protocol_error invalid_response)
      refused (remote_call_response proof) other = refl
      refused (remote_read_response proof) other = absurd (other proof refl)
      refused response_not_set other = refl

-- A request for blocks is answered exactly if a stream opened, the request was written to it, and the
-- answer read from it.
pub send_blocks_iff :
    {PeerId Stream BlockRequest BlockResponse : Type 0}
    (streams : Streams PeerId Stream BlockRequest BlockResponse) (request : BlockRequest)
    (peer_id : PeerId) (response : BlockResponse)
    → (Sync2.send streams request peer_id ≡ ok response)
      ↔ IsExchange streams Sync2.sync_protocol peer_id request response
unfolding Sync2.send ◌>>=◌
send_blocks_iff streams request peer_id response = (
  λ h.
      let (stream, h1, opened) =
        bind_ok _ (streams.new_stream peer_id Sync2.sync_protocol) response h in
      let (written, h2, wrote) = bind_ok _ (streams.write stream request) response h1 in
      (stream, written, opened, wrote, h2),
  λ x. let (stream, written, opened, wrote, read) = x in rw (opened, wrote, read) refl,
)
