-- ===== src/Network/Light2/Missing.antt =====
-- Responses without a proof: the null pointer of core/src/network/light2/messages.h.
use polkadot_light_client.Common.{
  Bytes, ok, err, thrown, fault, Outcome, ◌>>=◌, bind_ok, Returns, ℕ, ◌≡◌, refl, sym, ap, subst,
  ◌∙◌, ◌↔◌, none, some,
}
use polkadot_light_client.Network.Protobuf.{Streams, read_message, write_message}
use polkadot_light_client.Network.Light2.Messages.{
  remote_read_request, remote_call_response, remote_read_response, response_not_set, ProtoRequest,
  ProtoResponse, RemoteReadRequest, read_to_proto, read_from_proto,
}
use polkadot_light_client.Network.Light2.Protocol.{light_protocol, send, send_read}
use polkadot_light_client.Network.Light2.Sending.{read_to_proto-eq, IsExchange, IsExchange-send}

bind_fault :
    {A B : Type 0} (f : A → Outcome B) (first : Outcome A)
    → Returns first
    → (first >>= f) ≡ fault
    → (a : A) × (f a ≡ fault) × (first ≡ ok a)
unfolding ◌>>=◌
bind_fault f (ok a) r h = (a, h, refl)
bind_fault f (err e) r h = absurd (cc)
bind_fault f thrown r h = absurd r
bind_fault f fault r h = absurd r

read_from_proto-fault :
    (response : ProtoResponse)
    → read_from_proto response ≡ fault
    → response ≡ remote_read_response none
unfolding read_from_proto ◌>>=◌
read_from_proto-fault (remote_call_response proof) h = absurd (cc)
read_from_proto-fault (remote_read_response none) h = refl
read_from_proto-fault (remote_read_response (some proof)) h = absurd (cc)
read_from_proto-fault response_not_set h = absurd (cc)

module _ {PeerId Stream : Type 0} (streams : Streams PeerId Stream ProtoRequest ProtoResponse) where
  -- What libp2p is asked for comes to a value or to an error.
  pub record ReturnsAlways : Type 0 where
    pub opens :
        (peer_id : PeerId) (protocol : Bytes) → Returns (streams.new_stream peer_id protocol)
    pub writes : (stream : Stream) (request : ProtoRequest) → Returns (streams.write stream request)
    pub reads : (stream : Stream) → Returns (streams.read stream)

  write_message-Returns :
      (stream : Stream) (request : RemoteReadRequest)
      → Returns (streams.write stream (read_to_proto request))
      → Returns (write_message streams read_to_proto request stream)
  unfolding write_message ◌>>=◌
  write_message-Returns stream request r = go (streams.write stream (read_to_proto request)) r
    where
      go : (o : Outcome ℕ) → Returns o → Returns (do written ← o; ok (tt {0}))
      go (ok n) r = tt
      go (err e) r = tt
      go thrown r = absurd r
      go fault r = absurd r

  fault-IsExchange :
      ReturnsAlways
      → (request : RemoteReadRequest) (peer_id : PeerId) → send_read streams request peer_id ≡ fault
      → IsExchange streams light_protocol peer_id
          (remote_read_request request.block request.keys)
          (remote_read_response none)
  unfolding send_read send read_message write_message
  fault-IsExchange libp2p request peer_id h =
      let (stream, h1, opened) =
        bind_fault _ (streams.new_stream peer_id light_protocol)
          (libp2p.opens peer_id light_protocol) h in
      let (u, h2, e) =
        bind_fault _ (write_message streams read_to_proto request stream)
          (write_message-Returns stream request (libp2p.writes stream (read_to_proto request)))
          h1 in
      let (written, h3, wrote) = bind_ok _ (streams.write stream (read_to_proto request)) u e in
      let (response, h4, read) = bind_fault _ (streams.read stream) (libp2p.reads stream) h2 in
      (
        stream,
        written,
        opened,
        ap (streams.write stream) (sym (read_to_proto-eq request)) ∙ wrote,
        read ∙ ap (λ (r : ProtoResponse). ok r) (read_from_proto-fault response h4),
      )

  -- If libp2p returns from whatever it is asked for, a request for storage runs through a null pointer
  -- exactly if a stream to the peer opened, the block and all keys were written to it, and a response
  -- to such a request came back whose proof is not set.
  pub send_read-fault_iff :
      ReturnsAlways
      → (request : RemoteReadRequest) (peer_id : PeerId)
      → (send_read streams request peer_id ≡ fault)
        ↔ IsExchange streams light_protocol peer_id
            (remote_read_request request.block request.keys)
            (remote_read_response none)
  unfolding send_read
  send_read-fault_iff libp2p request peer_id = (
    λ h. fault-IsExchange libp2p request peer_id h,
    λ x.
        IsExchange-send streams read_to_proto read_from_proto request peer_id
          (remote_read_response none)
          (subst
            (λ (p : ProtoRequest).
              IsExchange streams light_protocol peer_id p (remote_read_response none))
            (sym (read_to_proto-eq request)) x)
        ∙ unfold read_from_proto in refl,
  )
