-- ===== src/Network/Sync2.antt =====
-- core/src/network/sync2/protocol.h and protocol.cpp. The requests and responses are generated types.
use polkadot_light_client.Common.{Bytes, codes, Outcome, ◌>>=◌}
use polkadot_light_client.Network.Protobuf.{Streams}

abbrev pub sync_protocol : Bytes
sync_protocol = codes "/dot/sync/2"

module _ {PeerId Stream BlockRequest BlockResponse : Type 0}
    (streams : Streams PeerId Stream BlockRequest BlockResponse) where
  unfoldable pub send : BlockRequest → PeerId → Outcome BlockResponse
  send request peer_id = do
    stream ← streams.new_stream peer_id sync_protocol
    written ← streams.write stream request
    streams.read stream
