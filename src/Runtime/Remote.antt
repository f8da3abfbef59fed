-- ===== src/Runtime/Remote.antt =====
-- The runtime that core/src/runtime/service.cpp asks a full node for, by core/src/network/light2.
use polkadot_light_client.Common.{
  Bytes, codes, ok, err, ErrorCode, Outcome, ◌>>=◌, ◌≡◌, refl, sym, ◌∙◌, some, [], ◌∷◌, ◌++◌,
  append-nil, append_assoc,
}
use polkadot_light_client.Utils.Hex.Algorithm.{Boost}
use polkadot_light_client.Utils.Hex.{unhex_with_0x_to_block_hash}
use polkadot_light_client.Network.Protobuf.{Streams}
use polkadot_light_client.Network.Light2.Messages.{
  remote_read_request, remote_read_response, ProtoRequest, ProtoResponse, RemoteReadRequest,
}
use polkadot_light_client.Network.Light2.Protocol.{light_protocol, send_read}
use polkadot_light_client.Network.Light2.Sending.{IsExchange, send_read_iff}
use polkadot_light_client.Runtime.Module.{Binaryen}
use polkadot_light_client.Runtime.Service.{
  obtaining_runtime_error, service_error, requested_block, Zstd, Service, process_runtime,
  copy_loop, process_response, request_runtime, load_runtime_for_block,
}

copy_loop-append :
    {WasmModule ModuleInstance : Type 0} (zstd : Zstd)
    (binaryen : Binaryen WasmModule ModuleInstance) (boost : Boost) (proof buf : Bytes)
    → copy_loop zstd binaryen boost proof buf ≡ buf ++ proof
unfolding copy_loop
copy_loop-append zstd binaryen boost [] buf = sym (append-nil buf)
copy_loop-append zstd binaryen boost (c ∷ proof) buf =
    copy_loop-append zstd binaryen boost proof (buf ++ c ∷ []) ∙ append_assoc buf (c ∷ []) proof

module _ {PeerId Stream : Type 0} (streams : Streams PeerId Stream ProtoRequest ProtoResponse) where
  -- `light2.send`, and the proof of its response.
  unfoldable pub remote_read : RemoteReadRequest → PeerId → Outcome Bytes
  unfolding send_read
  remote_read request peer = do response ← send_read streams request peer; ok response.proof

  module _ {WasmModule ModuleInstance : Type 0} (zstd : Zstd)
      (binaryen : Binaryen WasmModule ModuleInstance) (boost : Boost) (hash : Bytes)
      (decoded : unhex_with_0x_to_block_hash boost requested_block ≡ ok hash) where
    -- Where a full node answers the request for ":code" with a proof, the bytes of the proof are
    -- processed as a runtime.
    pub load_runtime_for_block-process_runtime :
        (peer : PeerId) (block proof : Bytes) (service : Service WasmModule ModuleInstance)
        → IsExchange streams light_protocol peer
            (remote_read_request hash (codes ":code" ∷ []))
            (remote_read_response (some proof))
        → load_runtime_for_block zstd binaryen boost remote_read peer block service
          ≡ process_runtime zstd binaryen boost proof service
    unfolding load_runtime_for_block request_runtime process_response remote_read ◌>>=◌
    load_runtime_for_block-process_runtime peer block proof service x =
        rw
          (
            decoded,
            (send_read_iff streams (record { block = hash; keys = codes ":code" ∷ [] }) peer
                  (record { proof = proof })).1
                x,
            copy_loop-append,
          )
          refl

    -- Where the node cannot be asked, or its answer is of another kind, the result is
    -- ObtainingRuntimeError, whatever the error was, and the service is left as it was.
    pub load_runtime_for_block_failed :
        (peer : PeerId) (block : Bytes) (e : ErrorCode)
        (service : Service WasmModule ModuleInstance)
        → send_read streams (record { block = hash; keys = codes ":code" ∷ [] }) peer ≡ err e
        → load_runtime_for_block zstd binaryen boost remote_read peer block service
          ≡ (service, err (service_error obtaining_runtime_error))
    unfolding load_runtime_for_block request_runtime process_response remote_read ◌>>=◌
    load_runtime_for_block_failed peer block e service h = rw (decoded, h) refl
