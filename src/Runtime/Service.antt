-- ===== src/Runtime/Service.antt =====
-- core/src/runtime/service.h and service.cpp. zstd and Binaryen are arguments, and so is the light
-- protocol, by the answer to a request.
use polkadot_light_client.Common.{
  ltb, ◌==◌, if◌then◌else◌, length, take, drop, replicate, Bytes, codes, bytes_eq, service_category,
  ok, err, thrown, fault, ErrorCode, Outcome, ◌>>=◌, ℕ, ◌-◌, ◌*◌, ◌^◌, ◌&&◌, Option, none, some, [],
  ◌∷◌, ◌++◌,
}
use polkadot_light_client.Utils.Hex.Algorithm.{Boost}
use polkadot_light_client.Utils.Hex.{overwrite, unhex_with_0x_to_block_hash, hex}
use polkadot_light_client.Chain.Spec.{GenesisRawData, Spec}
use polkadot_light_client.Network.Light2.Messages.{RemoteReadRequest}
use polkadot_light_client.Runtime.Module.{Binaryen, parse_code}

pub data ServiceError : Type 0 where
  decompression_error obtaining_runtime_error missing_initial_runtime : ServiceError

abbrev pub service_error_value : ServiceError → ℕ
service_error_value decompression_error = 1
service_error_value obtaining_runtime_error = 2
service_error_value missing_initial_runtime = 3

abbrev pub service_error : ServiceError → ErrorCode
service_error e = record { category = service_category; value = service_error_value e }

unfoldable pub service_message : ServiceError → Bytes
service_message decompression_error = codes "Error while trying to decompress runtime"
service_message missing_initial_runtime =
    codes "Genesis block runtime is not present in the chain spec"
service_message obtaining_runtime_error = codes "Could not obtain runtime from remote node"

-- The key ":code" in hexadecimal digits.
abbrev pub code_hex : Bytes
code_hex = codes "0x3a636f6465"

abbrev pub zstd_prefix_size : ℕ
zstd_prefix_size = 8

abbrev pub zstd_prefix : Bytes
zstd_prefix = 0x52 ∷ 0xbc ∷ 0x53 ∷ 0x76 ∷ 0x46 ∷ 0xdb ∷ 0x8e ∷ 0x05 ∷ []

unfoldable pub code_blob_bomb_limit : ℕ
code_blob_bomb_limit = 50 * 1024 * 1024

-- The block of every request for a runtime.
abbrev pub requested_block : Bytes
requested_block = codes "0x1611aaf014ea221866a309dda02dd97633782d6d6fe0925eaaef9952105da89b"

-- What the service calls of zstd: `ZSTD_getFrameContentSize`, and `ZSTD_decompress` by the bytes that
-- it writes to the front of a buffer of the given size, and its result, a `size_t`.
pub record Zstd : Type 0 where
  pub get_frame_content_size : Bytes → ℕ
  pub decompress : ℕ → Bytes → Bytes × ℕ

-- `ZSTD_CONTENTSIZE_ERROR`
abbrev pub contentsize_error : ℕ
contentsize_error = 2 ^ 64 - 2

-- `vector.resize(n)`, which throws above the vector's `max_size`.
unfoldable pub resize : ℕ → Bytes → Outcome Bytes
resize n bytes =
    if ltb n (2 ^ 63) then ok (take n bytes ++ replicate (n - length bytes) 0) else thrown

pub record Service (WasmModule ModuleInstance : Type 0) : Type 0 where
  pub genesis : GenesisRawData
  -- `m_module->m_module`
  pub wasm_module : Option WasmModule
  pub module_instance : Option ModuleInstance
  -- the instance of `m_executor`
  pub executor : Option ModuleInstance

-- The members after construction over a specification.
abbrev pub new_service :
    {WasmModule ModuleInstance Address : Type 0} → Spec Address → Service WasmModule ModuleInstance
new_service spec = record {
  genesis = spec.genesis;
  wasm_module = none;
  module_instance = none;
  executor = none;
}

module _ (zstd : Zstd) where
  -- `ZSTD_decompress` writes over the front of the buffer; its result is taken for the new size.
  unfoldable pub decompressed : Bytes → Outcome Bytes
  unfolding overwrite
  decompressed compressed = do
    out ← resize code_blob_bomb_limit []
    (let (blob, size) = zstd.decompress code_blob_bomb_limit compressed in
        resize size (overwrite 0 blob out))

  unfoldable pub uncompress_code_if_needed : Bytes → Outcome Bytes
  unfolding decompressed
  uncompress_code_if_needed code =
      if ltb zstd_prefix_size (length code) && bytes_eq (take zstd_prefix_size code) zstd_prefix
      then (if zstd.get_frame_content_size (drop zstd_prefix_size code) == contentsize_error
          then err (service_error decompression_error)
          else decompressed (drop zstd_prefix_size code))
      else ok code

module _ {WasmModule ModuleInstance : Type 0} (zstd : Zstd)
    (binaryen : Binaryen WasmModule ModuleInstance) (boost : Boost) where
  -- The end of `processRuntime`, for a module that was read.
  unfoldable pub start_instance :
      Outcome ModuleInstance
      → Service WasmModule ModuleInstance
      → Service WasmModule ModuleInstance × Outcome (Unit {0})
  start_instance (ok instance') service =
      (record service { module_instance = some instance'; executor = some instance' }, ok tt)
  start_instance (err e) service = (service, err e)
  start_instance thrown service = (service, thrown)
  start_instance fault service = (service, fault)

  unfoldable pub instantiate_module :
      Option WasmModule × Outcome (Unit {0})
      → Service WasmModule ModuleInstance
      → Service WasmModule ModuleInstance × Outcome (Unit {0})
  unfolding start_instance
  instantiate_module (none, result) service = (record service { wasm_module = none }, result)
  instantiate_module (some m, ok done) service =
      start_instance (binaryen.instantiate m) (record service { wasm_module = some m })
  instantiate_module (some m, err e) service = (record service { wasm_module = some m }, err e)
  instantiate_module (some m, thrown) service = (record service { wasm_module = some m }, thrown)
  instantiate_module (some m, fault) service = (record service { wasm_module = some m }, fault)

  unfoldable pub process_code :
      Outcome Bytes
      → Service WasmModule ModuleInstance
      → Service WasmModule ModuleInstance × Outcome (Unit {0})
  unfolding instantiate_module parse_code
  process_code (ok code) service = instantiate_module (parse_code binaryen code) service
  process_code (err e) service = (service, err e)
  process_code thrown service = (service, thrown)
  process_code fault service = (service, fault)

  unfoldable pub process_runtime :
      Bytes
      → Service WasmModule ModuleInstance
      → Service WasmModule ModuleInstance × Outcome (Unit {0})
  unfolding process_code uncompress_code_if_needed
  process_runtime runtime service = process_code (uncompress_code_if_needed zstd runtime) service

  unfoldable pub genesis_loop :
      GenesisRawData
      → Service WasmModule ModuleInstance
      → Service WasmModule ModuleInstance × Outcome (Unit {0})
  genesis_loop [] service = (service, err (service_error missing_initial_runtime))
  genesis_loop ((k, v) ∷ genesis) service =
      if bytes_eq (hex boost k) code_hex
      then process_runtime v service
      else genesis_loop genesis service

  unfoldable pub load_genesis_runtime :
      Service WasmModule ModuleInstance → Service WasmModule ModuleInstance × Outcome (Unit {0})
  unfolding genesis_loop
  load_genesis_runtime service = genesis_loop service.genesis service

  -- The characters of the proof, one by one.
  unfoldable pub copy_loop : Bytes → Bytes → Bytes
  copy_loop [] buf = buf
  copy_loop (c ∷ proof) buf = copy_loop proof (buf ++ c ∷ [])

  unfoldable pub process_response :
      Outcome Bytes
      → Service WasmModule ModuleInstance
      → Service WasmModule ModuleInstance × Outcome (Unit {0})
  unfolding process_runtime copy_loop
  process_response (ok proof) service = process_runtime (copy_loop proof []) service
  process_response (err e) service = (service, err (service_error obtaining_runtime_error))
  process_response thrown service = (service, thrown)
  process_response fault service = (service, fault)

  -- `block_hash.value()` throws where there is an error; `send` is the light protocol.
  unfoldable pub request_runtime :
      {PeerId : Type 0}
      → (RemoteReadRequest → PeerId → Outcome Bytes)
      → PeerId
      → Outcome Bytes
      → Service WasmModule ModuleInstance
      → Service WasmModule ModuleInstance × Outcome (Unit {0})
  unfolding process_response
  request_runtime send peer (ok block_hash) service =
      process_response (send (record { block = block_hash; keys = codes ":code" ∷ [] }) peer)
        service
  request_runtime send peer (err e) service = (service, thrown)
  request_runtime send peer thrown service = (service, thrown)
  request_runtime send peer fault service = (service, fault)

  -- The hash of the request is the one written in the source, not `block`.
  unfoldable pub load_runtime_for_block :
      {PeerId : Type 0}
      → (RemoteReadRequest → PeerId → Outcome Bytes)
      → PeerId
      → Bytes
      → Service WasmModule ModuleInstance
      → Service WasmModule ModuleInstance × Outcome (Unit {0})
  unfolding request_runtime unhex_with_0x_to_block_hash
  load_runtime_for_block send peer block service =
      request_runtime send peer (unhex_with_0x_to_block_hash boost requested_block) service
