-- ===== src/Runtime/Tests.antt =====
-- The runtime service on small inputs, and the properties at concrete inputs.
use polkadot_light_client.Common.{
  ltb, leb, ◌==◌, if◌then◌else◌, if_intro, length, take, drop, get_elem?, set_at, Bytes, codes,
  bytes_eq, library, ok, err, thrown, fault, Outcome, ◌>>=◌, ℕ, ◌+◌, ◌-◌, ◌^◌, ◌≤◌, ◌≡◌, refl, ◌⊎◌,
  inl, inr, true, Option, none, some, List, [], ◌∷◌, ◌++◌, arith,
}
use polkadot_light_client.Utils.Hex.Reference.{reference, reference-BoostLaws}
use polkadot_light_client.Utils.Hex.{
  caught, unhex, unhex_with_0x, copy_32, unhex_with_0x_to_block_hash,
}
use polkadot_light_client.Chain.Spec.Containers.{map_find}
use polkadot_light_client.Network.Light2.Messages.{
  remote_read_response, response_not_set, ProtoRequest, ProtoResponse, RemoteReadRequest,
  read_to_proto, read_from_proto,
}
use polkadot_light_client.Network.Protobuf.{Streams, read_message, write_message}
use polkadot_light_client.Network.Errors.{invalid_response, protocol_error}
use polkadot_light_client.Runtime.Module.{reads, throws_parse_exception, Binaryen, parse_code}
use polkadot_light_client.Runtime.Executor.{core_version}
use polkadot_light_client.Runtime.Service.{
  obtaining_runtime_error, service_error, zstd_prefix, code_blob_bomb_limit, requested_block, Zstd,
  Service, uncompress_code_if_needed, start_instance, instantiate_module, process_code,
  process_runtime, load_genesis_runtime, copy_loop, process_response, request_runtime,
  load_runtime_for_block,
}
use polkadot_light_client.Runtime.Compression.{
  is_error, ZstdLaws, IsCompressed, uncompress_code_if_needed-append,
  uncompress_code_if_needed-length,
}
use polkadot_light_client.Runtime.Genesis.{load_genesis_runtime_lem}
use polkadot_light_client.Runtime.Instances.{
  genesis_runtime, block_runtime, IsUntouched, IsInSync, load_all, load-IsLoading,
  load_all-IsInSync,
}
use polkadot_light_client.Network.Light2.Protocol.{send, send_read}
use polkadot_light_client.Utils.Coroutine.{co_await, resume}
use polkadot_light_client.Network.Tasks.{
  opens_stream, writes_to, reads_from, Replies, read_task, write_task, light_task,
}
use polkadot_light_client.Runtime.Concurrent.{
  asks, answers, request_task, Loads, no_loads, LoadEvent, settle, ask, step_load, run_loads,
}
use polkadot_light_client.Runtime.Sequential.{IsSequential, run_loads-IsSequential}
use polkadot_light_client.Runtime.Remote.{
  remote_read, load_runtime_for_block-process_runtime, load_runtime_for_block_failed,
}

-- A frame stands for its own bytes.
abbrev store : Zstd
store = record {
  get_frame_content_size = λ s. length s;
  decompress = λ capacity s. if ltb capacity (length s) then ([], 2 ^ 64 - 70) else (s, length s);
}

store_fits : (capacity : ℕ) (s : Bytes) → length (store.decompress capacity s).0 ≤ capacity
store_fits capacity s =
    if_intro (λ (r : Bytes × ℕ). length r.0 ≤ capacity) (ltb capacity (length s)) (λ _. omega arith)
      (λ e. ground arith)

store_result :
    (capacity : ℕ) (s : Bytes)
    → ((store.decompress capacity s).1 ≡ length (store.decompress capacity s).0)
      ⊎ (is_error (store.decompress capacity s).1 ≡ true)
store_result capacity s =
    if_intro (λ (r : Bytes × ℕ). (r.1 ≡ length r.0) ⊎ (is_error r.1 ≡ true))
      (ltb capacity (length s)) (λ _. inr refl) (λ _. inl refl)

store-ZstdLaws : ZstdLaws store
store-ZstdLaws = record { fits = store_fits; result = store_result }

-- Every code is a module but the empty one, and every module has an instance.
abbrev machine : Binaryen Bytes Bytes
machine = record {
  read = λ code. (code, if leb 1 (length code) then reads else throws_parse_exception);
  instantiate = λ m. ok m;
  call_export = λ name arguments i. ok ((2 ^ 40 + 5) ∷ []);
}

abbrev serving : Service Bytes Bytes
serving = record {
  genesis = (codes ":other", 7 ∷ []) ∷ (codes ":code", zstd_prefix ++ 1 ∷ 2 ∷ []) ∷ [];
  wasm_module = none;
  module_instance = none;
  executor = none;
}

abbrev served : Service Bytes Bytes
served = record serving {
  wasm_module = some (1 ∷ 2 ∷ []);
  module_instance = some (1 ∷ 2 ∷ []);
  executor = some (1 ∷ 2 ∷ []);
}

core_version_test : core_version machine served.executor ≡ ok (record { ptr = none; size = none })
unfolding core_version ◌>>=◌
core_version_test = refl

uncompress_code_if_needed-append_example :
    uncompress_code_if_needed store (zstd_prefix ++ 1 ∷ 2 ∷ []) ≡ ok (1 ∷ 2 ∷ [])
unfolding code_blob_bomb_limit
uncompress_code_if_needed-append_example =
    uncompress_code_if_needed-append store store-ZstdLaws 1 (2 ∷ [])

abbrev packed : Bytes
packed = zstd_prefix ++ 1 ∷ 2 ∷ []

packed_test : uncompress_code_if_needed store packed ≡ ok (1 ∷ 2 ∷ [])
unfolding code_blob_bomb_limit
packed_test = uncompress_code_if_needed-append store store-ZstdLaws 1 (2 ∷ [])

uncompress_code_if_needed-length_example :
    (IsCompressed packed × (length {A = ℕ} (1 ∷ 2 ∷ []) ≤ code_blob_bomb_limit))
    ⊎ ((¬ IsCompressed packed) × ((1 ∷ 2 ∷ []) ≡ packed))
uncompress_code_if_needed-length_example =
    uncompress_code_if_needed-length store store-ZstdLaws packed (1 ∷ 2 ∷ []) packed_test

load_genesis_runtime_lem_test :
    load_genesis_runtime store machine reference serving
    ≡ process_runtime store machine reference (zstd_prefix ++ 1 ∷ 2 ∷ []) serving
unfolding map_find bytes_eq
load_genesis_runtime_lem_test =
    load_genesis_runtime_lem store machine reference-BoostLaws serving (omega arith)

abbrev node : RemoteReadRequest → ℕ → Outcome Bytes
node request peer =
    if peer == 3 then ok (9 ∷ []) else err (record { category = library; value = 1 })

load-IsLoading_example :
    IsUntouched machine served (load_runtime_for_block store machine reference node 4 [] served).0
unfolding load_runtime_for_block request_runtime unhex_with_0x_to_block_hash ◌>>=◌ unhex_with_0x
    unhex caught copy_32 reference bytes_eq take drop process_response
load-IsLoading_example = load-IsLoading store machine reference served (block_runtime node 4 [])

load_all-IsInSync_example : IsInSync machine (
    load_all store machine reference serving
      (genesis_runtime ∷ block_runtime node 4 [] ∷ block_runtime node 3 [] ∷ []))
load_all-IsInSync_example =
    load_all-IsInSync store machine reference serving
      (genesis_runtime ∷ block_runtime node 4 [] ∷ block_runtime node 3 [] ∷ [])
      (record { same = refl; made = λ i e. absurd (cc) })

abbrev links : ProtoResponse → Streams ℕ ℕ ProtoRequest ProtoResponse
links response = record {
  new_stream = λ peer protocol. ok peer;
  write = λ stream request. ok 1;
  read = λ stream. ok response;
}

-- The block hash that the source writes out.
abbrev asked : Bytes
asked =
    0x16 ∷ 0x11 ∷ 0xaa ∷ 0xf0 ∷ 0x14 ∷ 0xea ∷ 0x22 ∷ 0x18 ∷ 0x66 ∷ 0xa3 ∷ 0x09 ∷ 0xdd ∷ 0xa0 ∷ 0x2d
    ∷ 0xd9 ∷ 0x76 ∷ 0x33 ∷ 0x78 ∷ 0x2d ∷ 0x6d ∷ 0x6f ∷ 0xe0 ∷ 0x92 ∷ 0x5e ∷ 0xaa ∷ 0xef ∷ 0x99
    ∷ 0x52 ∷ 0x10 ∷ 0x5d ∷ 0xa8 ∷ 0x9b ∷ []

asked_test : unhex_with_0x_to_block_hash reference requested_block ≡ ok (asked)
unfolding unhex_with_0x_to_block_hash ◌>>=◌ unhex_with_0x unhex caught copy_32 reference bytes_eq
    take drop
asked_test = refl

load_runtime_for_block-process_runtime_test :
    load_runtime_for_block store machine reference
      (remote_read (links (remote_read_response (some (1 ∷ [])))))
      3
      []
      serving
    ≡ process_runtime store machine reference (1 ∷ []) serving
load_runtime_for_block-process_runtime_test =
    load_runtime_for_block-process_runtime (links (remote_read_response (some (1 ∷ [])))) store
      machine reference asked asked_test 3 [] (1 ∷ []) serving (3, 1, refl, refl, refl)

load_runtime_for_block_failed_test :
    load_runtime_for_block store machine reference
      (remote_read (links response_not_set))
      3
      []
      served
    ≡ (served, err (service_error obtaining_runtime_error))
unfolding send_read send read_message write_message ◌>>=◌ read_from_proto
load_runtime_for_block_failed_test =
    load_runtime_for_block_failed (links response_not_set) store machine reference asked asked_test
      3 [] (protocol_error invalid_response) served refl

-- Two loads at once: the one that was asked for first is answered last, and its runtime stays.
abbrev replies : ProtoResponse → Replies ℕ ℕ ProtoRequest ProtoResponse
replies response (opens_stream peer protocol) = ok 30
replies response (writes_to stream msg) = ok 5
replies response (reads_from stream) = ok response

abbrev reply : ℕ → LoadEvent ℕ ℕ
reply i = answers i (replies (remote_read_response (some (i ∷ []))))

abbrev overlapping : List (LoadEvent ℕ ℕ)
overlapping = asks 3 [] ∷ asks 4 [] ∷ reply 0 ∷ reply 1 ∷ reply 1 ∷ reply 1 ∷ reply 0 ∷ reply 0 ∷ []

abbrev finish : Outcome (Loads ℕ ℕ Bytes Bytes) → Option Bytes
finish (ok l) = l.service.executor
finish (err e) = none
finish thrown = none
finish fault = none

overlapping_test :
    finish (run_loads store machine reference (no_loads served) overlapping) ≡ some (0 ∷ [])
unfolding run_loads step_load ask settle request_task light_task write_task read_task co_await
    resume set_at get_elem? ◌>>=◌ unhex_with_0x_to_block_hash unhex_with_0x unhex caught copy_32
    reference bytes_eq take drop read_to_proto read_from_proto process_response process_runtime
    process_code instantiate_module start_instance uncompress_code_if_needed copy_loop parse_code
overlapping_test = refl

run_loads-IsSequential_example :
    (l : Loads ℕ ℕ Bytes Bytes) × (run_loads store machine reference (no_loads served) overlapping
      ≡ ok l)
    × IsSequential store machine reference asked served l
run_loads-IsSequential_example =
    run_loads-IsSequential store machine reference asked asked_test served overlapping
