-- ===== src/Runtime/Concurrent.antt =====
-- `loadRuntimeForBlock` of core/src/runtime/service.cpp as a task: several loads may wait for full
-- nodes at the same time. What follows the last answer of a load happens at once.
use polkadot_light_client.Common.{
  get_elem?, set_at, Bytes, codes, ok, err, thrown, fault, Outcome, ◌>>=◌, ℕ, Option, none, some,
  List, [], ◌∷◌, ◌++◌,
}
use polkadot_light_client.Utils.Hex.Algorithm.{Boost}
use polkadot_light_client.Utils.Hex.{unhex_with_0x_to_block_hash}
use polkadot_light_client.Utils.Coroutine.{returns, awaits, Coroutine, co_await, resume}
use polkadot_light_client.Network.Tasks.{Question, Reply, Replies, light_task}
use polkadot_light_client.Network.Light2.Messages.{
  ProtoRequest, ProtoResponse, RemoteReadResponse, read_to_proto, read_from_proto,
}
use polkadot_light_client.Runtime.Module.{Binaryen}
use polkadot_light_client.Runtime.Service.{requested_block, Zstd, Service, process_response}

-- A load that waits, up to the proof of its response.
abbrev pub LoadTask : Type 0 → Type 0 → Type 0
LoadTask PeerId Stream =
    Coroutine (Question PeerId Stream ProtoRequest) (Reply ProtoResponse) (Outcome Bytes)

abbrev pub proof_of : Outcome RemoteReadResponse → Outcome Bytes
proof_of (ok response) = ok response.proof
proof_of (err e) = err e
proof_of thrown = thrown
proof_of fault = fault

module _ {PeerId Stream : Type 0} where
  -- `block_hash.value()` throws where there is an error.
  unfoldable pub request_task : PeerId → Outcome Bytes → LoadTask PeerId Stream
  unfolding co_await light_task
  request_task peer (ok block_hash) =
      co_await
        (light_task read_to_proto read_from_proto
          (record { block = block_hash; keys = codes ":code" ∷ [] }) peer)
        (λ response. returns (proof_of response))
  request_task peer (err e) = returns thrown
  request_task peer thrown = returns thrown
  request_task peer fault = returns fault

-- The service, the loads in the order in which they were asked for, none once they have ended, and
-- the answers with which they ended, first to last.
pub record Loads (PeerId Stream WasmModule ModuleInstance : Type 0) : Type 0 where
  pub service : Service WasmModule ModuleInstance
  pub tasks : List (Option (PeerId × LoadTask PeerId Stream))
  pub finished : List (PeerId × Outcome Bytes)

-- A service that nothing was asked of.
abbrev pub no_loads :
    {PeerId Stream WasmModule ModuleInstance : Type 0}
    → Service WasmModule ModuleInstance
    → Loads PeerId Stream WasmModule ModuleInstance
no_loads service = record { service = service; tasks = []; finished = [] }

-- A load for a block is asked of a peer, or libp2p answers one of them.
pub data LoadEvent (PeerId Stream : Type 0) : Type 0 where
  asks : PeerId → Bytes → LoadEvent PeerId Stream
  answers : ℕ → Replies PeerId Stream ProtoRequest ProtoResponse → LoadEvent PeerId Stream

abbrev pub slot_at : {A : Type 0} → Option (Option A) → Option A
slot_at none = none
slot_at (some s) = s

module _ {PeerId Stream WasmModule ModuleInstance : Type 0} (zstd : Zstd)
    (binaryen : Binaryen WasmModule ModuleInstance) (boost : Boost) where
  -- A load that ran on to here ends, or waits again. `place` puts it among the tasks.
  unfoldable pub settle :
      (Option (PeerId × LoadTask PeerId Stream) → List (Option (PeerId × LoadTask PeerId Stream)))
      → PeerId
      → LoadTask PeerId Stream
      → Loads PeerId Stream WasmModule ModuleInstance
      → Loads PeerId Stream WasmModule ModuleInstance
  settle place peer (returns r) l = record {
    service = (process_response zstd binaryen boost r l.service).0;
    tasks = place none;
    finished = l.finished ++ (peer, r) ∷ [];
  }
  settle place peer (awaits q k) l = record l { tasks = place (some (peer, awaits q k)) }

  -- `loadRuntimeForBlock`, up to its first wait. Its block is not used.
  unfoldable pub ask :
      PeerId
      → Bytes
      → Loads PeerId Stream WasmModule ModuleInstance
      → Loads PeerId Stream WasmModule ModuleInstance
  unfolding settle request_task unhex_with_0x_to_block_hash
  ask peer block l =
      settle (λ slot. l.tasks ++ slot ∷ []) peer
        (request_task peer (unhex_with_0x_to_block_hash boost requested_block)) l

  abbrev pub answer_slot :
      ℕ
      → Replies PeerId Stream ProtoRequest ProtoResponse
      → Option (PeerId × LoadTask PeerId Stream)
      → Loads PeerId Stream WasmModule ModuleInstance
      → Outcome (Loads PeerId Stream WasmModule ModuleInstance)
  answer_slot i replies none l = ok l
  answer_slot i replies (some (peer, c)) l = do
    resumed ← resume replies c
    ok (settle (λ slot. set_at i slot l.tasks) peer resumed l)

  unfoldable pub step_load :
      Loads PeerId Stream WasmModule ModuleInstance
      → LoadEvent PeerId Stream
      → Outcome (Loads PeerId Stream WasmModule ModuleInstance)
  unfolding ask resume settle set_at get_elem? ◌>>=◌
  step_load l (asks peer block) = ok (ask peer block l)
  step_load l (answers i replies) = answer_slot i replies (slot_at (get_elem? l.tasks i)) l

  unfoldable pub run_loads :
      Loads PeerId Stream WasmModule ModuleInstance
      → List (LoadEvent PeerId Stream)
      → Outcome (Loads PeerId Stream WasmModule ModuleInstance)
  unfolding step_load ◌>>=◌
  run_loads l [] = ok l
  run_loads l (e ∷ es) = do next ← step_load l e; run_loads next es
