-- ===== src/Runtime/Instances.antt =====
-- The instances of the runtime that core/src/runtime/service.cpp makes, whatever it is asked to load.
use polkadot_light_client.Common.{
  if_intro, some-injective, Bytes, bytes_eq, ok, err, thrown, fault, Outcome, ◌≡◌, refl, sym, ap,
  ◌∙◌, some, List, [], ◌∷◌, codes,
}
use polkadot_light_client.Utils.Hex.Algorithm.{Boost}
use polkadot_light_client.Utils.Hex.{hex}
use polkadot_light_client.Network.Light2.Messages.{RemoteReadRequest}
use polkadot_light_client.Runtime.Module.{Binaryen, parse_code}
use polkadot_light_client.Runtime.Service.{
  code_hex, Zstd, Service, uncompress_code_if_needed, start_instance, instantiate_module,
  process_code, process_runtime, genesis_loop, load_genesis_runtime, process_response,
  request_runtime, load_runtime_for_block,
}

-- The calls of the service: the block's with the light protocol at the time, the peer and the hash.
pub data Loading (PeerId : Type 0) : Type 0 where
  genesis_runtime : Loading PeerId
  block_runtime : (RemoteReadRequest → PeerId → Outcome Bytes) → PeerId → Bytes → Loading PeerId

module _ {WasmModule ModuleInstance : Type 0} (binaryen : Binaryen WasmModule ModuleInstance) where
  -- The instance was made of the module that was read last, and the executor has it too.
  pub record IsStarted (after : Service WasmModule ModuleInstance) : Type 0 where
    pub wasm_module : WasmModule
    pub instance' : ModuleInstance
    pub made : binaryen.instantiate wasm_module ≡ ok instance'
    pub read : after.wasm_module ≡ some wasm_module
    pub held : after.module_instance ≡ some instance'
    pub runs : after.executor ≡ some instance'

  pub record IsUntouched (before after : Service WasmModule ModuleInstance) : Type 0 where
    pub held : after.module_instance ≡ before.module_instance
    pub runs : after.executor ≡ before.executor

  -- With a result that is no error the new runtime runs, and with any other the old one still does.
  abbrev pub IsLoading :
      Service WasmModule ModuleInstance
      → Service WasmModule ModuleInstance × Outcome (Unit {0})
      → Type 0
  IsLoading before (after, ok done) = IsStarted after
  IsLoading before (after, err e) = IsUntouched before after
  IsLoading before (after, thrown) = IsUntouched before after
  IsLoading before (after, fault) = IsUntouched before after

  untouched : (before : Service WasmModule ModuleInstance) → IsUntouched before before
  untouched before = record { held = refl; runs = refl }

  -- The executor runs the service's instance, and that was made of some module.
  pub record IsInSync (service : Service WasmModule ModuleInstance) : Type 0 where
    pub same : service.executor ≡ service.module_instance
    pub made :
        (i : ModuleInstance)
        → service.module_instance ≡ some i
        → (m : WasmModule) × (binaryen.instantiate m ≡ ok i)

  kept-IsInSync :
      (before after : Service WasmModule ModuleInstance)
      → IsUntouched before after
      → IsInSync before
      → IsInSync after
  kept-IsInSync before after u s = record {
    same = u.runs ∙ s.same ∙ sym u.held;
    made = λ i e. s.made i (sym u.held ∙ e);
  }

  IsLoading-IsInSync :
      (before : Service WasmModule ModuleInstance)
      (r : Service WasmModule ModuleInstance × Outcome (Unit {0}))
      → IsLoading before r
      → IsInSync before
      → IsInSync r.0
  IsLoading-IsInSync before (after, ok done) l s = record {
    same = l.runs ∙ sym l.held;
    made = λ i e. (l.wasm_module, l.made ∙ ap ok (some-injective (sym l.held ∙ e)));
  }
  IsLoading-IsInSync before (after, err e) l s = kept-IsInSync before after l s
  IsLoading-IsInSync before (after, thrown) l s = kept-IsInSync before after l s
  IsLoading-IsInSync before (after, fault) l s = kept-IsInSync before after l s

module _ {WasmModule ModuleInstance : Type 0} (zstd : Zstd)
    (binaryen : Binaryen WasmModule ModuleInstance) (boost : Boost) where
  abbrev pub load :
      {PeerId : Type 0}
      → Service WasmModule ModuleInstance
      → Loading PeerId
      → Service WasmModule ModuleInstance × Outcome (Unit {0})
  load service genesis_runtime = load_genesis_runtime zstd binaryen boost service
  load service (block_runtime send peer block) =
      load_runtime_for_block zstd binaryen boost send peer block service

  unfoldable pub load_all :
      {PeerId : Type 0}
      → Service WasmModule ModuleInstance
      → List (Loading PeerId)
      → Service WasmModule ModuleInstance
  load_all service [] = service
  load_all service (l ∷ ls) = load_all (load service l).0 ls

  start_instance-IsLoading :
      (m : WasmModule) (before : Service WasmModule ModuleInstance) (made : Outcome ModuleInstance)
      → binaryen.instantiate m ≡ made
      → IsLoading binaryen before
          (start_instance zstd binaryen boost made (record before { wasm_module = some m }))
  unfolding start_instance
  start_instance-IsLoading m before (ok i) e = record {
    wasm_module = m;
    instance' = i;
    made = e;
    read = refl;
    held = refl;
    runs = refl;
  }
  start_instance-IsLoading m before (err c) e = record { held = refl; runs = refl }
  start_instance-IsLoading m before thrown e = record { held = refl; runs = refl }
  start_instance-IsLoading m before fault e = record { held = refl; runs = refl }

  instantiate_module-IsLoading :
      (m : WasmModule) (result : Outcome (Unit {0})) (before : Service WasmModule ModuleInstance)
      → IsLoading binaryen before (instantiate_module zstd binaryen boost (some m, result) before)
  unfolding instantiate_module
  instantiate_module-IsLoading m (ok done) before =
      start_instance-IsLoading m before (binaryen.instantiate m) refl
  instantiate_module-IsLoading m (err c) before = record { held = refl; runs = refl }
  instantiate_module-IsLoading m thrown before = record { held = refl; runs = refl }
  instantiate_module-IsLoading m fault before = record { held = refl; runs = refl }

  process_code-IsLoading :
      (code : Outcome Bytes) (before : Service WasmModule ModuleInstance)
      → IsLoading binaryen before (process_code zstd binaryen boost code before)
  unfolding process_code parse_code
  process_code-IsLoading (ok code) before = instantiate_module-IsLoading _ _ before
  process_code-IsLoading (err c) before = untouched binaryen before
  process_code-IsLoading thrown before = untouched binaryen before
  process_code-IsLoading fault before = untouched binaryen before

  process_runtime-IsLoading :
      (runtime : Bytes) (before : Service WasmModule ModuleInstance)
      → IsLoading binaryen before (process_runtime zstd binaryen boost runtime before)
  unfolding process_runtime
  process_runtime-IsLoading runtime before =
      process_code-IsLoading (uncompress_code_if_needed zstd runtime) before

  genesis_loop-IsLoading :
      (genesis : List (Bytes × Bytes)) (before : Service WasmModule ModuleInstance)
      → IsLoading binaryen before (genesis_loop zstd binaryen boost genesis before)
  unfolding genesis_loop
  genesis_loop-IsLoading [] before = untouched binaryen before
  genesis_loop-IsLoading ((k, v) ∷ genesis) before =
      if_intro (IsLoading binaryen before) (bytes_eq (hex boost k) code_hex)
        (λ _. process_runtime-IsLoading v before) (λ _. genesis_loop-IsLoading genesis before)

  process_response-IsLoading :
      (answer : Outcome Bytes) (before : Service WasmModule ModuleInstance)
      → IsLoading binaryen before (process_response zstd binaryen boost answer before)
  unfolding process_response
  process_response-IsLoading (ok proof) before = process_runtime-IsLoading _ before
  process_response-IsLoading (err c) before = untouched binaryen before
  process_response-IsLoading thrown before = untouched binaryen before
  process_response-IsLoading fault before = untouched binaryen before

  request_runtime-IsLoading :
      {PeerId : Type 0} (send : RemoteReadRequest → PeerId → Outcome Bytes) (peer : PeerId)
      (hash : Outcome Bytes) (before : Service WasmModule ModuleInstance)
      → IsLoading binaryen before (request_runtime zstd binaryen boost send peer hash before)
  unfolding request_runtime
  request_runtime-IsLoading send peer (ok hash) before =
      process_response-IsLoading (send (record { block = hash; keys = codes ":code" ∷ [] }) peer)
        before
  request_runtime-IsLoading send peer (err c) before = untouched binaryen before
  request_runtime-IsLoading send peer thrown before = untouched binaryen before
  request_runtime-IsLoading send peer fault before = untouched binaryen before

  -- Either way of loading a runtime replaces the instance, and the executor's with it, by one of the
  -- module read last if it returns no error; else it leaves both as they were.
  pub load-IsLoading :
      {PeerId : Type 0} (before : Service WasmModule ModuleInstance) (l : Loading PeerId)
      → IsLoading binaryen before (load before l)
  unfolding load_genesis_runtime load_runtime_for_block
  load-IsLoading before genesis_runtime = genesis_loop-IsLoading before.genesis before
  load-IsLoading before (block_runtime send peer block) =
      request_runtime-IsLoading send peer _ before

  -- After any history of loads, failed ones included, the executor runs the service's instance.
  pub load_all-IsInSync :
      {PeerId : Type 0} (service : Service WasmModule ModuleInstance) (ls : List (Loading PeerId))
      → IsInSync binaryen service
      → IsInSync binaryen (load_all service ls)
  unfolding load_all
  load_all-IsInSync service [] s = s
  load_all-IsInSync service (l ∷ ls) s =
      load_all-IsInSync (load service l).0 ls
        (IsLoading-IsInSync binaryen service (load service l) (load-IsLoading service l) s)
