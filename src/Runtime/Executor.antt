-- ===== src/Runtime/Executor.antt =====
-- core/src/runtime/ptr.h, executor.h and api.cpp.
use polkadot_light_client.Common.{
  Bytes, codes, ok, fault, Outcome, ◌>>=◌, ℕ, ◌/◌, ◌%◌, ◌^◌, Option, none, some, List, [], ◌∷◌,
}
use polkadot_light_client.Runtime.Module.{Binaryen}

-- A member that no constructor writes holds no particular number: there is none.
pub record Ptr : Type 0 where
  pub ptr : Option ℕ
  pub size : Option ℕ

-- The constructor declares two constants of the members' names, and leaves the members as they are.
abbrev pub make_ptr : ℕ → Ptr
make_ptr wasm_ptr =
    let ptr = wasm_ptr % 2 ^ 32 in
    let size = wasm_ptr / 2 ^ 32 % 2 ^ 32 in record { ptr = none; size = none }

-- `result[0]`
abbrev pub first_result : List ℕ → Outcome Ptr
first_result [] = fault
first_result (r ∷ rs) = ok (make_ptr r)

module _ {WasmModule ModuleInstance : Type 0} (binaryen : Binaryen WasmModule ModuleInstance) where
  -- The arguments of the call are left out, and two zeros passed.
  unfoldable pub call : Bytes → Option ModuleInstance → Outcome Ptr
  call name none = fault
  call name (some module_instance) = do
    result ← binaryen.call_export name (0 ∷ 0 ∷ []) module_instance
    first_result result

  unfoldable pub core_version : Option ModuleInstance → Outcome Ptr
  unfolding call
  core_version executor = call (codes "Core_version") executor
