-- ===== src/Runtime/Module.antt =====
-- core/src/runtime/module.h and module.cpp. The parser and the interpreter of WebAssembly are
-- Binaryen's.
use polkadot_light_client.Common.{
  Bytes, codes, module_category, ok, err, thrown, ErrorCode, Outcome, ℕ, Option, some, List,
}

pub data ModuleError : Type 0 where
  parsing_error : ModuleError

abbrev pub module_error : ModuleError → ErrorCode
module_error parsing_error = record { category = module_category; value = 1 }

unfoldable pub module_message : ModuleError → Bytes
module_message parsing_error = codes "Error while trying to parse the runtime code"

-- How `WasmBinaryBuilder::read` ends.
pub data Reading : Type 0 where
  reads throws_parse_exception throws_other : Reading

-- What the runtime calls of Binaryen: `read` fills a module, as far as it comes, the constructor of an
-- instance runs its start function, which may throw, and a call of an export gives its results.
pub record Binaryen (WasmModule ModuleInstance : Type 0) : Type 0 where
  pub read : Bytes → WasmModule × Reading
  pub instantiate : WasmModule → Outcome ModuleInstance
  pub call_export : Bytes → List ℕ → ModuleInstance → Outcome (List ℕ)

module _ {WasmModule ModuleInstance : Type 0} (binaryen : Binaryen WasmModule ModuleInstance) where
  abbrev pub reading_result : Reading → Outcome (Unit {0})
  reading_result reads = ok tt
  reading_result throws_parse_exception = err (module_error parsing_error)
  reading_result throws_other = thrown

  -- The new module, whether or not it was read to its end, and the result.
  unfoldable pub parse_code : Bytes → Option WasmModule × Outcome (Unit {0})
  parse_code code = let (m, reading) = binaryen.read code in (some m, reading_result reading)
