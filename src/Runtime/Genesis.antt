-- ===== src/Runtime/Genesis.antt =====
-- The genesis runtime (core/src/runtime/service.cpp, `loadGenesisRuntime`).
use polkadot_light_client.Common.{
  Bool-cases, All, Bytes, IsByte, codes, bytes_eq, err, Outcome, ◌≡◌, refl, inl, inr, Option, none,
  some, [], ◌∷◌, if◌then◌else◌, if_intro, bytes_eq→eq, bytes_eq_refl, sym, subst, ◌∙◌, arith,
}
use polkadot_light_client.Utils.Hex.Algorithm.{Boost, digit, BoostLaws}
use polkadot_light_client.Utils.Hex.RoundTrip.{hex_lem, hex-injective}
use polkadot_light_client.Utils.Hex.{hex}
use polkadot_light_client.Chain.Spec.Containers.{map_find}
use polkadot_light_client.Chain.Spec.{GenesisRawData}
use polkadot_light_client.Runtime.Module.{Binaryen}
use polkadot_light_client.Runtime.Service.{
  missing_initial_runtime, service_error, code_hex, Zstd, Service, process_runtime, genesis_loop,
  load_genesis_runtime,
}

module _ {WasmModule ModuleInstance : Type 0} (zstd : Zstd)
    (binaryen : Binaryen WasmModule ModuleInstance) {boost : Boost} (laws : BoostLaws boost) where
  hex-code : hex boost (codes ":code") ≡ code_hex
  unfolding digit
  hex-code = rw (hex_lem laws (codes ":code")) (
      rw laws.hex_lower_cons (
        rw laws.hex_lower_cons (
          rw laws.hex_lower_cons
            (rw laws.hex_lower_cons (rw laws.hex_lower_cons (rw laws.hex_lower_nil refl))))))

  -- Among keys of bytes, the test on the digits is the test on the key.
  is_code :
      (k : Bytes) → All IsByte k → bytes_eq (hex boost k) code_hex ≡ bytes_eq k (codes ":code")
  is_code k h = elim (Bool-cases (bytes_eq k (codes ":code"))) [
    | inl e ↦
        subst (λ (x : Bytes). bytes_eq (hex boost x) code_hex ≡ bytes_eq x (codes ":code"))
          (sym (bytes_eq→eq k (codes ":code") e))
          (rw hex-code (bytes_eq_refl code_hex ∙ sym (bytes_eq_refl (codes ":code"))))
    | inr e ↦ elim (Bool-cases (bytes_eq (hex boost k) code_hex)) [
      | inl same ↦
          let key : k ≡ codes ":code" =
            hex-injective laws k (codes ":code") h (omega arith)
              (bytes_eq→eq (hex boost k) code_hex same ∙ sym hex-code) in
          absurd (cc (bytes_eq_refl (codes ":code")))
      | inr other ↦ other ∙ sym e
    ]
  ]

  -- What is made of the entry that was looked up.
  abbrev pub load_found :
      Option Bytes
      → Service WasmModule ModuleInstance
      → Service WasmModule ModuleInstance × Outcome (Unit {0})
  load_found none service = (service, err (service_error missing_initial_runtime))
  load_found (some code) service = process_runtime zstd binaryen boost code service

  genesis_loop_lem :
      (genesis : GenesisRawData) (service : Service WasmModule ModuleInstance)
      → All (λ (d : Bytes × Bytes). All IsByte d.0) genesis
      → genesis_loop zstd binaryen boost genesis service
        ≡ load_found (map_find (codes ":code") genesis) service
  unfolding genesis_loop map_find
  genesis_loop_lem [] service h = refl
  genesis_loop_lem ((k, v) ∷ genesis) service (b, h) = rw (is_code k b) (
      if_intro
        (λ (o : Option Bytes).
          (if bytes_eq k (codes ":code")
            then process_runtime zstd binaryen boost v service
            else genesis_loop zstd binaryen boost genesis service)
          ≡ load_found o service)
        (bytes_eq k (codes ":code")) (λ e. rw e refl)
        (λ e. rw e (genesis_loop_lem genesis service h)))

  -- The runtime that is loaded from the genesis is the value of the key ":code", the first one if
  -- there are several; the error MissingInitialRuntime is given exactly where the key is missing, and
  -- then the service is left as it was.
  pub load_genesis_runtime_lem :
      (service : Service WasmModule ModuleInstance)
      → All (λ (d : Bytes × Bytes). All IsByte d.0) service.genesis
      → load_genesis_runtime zstd binaryen boost service
        ≡ load_found (map_find (codes ":code") service.genesis) service
  unfolding load_genesis_runtime
  load_genesis_runtime_lem service h = genesis_loop_lem service.genesis service h
