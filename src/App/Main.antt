-- ===== src/App/Main.antt =====
-- app/src/main.cpp. The options that Boost reads of the command line are an argument.
use polkadot_light_client.Common.{
  ◌==◌, if◌then◌else◌, length, Bytes, codes, ok, err, thrown, fault, Outcome, ℕ, Bool, true, false,
  Option, none, some, List, [], ◌∷◌,
}
use polkadot_light_client.Utils.Hex.Algorithm.{Boost}
use polkadot_light_client.Chain.Spec.Containers.{map_find}
use polkadot_light_client.Chain.Spec.{PropertyTree, Spec}
use polkadot_light_client.Chain.Spec.Load.{load_from_file}
use polkadot_light_client.Network.PeerManager.Start.{
  PeerInfo, Kademlia, AddressBook, construct_from_addresses,
}
use polkadot_light_client.Network.PeerManager.{Host, PeerManager}
use polkadot_light_client.Runtime.Module.{Binaryen}
use polkadot_light_client.Runtime.Service.{Zstd, Service, new_service, load_genesis_runtime}
use polkadot_light_client.App.Logging.{
  off, critical, error, warn, info, verbose, debug, trace, Level, ConfigureResult, logging_works,
}
use polkadot_light_client.Utils.Stoppable.{StopHandler, add}

abbrev pub log_levels : List (Bytes × Level)
log_levels =
    (codes "off", off)
    ∷ (codes "critical", critical)
    ∷ (codes "error", error)
    ∷ (codes "warn", warn)
    ∷ (codes "info", info)
    ∷ (codes "verbose", verbose)
    ∷ (codes "debug", debug)
    ∷ (codes "trace", trace)
    ∷ []

pub record CommandLineArgs : Type 0 where
  pub log_level : Level
  pub log_file : Bytes
  pub spec_file : Bytes

-- The options, with their defaults where they are not given: "" for the files, and "info".
pub record Options : Type 0 where
  pub help : Bool
  pub spec_file : Bytes
  pub log_file : Bytes
  pub log_level : Bytes

pub data Parsing : Type 0 where
  throws_error : Parsing
  options : Options → Parsing

-- The process exits with this code, or goes on with the arguments.
pub data Arguments : Type 0 where
  exits_with : ℕ → Arguments
  accepted : CommandLineArgs → Arguments

abbrev pub with_level : Options → Option Level → Arguments
with_level o none = exits_with 1
with_level o (some level) =
    accepted (record { log_level = level; log_file = o.log_file; spec_file = o.spec_file })

unfoldable pub parse_args : Parsing → Arguments
unfolding map_find
parse_args throws_error = exits_with 1
parse_args (options o) =
    if o.help
    then exits_with 0
    else if length o.spec_file == 0
    then exits_with 1
    else with_level o (map_find o.log_level log_levels)

-- The objects of `main` when it comes to `runner->run()`.
pub record App (WasmModule ModuleInstance : Type 0) : Type 0 where
  pub connection_manager : PeerManager
  pub service : Service WasmModule ModuleInstance
  pub stop_handler : StopHandler

-- How `main` goes before that: an exception ends the process.
pub data Ending (WasmModule ModuleInstance : Type 0) : Type 0 where
  exits : ℕ → Ending WasmModule ModuleInstance
  runs : App WasmModule ModuleInstance → Ending WasmModule ModuleInstance
  terminates faults : Ending WasmModule ModuleInstance

-- The numbers of the two objects that can be stopped.
abbrev pub runner_object : ℕ
runner_object = 1

abbrev pub manager_object : ℕ
manager_object = 2

module _ {Tree WasmModule ModuleInstance : Type 0} (ptree : PropertyTree Tree) (boost : Boost)
    (multi : AddressBook) (kademlia : Kademlia) (host : Host) (self : PeerInfo) (zstd : Zstd)
    (binaryen : Binaryen WasmModule ModuleInstance) (configure : Bytes → ConfigureResult) where
  -- The stop handler is passed on from step to step. The result of `loadGenesisRuntime` is not looked
  -- at, whatever the error.
  unfoldable pub with_genesis :
      StopHandler
      → PeerManager
      → Service WasmModule ModuleInstance × Outcome (Unit {0})
      → Ending WasmModule ModuleInstance
  with_genesis stop_handler m (service, ok done) =
      runs (record { connection_manager = m; service = service; stop_handler = stop_handler })
  with_genesis stop_handler m (service, err e) =
      runs (record { connection_manager = m; service = service; stop_handler = stop_handler })
  with_genesis stop_handler m (service, thrown) = terminates
  with_genesis stop_handler m (service, fault) = faults

  unfoldable pub with_manager :
      StopHandler → Spec Bytes → Outcome PeerManager → Ending WasmModule ModuleInstance
  unfolding with_genesis
  with_manager stop_handler spec (ok m) =
      with_genesis (add manager_object stop_handler) m
        (load_genesis_runtime zstd binaryen boost (new_service spec))
  with_manager stop_handler spec (err e) = terminates
  with_manager stop_handler spec thrown = terminates
  with_manager stop_handler spec fault = faults

  unfoldable pub with_spec : StopHandler → Outcome (Spec Bytes) → Ending WasmModule ModuleInstance
  unfolding with_manager
  with_spec stop_handler (ok spec) =
      with_manager stop_handler spec
        (construct_from_addresses multi kademlia host self spec.boot_nodes)
  with_spec stop_handler (err e) = exits 1
  with_spec stop_handler thrown = terminates
  with_spec stop_handler fault = faults

  -- `prepareLogging` may exit.
  unfoldable pub with_arguments : Arguments → Ending WasmModule ModuleInstance
  unfolding with_spec
  with_arguments (exits_with code) = exits code
  with_arguments (accepted args) = elim (logging_works configure args.log_file) [
    | true ↦ with_spec (add runner_object []) (load_from_file ptree boost multi args.spec_file)
    | false ↦ exits 1
  ]

  unfoldable pub main : Parsing → Ending WasmModule ModuleInstance
  unfolding parse_args with_arguments
  main parsing = with_arguments (parse_args parsing)
