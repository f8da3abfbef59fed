-- ===== src/App/Tests.antt =====
-- The program on a small specification, and its properties at concrete inputs.
use polkadot_light_client.Common.{
  ◌==◌, take, drop, replicate, All, Bytes, codes, bytes_eq, ok, err, thrown, Returns, ◌≡◌, refl,
  ◌↔◌, true, false, none, [], ◌∷◌, ◌++◌, arith,
}
use polkadot_light_client.Utils.Hex.Reference.{reference, reference-BoostLaws}
use polkadot_light_client.Utils.Hex.{overwrite, hex}
use polkadot_light_client.Chain.Spec.Containers.{map_find}
use polkadot_light_client.Chain.Spec.{Spec}
use polkadot_light_client.Chain.Spec.Load.{load_from_file}
use polkadot_light_client.Chain.Spec.Sample.{reader, addresses, good, good_spec, good_test}
use polkadot_light_client.Network.PeerManager.Start.{PeerInfo, Kademlia}
use polkadot_light_client.Network.PeerManager.{Host}
use polkadot_light_client.Runtime.Module.{throws_parse_exception, Binaryen}
use polkadot_light_client.Runtime.Service.{
  missing_initial_runtime, service_error, Zstd, contentsize_error, new_service, genesis_loop,
  load_genesis_runtime,
}
use polkadot_light_client.Runtime.Genesis.{load_found}
use polkadot_light_client.App.Logging.{
  debug, prints_to_cerr, exits_process, before_file, after_file, format, search, rest_of_line,
  replace_loop, config_of, ConfigureResult, prepare_logging, logging_works, config_of_lem,
}
use polkadot_light_client.App.Genesis.{load_genesis_runtime-load_from_file}
use polkadot_light_client.App.Main.{
  options, exits_with, accepted, runs, CommandLineArgs, Parsing, parse_args, App, main,
}
use polkadot_light_client.App.Running.{IsStartOf, main_iff, main-runs}
use polkadot_light_client.App.Rounds.{replace_loop-enough}

abbrev node : Host
node = record {
  has_connection = λ p. false;
  get_addresses = λ p. none;
  peer_addresses = λ p. [];
  can_not_connect = λ p. false;
}

abbrev quiet : Kademlia
quiet = λ peer. []

abbrev self : PeerInfo
self = record { id = 0; addresses = [] }

-- No frame is valid, and no code a module.
abbrev refusing : Zstd
refusing = record { get_frame_content_size = λ s. contentsize_error; decompress = λ n s. ([], 0) }

abbrev machine : Binaryen Bytes Bytes
machine = record {
  read = λ code. (code, throws_parse_exception);
  instantiate = λ m. thrown;
  call_export = λ name arguments i. thrown;
}

-- Every configuration is accepted.
abbrev soralog : Bytes → ConfigureResult
soralog config = record { has_error = false; message = [] }

abbrev command : Parsing
command = options (record {
  help = false;
  spec_file = codes "spec.json";
  log_file = [];
  log_level = codes "debug";
})

abbrev given : CommandLineArgs
given = record { log_level = debug; log_file = []; spec_file = codes "spec.json" }

command_test : parse_args command ≡ accepted given
unfolding parse_args map_find bytes_eq
command_test = refl

no_file_test :
    parse_args
      (options (record { help = false; spec_file = []; log_file = []; log_level = codes "info" }))
    ≡ exits_with 1
unfolding parse_args
no_file_test = refl

-- The specification has no runtime.
no_runtime_test :
    (load_genesis_runtime refusing machine reference (new_service good_spec)).1
    ≡ err (service_error missing_initial_runtime)
unfolding load_genesis_runtime genesis_loop hex reference replicate bytes_eq take drop overwrite
no_runtime_test = refl

returned : Returns (load_genesis_runtime refusing machine reference (new_service good_spec)).1
returned = rw no_runtime_test tt

main_iff_example :
    ((app : App Bytes Bytes) × (main
          (reader good)
          reference
          addresses
          quiet
          node
          self
          refusing
          machine
          soralog
          command
        ≡ runs app))
    ↔ ((logging_works soralog given.log_file ≡ true)
        × (spec : Spec Bytes) × (load_from_file (reader good) reference addresses given.spec_file
            ≡ ok spec)
        × Returns (load_genesis_runtime refusing machine reference (new_service spec)).1)
main_iff_example =
    main_iff (reader good) reference addresses quiet node self refusing machine soralog command
      given command_test

-- The program that runs on it.
running :
    (app : App Bytes Bytes) × (main
        (reader good)
        reference
        addresses
        quiet
        node
        self
        refusing
        machine
        soralog
        command
      ≡ runs app)
running =
    (main_iff (reader good) reference addresses quiet node self refusing machine soralog command
        given command_test).1
      (refl, good_spec, good_test, returned)

main-runs_example :
    (logging_works soralog given.log_file ≡ true)
    × (spec : Spec Bytes) × (load_from_file (reader good) reference addresses given.spec_file
        ≡ ok spec)
    × IsStartOf
        (reader good)
        reference
        addresses
        quiet
        node
        self
        refusing
        machine
        soralog
        spec
        running.0
main-runs_example =
    main-runs (reader good) reference addresses quiet node self refusing machine soralog command
      given running.0 command_test running.1

load_genesis_runtime-load_from_file_example :
    load_genesis_runtime refusing machine reference (new_service good_spec)
    ≡ load_found refusing machine reference-BoostLaws
        (map_find (codes ":code") good_spec.genesis)
        (new_service good_spec)
load_genesis_runtime-load_from_file_example =
    load_genesis_runtime-load_from_file (reader good) addresses refusing machine reference-BoostLaws
      (codes "spec.json") good_spec good_test

no_dollar : All (λ d. (d == b'$') ≡ false) (codes "plc.log")
no_dollar = (refl, (refl, (refl, (refl, (refl, (refl, (refl, tt)))))))

config_of_lem_example : config_of (codes "plc.log") ≡ before_file ++ (codes "plc.log" ++ after_file)
config_of_lem_example = config_of_lem b'p' (codes "lc.log") no_dollar

-- In the name of a log file `$&` stands for the placeholder.
dollar_test : config_of (codes "a$&b") ≡ before_file ++ (codes "a_PLCLOGFILE_b" ++ after_file)
unfolding config_of replace_loop search rest_of_line format take drop bytes_eq
dollar_test = refl

log_error_test :
    prepare_logging (λ config. record { has_error = true; message = codes "E" }) debug []
    ≡ prints_to_cerr (codes "E") ∷ exits_process 1 ∷ []
unfolding prepare_logging config_of
log_error_test = refl

replace_loop-enough_test :
    replace_loop 3 (codes "x") (codes "ab") ≡ replace_loop 2 (codes "x") (codes "ab")
replace_loop-enough_test =
    replace_loop-enough (codes "x") 3 2 (codes "ab") (omega arith) (omega arith)
