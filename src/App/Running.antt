-- ===== src/App/Running.antt =====
-- When the program comes to run (app/src/main.cpp).
use polkadot_light_client.Common.{
  if◌then◌else◌, Bool-cases, Bytes, ok, err, thrown, fault, Outcome, Returns, ℕ, ◌≡◌, refl, sym, ap,
  subst, ◌∙◌, ◌↔◌, inl, inr, Bool, true, [], ◌∷◌, ◌++◌,
}
use polkadot_light_client.Utils.Stoppable.{StopHandler, add, stop, alive_last_first, stop-eq}
use polkadot_light_client.Utils.Hex.Algorithm.{Boost}
use polkadot_light_client.Chain.Spec.{PropertyTree, Spec}
use polkadot_light_client.Chain.Spec.Load.{load_from_file}
use polkadot_light_client.Network.PeerManager.Loops.{IsSettled}
use polkadot_light_client.Network.PeerManager.Start.{
  PeerInfo, Kademlia, AddressBook, construct_from_addresses,
}
use polkadot_light_client.Network.PeerManager.{Host, PeerManager}
use polkadot_light_client.Runtime.Module.{Binaryen}
use polkadot_light_client.Runtime.Service.{Zstd, Service, new_service, load_genesis_runtime}
use polkadot_light_client.App.Logging.{ConfigureResult, logging_works}
use polkadot_light_client.App.Main.{
  accepted, exits, runs, CommandLineArgs, Parsing, parse_args, App, runner_object, manager_object,
  with_genesis, with_manager, with_spec, with_arguments, main,
}
use polkadot_light_client.Network.PeerManager.Construction.{construct_from_addresses-load_from_file}

runs-injective :
    {WasmModule ModuleInstance : Type 0} {a b : App WasmModule ModuleInstance}
    → runs a ≡ runs b
    → a ≡ b
runs-injective e = cc

module _ {Tree WasmModule ModuleInstance : Type 0} (ptree : PropertyTree Tree) (boost : Boost)
    (multi : AddressBook) (kademlia : Kademlia) (host : Host) (self : PeerInfo) (zstd : Zstd)
    (binaryen : Binaryen WasmModule ModuleInstance) (configure : Bytes → ConfigureResult) where
  -- The handler after the two additions of `main`.
  abbrev handler : StopHandler
  handler = add manager_object (add runner_object [])

  -- What the program holds when it runs: the manager made of the boot nodes, within its limits, the
  -- service after the load of the genesis runtime, and a stop handler that stops the manager first and
  -- then the runner, each if it is still alive.
  pub record IsStartOf (spec : Spec Bytes) (app : App WasmModule ModuleInstance) : Type 0 where
    pub made :
        construct_from_addresses multi kademlia host self spec.boot_nodes
        ≡ ok app.connection_manager
    pub settled : IsSettled app.connection_manager
    pub service : app.service ≡ (load_genesis_runtime zstd binaryen boost (new_service spec)).0
    pub returned : Returns (load_genesis_runtime zstd binaryen boost (new_service spec)).1
    pub stops :
        (alive : ℕ → Bool)
        → stop alive app.stop_handler
          ≡ (if alive manager_object then manager_object ∷ [] else [])
            ++ (if alive runner_object then runner_object ∷ [] else [])

  stops_manager_first :
      (alive : ℕ → Bool)
      → stop alive handler
        ≡ (if alive manager_object then manager_object ∷ [] else [])
          ++ (if alive runner_object then runner_object ∷ [] else [])
  unfolding alive_last_first
  stops_manager_first alive = stop-eq alive handler

  with_genesis-IsStartOf :
      (spec : Spec Bytes) (m : PeerManager) (app : App WasmModule ModuleInstance)
      (r : Service WasmModule ModuleInstance × Outcome (Unit {0}))
      → construct_from_addresses multi kademlia host self spec.boot_nodes ≡ ok m
      → IsSettled m
      → load_genesis_runtime zstd binaryen boost (new_service spec) ≡ r
      → with_genesis ptree boost multi kademlia host self zstd binaryen configure handler m r
        ≡ runs app
      → IsStartOf spec app
  unfolding with_genesis
  with_genesis-IsStartOf spec m app (service, ok done) made settled e h =
      subst (IsStartOf spec) (runs-injective h) (record {
        made = made;
        settled = settled;
        service = sym (ap (λ x. x.0) e);
        returned = rw e tt;
        stops = stops_manager_first;
      })
  with_genesis-IsStartOf spec m app (service, err c) made settled e h =
      subst (IsStartOf spec) (runs-injective h) (record {
        made = made;
        settled = settled;
        service = sym (ap (λ x. x.0) e);
        returned = rw e tt;
        stops = stops_manager_first;
      })
  with_genesis-IsStartOf spec m app (service, thrown) made settled e h = absurd (cc)
  with_genesis-IsStartOf spec m app (service, fault) made settled e h = absurd (cc)

  with_genesis_runs :
      (m : PeerManager) (r : Service WasmModule ModuleInstance × Outcome (Unit {0}))
      → Returns r.1
      → (app : App WasmModule ModuleInstance) × (with_genesis ptree boost multi kademlia host self
            zstd binaryen configure handler m r
          ≡ runs app)
  unfolding with_genesis
  with_genesis_runs m (service, ok done) h = (_, refl)
  with_genesis_runs m (service, err e) h = (_, refl)
  with_genesis_runs m (service, thrown) h = absurd h
  with_genesis_runs m (service, fault) h = absurd h

  -- A loaded specification: the manager is built, so that only the genesis runtime decides.
  with_loaded :
      (file : Bytes) (spec : Spec Bytes)
      → load_from_file ptree boost multi file ≡ ok spec
      → (m : PeerManager) × (construct_from_addresses multi kademlia host self spec.boot_nodes
          ≡ ok m)
        × IsSettled m
        × (with_spec ptree boost multi kademlia host self zstd binaryen configure
              (add runner_object [])
              (load_from_file ptree boost multi file)
            ≡ with_genesis ptree boost multi kademlia host self zstd binaryen configure handler m
                (load_genesis_runtime zstd binaryen boost (new_service spec)))
  unfolding with_spec with_manager
  with_loaded file spec e =
      let (m, made, settled, added) =
        construct_from_addresses-load_from_file multi ptree boost file spec kademlia host self e in
      (m, made, settled, rw (e, made) refl)

  with_spec-IsStartOf :
      (file : Bytes) (app : App WasmModule ModuleInstance) (r : Outcome (Spec Bytes))
      → load_from_file ptree boost multi file ≡ r
      → with_spec ptree boost multi kademlia host self zstd binaryen configure
          (add runner_object [])
          r
        ≡ runs app
      → (spec : Spec Bytes) × (load_from_file ptree boost multi file ≡ ok spec) × IsStartOf spec app
  unfolding with_spec
  with_spec-IsStartOf file app (ok spec) e h =
      let (m, made, settled, same) = with_loaded file spec e in
      (
        spec,
        e,
        with_genesis-IsStartOf spec m app _ made settled refl (
            sym same
            ∙ ap
                (with_spec ptree boost multi kademlia host self zstd binaryen configure
                  (add runner_object []))
                e
            ∙ h),
      )
  with_spec-IsStartOf file app (err c) e h = absurd (cc)
  with_spec-IsStartOf file app thrown e h = absurd (cc)
  with_spec-IsStartOf file app fault e h = absurd (cc)

  -- With accepted arguments `main` goes on exactly if the logging system was configured.
  accepted_runs :
      (parsing : Parsing) (args : CommandLineArgs) (app : App WasmModule ModuleInstance)
      → parse_args parsing ≡ accepted args
      → main ptree boost multi kademlia host self zstd binaryen configure parsing ≡ runs app
      → (logging_works configure args.log_file ≡ true)
        × (with_spec ptree boost multi kademlia host self zstd binaryen configure
              (add runner_object [])
              (load_from_file ptree boost multi args.spec_file)
            ≡ runs app)
  unfolding main with_arguments
  accepted_runs parsing args app e h =
      let k : with_arguments ptree boost multi kademlia host self zstd binaryen configure
            (accepted args)
          ≡ runs app =
        sym (ap (with_arguments ptree boost multi kademlia host self zstd binaryen configure) e)
        ∙ h in
      elim (Bool-cases (logging_works configure args.log_file)) [
        | inl works ↦ (works, rw (works, with_arguments) at k)
        | inr fails ↦ absurd (exits_never_runs (rw (fails, with_arguments) at k))
      ]
    where
      exits_never_runs : exits 1 ≡ runs app → ⊥
      exits_never_runs k = cc

  main_of :
      (parsing : Parsing) (args : CommandLineArgs)
      → parse_args parsing ≡ accepted args
      → logging_works configure args.log_file ≡ true
      → main ptree boost multi kademlia host self zstd binaryen configure parsing
        ≡ with_spec ptree boost multi kademlia host self zstd binaryen configure
            (add runner_object [])
            (load_from_file ptree boost multi args.spec_file)
  unfolding main with_arguments
  main_of parsing args e works =
      ap (with_arguments ptree boost multi kademlia host self zstd binaryen configure) e
      ∙ rw (works, with_arguments) refl

  -- With accepted arguments the program comes to run exactly if the logging system is configured, the
  -- specification loads, and the load of the genesis runtime returns, be it with an error: that is not
  -- looked at.
  pub main_iff :
      (parsing : Parsing) (args : CommandLineArgs)
      → parse_args parsing ≡ accepted args
      → ((app : App WasmModule ModuleInstance) × (main ptree boost multi kademlia host self zstd
              binaryen configure parsing
            ≡ runs app))
        ↔ ((logging_works configure args.log_file ≡ true)
            × (spec : Spec Bytes) × (load_from_file ptree boost multi args.spec_file ≡ ok spec)
            × Returns (load_genesis_runtime zstd binaryen boost (new_service spec)).1)
  main_iff parsing args e = (
    λ x.
        let (works, h) = accepted_runs parsing args x.0 e x.1 in
        let (spec, loaded, start) = with_spec-IsStartOf args.spec_file x.0 _ refl h in
        (works, spec, loaded, start.returned),
    λ y.
        let (works, spec, loaded, returned) = y in
        let (m, made, settled, same) = with_loaded args.spec_file spec loaded in
        let (app, h) = with_genesis_runs m _ returned in
        (app, main_of parsing args e works ∙ same ∙ h),
  )

  -- When the program comes to run, it configured its logging, it read the specification that its
  -- arguments name, its manager is the one made of the boot nodes, with no more than 20 connections
  -- and within its invariant, its service is that after the load of the genesis runtime, which
  -- returned, and its stop handler would stop the manager first and then the runner, each if it is
  -- alive.
  pub main-runs :
      (parsing : Parsing) (args : CommandLineArgs) (app : App WasmModule ModuleInstance)
      → parse_args parsing ≡ accepted args
      → main ptree boost multi kademlia host self zstd binaryen configure parsing ≡ runs app
      → (logging_works configure args.log_file ≡ true)
        × (spec : Spec Bytes) × (load_from_file ptree boost multi args.spec_file ≡ ok spec)
        × IsStartOf spec app
  main-runs parsing args app e h =
      let (works, k) = accepted_runs parsing args app e h in
      let (spec, loaded, start) = with_spec-IsStartOf args.spec_file app _ refl k in
      (works, spec, loaded, start)
