-- ===== src/Runner/Tests.antt =====
-- Timers on small inputs.
use polkadot_light_client.Common.{
  replicate, ok, thrown, Outcome, ℕ, zero, suc, ◌≤◌, ◌≡◌, refl, ◌↔◌, true, false, List, [], ◌∷◌,
  arith,
}
use polkadot_light_client.Utils.Coroutine.{returns, awaits, Coroutine}
use polkadot_light_client.Utils.Coroutine.Interleaving.{replay}
use polkadot_light_client.Runner.Client.{
  terminates, new_runner, dispatch_task, started_by, fire_and_forget, start_all,
}
use polkadot_light_client.Runner.Dispatching.{dispatch_task-starts}
use polkadot_light_client.Runner.Timer.{
  wait_ends, destroyed, start, stop, destroy, on_wait, Event, step, run,
}
use polkadot_light_client.Runner.Ticking.{run-calls, run-start, run-start_single}

abbrev some_events : List Event
some_events = wait_ends false false ∷ wait_ends false true ∷ wait_ends false false ∷ destroyed ∷ []

run_test :
    run start some_events ≡ record { exists' = false; running = false; pending = 0; calls = 2 }
unfolding run step on_wait destroy stop
run_test = refl

run-calls_example :
    ((run (stop start) some_events).calls ≡ 0)
    × ((run (destroy start) some_events).calls ≡ 0)
    × ((run (step start (wait_ends true false)) some_events).calls ≡ 0)
run-calls_example = run-calls start false some_events (omega arith)

run-start_test :
    ((run start (replicate 3 (wait_ends false false))).calls ≡ 3)
    × ((run start (replicate 3 (wait_ends false false))).pending ≡ 1)
run-start_test = run-start 3

run-start_single_test : (run start some_events).pending ≤ 1
run-start_single_test = run-start_single some_events

-- A task that waits for one number, and throws on zero.
abbrev on_number : ℕ → Coroutine (Unit {0}) (λ q. ℕ) (Outcome (Unit {0}))
on_number zero = returns thrown
on_number (suc n) = returns (ok tt)

abbrev waiting : Coroutine (Unit {0}) (λ q. ℕ) (Outcome (Unit {0}))
waiting = awaits tt on_number

dispatch_task-starts_example :
    (start_all (started_by 3 (dispatch_task waiting new_runner).calls)
      ≡ fire_and_forget waiting ∷ [])
    × ((replay ((λ q. 0) ∷ []) (fire_and_forget waiting) ≡ returns terminates)
        ↔ (replay ((λ q. 0) ∷ []) waiting ≡ returns thrown))
dispatch_task-starts_example = dispatch_task-starts 3 waiting new_runner ((λ q. 0) ∷ [])
