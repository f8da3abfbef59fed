-- ===== src/Runner/Dispatching.antt =====
-- What becomes of a task that is dispatched (core/src/runner/client_runner.cpp).
use polkadot_light_client.Common.{ok, err, thrown, fault, Outcome, ℕ, ◌≡◌, refl, ◌↔◌, List, [], ◌∷◌}
use polkadot_light_client.Utils.Coroutine.{returns, awaits, Coroutine, co_await}
use polkadot_light_client.Utils.Coroutine.Interleaving.{replay}
use polkadot_light_client.Utils.MoveOnCopy.Chain.{take-copy_chain}
use polkadot_light_client.Runner.Client.{
  terminates, ClientRunner, dispatch_task, called_after, started_by, fire_and_forget, start_all,
}

module _ {Ask : Type 0} {Answer : Ask → Type 0} where
  -- The end of a task, after the answers it gets.
  replay-fire_and_forget :
      (answers : List ((q : Ask) → Answer q)) (t : Coroutine Ask Answer (Outcome (Unit {0})))
      → replay answers (fire_and_forget t) ≡ fire_and_forget (replay answers t)
  unfolding replay fire_and_forget co_await
  replay-fire_and_forget [] t = refl
  replay-fire_and_forget (answer ∷ answers) (returns r) = refl
  replay-fire_and_forget (answer ∷ answers) (awaits q k) =
      replay-fire_and_forget answers (k (answer q))

  terminates_if :
      (t : Coroutine Ask Answer (Outcome (Unit {0})))
      → (fire_and_forget t ≡ returns terminates) ↔ (t ≡ returns thrown)
  unfolding fire_and_forget co_await
  terminates_if (returns (ok u)) = (λ e. cc, λ e. cc)
  terminates_if (returns (err c)) = (λ e. cc, λ e. cc)
  terminates_if (returns thrown) = (λ e. refl, λ e. refl)
  terminates_if (returns fault) = (λ e. cc, λ e. cc)
  terminates_if (awaits q k) = (λ e. cc, λ e. cc)

  -- A dispatched task is started exactly once, however often asio copies its handler. It ends the
  -- process exactly if, with the answers that it gets, it is left by an exception.
  pub dispatch_task-starts :
      (n : ℕ) (t : Coroutine Ask Answer (Outcome (Unit {0})))
      (r : ClientRunner (Coroutine Ask Answer (Outcome (Unit {0}))))
      (answers : List ((q : Ask) → Answer q))
      → (start_all (started_by n (dispatch_task t r).calls) ≡ fire_and_forget t ∷ [])
        × ((replay answers (fire_and_forget t) ≡ returns terminates)
            ↔ (replay answers t ≡ returns thrown))
  unfolding dispatch_task started_by called_after start_all
  dispatch_task-starts n t r answers = (
    rw ((take-copy_chain n t).0) refl,
    rw (replay-fire_and_forget answers t) (terminates_if (replay answers t)),
  )
