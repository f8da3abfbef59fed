-- ===== src/Runner/Client.antt =====
-- core/src/runner/client_runner.h and client_runner.cpp. The io_service of boost asio is what the runner
-- asks of it, the latest first; it may copy a handler before it calls it.
use polkadot_light_client.Common.{
  ok, err, thrown, fault, Outcome, ℕ, Bool, true, false, List, [], ◌∷◌,
}
use polkadot_light_client.Utils.Coroutine.{returns, Coroutine, co_await}
use polkadot_light_client.Utils.MoveOnCopy.{Holders, holder_of, take_value, use_all, copy_chain}

-- A handler: a function, by a number, or a task in a `MoveOnCopy`.
pub data Handler (Task : Type 0) : Type 0 where
  function : ℕ → Handler Task
  task : Holders Task → Handler Task

pub data ServiceCall (Task : Type 0) : Type 0 where
  runs stops_service : ServiceCall Task
  posts dispatches : Handler Task → ServiceCall Task
  -- a periodic timer, with its interval in milliseconds
  makes_timer : ℕ → ServiceCall Task

pub record ClientRunner (Task : Type 0) : Type 0 where
  -- `m_work` holds a value
  pub m_work : Bool
  pub calls : List (ServiceCall Task)

module _ {Task : Type 0} where
  abbrev pub new_runner : ClientRunner Task
  new_runner = record { m_work = false; calls = [] }

  abbrev pub ask : ServiceCall Task → ClientRunner Task → ClientRunner Task
  ask c r = record r { calls = c ∷ r.calls }

  unfoldable pub run : ClientRunner Task → ClientRunner Task
  run r = ask runs (record r { m_work = true })

  unfoldable pub stop : ClientRunner Task → ClientRunner Task
  stop r = ask stops_service r

  unfoldable pub post_func : ℕ → ClientRunner Task → ClientRunner Task
  post_func f r = ask (posts (function f)) r

  unfoldable pub dispatch_func : ℕ → ClientRunner Task → ClientRunner Task
  dispatch_func f r = ask (dispatches (function f)) r

  unfoldable pub dispatch_task : Task → ClientRunner Task → ClientRunner Task
  dispatch_task t r = ask (dispatches (task (holder_of t))) r

  unfoldable pub make_periodic_timer : ℕ → ClientRunner Task → ClientRunner Task
  make_periodic_timer interval r = ask (makes_timer interval) r

  -- The tasks that a handler starts when it is called, after asio has passed it on by so many copies.
  unfoldable pub called_after : ℕ → Handler Task → List Task
  called_after n (function f) = []
  called_after n (task h) = (take_value n (use_all h (copy_chain 0 n))).taken

  -- The same for the latest of the calls.
  unfoldable pub started_by : ℕ → List (ServiceCall Task) → List Task
  unfolding called_after
  started_by n [] = []
  started_by n (runs ∷ cs) = []
  started_by n (stops_service ∷ cs) = []
  started_by n (posts h ∷ cs) = called_after n h
  started_by n (dispatches h ∷ cs) = called_after n h
  started_by n (makes_timer t ∷ cs) = []

-- How the coroutine of `fireAndForget` ends: `terminates` is `std::terminate`.
pub data Ended : Type 0 where
  returned terminates undefined : Ended

-- An exception reaches `unhandled_exception`. A task without a value returns no error.
abbrev pub ended_by : Outcome (Unit {0}) → Ended
ended_by (ok u) = returned
ended_by (err e) = returned
ended_by thrown = terminates
ended_by fault = undefined

module _ {Ask : Type 0} {Answer : Ask → Type 0} where
  unfoldable pub fire_and_forget :
      Coroutine Ask Answer (Outcome (Unit {0})) → Coroutine Ask Answer Ended
  unfolding co_await
  fire_and_forget local_task = co_await local_task (λ r. returns (ended_by r))

  -- What a call of a handler starts.
  unfoldable pub start_all :
      List (Coroutine Ask Answer (Outcome (Unit {0}))) → List (Coroutine Ask Answer Ended)
  unfolding fire_and_forget
  start_all [] = []
  start_all (t ∷ ts) = fire_and_forget t ∷ start_all ts
