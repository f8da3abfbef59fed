-- ===== src/Runner/Timer.antt =====
-- core/src/runner/timer.h and timer.cpp, with the waits of the asio timer as events.
use polkadot_light_client.Common.{
  if◌then◌else◌, ℕ, zero, suc, Bool, true, false, ◌&&◌, List, [], ◌∷◌,
}

-- The shared state of a timer, with the waits that are pending and the calls of its handler.
pub record State : Type 0 where
  -- some owner holds the shared pointer
  pub exists' : Bool
  pub running : Bool
  pub pending : ℕ
  pub calls : ℕ

abbrev pub async_wait : State → State
async_wait t = record t { pending = suc t.pending }

abbrev pub start : State
start = async_wait (record { exists' = true; running = true; pending = 0; calls = 0 })

unfoldable pub stop : State → State
stop t = if t.exists' then record t { running = false } else t

-- The destructor: the state goes with its owner.
unfoldable pub destroy : State → State
unfolding stop
destroy t = record (stop t) { exists' = false }

-- The handler runs, and may stop the timer.
abbrev pub call_handler : Bool → State → State
call_handler stops t = record t {
  calls = suc t.calls;
  running = if stops then false else t.running;
}

-- A pending wait ends, in an error or not.
unfoldable pub on_wait : Bool → Bool → State → State
on_wait error stops t =
    if error then t else if t.exists' && t.running then async_wait (call_handler stops t) else t

-- A wait ends, with an error or with a handler that stops the timer or not; the owner stops it, or
-- goes.
pub data Event : Type 0 where
  wait_ends : Bool → Bool → Event
  stops destroyed : Event

abbrev pub end_wait : ℕ → Bool → Bool → State → State
end_wait zero error handler_stops t = t
end_wait (suc n) error handler_stops t = on_wait error handler_stops (record t { pending = n })

unfoldable pub step : State → Event → State
unfolding on_wait stop destroy
step t (wait_ends error handler_stops) = end_wait t.pending error handler_stops t
step t stops = stop t
step t destroyed = destroy t

unfoldable pub run : State → List Event → State
unfolding step
run t [] = t
run t (e ∷ es) = run (step t e) es
