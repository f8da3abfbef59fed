-- ===== src/Runner/Ticking.antt =====
-- When the handler of a timer is called (core/src/runner/timer.cpp).
use polkadot_light_client.Common.{
  ◌≤◌, List, arith, if_intro, replicate, ℕ, zero, suc, ◌≡◌, refl, ◌∙◌, ◌⊎◌, inl, inr, Bool, true,
  false, ◌&&◌, [], ◌∷◌, ◌+◌, ap,
}
use polkadot_light_client.Runner.Timer.{
  wait_ends, stops, destroyed, State, start, stop, destroy, on_wait, Event, step, run, end_wait,
}

-- One wait is pending at most.
abbrev IsSingle : State → Type 0
IsSingle t = t.pending ≤ 1

step-IsSingle : (t : State) (e : Event) → IsSingle t → IsSingle (step t e)
unfolding step on_wait stop destroy
step-IsSingle t (wait_ends error handler_stops) h = ground arith
step-IsSingle t stops h = ground arith
step-IsSingle t destroyed h = ground arith

run-IsSingle : (t : State) (es : List Event) → IsSingle t → IsSingle (run t es)
unfolding run
run-IsSingle t [] h = h
run-IsSingle t (e ∷ es) h = run-IsSingle (step t e) es (step-IsSingle t e h)

-- No wait is pending, or one that will find the timer stopped or gone.
abbrev IsQuiet : State → Type 0
IsQuiet t = (t.pending ≡ 0) ⊎ ((t.exists' && t.running) ≡ false)

step-IsQuiet :
    (t : State) (e : Event) → IsQuiet t → IsQuiet (step t e) × ((step t e).calls ≡ t.calls)
unfolding step on_wait stop destroy
step-IsQuiet t (wait_ends error handler_stops) (inl none_pending) = rw none_pending (inl refl, refl)
step-IsQuiet t (wait_ends error handler_stops) (inr off) = waits t.pending
  where
    waits :
        (n : ℕ)
        → IsQuiet (end_wait n error handler_stops t)
          × ((end_wait n error handler_stops t).calls ≡ t.calls)
    waits zero = (inr off, refl)
    waits (suc n) =
        if_intro (λ (r : State). IsQuiet r × (r.calls ≡ t.calls)) error (λ _. (inr off, refl))
          (λ _. rw off (inr off, refl))
step-IsQuiet t stops (inl none_pending) = ground arith
step-IsQuiet t stops (inr off) = ground arith
step-IsQuiet t destroyed (inl none_pending) = ground arith
step-IsQuiet t destroyed (inr off) = ground arith

run-IsQuiet : (t : State) (es : List Event) → IsQuiet t → (run t es).calls ≡ t.calls
unfolding run
run-IsQuiet t [] q = refl
run-IsQuiet t (e ∷ es) q = let (r, same) = step-IsQuiet t e q in run-IsQuiet (step t e) es r ∙ same

stop-IsQuiet : (t : State) → IsQuiet (stop t) × ((stop t).calls ≡ t.calls)
unfolding stop
stop-IsQuiet t = ground arith

destroy-IsQuiet : (t : State) → IsQuiet (destroy t) × ((destroy t).calls ≡ t.calls)
unfolding destroy stop
destroy-IsQuiet t = ground arith

error-IsQuiet :
    (t : State) (handler_stops : Bool) (n : ℕ)
    → t.pending ≡ n
    → n ≤ 1
    → IsQuiet (end_wait n true handler_stops t)
      × ((end_wait n true handler_stops t).calls ≡ t.calls)
unfolding on_wait
error-IsQuiet t handler_stops zero e h = (inl e, refl)
error-IsQuiet t handler_stops (suc n) e h = (inl (omega arith), refl)

-- With one wait pending at most, the handler is not called any more after the timer was stopped or
-- destroyed, or after a wait has ended in an error.
pub run-calls :
    (t : State) (handler_stops : Bool) (es : List Event)
    → t.pending ≤ 1
    → ((run (stop t) es).calls ≡ t.calls)
      × ((run (destroy t) es).calls ≡ t.calls)
      × ((run (step t (wait_ends true handler_stops)) es).calls ≡ t.calls)
unfolding step
run-calls t handler_stops es h =
    let (s, same_s) = stop-IsQuiet t in
    let (d, same_d) = destroy-IsQuiet t in
    let (q, same_q) = error-IsQuiet t handler_stops t.pending refl h in
    (
      run-IsQuiet (stop t) es s ∙ same_s,
      run-IsQuiet (destroy t) es d ∙ same_d,
      run-IsQuiet (end_wait t.pending true handler_stops t) es q ∙ same_q,
    )

abbrev pub ticking : ℕ → State
ticking calls = record { exists' = true; running = true; pending = 1; calls = calls }

ticking_lem :
    (n calls : ℕ) → run (ticking calls) (replicate n (wait_ends false false)) ≡ ticking (calls + n)
unfolding run step on_wait replicate
ticking_lem zero calls = ap ticking (omega arith)
ticking_lem (suc n) calls = ticking_lem n (suc calls) ∙ ap ticking (omega arith)

-- As long as waits end without an error and nothing stops the timer, each end of a wait calls the
-- handler once, and starts the next wait, which is the only one.
pub run-start :
    (n : ℕ)
    → ((run start (replicate n (wait_ends false false))).calls ≡ n)
      × ((run start (replicate n (wait_ends false false))).pending ≡ 1)
run-start n = (
  ap (λ (t : State). t.calls) (ticking_lem n 0) ∙ omega arith,
  ap (λ (t : State). t.pending) (ticking_lem n 0),
)

-- Whatever happens to a new timer, one wait is pending at most, so that calls of the handler never
-- pile up.
pub run-start_single : (es : List Event) → (run start es).pending ≤ 1
run-start_single es = run-IsSingle start es (omega arith)
