-- ===== src/Utils/Coroutine.antt =====
-- core/src/utils/callback_to_coro.h: coroutines that wait for callbacks. A coroutine is what it
-- returns, or what it asks for and how it goes on with the answer.
pub mod Interleaving
use polkadot_light_client.Common.{
  ok, err, thrown, fault, Outcome, ◌>>=◌, ℕ, zero, suc, Bool, false, Option, none, some, List, [],
  ◌∷◌,
}

pub data Coroutine (Ask : Type 0) (Answer : Ask → Type 0) (A : Type 0) : Type 0 where
  returns : A → Coroutine Ask Answer A
  awaits : (q : Ask) → (Answer q → Coroutine Ask Answer A) → Coroutine Ask Answer A

-- `CallbackAwaiter`, by its member `m_res`.
pub record Awaiter (R : Type 0) : Type 0 where
  pub m_res : Option R

abbrev pub new_awaiter : {R : Type 0} → Awaiter R
new_awaiter = record { m_res = none }

abbrev pub await_ready : {R : Type 0} → Awaiter R → Bool
await_ready a = false

-- The callback that `await_suspend` passes on, up to the resumption of the coroutine.
abbrev pub on_callback : {R : Type 0} → R → Awaiter R → Awaiter R
on_callback r a = record { m_res = some r }

-- `*m_res` of an empty optional is undefined.
abbrev pub value_of : {R : Type 0} → Option R → Outcome R
value_of none = fault
value_of (some r) = ok r

abbrev pub await_resume : {R : Type 0} → Awaiter R → Outcome R
await_resume a = value_of a.m_res

module _ {Ask : Type 0} {Answer : Ask → Type 0} where
  -- `co_await resumeInCallback(…)` as a task of its own.
  abbrev pub resume_in_callback : (q : Ask) → Coroutine Ask Answer (Answer q)
  resume_in_callback q = awaits q returns

  -- `co_await` of a task.
  unfoldable pub co_await :
      {A B : Type 0}
      → Coroutine Ask Answer A
      → (A → Coroutine Ask Answer B)
      → Coroutine Ask Answer B
  co_await (returns a) k = k a
  co_await (awaits q f) k = awaits q (λ r. co_await (f r) k)

  -- The rest of a task after a result: an error ends it.
  abbrev pub unless_error :
      {A B : Type 0}
      → (A → Coroutine Ask Answer (Outcome B))
      → Outcome A
      → Coroutine Ask Answer (Outcome B)
  unless_error k (ok a) = k a
  unless_error k (err e) = returns (err e)
  unless_error k thrown = returns thrown
  unless_error k fault = returns fault

  -- The callback of the question that a coroutine waits for is called with an answer. None waits for
  -- a coroutine that has returned.
  unfoldable pub resume :
      {A : Type 0}
      → ((q : Ask) → Answer q)
      → Coroutine Ask Answer A
      → Outcome (Coroutine Ask Answer A)
  unfolding ◌>>=◌
  resume answer (returns a) = ok (returns a)
  resume answer (awaits q k) = do r ← await_resume (on_callback (answer q) new_awaiter); ok (k r)

  -- The tasks in the order in which they were started: the callback of one of them.
  unfoldable pub resume_at :
      {A : Type 0}
      → ℕ
      → ((q : Ask) → Answer q)
      → List (Coroutine Ask Answer A)
      → Outcome (List (Coroutine Ask Answer A))
  unfolding ◌>>=◌ resume
  resume_at i answer [] = ok []
  resume_at zero answer (c ∷ cs) = do resumed ← resume answer c; ok (resumed ∷ cs)
  resume_at (suc i) answer (c ∷ cs) = do more ← resume_at i answer cs; ok (c ∷ more)

  -- Callbacks of the tasks in any order.
  unfoldable pub resume_all :
      {A : Type 0}
      → List (ℕ × ((q : Ask) → Answer q))
      → List (Coroutine Ask Answer A)
      → Outcome (List (Coroutine Ask Answer A))
  unfolding ◌>>=◌ resume_at
  resume_all [] cs = ok cs
  resume_all ((i, answer) ∷ es) cs = do resumed ← resume_at i answer cs; resume_all es resumed
