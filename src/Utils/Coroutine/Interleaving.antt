-- ===== src/Utils/Coroutine/Interleaving.antt =====
-- Tasks that wait for callbacks do not disturb one another (core/src/utils/callback_to_coro.h).
use polkadot_light_client.Common.{
  ◌==◌, if◌then◌else◌, Bool-cases, some-injective, get_elem?, ok, err, thrown, fault, Outcome,
  ◌>>=◌, ℕ, zero, suc, ◌≡◌, refl, inl, inr, true, false, some, List, [], ◌∷◌, ◌++◌, arith,
}
use polkadot_light_client.Utils.Coroutine.{
  returns, awaits, Coroutine, unless_error, resume, resume_at, resume_all,
}

module _ {Ask : Type 0} {Answer : Ask → Type 0} where
  -- A task alone, with the answers that it gets.
  unfoldable pub replay :
      {A : Type 0} → List ((q : Ask) → Answer q) → Coroutine Ask Answer A → Coroutine Ask Answer A
  replay [] c = c
  replay (answer ∷ answers) (returns a) = returns a
  replay (answer ∷ answers) (awaits q k) = replay answers (k (answer q))

  -- The answers to one of the tasks.
  unfoldable pub own : ℕ → List (ℕ × ((q : Ask) → Answer q)) → List ((q : Ask) → Answer q)
  own i [] = []
  own i ((j, answer) ∷ es) = if j == i then answer ∷ own i es else own i es

  pub resume-ok :
      {A : Type 0} (answer : (q : Ask) → Answer q) (c : Coroutine Ask Answer A)
      → resume answer c ≡ ok (replay (answer ∷ []) c)
  unfolding resume replay
  resume-ok answer (returns a) = refl
  resume-ok answer (awaits q k) = refl

  replay-cons :
      {A : Type 0} (answer : (q : Ask) → Answer q) (answers : List ((q : Ask) → Answer q))
      (c : Coroutine Ask Answer A)
      → replay answers (replay (answer ∷ []) c) ≡ replay (answer ∷ answers) c
  unfolding replay
  replay-cons answer [] (returns a) = refl
  replay-cons answer (b ∷ answers) (returns a) = refl
  replay-cons answer answers (awaits q k) = refl

  pub replay_nothing : {A : Type 0} (c : Coroutine Ask Answer A) → replay [] c ≡ c
  unfolding replay
  replay_nothing c = refl

  pub replay-append :
      {A : Type 0} (answers : List ((q : Ask) → Answer q)) (answer : (q : Ask) → Answer q)
      (c : Coroutine Ask Answer A)
      → replay (answers ++ answer ∷ []) c ≡ replay (answer ∷ []) (replay answers c)
  unfolding replay
  replay-append [] answer c = refl
  replay-append (a ∷ answers) answer (returns r) = refl
  replay-append (a ∷ answers) answer (awaits q k) = replay-append answers answer (k (a q))

  -- The tasks after a callback of one.
  after :
      {A : Type 0}
      → ℕ
      → ((q : Ask) → Answer q)
      → List (Coroutine Ask Answer A)
      → List (Coroutine Ask Answer A)
  after i answer [] = []
  after zero answer (c ∷ cs) = replay (answer ∷ []) c ∷ cs
  after (suc i) answer (c ∷ cs) = c ∷ after i answer cs

  resume_at-ok :
      {A : Type 0} (i : ℕ) (answer : (q : Ask) → Answer q) (cs : List (Coroutine Ask Answer A))
      → resume_at i answer cs ≡ ok (after i answer cs)
  unfolding resume_at after ◌>>=◌
  resume_at-ok i answer [] = refl
  resume_at-ok zero answer (c ∷ cs) = rw (resume-ok answer c) refl
  resume_at-ok (suc i) answer (c ∷ cs) = rw (resume_at-ok i answer cs) refl

  get-after_same :
      {A : Type 0} (i j : ℕ) (answer : (q : Ask) → Answer q) (cs : List (Coroutine Ask Answer A))
      (c : Coroutine Ask Answer A)
      → get_elem? cs i ≡ some c
      → (j == i) ≡ true
      → get_elem? (after j answer cs) i ≡ some (replay (answer ∷ []) c)
  unfolding after get_elem?
  get-after_same i j answer [] c e same = absurd (cc)
  get-after_same zero zero answer (d ∷ cs) c e same = cc (some-injective e)
  get-after_same zero (suc j) answer (d ∷ cs) c e same = ground arith
  get-after_same (suc i) zero answer (d ∷ cs) c e same = ground arith
  get-after_same (suc i) (suc j) answer (d ∷ cs) c e same =
      get-after_same i j answer cs c e (ground arith)

  get-after_other :
      {A : Type 0} (i j : ℕ) (answer : (q : Ask) → Answer q) (cs : List (Coroutine Ask Answer A))
      (c : Coroutine Ask Answer A)
      → get_elem? cs i ≡ some c
      → (j == i) ≡ false
      → get_elem? (after j answer cs) i ≡ some c
  unfolding after get_elem?
  get-after_other i j answer [] c e other = absurd (cc)
  get-after_other zero zero answer (d ∷ cs) c e other = ground arith
  get-after_other zero (suc j) answer (d ∷ cs) c e other = e
  get-after_other (suc i) zero answer (d ∷ cs) c e other = e
  get-after_other (suc i) (suc j) answer (d ∷ cs) c e other =
      get-after_other i j answer cs c e (ground arith)

  -- Whatever the order in which the callbacks of several tasks are called, all of them resume, and
  -- each task ends up where its own answers take it.
  pub resume_all-own :
      {A : Type 0} (es : List (ℕ × ((q : Ask) → Answer q))) (cs : List (Coroutine Ask Answer A))
      (i : ℕ) (c : Coroutine Ask Answer A)
      → get_elem? cs i ≡ some c
      → (ds : List (Coroutine Ask Answer A)) × (resume_all es cs ≡ ok ds)
        × (get_elem? ds i ≡ some (replay (own i es) c))
  unfolding resume_all own replay ◌>>=◌
  resume_all-own [] cs i c e = (cs, refl, e)
  resume_all-own ((j, answer) ∷ es) cs i c e =
      rw (resume_at-ok j answer cs) (elim (Bool-cases (j == i)) [
        | inl mine ↦
            rw (mine, ← replay-cons answer (own i es) c)
              (resume_all-own es (after j answer cs) i (replay (answer ∷ []) c)
                (get-after_same i j answer cs c e mine))
        | inr other ↦
            rw other
              (resume_all-own es (after j answer cs) i c (get-after_other i j answer cs c e other))
      ])

  pub replay-returns :
      {A : Type 0} (answers : List ((q : Ask) → Answer q)) (a : A)
      → replay answers (returns a) ≡ returns a
  unfolding replay
  replay-returns [] a = refl
  replay-returns (answer ∷ answers) a = refl

  -- The rest of a task is the rest of a chain of results.
  pub replay-unless_error :
      {A B : Type 0} (answers : List ((q : Ask) → Answer q))
      (k : A → Coroutine Ask Answer (Outcome B)) (f : A → Outcome B) (o : Outcome A)
      → ((a : A) → replay answers (k a) ≡ returns (f a))
      → replay answers (unless_error k o) ≡ returns (o >>= f)
  unfolding ◌>>=◌
  replay-unless_error answers k f (ok a) h = h a
  replay-unless_error answers k f (err e) h = replay-returns answers (err e)
  replay-unless_error answers k f thrown h = replay-returns answers thrown
  replay-unless_error answers k f fault h = replay-returns answers fault
