-- ===== src/Utils/Stoppable.antt =====
-- core/src/utils/stoppable.h and stoppable.cpp.
use polkadot_light_client.Common.{
  if◌then◌else◌, length, ℕ, zero, suc, ◌≡◌, refl, Bool, Option, none, some, List, [], ◌∷◌, ◌++◌,
  if_intro, take, take_all, ◌≤◌, ◌<◌, sym, ap, ◌∙◌, append-nil, append_assoc, arith, get_elem?,
}

-- The weak pointers that were added, first to last, each to the number of its object.
abbrev pub StopHandler : Type 0
StopHandler = List ℕ

abbrev pub add : ℕ → StopHandler → StopHandler
add stoppable stoppables = stoppables ++ stoppable ∷ []

-- `lock`: an object that lives is stopped, and stands on the list of those that were.
abbrev pub stop_if_alive : (ℕ → Bool) → Option ℕ → List ℕ → List ℕ
stop_if_alive alive none stopped = stopped
stop_if_alive alive (some s) stopped = if alive s then stopped ++ s ∷ [] else stopped

module _ (alive : ℕ → Bool) (stoppables : StopHandler) where
  -- The loop from `i - 1` down to 0.
  unfoldable pub stop_loop : ℕ → List ℕ → List ℕ
  unfolding get_elem?
  stop_loop zero stopped = stopped
  stop_loop (suc i) stopped = stop_loop i (stop_if_alive alive (get_elem? stoppables i) stopped)

  -- The objects that a call stops, first to last.
  unfoldable pub stop : List ℕ
  unfolding stop_loop
  stop = stop_loop (length stoppables) []

-- The description: those alive, the last added first.
unfoldable pub alive_last_first : (ℕ → Bool) → StopHandler → List ℕ
alive_last_first alive [] = []
alive_last_first alive (s ∷ ss) = alive_last_first alive ss ++ (if alive s then s ∷ [] else [])

last_added :
    (alive : ℕ → Bool) (before : StopHandler) (s : ℕ)
    → alive_last_first alive (before ++ s ∷ [])
      ≡ (if alive s then s ∷ [] else []) ++ alive_last_first alive before
unfolding alive_last_first
last_added alive [] s = sym (append-nil (if alive s then s ∷ [] else []))
last_added alive (b ∷ before) s =
    ap (λ (l : List ℕ). l ++ (if alive b then b ∷ [] else [])) (last_added alive before s)
    ∙ append_assoc (if alive s then s ∷ [] else []) (alive_last_first alive before)
        (if alive b then b ∷ [] else [])

take-suc :
    (ss : StopHandler) (i : ℕ)
    → i < length ss
    → (s : ℕ) × (get_elem? ss i ≡ some s) × (take (suc i) ss ≡ take i ss ++ s ∷ [])
unfolding get_elem? take
take-suc [] i h = absurd (omega arith)
take-suc (s ∷ ss) zero h = (s, refl, refl)
take-suc (s ∷ ss) (suc i) h =
    let (t, found, e) = take-suc ss i (omega arith) in (t, found, ap (◌∷◌ s) e)

stop_if_alive-eq :
    (alive : ℕ → Bool) (s : ℕ) (stopped : List ℕ)
    → stop_if_alive alive (some s) stopped ≡ stopped ++ (if alive s then s ∷ [] else [])
stop_if_alive-eq alive s stopped =
    if_intro (λ (l : List ℕ). stop_if_alive alive (some s) stopped ≡ stopped ++ l) (alive s)
      (λ e. rw e refl) (λ e. rw e (sym (append-nil stopped)))

stop_loop-eq :
    (alive : ℕ → Bool) (ss : StopHandler) (i : ℕ) (stopped : List ℕ)
    → i ≤ length ss
    → stop_loop alive ss i stopped ≡ stopped ++ alive_last_first alive (take i ss)
unfolding stop_loop alive_last_first take
stop_loop-eq alive ss zero stopped h = sym (append-nil stopped)
stop_loop-eq alive ss (suc i) stopped h =
    let (s, found, e) = take-suc ss i (omega arith) in
    let here : List ℕ = if alive s then s ∷ [] else [] in
    rw (found, e, last_added)
      (stop_loop-eq alive ss i (stop_if_alive alive (some s) stopped) (omega arith)
        ∙ ap (λ (l : List ℕ). l ++ alive_last_first alive (take i ss))
            (stop_if_alive-eq alive s stopped)
        ∙ append_assoc stopped here (alive_last_first alive (take i ss)))

-- Stopping stops each object that is still alive, the last added first, and no others.
pub stop-eq :
    (alive : ℕ → Bool) (stoppables : StopHandler)
    → stop alive stoppables ≡ alive_last_first alive stoppables
unfolding stop
stop-eq alive stoppables =
    stop_loop-eq alive stoppables (length stoppables) [] (omega arith)
    ∙ ap (alive_last_first alive) (take_all stoppables)
