-- ===== src/Runtime/Sequential.antt =====
-- Loads of the runtime that wait at the same time (core/src/runtime/service.cpp) come to a sequence of
-- loads, one after the other.
use polkadot_light_client.Common.{
  get_elem?, set_at, All, All-append, Bytes, ok, Outcome, ◌>>=◌, ℕ, zero, suc, ◌≡◌, refl, sym, ap,
  ◌∙◌, Option, none, some, List, [], ◌∷◌, ◌++◌, map,
}
use polkadot_light_client.Utils.Hex.Algorithm.{Boost}
use polkadot_light_client.Utils.Hex.{unhex_with_0x_to_block_hash}
use polkadot_light_client.Utils.Coroutine.{returns, awaits}
use polkadot_light_client.Utils.Coroutine.Interleaving.{
  replay, resume-ok, replay_nothing, replay-append,
}
use polkadot_light_client.Network.Tasks.{Replies}
use polkadot_light_client.Network.Light2.Messages.{ProtoRequest, ProtoResponse}
use polkadot_light_client.Runtime.Module.{Binaryen}
use polkadot_light_client.Runtime.Service.{
  requested_block, Zstd, Service, process_response, request_runtime, load_runtime_for_block,
}
use polkadot_light_client.Runtime.Instances.{block_runtime, Loading, load, load_all}
use polkadot_light_client.Runtime.Concurrent.{
  asks, answers, LoadTask, request_task, Loads, no_loads, LoadEvent, slot_at, settle, ask,
  answer_slot, step_load, run_loads,
}

All-set_at {κ} :
    {A : Type 0} (P : A → Type κ) (i : ℕ) (a : A) (xs : List A)
    → P a
    → All P xs
    → All P (set_at i a xs)
unfolding set_at
All-set_at P i a [] p h = tt
All-set_at P zero a (x ∷ xs) p (q, h) = (p, h)
All-set_at P (suc i) a (x ∷ xs) p (q, h) = (q, All-set_at P i a xs p h)

-- A load that was answered at once.
abbrev pub answered_load : {PeerId : Type 0} → PeerId × Outcome Bytes → Loading PeerId
answered_load (peer, r) = block_runtime (λ request p. r) peer []

module _ {PeerId WasmModule ModuleInstance : Type 0} (zstd : Zstd)
    (binaryen : Binaryen WasmModule ModuleInstance) (boost : Boost) where
  load-answered :
      (hash : Bytes) (peer : PeerId) (r : Outcome Bytes)
      (service : Service WasmModule ModuleInstance)
      → unhex_with_0x_to_block_hash boost requested_block ≡ ok hash
      → load zstd binaryen boost service (answered_load (peer, r))
        ≡ process_response zstd binaryen boost r service
  unfolding load_runtime_for_block request_runtime
  load-answered hash peer r service decoded = rw decoded refl

  load_all-append :
      (service : Service WasmModule ModuleInstance) (ls : List (Loading PeerId))
      (l : Loading PeerId)
      → load_all zstd binaryen boost service (ls ++ l ∷ [])
        ≡ (load zstd binaryen boost (load_all zstd binaryen boost service ls) l).0
  unfolding load_all
  load_all-append service [] l = refl
  load_all-append service (k ∷ ls) l = load_all-append (load zstd binaryen boost service k).0 ls l

map-snoc :
    {A B : Type 0} (f : A → B) (xs : List A) (x : A) → map f (xs ++ x ∷ []) ≡ map f xs ++ f x ∷ []
map-snoc f [] x = refl
map-snoc f (y ∷ ys) x = ap (◌∷◌ (f y)) (map-snoc f ys x)

-- What the task of a load came to, by the answers that it got.
abbrev pub IsTask : {PeerId Stream : Type 0} → Bytes → PeerId → LoadTask PeerId Stream → Type 0
IsTask {PeerId} {Stream} hash peer c =
    (replies : List (Replies PeerId Stream ProtoRequest ProtoResponse)) × (replay replies
        (request_task peer (ok hash))
      ≡ c)

abbrev pub IsSlot :
    {PeerId Stream : Type 0} → Bytes → Option (PeerId × LoadTask PeerId Stream) → Type 0
IsSlot hash none = Unit {0}
IsSlot hash (some (peer, c)) = IsTask hash peer c

-- The load ended so, on some answers of streams of this type.
abbrev pub IsAnswered : {PeerId : Type 0} → Type 0 → Bytes → PeerId × Outcome Bytes → Type 0
IsAnswered {PeerId} Stream hash (peer, r) =
    IsTask {PeerId = PeerId} {Stream = Stream} hash peer (returns r)

module _ {PeerId Stream WasmModule ModuleInstance : Type 0} (zstd : Zstd)
    (binaryen : Binaryen WasmModule ModuleInstance) (boost : Boost) (hash : Bytes) where
  -- The service is what the loads that have ended make of it, one after the other in the order in
  -- which they ended, and each of them ended as its task does on some answers.
  pub record IsSequential (start : Service WasmModule ModuleInstance)
      (l : Loads PeerId Stream WasmModule ModuleInstance) : Type 0 where
    pub in_order : l.service ≡ load_all zstd binaryen boost start (map answered_load l.finished)
    pub waiting : All (IsSlot hash) l.tasks
    pub ended : All (IsAnswered Stream hash) l.finished

  module _ (decoded : unhex_with_0x_to_block_hash boost requested_block ≡ ok hash)
      (start : Service WasmModule ModuleInstance) where
    settle-IsSequential :
        (place : Option (PeerId × LoadTask PeerId Stream)
          → List (Option (PeerId × LoadTask PeerId Stream)))
        (peer : PeerId) (c : LoadTask PeerId Stream)
        (l : Loads PeerId Stream WasmModule ModuleInstance)
        → IsTask hash peer c
        → ((slot : Option (PeerId × LoadTask PeerId Stream))
            → IsSlot hash slot
            → All (IsSlot hash) (place slot))
        → IsSequential start l
        → IsSequential start (settle zstd binaryen boost place peer c l)
    unfolding settle
    settle-IsSequential place peer (returns r) l t put s = record {
      in_order =
          ap (λ x. (process_response zstd binaryen boost r x).0) s.in_order
          ∙ sym (
              ap (load_all zstd binaryen boost start) (map-snoc answered_load l.finished (peer, r))
              ∙ load_all-append zstd binaryen boost start (map answered_load l.finished) _
              ∙ ap (λ x. x.0) (load-answered zstd binaryen boost hash peer r _ decoded));
      waiting = put none tt;
      ended = All-append (IsAnswered Stream hash) l.finished ((peer, r) ∷ []) s.ended (t, tt);
    }
    settle-IsSequential place peer (awaits q k) l t put s = record {
      in_order = s.in_order;
      waiting = put (some (peer, awaits q k)) t;
      ended = s.ended;
    }

    -- The place of a task that waits.
    slot-IsSlot :
        (tasks : List (Option (PeerId × LoadTask PeerId Stream))) (i : ℕ)
        → All (IsSlot hash) tasks
        → IsSlot hash (slot_at (get_elem? tasks i))
    unfolding get_elem?
    slot-IsSlot [] i h = tt
    slot-IsSlot (t ∷ ts) zero h = h.0
    slot-IsSlot (t ∷ ts) (suc i) h = slot-IsSlot ts i h.1

    -- The step succeeds, with a state that is sequential still.
    abbrev Continues : Outcome (Loads PeerId Stream WasmModule ModuleInstance) → Type 0
    Continues r =
        (next : Loads PeerId Stream WasmModule ModuleInstance) × (r ≡ ok next)
        × IsSequential start next

    answer_slot-Continues :
        (i : ℕ) (replies : Replies PeerId Stream ProtoRequest ProtoResponse)
        (slot : Option (PeerId × LoadTask PeerId Stream))
        (l : Loads PeerId Stream WasmModule ModuleInstance)
        → IsSlot hash slot
        → IsSequential start l
        → Continues (answer_slot zstd binaryen boost i replies slot l)
    unfolding ◌>>=◌
    answer_slot-Continues i replies none l t s = (l, refl, s)
    answer_slot-Continues i replies (some (peer, c)) l (got, e) s = rw (resume-ok replies c) (
      _,
      refl,
      settle-IsSequential _ peer _ l
          (got ++ replies ∷ [], replay-append got replies _ ∙ ap (replay (replies ∷ [])) e)
          (λ slot t. All-set_at (IsSlot hash) i slot l.tasks t s.waiting) s,
    )

    step_load-Continues :
        (l : Loads PeerId Stream WasmModule ModuleInstance) (e : LoadEvent PeerId Stream)
        → IsSequential start l
        → Continues (step_load zstd binaryen boost l e)
    unfolding step_load ask
    step_load-Continues l (asks peer block) s = rw decoded (
      _,
      refl,
      settle-IsSequential _ peer _ l ([], replay_nothing _)
          (λ slot t. All-append (IsSlot hash) l.tasks (slot ∷ []) s.waiting (t, tt)) s,
    )
    step_load-Continues l (answers i replies) s =
        answer_slot-Continues i replies _ l (slot-IsSlot l.tasks i s.waiting) s

    run_loads-Continues :
        (l : Loads PeerId Stream WasmModule ModuleInstance) (es : List (LoadEvent PeerId Stream))
        → IsSequential start l
        → Continues (run_loads zstd binaryen boost l es)
    unfolding run_loads ◌>>=◌
    run_loads-Continues l [] s = (l, refl, s)
    run_loads-Continues l (e ∷ es) s =
        let (next, stepped, t) = step_load-Continues l e s in
        rw stepped (run_loads-Continues next es t)

    -- Loads for blocks that wait at the same time, with their answers in any order: the service ends
    -- up as if each load that has ended had been answered at once, one after the other in the order in
    -- which they ended. Each ended as its task does on some answers of libp2p.
    pub run_loads-IsSequential :
        (es : List (LoadEvent PeerId Stream))
        → (l : Loads PeerId Stream WasmModule ModuleInstance) × (run_loads zstd binaryen boost
              (no_loads start)
              es
            ≡ ok l)
          × IsSequential start l
    unfolding load_all
    run_loads-IsSequential es =
        run_loads-Continues (no_loads start) es
          (record { in_order = refl; waiting = tt; ended = tt })
