-- ===== src/Utils/MoveOnCopy.antt =====
-- core/src/utils/move_on_copy.h, for a type of which a value that was moved from is empty. The objects
-- of a program are numbered in the order of their construction.
pub mod Chain
use polkadot_light_client.Common.{
  length, length-append, get_elem?, set_at, ℕ, zero, suc, ◌+◌, ◌≤◌, ◌≡◌, refl, Option, none, some,
  List, [], ◌∷◌, ◌++◌, arith,
}

-- The objects, each by its `_val`, and the values that `take` gave away.
pub record Holders (A : Type 0) : Type 0 where
  pub objects : List (Option A)
  pub taken : List A

abbrev pub slot : {A : Type 0} → Option (Option A) → Option A
slot none = none
slot (some v) = v

-- The value of an object.
abbrev pub get : {A : Type 0} → ℕ → Holders A → Option A
get i h = slot (get_elem? h.objects i)

-- `std::move(other._val)`: the object is left empty.
abbrev pub move_from : {A : Type 0} → ℕ → Holders A → Holders A
move_from i h = record h { objects = set_at i none h.objects }

abbrev pub give_away : {A : Type 0} → Option A → List A → List A
give_away none taken = taken
give_away (some v) taken = taken ++ v ∷ []

module _ {A : Type 0} where
  -- The constructor from a value.
  abbrev pub holder_of : A → Holders A
  holder_of v = record { objects = some v ∷ []; taken = [] }

  -- The copy constructor moves out of its source, like the move constructor.
  unfoldable pub copy_construct : ℕ → Holders A → Holders A
  unfolding get_elem? set_at
  copy_construct i h =
      let moved = move_from i h in record moved { objects = moved.objects ++ get i h ∷ [] }

  unfoldable pub move_construct : ℕ → Holders A → Holders A
  unfolding get_elem? set_at
  move_construct i h =
      let moved = move_from i h in record moved { objects = moved.objects ++ get i h ∷ [] }

  -- The move assignment of the `j`-th object to the `i`-th.
  unfoldable pub move_assign : ℕ → ℕ → Holders A → Holders A
  unfolding get_elem? set_at
  move_assign i j h =
      let moved = move_from j h in record moved { objects = set_at i (get j h) moved.objects }

  -- The caller moves from the reference that it is given.
  unfoldable pub take_value : ℕ → Holders A → Holders A
  unfolding get_elem? set_at
  take_value i h = record (move_from i h) { taken = give_away (get i h) h.taken }

-- What the owner of the objects does to them; a destroyed object holds nothing.
pub data Use : Type 0 where
  copies moves takes destroys : ℕ → Use
  assigns : ℕ → ℕ → Use

unfoldable pub use_holder : {A : Type 0} → Holders A → Use → Holders A
unfolding copy_construct move_construct take_value move_assign set_at
use_holder h (copies i) = copy_construct i h
use_holder h (moves i) = move_construct i h
use_holder h (takes i) = take_value i h
use_holder h (destroys i) = move_from i h
use_holder h (assigns i j) = move_assign i j h

unfoldable pub use_all : {A : Type 0} → Holders A → List Use → Holders A
unfolding use_holder
use_all h [] = h
use_all h (u ∷ us) = use_all (use_holder h u) us

-- The objects that hold a value.
unfoldable pub full : {A : Type 0} → List (Option A) → ℕ
full [] = 0
full (none ∷ os) = full os
full (some v ∷ os) = suc (full os)

abbrev held : {A : Type 0} → Option A → ℕ
held none = 0
held (some v) = 1

module _ {A : Type 0} where
  full-append : (os : List (Option A)) (v : Option A) → full (os ++ v ∷ []) ≡ full os + held v
  unfolding full
  full-append [] none = refl
  full-append [] (some v) = refl
  full-append (none ∷ os) v = full-append os v
  full-append (some x ∷ os) v = omega (arith, full-append os v)

  -- Emptying an object.
  full-set_at_cleared :
      (i : ℕ) (os : List (Option A))
      → full (set_at i none os) + held (slot (get_elem? os i)) ≡ full os
  unfolding full set_at get_elem?
  full-set_at_cleared i [] = refl
  full-set_at_cleared zero (none ∷ os) = omega arith
  full-set_at_cleared zero (some x ∷ os) = omega arith
  full-set_at_cleared (suc i) (none ∷ os) = full-set_at_cleared i os
  full-set_at_cleared (suc i) (some x ∷ os) = omega (arith, full-set_at_cleared i os)

  full-set_at_le :
      (i : ℕ) (v : Option A) (os : List (Option A)) → full (set_at i v os) ≤ full os + held v
  unfolding full set_at
  full-set_at_le i v [] = omega arith
  full-set_at_le zero none (none ∷ os) = omega arith
  full-set_at_le zero none (some x ∷ os) = omega arith
  full-set_at_le zero (some v) (none ∷ os) = omega arith
  full-set_at_le zero (some v) (some x ∷ os) = omega arith
  full-set_at_le (suc i) v (none ∷ os) = full-set_at_le i v os
  full-set_at_le (suc i) v (some x ∷ os) = omega (arith, full-set_at_le i v os)

  length-give_away :
      (v : Option A) (taken : List A) → length (give_away v taken) ≡ length taken + held v
  length-give_away none taken = omega arith
  length-give_away (some v) taken = length-append taken (v ∷ [])

  use_holder_le :
      (h : Holders A) (u : Use)
      → full (use_holder h u).objects + length (use_holder h u).taken
        ≤ full h.objects + length h.taken
  unfolding use_holder copy_construct move_construct take_value move_assign
  use_holder_le h (copies i) =
      omega
        (arith, full-append (set_at i none h.objects) (get i h), full-set_at_cleared i h.objects)
  use_holder_le h (moves i) =
      omega
        (arith, full-append (set_at i none h.objects) (get i h), full-set_at_cleared i h.objects)
  use_holder_le h (takes i) =
      omega (arith, length-give_away (get i h) h.taken, full-set_at_cleared i h.objects)
  use_holder_le h (destroys i) = omega (arith, full-set_at_cleared i h.objects)
  use_holder_le h (assigns i j) =
      omega (
        arith,
        full-set_at_le i (get j h) (set_at j none h.objects),
        full-set_at_cleared j h.objects,
      )

  use_all_le :
      (h : Holders A) (us : List Use)
      → full (use_all h us).objects + length (use_all h us).taken ≤ full h.objects + length h.taken
  unfolding use_all
  use_all_le h [] = omega arith
  use_all_le h (u ∷ us) = omega (arith, use_holder_le h u, use_all_le (use_holder h u) us)

  -- However an object and its copies are copied, moved, assigned, destroyed and taken from: the value
  -- is taken at most once, and what was taken is held no more.
  pub use_all-once :
      (v : A) (us : List Use)
      → full (use_all (holder_of v) us).objects + length (use_all (holder_of v) us).taken ≤ 1
  unfolding full
  use_all-once v us = omega (arith, use_all_le (holder_of v) us)

-- A chain of copies, each of the one before it.
unfoldable pub copy_chain : ℕ → ℕ → List Use
copy_chain i zero = []
copy_chain i (suc n) = copies i ∷ copy_chain (suc i) n
