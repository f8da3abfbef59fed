-- ===== src/Utils/MoveOnCopy/Chain.antt =====
-- A holder that is passed on by copies (core/src/utils/move_on_copy.h), as boost asio passes handlers.
use polkadot_light_client.Common.{
  replicate, length-replicate, get_elem?, get_elem?-append, set_at, set_at-append, ℕ, zero, suc,
  ◌+◌, ◌≡◌, refl, ap, subst, ◌∙◌, Option, none, some, List, [], ◌∷◌, ◌++◌, arith,
}
use polkadot_light_client.Utils.MoveOnCopy.{
  Holders, holder_of, copy_construct, take_value, use_holder, use_all, full, copy_chain,
}

module _ {A : Type 0} where
  -- The value is in the last of the objects, those before it are empty.
  abbrev pub passed_on : ℕ → Option A → List A → Holders A
  passed_on n v taken = record { objects = replicate n none ++ v ∷ []; taken = taken }

  abbrev empty : Option A
  empty = none

  replicate-none : (n : ℕ) → replicate n empty ++ empty ∷ [] ≡ replicate (suc n) empty
  unfolding replicate
  replicate-none zero = refl
  replicate-none (suc n) = ap (◌∷◌ none) (replicate-none n)

  emptied :
      (n : ℕ) (v w : Option A)
      → set_at n v (replicate n none ++ w ∷ []) ≡ replicate n none ++ v ∷ []
  emptied n v w =
      subst (λ (k : ℕ). set_at k v (replicate n none ++ w ∷ []) ≡ replicate n none ++ v ∷ [])
        (length-replicate n none) (set_at-append (replicate n none) [] v w)

  last_of : (n : ℕ) (w : Option A) → get_elem? (replicate n none ++ w ∷ []) n ≡ some w
  last_of n w =
      subst (λ (k : ℕ). get_elem? (replicate n none ++ w ∷ []) k ≡ some w) (length-replicate n none)
        (get_elem?-append (replicate n none) [] w)

  copy-passed_on :
      (n : ℕ) (v : A) → copy_construct n (passed_on n (some v) []) ≡ passed_on (suc n) (some v) []
  unfolding copy_construct
  copy-passed_on n v = rw (last_of n (some v), emptied n none (some v), replicate-none n) refl

  chain-passed_on :
      (n i k : ℕ) (v : A)
      → n + i ≡ k
      → use_all (passed_on i (some v) []) (copy_chain i n) ≡ passed_on k (some v) []
  unfolding use_all copy_chain use_holder
  chain-passed_on zero i k v e = ap (λ (j : ℕ). passed_on j (some v) []) (omega arith)
  chain-passed_on (suc n) i k v e =
      ap (λ (h : Holders A). use_all h (copy_chain (suc i) n)) (copy-passed_on i v)
      ∙ chain-passed_on n (suc i) k v (omega arith)

  take-passed_on :
      (n : ℕ) (v : A) → take_value n (passed_on n (some v) []) ≡ passed_on n none (v ∷ [])
  unfolding take_value
  take-passed_on n v = rw (last_of n (some v), emptied n none (some v)) refl

  full-passed_on : (n : ℕ) (taken : List A) → full (passed_on n none taken).objects ≡ 0
  unfolding full replicate
  full-passed_on zero taken = refl
  full-passed_on (suc n) taken = full-passed_on n taken

  -- Passed on by any number of copies, each of the one before it, the value is taken out of the last
  -- copy, and nothing holds it afterwards.
  pub take-copy_chain :
      (n : ℕ) (v : A)
      → ((take_value n (use_all (holder_of v) (copy_chain 0 n))).taken ≡ v ∷ [])
        × (full (take_value n (use_all (holder_of v) (copy_chain 0 n))).objects ≡ 0)
  take-copy_chain n v =
      let chain : use_all (holder_of v) (copy_chain 0 n) ≡ passed_on n (some v) [] =
        unfold replicate in chain-passed_on n 0 n v (omega arith) in
      rw (chain, take-passed_on n v) (refl, full-passed_on n (v ∷ []))
