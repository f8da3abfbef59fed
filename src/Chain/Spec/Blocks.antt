-- ===== src/Chain/Spec/Blocks.antt =====
-- The sets of fork blocks and bad blocks (core/src/chain/spec.cpp, `loadFields`).
use polkadot_light_client.Common.{
  if_intro, Bytes, ◌≡◌, refl, ◌∙◌, ◌↔◌, ◌⊎◌, inl, inr, true, false, List, [], ◌∷◌, arith, ok,
  bind_ok, ok-injective, sym, ap, subst, IsIn,
}
use polkadot_light_client.Utils.Hex.Algorithm.{Boost}
use polkadot_light_client.Utils.Hex.{unhex_with_0x_to_block_hash}
use polkadot_light_client.Chain.Spec.Containers.{less, set_emplace}
use polkadot_light_client.Chain.Spec.Load.{blocks_loop}
use polkadot_light_client.Chain.Spec.{PropertyTree}

-- Strictly ascending, so that no entry stands twice.
abbrev pub Above : Bytes → List Bytes → Type 0
Above x [] = Unit {0}
Above x (y ∷ ys) = less x y ≡ true

abbrev pub IsAscending : List Bytes → Type 0
IsAscending [] = Unit {0}
IsAscending (x ∷ xs) = Above x xs × IsAscending xs

less_total : (x y : Bytes) → less x y ≡ false → less y x ≡ false → x ≡ y
unfolding less
less_total [] [] p q = refl
less_total [] (b ∷ y) p q = cc
less_total (a ∷ x) [] p q = cc
less_total (a ∷ x) (b ∷ y) p q = ground (arith, less_total x y)

Above-set_emplace :
    (y x : Bytes) (xs : List Bytes) → less y x ≡ true → Above y xs → Above y (set_emplace less x xs)
unfolding set_emplace
Above-set_emplace y x [] h a = h
Above-set_emplace y x (z ∷ xs) h a = ground arith

IsAscending-set_emplace :
    (x : Bytes) (xs : List Bytes) → IsAscending xs → IsAscending (set_emplace less x xs)
unfolding set_emplace
IsAscending-set_emplace x [] s = (tt, tt)
IsAscending-set_emplace x (y ∷ xs) s =
    if_intro IsAscending (less x y) (λ h. (h, s))
      λ _.
        if_intro IsAscending (less y x)
          (λ h. (Above-set_emplace y x xs h s.0, IsAscending-set_emplace x xs s.1)) (λ _. s)

IsIn-set_emplace :
    (a x : Bytes) (xs : List Bytes) → IsIn a (set_emplace less x xs) ↔ ((a ≡ x) ⊎ IsIn a xs)
unfolding set_emplace
IsIn-set_emplace a x [] = (λ h. h, λ h. h)
IsIn-set_emplace a x (y ∷ xs) =
    if_intro (λ s. IsIn a s ↔ ((a ≡ x) ⊎ ((a ≡ y) ⊎ IsIn a xs))) (less x y) (λ _. (λ h. h, λ h. h))
      λ p.
        if_intro (λ s. IsIn a s ↔ ((a ≡ x) ⊎ ((a ≡ y) ⊎ IsIn a xs))) (less y x)
          (λ _. (forth (IsIn-set_emplace a x xs), back (IsIn-set_emplace a x xs)))
          (λ q. same (less_total x y p q))
  where
    forth :
        IsIn a (set_emplace less x xs) ↔ ((a ≡ x) ⊎ IsIn a xs)
        → (a ≡ y) ⊎ IsIn a (set_emplace less x xs)
        → (a ≡ x) ⊎ ((a ≡ y) ⊎ IsIn a xs)
    forth rest (inl e) = inr (inl e)
    forth rest (inr k) = elim (rest.0 k) [ inl e ↦ inl e | inr i ↦ inr (inr i) ]

    back :
        IsIn a (set_emplace less x xs) ↔ ((a ≡ x) ⊎ IsIn a xs)
        → (a ≡ x) ⊎ ((a ≡ y) ⊎ IsIn a xs)
        → (a ≡ y) ⊎ IsIn a (set_emplace less x xs)
    back rest (inl e) = inr (rest.1 (inl e))
    back rest (inr (inl e)) = inl e
    back rest (inr (inr i)) = inr (rest.1 (inr i))

    same : x ≡ y → ((a ≡ y) ⊎ IsIn a xs) ↔ ((a ≡ x) ⊎ ((a ≡ y) ⊎ IsIn a xs))
    same e = (inr, λ h. elim h [ inl k ↦ inl (k ∙ e) | inr k ↦ k ])

module _ {Tree : Type 0} (ptree : PropertyTree Tree) (boost : Boost) where
  -- The text of some entry is decoded to this hash.
  abbrev pub IsHashOf : Bytes → List (Bytes × Tree) → Type 0
  IsHashOf a [] = ⊥
  IsHashOf a (entry ∷ es) =
      (unhex_with_0x_to_block_hash boost (ptree.text entry.1) ≡ ok a) ⊎ IsHashOf a es

  blocks_loop-IsAscending :
      (es : List (Bytes × Tree)) (start loaded : List Bytes)
      → IsAscending start
      → blocks_loop ptree boost es start ≡ ok loaded
      → IsAscending loaded
  unfolding blocks_loop
  blocks_loop-IsAscending [] start loaded s h = subst IsAscending (ground arith) s
  blocks_loop-IsAscending (entry ∷ es) start loaded s h =
      let (x, more, first) =
        bind_ok _ (unhex_with_0x_to_block_hash boost (ptree.text entry.1)) loaded h in
      blocks_loop-IsAscending es (set_emplace less x start) loaded
        (IsAscending-set_emplace x start s) more

  blocks_loop-IsIn :
      (a : Bytes) (es : List (Bytes × Tree)) (start loaded : List Bytes)
      → blocks_loop ptree boost es start ≡ ok loaded
      → IsIn a loaded ↔ (IsHashOf a es ⊎ IsIn a start)
  unfolding blocks_loop
  blocks_loop-IsIn a [] start loaded h =
      subst (λ (s : List Bytes). IsIn a s ↔ (⊥ ⊎ IsIn a start)) (ground arith)
        (inr, λ k. elim k [ inl no_entry ↦ absurd no_entry | inr i ↦ i ])
  blocks_loop-IsIn a (entry ∷ es) start loaded h =
      let (x, more, first) =
        bind_ok _ (unhex_with_0x_to_block_hash boost (ptree.text entry.1)) loaded h in
      (
        λ i. forth x first ((blocks_loop-IsIn a es (set_emplace less x start) loaded more).0 i),
        λ k. (blocks_loop-IsIn a es (set_emplace less x start) loaded more).1 (back x first k),
      )
    where
      forth :
          (x : Bytes)
          → unhex_with_0x_to_block_hash boost (ptree.text entry.1) ≡ ok x
          → IsHashOf a es ⊎ IsIn a (set_emplace less x start)
          → ((unhex_with_0x_to_block_hash boost (ptree.text entry.1) ≡ ok a) ⊎ IsHashOf a es)
            ⊎ IsIn a start
      forth x e (inl k) = inl (inr k)
      forth x e (inr i) = elim ((IsIn-set_emplace a x start).0 i) [
        | inl same ↦ inl (inl (e ∙ ap ok (sym same)))
        | inr old ↦ inr old
      ]

      back :
          (x : Bytes)
          → unhex_with_0x_to_block_hash boost (ptree.text entry.1) ≡ ok x
          → ((unhex_with_0x_to_block_hash boost (ptree.text entry.1) ≡ ok a) ⊎ IsHashOf a es)
            ⊎ IsIn a start
          → IsHashOf a es ⊎ IsIn a (set_emplace less x start)
      back x e (inl (inl k)) = inr ((IsIn-set_emplace a x start).1 (inl (ok-injective (sym k ∙ e))))
      back x e (inl (inr k)) = inl k
      back x e (inr i) = inr ((IsIn-set_emplace a x start).1 (inr i))

  -- Loaded blocks are strictly ascending, so that none stands twice, and are exactly the hashes of
  -- the entries.
  pub blocks_loop_lem :
      (es : List (Bytes × Tree)) (loaded : List Bytes)
      → blocks_loop ptree boost es [] ≡ ok loaded
      → IsAscending loaded × ((a : Bytes) → IsIn a loaded ↔ IsHashOf a es)
  blocks_loop_lem es loaded h = (
    blocks_loop-IsAscending es [] loaded tt h,
    λ a. (
      λ i. elim ((blocks_loop-IsIn a es [] loaded h).0 i) [
        | inl k ↦ k
        | inr no_entry ↦ absurd no_entry
      ],
      λ k. (blocks_loop-IsIn a es [] loaded h).1 (inl k),
    ),
  )
