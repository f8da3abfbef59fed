-- ===== src/Chain/Spec/Genesis.antt =====
-- The genesis keys and values (core/src/chain/spec.cpp, `read_key_block` in `loadGenesis`).
use polkadot_light_client.Common.{
  Bytes, ok, ◌>>=◌, bind_ok, ◌≡◌, sym, ap, subst, ◌∙◌, ◌↔◌, List, [], ◌∷◌, ◌++◌, append-nil,
  append_assoc, arith,
}
use polkadot_light_client.Utils.Hex.Algorithm.{Boost}
use polkadot_light_client.Utils.Hex.{unhex_with_0x}
use polkadot_light_client.Chain.Spec.Load.{read_key_block}
use polkadot_light_client.Chain.Spec.{PropertyTree, GenesisRawData}

module _ {Tree : Type 0} (ptree : PropertyTree Tree) (boost : Boost) where
  -- The pairs are the decoded keys and texts of the children, one for each and in their order.
  abbrev pub Matches : List (Bytes × Tree) → GenesisRawData → Type 0
  Matches [] [] = Unit {0}
  Matches [] (d ∷ ds) = ⊥
  Matches (c ∷ cs) [] = ⊥
  Matches (c ∷ cs) (d ∷ ds) =
      (unhex_with_0x boost c.0 ≡ ok d.0)
      × (unhex_with_0x boost (ptree.text c.1) ≡ ok d.1)
      × Matches cs ds

  read_key_block-Matches :
      (cs : List (Bytes × Tree)) (start loaded : GenesisRawData)
      → read_key_block ptree boost cs start ≡ ok loaded
      → (ds : GenesisRawData) × (loaded ≡ start ++ ds) × Matches cs ds
  unfolding read_key_block
  read_key_block-Matches [] start loaded h = ([], rw append-nil (ground arith), tt)
  read_key_block-Matches (c ∷ cs) start loaded h =
      let (k, h1, e1) = bind_ok _ (unhex_with_0x boost c.0) loaded h in
      let (v, h2, e2) = bind_ok _ (unhex_with_0x boost (ptree.text c.1)) loaded h1 in
      let (ds, e, m) = read_key_block-Matches cs (start ++ (k, v) ∷ []) loaded h2 in
      ((k, v) ∷ ds, e ∙ append_assoc start ((k, v) ∷ []) ds, (e1, e2, m))

  Matches-read_key_block :
      (cs : List (Bytes × Tree)) (start ds : GenesisRawData)
      → Matches cs ds
      → read_key_block ptree boost cs start ≡ ok (start ++ ds)
  unfolding read_key_block ◌>>=◌
  Matches-read_key_block [] start [] m = rw append-nil
  Matches-read_key_block [] start (d ∷ ds) m = absurd m
  Matches-read_key_block (c ∷ cs) start [] m = absurd m
  Matches-read_key_block (c ∷ cs) start (d ∷ ds) (e1, e2, m) =
      rw (e1, e2)
        (Matches-read_key_block cs (start ++ d ∷ []) ds m ∙ ap ok (append_assoc start (d ∷ []) ds))

  -- Reading succeeds exactly if every key and every text decodes, and then holds them in order.
  pub read_key_block_iff :
      (cs : List (Bytes × Tree)) (ds : GenesisRawData)
      → (read_key_block ptree boost cs [] ≡ ok ds) ↔ Matches cs ds
  read_key_block_iff cs ds = (
    λ h. let (es, e, m) = read_key_block-Matches cs [] ds h in subst (Matches cs) (sym e) m,
    λ m. Matches-read_key_block cs [] ds m,
  )
