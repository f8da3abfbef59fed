-- ===== src/Chain/Spec/Typing.antt =====
-- The genesis data that a specification of core/src/chain/spec.h holds after it was loaded: bytes.
use polkadot_light_client.Common.{
  All, All-append, Bytes, IsByte, ok, Ensures, Ensures-ok, Ensures-bind, ◌≡◌, List, [], ◌∷◌, ◌++◌,
}
use polkadot_light_client.Utils.Hex.Algorithm.{Boost, BoostLaws}
use polkadot_light_client.Utils.Hex.Outputs.{unhex_with_0x-IsByte}
use polkadot_light_client.Chain.Spec.Entries.{load_from_file_ok}
use polkadot_light_client.Chain.Spec.Load.{read_key_block, load_from_file}
use polkadot_light_client.Chain.Spec.{PropertyTree, Multiaddress, GenesisRawData, Spec}

abbrev pub IsEntry : Bytes × Bytes → Type 0
IsEntry d = All IsByte d.0 × All IsByte d.1

module _ {boost : Boost} (laws : BoostLaws boost) where
  module _ {Tree : Type 0} (ptree : PropertyTree Tree) where
    read_key_block-IsEntry :
        (cs : List (Bytes × Tree)) (ds : GenesisRawData)
        → All IsEntry ds
        → Ensures (All IsEntry) (read_key_block ptree boost cs ds)
    unfolding read_key_block
    read_key_block-IsEntry [] ds h = Ensures-ok h
    read_key_block-IsEntry (c ∷ cs) ds h = Ensures-bind λ k e. Ensures-bind λ v f.
        read_key_block-IsEntry cs (ds ++ (k, v) ∷ []) (
          All-append IsEntry ds ((k, v) ∷ []) h (
            (
              (unhex_with_0x-IsByte laws c.0).at k e,
              (unhex_with_0x-IsByte laws (ptree.text c.1)).at v f,
            ),
            tt,
          ))

  -- Every key and every value of a loaded genesis is a list of bytes.
  pub load_from_file-IsEntry :
      {Tree Address PeerId : Type 0} (ptree : PropertyTree Tree)
      (multi : Multiaddress Address PeerId) (file_path : Bytes) (spec : Spec Address)
      → load_from_file ptree boost multi file_path ≡ ok spec
      → All IsEntry spec.genesis
  load_from_file-IsEntry ptree multi file_path spec e =
      let l = (load_from_file_ok ptree boost multi file_path spec e) in
      (read_key_block-IsEntry ptree (ptree.children l.top) [] tt).at spec.genesis l.genesis
