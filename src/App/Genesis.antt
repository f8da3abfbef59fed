-- ===== src/App/Genesis.antt =====
-- From the file of app/src/main.cpp to the genesis runtime: core/src/chain/spec.cpp and
-- core/src/runtime/service.cpp together.
use polkadot_light_client.Common.{All, Bytes, IsByte, codes, ok, ◌≡◌, [], ◌∷◌}
use polkadot_light_client.Utils.Hex.Algorithm.{Boost, BoostLaws}
use polkadot_light_client.Chain.Spec.Containers.{map_find}
use polkadot_light_client.Chain.Spec.Load.{load_from_file}
use polkadot_light_client.Chain.Spec.Typing.{IsEntry, load_from_file-IsEntry}
use polkadot_light_client.Chain.Spec.{PropertyTree, Multiaddress, GenesisRawData, Spec}
use polkadot_light_client.Runtime.Module.{Binaryen}
use polkadot_light_client.Runtime.Service.{Zstd, new_service, load_genesis_runtime}
use polkadot_light_client.Runtime.Genesis.{load_found, load_genesis_runtime_lem}

keys_of_bytes :
    (ds : GenesisRawData) → All IsEntry ds → All (λ (d : Bytes × Bytes). All IsByte d.0) ds
keys_of_bytes [] h = tt
keys_of_bytes (d ∷ ds) (e, h) = (e.0, keys_of_bytes ds h)

module _ {Tree PeerId WasmModule ModuleInstance : Type 0} (ptree : PropertyTree Tree)
    (multi : Multiaddress Bytes PeerId) (zstd : Zstd)
    (binaryen : Binaryen WasmModule ModuleInstance) {boost : Boost} (laws : BoostLaws boost) where
  -- The runtime service of a specification that was loaded from a file instantiates the value of the
  -- genesis key ":code", the first one if there are several. It reports MissingInitialRuntime exactly
  -- where the key is missing, and is then left as it was.
  pub load_genesis_runtime-load_from_file :
      (file_path : Bytes) (spec : Spec Bytes)
      → load_from_file ptree boost multi file_path ≡ ok spec
      → load_genesis_runtime zstd binaryen boost (new_service spec)
        ≡ load_found zstd binaryen laws (map_find (codes ":code") spec.genesis) (new_service spec)
  load_genesis_runtime-load_from_file file_path spec e =
      load_genesis_runtime_lem zstd binaryen laws (new_service spec)
        (keys_of_bytes spec.genesis (load_from_file-IsEntry laws ptree multi file_path spec e))
