-- ===== src/Chain/Spec/Complete.antt =====
-- What a file has to hold is enough for `loadFromFile` of core/src/chain/spec.cpp to succeed.
use polkadot_light_client.Common.{
  Option-cases, All, Bytes, ok, ◌>>=◌, ◌≡◌, refl, sym, ap, subst, ◌∙◌, ◌↔◌, inl, inr, some, List,
  [], ◌∷◌, ◌++◌, append-nil, append_assoc,
}
use polkadot_light_client.Utils.Hex.Algorithm.{Boost}
use polkadot_light_client.Chain.Spec.{PropertyTree, Multiaddress, Spec, empty_spec, ensure}
use polkadot_light_client.Chain.Spec.Load.{
  check_peer, boot_node, load_fields, load_genesis, boot_nodes_loop, load_boot_nodes,
  load_from_file,
}
use polkadot_light_client.Chain.Spec.BootNodes.{IsDialable, supported}
use polkadot_light_client.Chain.Spec.Entries.{
  IsLoadOf, load_from_file_ok, load_from_file-IsDialable,
}

module _ {Tree Address PeerId : Type 0} (ptree : PropertyTree Tree) (boost : Boost)
    (multi : Multiaddress Address PeerId) where
  boot_node-some : (a : Address) → IsDialable multi a → boot_node multi (some a) ≡ ok (some a)
  unfolding boot_node check_peer ◌>>=◌
  boot_node-some a (text, id, e, decoded) = rw (e, decoded) refl

  boot_nodes_loop-supported :
      (es : List (Bytes × Tree)) (nodes : List Address)
      → All (IsDialable multi) (supported ptree boost multi es)
      → boot_nodes_loop ptree boost multi es nodes ≡ ok (nodes ++ supported ptree boost multi es)
  unfolding boot_nodes_loop supported ◌>>=◌ boot_node
  boot_nodes_loop-supported [] nodes d = rw append-nil refl
  boot_nodes_loop-supported (entry ∷ es) nodes d =
      elim (Option-cases (multi.create (ptree.text entry.1))) [
        | inl e ↦ rw (e, boot_node) (boot_nodes_loop-supported es nodes (rw e at d))
        | inr (a, e) ↦
            let (first, more) : All (IsDialable multi) (a ∷ supported ptree boost multi es) =
              rw e at d in
            rw (e, boot_node-some a first)
              (boot_nodes_loop-supported es (nodes ++ a ∷ []) more
                ∙ ap (λ (ns : List Address). ok ns)
                    (append_assoc nodes (a ∷ []) (supported ptree boost multi es)))
      ]

  module _ (file_path : Bytes) (spec : Spec Address)
      (x : IsLoadOf ptree boost multi file_path spec) where
    load_fields_all :
        load_fields ptree boost x.tree empty_spec
        ≡ ok (record spec { children_default = []; genesis = []; boot_nodes = [] })
    unfolding load_fields ensure ◌>>=◌
    load_fields_all =
        rw
          (
            x.name_found, x.id_found, x.telemetry_endpoints, x.known_code_substitutes,
            x.fork_blocks, x.bad_blocks,
          )
          (λ i. ok (record spec {
            name = sym x.name i;
            id = sym x.id i;
            chain_type = sym x.chain_type i;
            protocol_id = sym x.protocol_id i;
            consensus_engine = sym x.consensus_engine i;
            properties = sym x.properties i;
            boot_nodes = [];
            genesis = [];
            children_default = [];
          }))

    load_genesis_all :
        load_genesis ptree boost x.tree
          (record spec { children_default = []; genesis = []; boot_nodes = [] })
        ≡ ok (record spec { boot_nodes = [] })
    unfolding load_genesis ensure ◌>>=◌
    load_genesis_all =
        rw (x.genesis_found, x.raw_found, x.top_found, x.children_default, x.genesis) refl

    load_boot_nodes_all :
        All (IsDialable multi) spec.boot_nodes
        → load_boot_nodes ptree boost multi x.tree (record spec { boot_nodes = [] }) ≡ ok spec
    unfolding load_boot_nodes ensure ◌>>=◌
    load_boot_nodes_all d =
        let all = subst (All (IsDialable multi)) x.boot_nodes d in
        rw (x.nodes_found, boot_nodes_loop-supported (ptree.children x.nodes_entry) [] all)
          (ap (λ (ns : List Address). ok (record spec { boot_nodes = ns })) (sym x.boot_nodes))

    load_from_file_all :
        All (IsDialable multi) spec.boot_nodes
        → load_from_file ptree boost multi file_path ≡ ok spec
    unfolding load_from_file ◌>>=◌
    load_from_file_all d =
        rw (x.read) (rw (load_fields_all, load_genesis_all) (load_boot_nodes_all d))

  -- A load gives a specification exactly if the file holds it and its boot nodes can be dialled.
  pub load_from_file_iff :
      (file_path : Bytes) (spec : Spec Address)
      → (load_from_file ptree boost multi file_path ≡ ok spec)
        ↔ (IsLoadOf ptree boost multi file_path spec × All (IsDialable multi) spec.boot_nodes)
  load_from_file_iff file_path spec = (
    λ e. (
      load_from_file_ok ptree boost multi file_path spec e,
      load_from_file-IsDialable ptree boost multi file_path spec e,
    ),
    λ x. load_from_file_all file_path spec x.0 x.1,
  )
