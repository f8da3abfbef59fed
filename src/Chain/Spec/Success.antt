-- ===== src/Chain/Spec/Success.antt =====
-- What a load that succeeds has read (core/src/chain/spec.cpp): the steps, taken apart.
use polkadot_light_client.Common.{
  codes, ok, ◌≡◌, Option, none, some, Ensures, Ensures-ok, Ensures-bind, refl,
}
use polkadot_light_client.Utils.Hex.Algorithm.{Boost}
use polkadot_light_client.Chain.Spec.Load.{
  unless_null, text_or, protocol_or, engine_of, blocks_loop, read_key_block, top_tree, load_fields,
  load_genesis, telemetry_loop, properties_loop, substitutes_loop, children_of,
  children_default_loop,
}
use polkadot_light_client.Chain.Spec.{PropertyTree, Spec, ensure}

pub ensure-ok : {A : Type 0} (o : Option A) (a : A) → ensure o ≡ ok a → o ≡ some a
unfolding ensure
ensure-ok none a h = absurd (cc)
ensure-ok (some b) a h = cc

module _ {Tree Address : Type 0} (ptree : PropertyTree Tree) (boost : Boost) where
  -- `loadFields` took `spec` to `loaded`.
  pub record FieldsLoaded (tree : Tree) (spec loaded : Spec Address) : Type 0 where
    pub name_entry : Tree
    pub name_found : ptree.get_child_optional (codes "name") tree ≡ some name_entry
    pub id_entry : Tree
    pub id_found : ptree.get_child_optional (codes "id") tree ≡ some id_entry
    pub fork_blocks :
        blocks_loop ptree boost
          (unless_null ptree (ptree.get_child_optional (codes "forkBlocks") tree))
          spec.fork_blocks
        ≡ ok loaded.fork_blocks
    pub bad_blocks :
        blocks_loop ptree boost
          (unless_null ptree (ptree.get_child_optional (codes "badBlocks") tree))
          spec.bad_blocks
        ≡ ok loaded.bad_blocks
    pub name : loaded.name ≡ ptree.text name_entry
    pub id : loaded.id ≡ ptree.text id_entry
    pub chain_type :
        loaded.chain_type
        ≡ text_or ptree (codes "Live") (ptree.get_child_optional (codes "chainType") tree)
    pub protocol_id :
        loaded.protocol_id
        ≡ protocol_or ptree spec.protocol_id (ptree.get_child_optional (codes "protocolId") tree)
    pub consensus_engine :
        loaded.consensus_engine
        ≡ engine_of ptree (ptree.get_child_optional (codes "consensusEngine") tree)
    pub telemetry_endpoints :
        telemetry_loop ptree boost
          (unless_null ptree (ptree.get_child_optional (codes "telemetryEndpoints") tree))
          spec.telemetry_endpoints
        ≡ ok loaded.telemetry_endpoints
    pub properties :
        loaded.properties
        ≡ properties_loop ptree boost
            (unless_null ptree (ptree.get_child_optional (codes "properties") tree))
            spec.properties
    pub known_code_substitutes :
        substitutes_loop ptree boost
          (children_of ptree boost (ptree.get_child_optional (codes "codeSubstitutes") tree))
          spec.known_code_substitutes
        ≡ ok loaded.known_code_substitutes
    pub children_default : loaded.children_default ≡ spec.children_default
    pub boot_nodes : loaded.boot_nodes ≡ spec.boot_nodes
    pub genesis : loaded.genesis ≡ spec.genesis

  pub load_fields_ok :
      (tree : Tree) (spec : Spec Address)
      → Ensures (FieldsLoaded tree spec) (load_fields ptree boost tree spec)
  unfolding load_fields
  load_fields_ok tree spec = Ensures-bind λ name e1. Ensures-bind λ id e2.
      Ensures-bind λ endpoints e3. Ensures-bind λ substitutes e4. Ensures-bind λ forks e5.
        Ensures-bind λ bads e6. Ensures-ok (record {
          name_entry = name;
          name_found = ensure-ok _ name e1;
          id_entry = id;
          id_found = ensure-ok _ id e2;
          fork_blocks = e5;
          bad_blocks = e6;
          name = refl;
          id = refl;
          chain_type = refl;
          protocol_id = refl;
          consensus_engine = refl;
          telemetry_endpoints = e3;
          properties = refl;
          known_code_substitutes = e4;
          children_default = refl;
          boot_nodes = refl;
          genesis = refl;
        })

  pub record GenesisLoaded (tree : Tree) (spec loaded : Spec Address) : Type 0 where
    pub genesis_entry : Tree
    pub genesis_found : ptree.get_child_optional (codes "genesis") tree ≡ some genesis_entry
    pub raw_entry : Tree
    pub raw_found : ptree.get_child_optional (codes "raw") genesis_entry ≡ some raw_entry
    pub top : Tree
    pub top_found :
        top_tree ptree boost
          (ptree.get_child_optional (codes "top") raw_entry)
          (ptree.children raw_entry)
        ≡ ok top
    pub genesis : read_key_block ptree boost (ptree.children top) spec.genesis ≡ ok loaded.genesis
    pub children_default :
        children_default_loop ptree boost
          (children_of ptree boost (ptree.get_child_optional (codes "childrenDefault") raw_entry))
          spec.children_default
        ≡ ok loaded.children_default
    pub unchanged :
        loaded
        ≡ record spec { children_default = loaded.children_default; genesis = loaded.genesis }

  pub load_genesis_ok :
      (tree : Tree) (spec : Spec Address)
      → Ensures (GenesisLoaded tree spec) (load_genesis ptree boost tree spec)
  unfolding load_genesis
  load_genesis_ok tree spec = Ensures-bind λ genesis e1. Ensures-bind λ raw e2.
      Ensures-bind λ top e3. Ensures-bind λ children e4. Ensures-bind λ genesis_data e5.
        Ensures-ok (record {
          genesis_entry = genesis;
          genesis_found = ensure-ok _ genesis e1;
          raw_entry = raw;
          raw_found = ensure-ok _ raw e2;
          top = top;
          top_found = e3;
          genesis = e5;
          children_default = e4;
          unchanged = refl;
        })
