-- ===== src/Chain/Spec/Entries.antt =====
-- What a file has to hold for `loadFromFile` to succeed, and what it then loads
-- (core/src/chain/spec.cpp).
use polkadot_light_client.Common.{
  All, Bytes, codes, ok, Ensures, Ensures-bind, ◌≡◌, Option, none, some, [], ◌++◌, sym, ap, ◌∙◌,
  List, subst,
}
use polkadot_light_client.Utils.Hex.Algorithm.{Boost}
use polkadot_light_client.Chain.Spec.Load.{
  unless_null, text_or, protocol_or, engine_of, blocks_loop, read_key_block, top_tree, parsed,
  load_from_file, telemetry_loop, properties_loop, substitutes_loop, children_of,
  children_default_loop,
}
use polkadot_light_client.Chain.Spec.Success.{
  FieldsLoaded, load_fields_ok, GenesisLoaded, load_genesis_ok,
}
use polkadot_light_client.Chain.Spec.BootNodes.{IsDialable, supported, load_boot_nodes_ok}
use polkadot_light_client.Chain.Spec.{PropertyTree, Multiaddress, Spec, empty_spec}

parsed-ok : {Tree : Type 0} (o : Option Tree) (t : Tree) → parsed o ≡ ok t → o ≡ some t
parsed-ok none t h = absurd (cc)
parsed-ok (some u) t h = cc

module _ {Tree Address PeerId : Type 0} (ptree : PropertyTree Tree) (boost : Boost)
    (multi : Multiaddress Address PeerId) where
  -- The specification that the tree of a file holds.
  pub record IsLoadOf (file_path : Bytes) (spec : Spec Address) : Type 0 where
    pub tree : Tree
    pub read : ptree.read_json file_path ≡ some tree
    pub name_entry : Tree
    pub name_found : ptree.get_child_optional (codes "name") tree ≡ some name_entry
    pub name : spec.name ≡ ptree.text name_entry
    pub id_entry : Tree
    pub id_found : ptree.get_child_optional (codes "id") tree ≡ some id_entry
    pub id : spec.id ≡ ptree.text id_entry
    pub chain_type :
        spec.chain_type
        ≡ text_or ptree (codes "Live") (ptree.get_child_optional (codes "chainType") tree)
    pub protocol_id :
        spec.protocol_id
        ≡ protocol_or ptree (codes "sup") (ptree.get_child_optional (codes "protocolId") tree)
    pub consensus_engine :
        spec.consensus_engine
        ≡ engine_of ptree (ptree.get_child_optional (codes "consensusEngine") tree)
    pub telemetry_endpoints :
        telemetry_loop ptree boost
          (unless_null ptree (ptree.get_child_optional (codes "telemetryEndpoints") tree))
          []
        ≡ ok spec.telemetry_endpoints
    pub properties :
        spec.properties
        ≡ properties_loop ptree boost
            (unless_null ptree (ptree.get_child_optional (codes "properties") tree))
            []
    pub known_code_substitutes :
        substitutes_loop ptree boost
          (children_of ptree boost (ptree.get_child_optional (codes "codeSubstitutes") tree))
          []
        ≡ ok spec.known_code_substitutes
    pub fork_blocks :
        blocks_loop ptree boost
          (unless_null ptree (ptree.get_child_optional (codes "forkBlocks") tree))
          []
        ≡ ok spec.fork_blocks
    pub bad_blocks :
        blocks_loop ptree boost
          (unless_null ptree (ptree.get_child_optional (codes "badBlocks") tree))
          []
        ≡ ok spec.bad_blocks
    pub genesis_entry : Tree
    pub genesis_found : ptree.get_child_optional (codes "genesis") tree ≡ some genesis_entry
    pub raw_entry : Tree
    pub raw_found : ptree.get_child_optional (codes "raw") genesis_entry ≡ some raw_entry
    pub top : Tree
    pub top_found :
        top_tree ptree boost
          (ptree.get_child_optional (codes "top") raw_entry)
          (ptree.children raw_entry)
        ≡ ok top
    pub genesis : read_key_block ptree boost (ptree.children top) [] ≡ ok spec.genesis
    pub children_default :
        children_default_loop ptree boost
          (children_of ptree boost (ptree.get_child_optional (codes "childrenDefault") raw_entry))
          []
        ≡ ok spec.children_default
    pub nodes_entry : Tree
    pub nodes_found : ptree.get_child_optional (codes "bootNodes") tree ≡ some nodes_entry
    pub boot_nodes : spec.boot_nodes ≡ supported ptree boost multi (ptree.children nodes_entry)

  load_from_file-Ensures :
      (file_path : Bytes)
      → Ensures
          (λ s. IsLoadOf file_path s × All (IsDialable multi) s.boot_nodes)
          (load_from_file ptree boost multi file_path)
  unfolding load_from_file
  load_from_file-Ensures file_path = Ensures-bind λ tree e1. Ensures-bind λ s1 e2.
      Ensures-bind λ s2 e3. record {
        at = λ s e.
            finish tree s1 s2 s e1 ((load_fields_ok ptree boost tree empty_spec).at s1 e2)
              ((load_genesis_ok ptree boost tree s1).at s2 e3)
              ((load_boot_nodes_ok ptree boost multi tree s2).at s e);
      }
    where
      finish :
          (tree : Tree) (s1 s2 s : Spec Address)
          → parsed (ptree.read_json file_path) ≡ ok tree
          → FieldsLoaded ptree boost tree empty_spec s1
          → GenesisLoaded ptree boost tree s1 s2
          → ((entry : Tree) × (ptree.get_child_optional (codes "bootNodes") tree ≡ some entry)
              × (s ≡ record s2 {
                boot_nodes = s2.boot_nodes ++ supported ptree boost multi (ptree.children entry);
              })
              × All (IsDialable multi) (supported ptree boost multi (ptree.children entry)))
          → IsLoadOf file_path s × All (IsDialable multi) s.boot_nodes
      finish tree s1 s2 s e1 f g (entry, found, e, dialable) =
          let added : List Address = supported ptree boost multi (ptree.children entry) in
          let whole : s ≡ record s1 {
            children_default = s2.children_default;
            genesis = s2.genesis;
            boot_nodes = s1.boot_nodes ++ added;
          } =
            e
            ∙ ap (λ (x : Spec Address). record x { boot_nodes = x.boot_nodes ++ added })
                g.unchanged in
          subst (λ (x : Spec Address). IsLoadOf file_path x × All (IsDialable multi) x.boot_nodes)
            (sym whole)
            (
              record {
                tree = tree;
                read = parsed-ok _ tree e1;
                name_entry = f.name_entry;
                name_found = f.name_found;
                name = f.name;
                id_entry = f.id_entry;
                id_found = f.id_found;
                id = f.id;
                chain_type = f.chain_type;
                protocol_id = f.protocol_id;
                consensus_engine = f.consensus_engine;
                telemetry_endpoints = f.telemetry_endpoints;
                properties = f.properties;
                known_code_substitutes = f.known_code_substitutes;
                fork_blocks = f.fork_blocks;
                bad_blocks = f.bad_blocks;
                genesis_entry = g.genesis_entry;
                genesis_found = g.genesis_found;
                raw_entry = g.raw_entry;
                raw_found = g.raw_found;
                top = g.top;
                top_found = g.top_found;
                genesis = rw f.genesis at g.genesis;
                children_default = rw f.children_default at g.children_default;
                nodes_entry = entry;
                nodes_found = found;
                boot_nodes = ap (λ (ns : List Address). ns ++ added) f.boot_nodes;
              },
              rw f.boot_nodes dialable,
            )

  -- A load that succeeds has read a tree with the entries name, id, genesis, genesis/raw and
  -- bootNodes, and holds what they say, with the source's defaults for the optional ones: the texts,
  -- the genesis keys and values, and the supported boot nodes, each in the order of the file.
  pub load_from_file_ok :
      (file_path : Bytes) (spec : Spec Address)
      → load_from_file ptree boost multi file_path ≡ ok spec
      → IsLoadOf file_path spec
  load_from_file_ok file_path spec e = ((load_from_file-Ensures file_path).at spec e).0

  -- Every boot node of a loaded specification names its peer, in a form that libp2p decodes.
  pub load_from_file-IsDialable :
      (file_path : Bytes) (spec : Spec Address)
      → load_from_file ptree boost multi file_path ≡ ok spec
      → All (IsDialable multi) spec.boot_nodes
  load_from_file-IsDialable file_path spec e = ((load_from_file-Ensures file_path).at spec e).1
