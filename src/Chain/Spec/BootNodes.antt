-- ===== src/Chain/Spec/BootNodes.antt =====
-- The boot nodes of a loaded specification (core/src/chain/spec.cpp, `loadBootNodes`).
use polkadot_light_client.Common.{
  Bytes, ok, bind_ok, ◌≡◌, Option, none, some, All, All-append, refl, sym, ◌∙◌, List, [], ◌∷◌, ◌++◌,
  append-nil, append_assoc, arith, codes, Ensures, Ensures-ok, Ensures-bind, ap,
}
use polkadot_light_client.Utils.Hex.Algorithm.{Boost}
use polkadot_light_client.Chain.Spec.Success.{ensure-ok}
use polkadot_light_client.Chain.Spec.Load.{
  check_peer, emplace_back, boot_node, boot_nodes_loop, load_boot_nodes,
}
use polkadot_light_client.Chain.Spec.{Multiaddress, PropertyTree, Spec}

module _ {Address PeerId : Type 0} (multi : Multiaddress Address PeerId) where
  -- The address names a peer, by a name that libp2p decodes.
  abbrev pub IsDialable : Address → Type 0
  IsDialable a =
      (text : Bytes) × (id : PeerId) × (multi.get_peer_id a ≡ some text)
      × (multi.from_base58 text ≡ ok id)

  check_peer-IsDialable :
      (a : Address) (peer : Option Bytes) (found : Option Address)
      → multi.get_peer_id a ≡ peer
      → check_peer multi a peer ≡ ok found
      → (found ≡ some a) × IsDialable a
  unfolding check_peer
  check_peer-IsDialable a none found e h = absurd (cc)
  check_peer-IsDialable a (some text) found e h =
      let (id, k, decoded) = bind_ok _ (multi.from_base58 text) found h in
      (cc, (text, id, e, decoded))

  boot_node-IsDialable :
      (o : Option Address) (found : Option Address)
      → boot_node multi o ≡ ok found
      → (found ≡ o) × All IsDialable (emplace_back o [])
  unfolding boot_node
  boot_node-IsDialable none found h = (ground arith, tt)
  boot_node-IsDialable (some a) found h =
      let (e, d) = check_peer-IsDialable a (multi.get_peer_id a) found refl h in (e, (d, tt))

emplace_back-append :
    {A : Type 0} (o : Option A) (xs : List A) → emplace_back o xs ≡ xs ++ emplace_back o []
emplace_back-append none xs = sym (append-nil xs)
emplace_back-append (some x) xs = refl

module _ {Tree Address PeerId : Type 0} (ptree : PropertyTree Tree) (boost : Boost)
    (multi : Multiaddress Address PeerId) where
  -- The addresses of the entries of which libp2p makes one, in their order.
  unfoldable pub supported : List (Bytes × Tree) → List Address
  supported [] = []
  supported (entry ∷ es) = emplace_back (multi.create (ptree.text entry.1)) [] ++ supported es

  boot_nodes_loop_lem :
      (es : List (Bytes × Tree)) (nodes loaded : List Address)
      → boot_nodes_loop ptree boost multi es nodes ≡ ok loaded
      → (loaded ≡ nodes ++ supported es) × All (IsDialable multi) (supported es)
  unfolding boot_nodes_loop supported
  boot_nodes_loop_lem [] nodes loaded h = (rw append-nil (ground arith), tt)
  boot_nodes_loop_lem (entry ∷ es) nodes loaded h =
      let o = multi.create (ptree.text entry.1) in
      let (found, more, first) = bind_ok _ (boot_node multi o) loaded h in
      let (same, dialable) = boot_node-IsDialable multi o found first in
      let (rest, all) = boot_nodes_loop_lem es (emplace_back found nodes) loaded more in
      (
        rest ∙ rw (same, emplace_back-append o nodes, append_assoc),
        All-append (IsDialable multi) (emplace_back o []) (supported es) dialable all,
      )

  pub load_boot_nodes_ok :
      (tree : Tree) (spec : Spec Address)
      → Ensures
          (λ loaded.
            (entry : Tree) × (ptree.get_child_optional (codes "bootNodes") tree ≡ some entry)
            × (loaded
                ≡ record spec { boot_nodes = spec.boot_nodes ++ supported (ptree.children entry) })
            × All (IsDialable multi) (supported (ptree.children entry)))
          (load_boot_nodes ptree boost multi tree spec)
  unfolding load_boot_nodes
  load_boot_nodes_ok tree spec = Ensures-bind λ entry e1. Ensures-bind λ nodes e2.
      let (same, dialable) = boot_nodes_loop_lem (ptree.children entry) spec.boot_nodes nodes e2 in
      Ensures-ok (
        entry,
        ensure-ok _ entry e1,
        ap (λ (ns : List Address). record spec { boot_nodes = ns }) same,
        dialable,
      )
