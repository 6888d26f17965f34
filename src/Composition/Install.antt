-- ===== src/Composition/Install.antt =====
-- core/composition/Composition.cpp: what `install` leaves behind.
use Prim.Native.String.{String}
use dstreamon.Base.{◌≡◌, refl, Bool, List, Option, Result, ok, err, arith}
use dstreamon.Gates.Links.{IsSymmetric}
use dstreamon.Blocks.{Block, BlockFault}
use dstreamon.Composition.{
  Fault, World, Composition, BlockNode, LinkNode, install_blocks, install_links, install,
}
use dstreamon.Composition.LinkLoop.{AllLinked, install_links-Linked}
use dstreamon.Composition.BlockLoop.{AllNamed, AddsAllTo, install_blocks-AddsAll}

module _ {Params : Type 0} (instantiate : String → String → Bool → Option Block)
    (configure : Params → Block → Result BlockFault Block) where
  -- What `install` returns for what the first loop returned.
  abbrev Installed :
      List (BlockNode Params)
      → List LinkNode
      → Result Fault (Unit {0}) × Composition × World
      → Type 0
  Installed blocks links r =
      IsSymmetric r.2.net × (r.0 ≡ ok tt → AllNamed r.1 blocks × AllLinked r.1 r.2 links)

  Installed-rest :
      (blocks : List (BlockNode Params)) (links : List LinkNode) (c : Composition) (w : World)
      (r : Result Fault (Unit {0}) × Composition × World)
      → IsSymmetric w.net
      → AddsAllTo blocks c w r
      → Installed blocks links (elim r.0 [
        | err e ↦ (err e, r.1, r.2)
        | ok _ ↦ ((install_links links r.1 r.2).0, r.1, (install_links links r.1 r.2).1)
      ])
  Installed-rest blocks links c w (err e, c', w') s a =
      (λ o i. ground (arith, s o i, a.all_ins, a.all_outs), λ f. absurd (ground arith))
  Installed-rest blocks links c w (ok u, c', w') s a =
      let s' : IsSymmetric w'.net = λ o i. ground (arith, s o i, a.all_ins, a.all_outs) in
      let (g, linked) = install_links-Linked links c' w' s' in
      (g.symmetric, λ e. (a.all_named refl, linked e))

  install-Installed :
      (blocks : List (BlockNode Params)) (links : List LinkNode) (c : Composition) (w : World)
      → IsSymmetric w.net
      → Installed blocks links (install instantiate configure blocks links c w)
  unfolding install
  install-Installed blocks links c w s =
      Installed-rest blocks links c w (install_blocks instantiate configure blocks c w) s
        (install_blocks-AddsAll instantiate configure blocks c w)

  -- Installing a configuration into a composition keeps the links of the gates in pairs (each gate
  -- is as often a peer of another as that one is of it), where they are before, whether the
  -- installation succeeds or throws at any element.
  pub install-IsSymmetric :
      (blocks : List (BlockNode Params)) (links : List LinkNode) (c : Composition) (w : World)
      → IsSymmetric w.net
      → IsSymmetric (install instantiate configure blocks links c w).2.net
  install-IsSymmetric blocks links c w s = (install-Installed blocks links c w s).0

  -- If the installation of a configuration returns without an exception, starting where the links
  -- of the gates are in pairs, then the composition has a block of each configured name, and each
  -- configured link finds its output gate and its input gate, the second a peer of the first.
  pub install_lem :
      (blocks : List (BlockNode Params)) (links : List LinkNode) (c : Composition) (w : World)
      → IsSymmetric w.net
      → (install instantiate configure blocks links c w).0 ≡ ok tt
      → AllNamed (install instantiate configure blocks links c w).1 blocks
        × AllLinked
            (install instantiate configure blocks links c w).1
            (install instantiate configure blocks links c w).2
            links
  install_lem blocks links c w s e = (install-Installed blocks links c w s).1 e
