-- ===== src/Composition/BlockLoop.antt =====
-- core/composition/Composition.cpp: the first loop of `install`, over the blocks.
use Prim.Native.String.{String}
use text.Mathlib.Text.{◌==◌ as str_eq}
use text.Mathlib.TextEquality.{eq_iff}
use dstreamon.Base.{
  ℕ, ◌≡◌, refl, ◌∙◌, Bool, not, ◌⊎◌, ◌&&◌, ◌||◌, List, [], ◌∷◌, Option, some, Result, ok, err,
  arith, Result-cases, Bool-cases, Option-cases, inl, inr,
}
use dstreamon.Assoc.{find, put, find-put}
use dstreamon.Blocks.{Block, BlockFault}
use dstreamon.Composition.{
  Fault, unknown_type, no_name, bad_sched_type, no_pool_id, in_manager, in_block, allocate, World,
  Composition, BlockNode, create_block_from_parsed, install_block, install_blocks,
}
use dstreamon.Scheduler.Dumb.{dumb_scheduler}
use dstreamon.PoolManager.{Pools, is_empty, add_to_pool}

-- A block that is in the composition.
abbrev pub IsNamed : Composition → String → Type 0
IsNamed c k = (a : ℕ) × (find k c.map ≡ some a)

put-IsNamed :
    (name k : String) (a : ℕ) (c : Composition)
    → IsNamed c k
    → IsNamed (record c { map = put name a c.map }) k
put-IsNamed name k a c (b, e) = elim (Bool-cases (str_eq name k)) [
  | inl hit ↦ (a, find-put name k a c.map ∙ rw hit)
  | inr miss ↦ (b, find-put name k a c.map ∙ rw miss e)
]

module _ {Params : Type 0} where
  abbrev pub AllNamed : Composition → List (BlockNode Params) → Type 0
  AllNamed c [] = Unit
  AllNamed c (n ∷ ns) = IsNamed c n.id × AllNamed c ns

  -- What one element of the configuration adds.
  pub record Adds (n : BlockNode Params) (c c' : Composition) (w w' : World)
      (r : Result Fault (Unit {0})) : Type 0 where
    ins : w'.net.in_peers ≡ w.net.in_peers
    outs : w'.net.out_peers ≡ w.net.out_peers
    keeps : (k : String) → IsNamed c k → IsNamed c' k
    named : r ≡ ok tt → IsNamed c' n.id

  Adds-same :
      (n : BlockNode Params) (c : Composition) (w : World) (e : Fault) → Adds n c c w w (err e)
  Adds-same n c w e = record {
    ins = refl;
    outs = refl;
    keeps = λ k named. named;
    named = λ f. absurd (ground arith);
  }

  Adds-new :
      (n : BlockNode Params) (c : Composition) (w : World) (b : Block)
      (pools : Pools dumb_scheduler) (r : Result Fault (Unit {0}))
      → Adds n c
          (record c { map = put n.id w.next_address c.map })
          w
          (record (allocate b w) { pools = pools })
          r
  Adds-new n c w b pools r = record {
    ins = refl;
    outs = refl;
    keeps = λ k named. put-IsNamed n.id k w.next_address c named;
    named = λ e.
        (w.next_address, find-put n.id n.id w.next_address c.map ∙ rw ((eq_iff n.id n.id).1 refl));
  }

  -- What the loop over the blocks leaves: the links are as before, and on success all are named.
  pub record AddsAll (ns : List (BlockNode Params)) (c c' : Composition) (w w' : World)
      (r : Result Fault (Unit {0})) : Type 0 where
    pub all_ins : w'.net.in_peers ≡ w.net.in_peers
    pub all_outs : w'.net.out_peers ≡ w.net.out_peers
    pub all_keeps : (k : String) → IsNamed c k → IsNamed c' k
    pub all_named : r ≡ ok tt → AllNamed c' ns

  abbrev pub AddsAllTo :
      List (BlockNode Params)
      → Composition
      → World
      → Result Fault (Unit {0}) × Composition × World
      → Type 0
  AddsAllTo ns c w r = AddsAll ns c r.1 w r.2 r.0

  -- One more element, and what the loop does after it.
  AddsAll-cons :
      (n : BlockNode Params) (ns : List (BlockNode Params)) (c c' c'' : Composition)
      (w w' w'' : World) (r : Result Fault (Unit {0}))
      → Adds n c c' w w' (ok tt)
      → AddsAll ns c' c'' w' w'' r
      → AddsAll (n ∷ ns) c c'' w w'' r
  AddsAll-cons n ns c c' c'' w w' w'' r a b = record {
    all_ins = b.all_ins ∙ a.ins;
    all_outs = b.all_outs ∙ a.outs;
    all_keeps = λ k named. b.all_keeps k (a.keeps k named);
    all_named = λ e. (b.all_keeps n.id (a.named refl), b.all_named e);
  }

  AddsAll-stop :
      (n : BlockNode Params) (ns : List (BlockNode Params)) (c c' : Composition) (w w' : World)
      (e : Fault)
      → Adds n c c' w w' (err e)
      → AddsAll (n ∷ ns) c c' w w' (err e)
  AddsAll-stop n ns c c' w w' e a = record {
    all_ins = a.ins;
    all_outs = a.outs;
    all_keeps = a.keeps;
    all_named = λ f. absurd (ground arith);
  }

  AddsAll-nil : (c : Composition) (w : World) → AddsAll [] c c w w (ok tt)
  AddsAll-nil c w = record {
    all_ins = refl;
    all_outs = refl;
    all_keeps = λ k named. named;
    all_named = λ e. tt;
  }

module _ {Params : Type 0} (instantiate : String → String → Bool → Option Block)
    (configure : Params → Block → Result BlockFault Block) where
  create_block_cases :
      (type name : String) (active : Bool) (params : Params) (c : Composition) (w : World)
      → ((e : Fault) × (create_block_from_parsed instantiate configure type name active params c w
            ≡ err e))
        ⊎ ((b : Block) × (create_block_from_parsed instantiate configure type name active params c w
              ≡ ok (record c { map = put name w.next_address c.map }, allocate b w)))
  unfolding create_block_from_parsed
  create_block_cases type name active params c w =
      elim (Option-cases (instantiate type name active)) [
        | inl missing ↦ inl (unknown_type, rw missing)
        | inr (b, made) ↦ elim (Result-cases (configure params b)) [
          | inl (e, f) ↦ inl (in_block e, rw (made, create_block_from_parsed) (rw f))
          | inr (b', f) ↦ inr (b', rw (made, create_block_from_parsed) (rw f))
        ]
      ]

  abbrev AddsTo :
      BlockNode Params
      → Composition
      → World
      → Result Fault (Unit {0}) × Composition × World
      → Type 0
  AddsTo n c w r = Adds n c r.1 w r.2 r.0

  install_block-Adds :
      (n : BlockNode Params) (c : Composition) (w : World)
      → AddsTo n c w (install_block instantiate configure n c w)
  unfolding install_block
  install_block-Adds n c w = elim (Bool-cases (is_empty n.id || is_empty n.block_type)) [
    | inl unnamed ↦ rw (unnamed, install_block) (Adds-same n c w no_name)
    | inr named ↦
        elim (Bool-cases (not (is_empty n.sched_type) && not (str_eq n.sched_type "active"))) [
          | inl bad ↦ rw (named, install_block) (rw bad (Adds-same n c w bad_sched_type))
          | inr good ↦
              elim (create_block_cases n.block_type n.id (str_eq n.sched_type "active") n.params c
                w) [
                  | inl (e, f) ↦ rw (named, install_block) (rw good (rw f (Adds-same n c w e)))
                  | inr (b, f) ↦ elim (Bool-cases (str_eq n.sched_type "active")) [
                    | inr passive ↦
                        rw (named, install_block)
                          (rw good (rw f (rw passive (Adds-new n c w b w.pools (ok tt)))))
                    | inl active ↦ elim (Bool-cases (is_empty n.threadpool)) [
                      | inl no_pool ↦
                          rw (named, install_block)
                            (rw good (
                              rw f (
                                rw active
                                  (rw no_pool (Adds-new n c w b w.pools (err no_pool_id))))))
                      | inr pool ↦
                          elim (Result-cases
                            (add_to_pool dumb_scheduler n.threadpool w.next_address w.pools)) [
                              | inl (e, g) ↦
                                  rw (named, install_block)
                                    (rw good (
                                      rw f (
                                        rw active (
                                          rw pool (
                                            rw g
                                              (Adds-new n c w b w.pools (err (in_manager e))))))))
                              | inr (pools, g) ↦
                                  rw (named, install_block)
                                    (rw good (
                                      rw f (
                                        rw active
                                          (rw pool (rw g (Adds-new n c w b pools (ok tt)))))))
                            ]
                    ]
                  ]
                ]
        ]
  ]

  -- The rest of the loop runs only if the element was added.
  AddsAll-rest :
      (n : BlockNode Params) (ns : List (BlockNode Params)) (c : Composition) (w : World)
      (r : Result Fault (Unit {0}) × Composition × World)
      → AddsTo n c w r
      → AddsAllTo ns r.1 r.2 (install_blocks instantiate configure ns r.1 r.2)
      → AddsAllTo (n ∷ ns) c w (elim r.0 [
        | err e ↦ (err e, r.1, r.2)
        | ok _ ↦ install_blocks instantiate configure ns r.1 r.2
      ])
  AddsAll-rest n ns c w (err e, c', w') a b = AddsAll-stop n ns c c' w w' e a
  AddsAll-rest n ns c w (ok u, c', w') a b = AddsAll-cons n ns c c' _ w w' _ _ a b

  pub install_blocks-AddsAll :
      (ns : List (BlockNode Params)) (c : Composition) (w : World)
      → AddsAllTo ns c w (install_blocks instantiate configure ns c w)
  unfolding install_blocks
  install_blocks-AddsAll [] c w = AddsAll-nil c w
  install_blocks-AddsAll (n ∷ ns) c w =
      let r = install_block instantiate configure n c w in
      AddsAll-rest n ns c w r (install_block-Adds n c w) (install_blocks-AddsAll ns r.1 r.2)
