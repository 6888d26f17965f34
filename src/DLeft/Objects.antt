-- ===== src/DLeft/Objects.antt =====
-- lib/streamon/DLeft.cpp: what a change of one node does to the objects.
use dstreamon.Base.{
  ℕ, zero, suc, ◌^◌, ◌<◌, ◌≡◌, ◌≢◌, ◌⊎◌, refl, ap, List, [], ◌∷◌, ◌++◌, some, arith, length, inl,
  inr,
}
use dstreamon.DLeft.{Node, change, update, mark, store, node_at, object_of}
use dstreamon.DLeft.Places.{AllSized}

module _ {ℓ} {V : Type ℓ} where
  object_of-change :
      (v : V) (p : ℕ) (t : List (Node V))
      → p < length t
      → object_of (node_at 0 p (change (store v) p t ∷ [])) ≡ some v
  unfolding change node_at
  object_of-change v p [] lt = absurd (omega arith)
  object_of-change v zero (n ∷ t) lt = refl
  object_of-change v (suc p) (n ∷ t) lt = object_of-change v p t (omega arith)

  -- A stored object is there.
  pub object_of-store :
      (shash : ℕ) (v : V) (i p : ℕ) (ts : List (List (Node V)))
      → AllSized shash ts
      → i < length ts
      → p < 2 ^ shash
      → object_of (node_at i p (update (store v) i p ts)) ≡ some v
  unfolding update node_at
  object_of-store shash v i p [] sized lt within = absurd (omega arith)
  object_of-store shash v zero p (t ∷ ts) sized lt within =
      object_of-change v p t (omega (arith, sized.0))
  object_of-store shash v (suc i) p (t ∷ ts) sized lt within =
      object_of-store shash v i p ts sized.1 (omega arith) within

  node_at_apart :
      (f : Node V → Node V) (p q : ℕ) (t : List (Node V))
      → q ≢ p
      → node_at 0 q (change f p t ∷ []) ≡ node_at 0 q (t ∷ [])
  unfolding change node_at
  node_at_apart f p q [] ne = refl
  node_at_apart f zero zero (n ∷ t) ne = absurd (ne refl)
  node_at_apart f zero (suc q) (n ∷ t) ne = refl
  node_at_apart f (suc p) zero (n ∷ t) ne = refl
  node_at_apart f (suc p) (suc q) (n ∷ t) ne = node_at_apart f p q t (λ e. ne (ap suc e))

  -- Every other node stays.
  pub node_at-update :
      (f : Node V → Node V) (i p j q : ℕ) (ts : List (List (Node V)))
      → (j ≢ i) ⊎ (q ≢ p)
      → node_at j q (update f i p ts) ≡ node_at j q ts
  unfolding update node_at
  node_at-update f i p j q [] ne = refl
  node_at-update f zero p zero q (t ∷ ts) (inl ne) = absurd (ne refl)
  node_at-update f zero p zero q (t ∷ ts) (inr ne) = node_at_apart f p q t ne
  node_at-update f zero p (suc j) q (t ∷ ts) ne = refl
  node_at-update f (suc i) p zero q (t ∷ ts) ne = refl
  node_at-update f (suc i) p (suc j) q (t ∷ ts) (inl ne) =
      node_at-update f i p j q ts (inl (λ e. ne (ap suc e)))
  node_at-update f (suc i) p (suc j) q (t ∷ ts) (inr ne) = node_at-update f i p j q ts (inr ne)

  object_kept :
      (x p q : ℕ) (t : List (Node V))
      → object_of (node_at 0 q (change (mark x) p t ∷ [])) ≡ object_of (node_at 0 q (t ∷ []))
  unfolding change node_at
  object_kept x p q [] = refl
  object_kept x zero zero (n ∷ t) = refl
  object_kept x zero (suc q) (n ∷ t) = refl
  object_kept x (suc p) zero (n ∷ t) = refl
  object_kept x (suc p) (suc q) (n ∷ t) = object_kept x p q t

  -- A mark leaves every object.
  pub object_of-mark :
      (x i p j q : ℕ) (ts : List (List (Node V)))
      → object_of (node_at j q (update (mark x) i p ts)) ≡ object_of (node_at j q ts)
  unfolding update node_at
  object_of-mark x i p j q [] = refl
  object_of-mark x zero p zero q (t ∷ ts) = object_kept x p q t
  object_of-mark x zero p (suc j) q (t ∷ ts) = refl
  object_of-mark x (suc i) p zero q (t ∷ ts) = refl
  object_of-mark x (suc i) p (suc j) q (t ∷ ts) = object_of-mark x i p j q ts

  pub node_at-append :
      (j q : ℕ) (ts : List (List (Node V))) (t : List (Node V))
      → j < length ts
      → node_at j q (ts ++ (t ∷ [])) ≡ node_at j q ts
  unfolding node_at
  node_at-append j q [] t lt = absurd (omega arith)
  node_at-append zero q (u ∷ ts) t lt = refl
  node_at-append (suc j) q (u ∷ ts) t lt = node_at-append j q ts t (omega arith)
