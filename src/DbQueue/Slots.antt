-- ===== src/DbQueue/Slots.antt =====
-- core/block/DBQueue.hpp: what one of the two slot arrays holds.
use dstreamon.Base.{
  ℕ, zero, suc, ◌+◌, ◌≤◌, ◌<◌, ◌≡◌, refl, ap, Bool, true, false, List, [], ◌∷◌, ◌++◌, arith, length,
  set, get_or, replicate, map,
}
use dstreamon.DbQueue.{Slot, invalidate, poll, slot, reset_slot}

-- The first slots are valid and hold `xs`, the others are not valid.
abbrev pub Filled : {T : Type 0} → List T → List (Slot T) → Type 0
Filled [] [] = Unit
Filled [] (s ∷ v) = (s.valid ≡ false) × Filled [] v
Filled (x ∷ xs) [] = ⊥
Filled (x ∷ xs) (s ∷ v) = (s.valid ≡ true) × (s.payload ≡ x) × Filled xs v

-- The same behind `r` slots that have been read and are still marked valid.
abbrev pub Drained : {T : Type 0} → ℕ → List T → List (Slot T) → Type 0
Drained zero xs v = Filled xs v
Drained (suc r) xs [] = ⊥
Drained (suc r) xs (s ∷ v) = (s.valid ≡ true) × Drained r xs v

pub poll_lem : (n : ℕ) (b : Bool) → poll (suc n) b ≡ b
unfolding poll
poll_lem zero true = refl
poll_lem zero false = refl
poll_lem (suc n) true = refl
poll_lem (suc n) false = poll_lem n false

module _ {T : Type 0} where
  pub length-Filled : (xs : List T) (v : List (Slot T)) → Filled xs v → length xs ≤ length v
  length-Filled [] v h = omega arith
  length-Filled (x ∷ xs) [] h = elim h [ ]
  length-Filled (x ∷ xs) (s ∷ v) h = omega (arith, length-Filled xs v h.2)

  pub Filled-set :
      (xs : List T) (v : List (Slot T)) (x : T)
      → length xs < length v
      → Filled xs v
      → Filled (xs ++ x ∷ []) (set v (length xs) (record { valid = true; payload = x }))
  Filled-set xs [] x lt h = absurd (omega arith)
  Filled-set [] (s ∷ v) x lt h = (refl, refl, h.1)
  Filled-set (y ∷ xs) (s ∷ v) x lt h = (h.0, h.1, Filled-set xs v x (omega arith) h.2)

  pub invalidate-Filled :
      (xs : List T) (v : List (Slot T)) → Filled xs v → Filled {T = T} [] (invalidate (length xs) v)
  unfolding invalidate
  invalidate-Filled [] v h = h
  invalidate-Filled (x ∷ xs) [] h = elim h [ ]
  invalidate-Filled (x ∷ xs) (s ∷ v) h = (refl, invalidate-Filled xs v h.2)

  pub invalidate-Drained :
      (r : ℕ) (xs : List T) (v : List (Slot T)) (n : ℕ)
      → n ≡ r + length xs
      → Drained r xs v
      → Filled {T = T} [] (invalidate n v)
  unfolding invalidate
  invalidate-Drained zero xs v n e h =
      rw (let e' : n ≡ length xs = omega arith in e') (invalidate-Filled xs v h)
  invalidate-Drained (suc r) xs [] n e h = elim h [ ]
  invalidate-Drained (suc r) xs (s ∷ v) zero e h = absurd (omega arith)
  invalidate-Drained (suc r) xs (s ∷ v) (suc n) e h =
      (refl, invalidate-Drained r xs v n (omega arith) h.1)

  pub length-invalidate : (n : ℕ) (v : List (Slot T)) → length (invalidate n v) ≡ length v
  unfolding invalidate
  length-invalidate zero v = refl
  length-invalidate (suc n) [] = refl
  length-invalidate (suc n) (s ∷ v) = ap suc (length-invalidate n v)

  -- The slot that is read next.
  pub Drained-get :
      (r : ℕ) (x : T) (xs : List T) (v : List (Slot T)) (d : Slot T)
      → Drained r (x ∷ xs) v
      → ((get_or v r d).valid ≡ true) × ((get_or v r d).payload ≡ x)
  Drained-get zero x xs [] d h = elim h [ ]
  Drained-get zero x xs (s ∷ v) d h = (h.0, h.1)
  Drained-get (suc r) x xs [] d h = elim h [ ]
  Drained-get (suc r) x xs (s ∷ v) d h = Drained-get r x xs v d h.1

  pub Drained-set :
      (r : ℕ) (x : T) (xs : List T) (v : List (Slot T)) (c : Slot T)
      → c.valid ≡ true
      → Drained r (x ∷ xs) v
      → Drained (suc r) xs (set v r c)
  Drained-set zero x xs [] c e h = elim h [ ]
  Drained-set zero x xs (s ∷ v) c e h = (e, h.2)
  Drained-set (suc r) x xs [] c e h = elim h [ ]
  Drained-set (suc r) x xs (s ∷ v) c e h = (h.0, Drained-set r x xs v c e h.1)

module _ {T : Type 0} (null : T) (qlen : ℕ) where
  pub replicate-Filled : (n : ℕ) → Filled {T = T} [] (replicate n (slot null qlen))
  replicate-Filled zero = tt
  replicate-Filled (suc n) = (refl, replicate-Filled n)

  pub reset_slot-Filled : (v : List (Slot T)) → Filled {T = T} [] (map (reset_slot null qlen) v)
  unfolding reset_slot
  reset_slot-Filled [] = tt
  reset_slot-Filled (s ∷ v) = ground (arith, reset_slot-Filled v)
