-- ===== src/DbQueue/Fifo.antt =====
-- core/block/DBQueue.hpp: histories of calls that do not overlap.
use dstreamon.Base.{
  ℕ, ◌^◌, ◌<◌, ◌≡◌, ap, Bool, true, false, List, [], ◌∷◌, ◌++◌, Option, none, some, inl, inr,
  length, ◌==◌, Bool-cases,
}
use mathlib.Core.List.{append_assoc, append-nil}
use dstreamon.DbQueue.{DbQueue, pop, push}
use dstreamon.DbQueue.Refine.{Holds, push-Holds, pop-Holds}

pub data Call (T : Type 0) : Type 0 where
  pushes : T → Call T
  pops : Call T

-- The messages that the pushes of a history got accepted, and those that its pops returned, in order.
pub record Trace (T : Type 0) : Type 0 where
  pub accepted : List T
  pub returned : List T
  pub final : DbQueue T

abbrev accept {ℓ} : {A : Type ℓ} → Bool → A → List A → List A
accept true x xs = x ∷ xs
accept false x xs = xs

abbrev give {ℓ} : {A : Type ℓ} → Option A → List A → List A
give none xs = xs
give (some x) xs = x ∷ xs

module _ {T : Type 0} (null : T) (qlen : ℕ) where
  unfoldable pub run : DbQueue T → List (Call T) → Trace T
  run s [] = record { accepted = []; returned = []; final = s }
  run s (pushes x ∷ cs) =
      let rest = run (push null qlen s x).1 cs in
      record rest { accepted = accept (push null qlen s x).0 x rest.accepted }
  run s (pops ∷ cs) =
      let rest = run (pop null qlen s).1 cs in
      record rest { returned = give (pop null qlen s).0 rest.returned }

  module _ (some_slot : 0 < qlen) (small : qlen < 2 ^ 30) where
    -- A queue of 1 to 2 ^ 30 - 1 slots holds two batches. After any calls of push and pop that do not
    -- overlap it holds two batches again, and what it held and then accepted is what it returned and
    -- then holds, in that order: nothing is lost, doubled or overtaken.
    pub run-Holds :
        (s : DbQueue T) (xs ys : List T) (cs : List (Call T))
        → Holds qlen s xs ys
        → (us : List T) × (vs : List T) × Holds qlen (run s cs).final us vs
          × ((xs ++ ys) ++ (run s cs).accepted ≡ (run s cs).returned ++ (us ++ vs))
    unfolding run
    run-Holds s xs ys [] h = (xs, ys, h, append-nil (xs ++ ys))
    run-Holds s xs ys (pushes x ∷ cs) h =
        let (done, next) = push-Holds null qlen some_slot small s xs ys x h in
        elim (Bool-cases (length ys == qlen)) [
          | inl full ↦
              let (us, vs, g, e) = run-Holds (push null qlen s x).1 xs ys cs (rw full at next) in
              (us, vs, g, rw (done, full) e)
          | inr room ↦
              let (us, vs, g, e) =
                run-Holds (push null qlen s x).1 xs (ys ++ x ∷ []) cs (rw room at next) in
              (us, vs, g, rw (done, room) (simp append_assoc (simp append_assoc at e)))
        ]
    run-Holds s [] [] (pops ∷ cs) h =
        let (found, next) = pop-Holds null qlen some_slot small s [] [] h in
        let (us, vs, g, e) = run-Holds (pop null qlen s).1 [] [] cs next in (us, vs, g, rw found e)
    run-Holds s [] (y ∷ ys) (pops ∷ cs) h =
        let (found, next) = pop-Holds null qlen some_slot small s [] (y ∷ ys) h in
        let (us, vs, g, e) = run-Holds (pop null qlen s).1 ys [] cs next in
        (us, vs, g, rw found (ap (◌∷◌ y) (simp append-nil at e)))
    run-Holds s (x ∷ xs) ys (pops ∷ cs) h =
        let (found, next) = pop-Holds null qlen some_slot small s (x ∷ xs) ys h in
        let (us, vs, g, e) = run-Holds (pop null qlen s).1 xs ys cs next in
        (us, vs, g, rw found (ap (◌∷◌ x) e))
