-- ===== src/DbQueue/Tests.antt =====
-- core/block/DBQueue.hpp: runs of a queue with two slots.
use dstreamon.Base.{ℕ, ◌≡◌, refl, List, [], ◌∷◌, ◌++◌, arith}
use dstreamon.DbQueue.{init, push, pop, store, consume, swap_queues, poll, invalidate}
use dstreamon.DbQueue.Refine.{Holds, init-Holds, push-Holds, pop-Holds, push_batches, pop_batches}
use dstreamon.DbQueue.Fifo.{Call, pushes, pops, run, run-Holds}

abbrev calls : List (Call ℕ)
calls = pushes 5 ∷ (pushes 6 ∷ (pushes 7 ∷ (pops ∷ (pushes 8 ∷ (pops ∷ (pops ∷ []))))))

run-calls :
    ((run 0 2 (init {T = ℕ} 0 2) calls).accepted ≡ 5 ∷ (6 ∷ (8 ∷ [])))
    × ((run 0 2 (init {T = ℕ} 0 2) calls).returned ≡ 5 ∷ (6 ∷ (8 ∷ [])))
unfolding run init push pop store consume swap_queues poll invalidate
run-calls = (refl, refl)

run-Holds_example :
    (us : List ℕ) × (vs : List ℕ) × Holds {T = ℕ} 2 (run 0 2 (init {T = ℕ} 0 2) calls).final us vs
    × (([] ++ []) ++ (run 0 2 (init {T = ℕ} 0 2) calls).accepted
        ≡ (run 0 2 (init {T = ℕ} 0 2) calls).returned ++ (us ++ vs))
run-Holds_example =
    run-Holds 0 2 (omega arith) (omega arith) (init {T = ℕ} 0 2) [] [] calls
      (init-Holds 0 2 (omega arith) (omega arith))

push-Holds_example :
    let (done, b) = push_batches {T = ℕ} 2 (record { reading = []; writing = [] }) 5 in
    ((push {T = ℕ} 0 2 (init {T = ℕ} 0 2) 5).0 ≡ done)
    × Holds {T = ℕ} 2 (push {T = ℕ} 0 2 (init {T = ℕ} 0 2) 5).1 b.reading b.writing
push-Holds_example =
    push-Holds 0 2 (omega arith) (omega arith) (init {T = ℕ} 0 2) [] [] 5
      (init-Holds 0 2 (omega arith) (omega arith))

one_queued : Holds {T = ℕ} 2 (push {T = ℕ} 0 2 (init {T = ℕ} 0 2) 5).1 [] (5 ∷ [])
one_queued = push-Holds_example.1

pop-Holds_example :
    let (found, b) = pop_batches {T = ℕ} [] (5 ∷ []) in
    ((pop {T = ℕ} 0 2 (push {T = ℕ} 0 2 (init {T = ℕ} 0 2) 5).1).0 ≡ found)
    × Holds {T = ℕ} 2
        (pop {T = ℕ} 0 2 (push {T = ℕ} 0 2 (init {T = ℕ} 0 2) 5).1).1
        b.reading
        b.writing
pop-Holds_example =
    pop-Holds 0 2 (omega arith) (omega arith) (push {T = ℕ} 0 2 (init {T = ℕ} 0 2) 5).1 [] (5 ∷ [])
      one_queued
