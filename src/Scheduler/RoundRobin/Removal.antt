-- ===== src/Scheduler/RoundRobin/Removal.antt =====
-- core/scheduler/schedulers/RRScheduler.hpp: `remove_block`.
use mathlib.Core.List.{append_assoc, append-nil}
use dstreamon.Base.{
  ℕ, zero, suc, ◌≡◌, ◌<◌, refl, sym, ap, ap₂, ◌∙◌, List, [], ◌∷◌, ◌++◌, ok, err, arith, length,
  length-append, map,
}
use dstreamon.MsgQueue.{count}
use dstreamon.Scheduler.{block_not_found}
use dstreamon.Scheduler.SharedQueue.{SharedQueue, SharedQueueLaws}
use dstreamon.Scheduler.RoundRobin.{
  RoundRobin, found, passed, search_queue, remove_from, remove_block,
}

module _ (q : SharedQueue) (laws : SharedQueueLaws q) where
  open q use {Queue, size, push_back, pop_front}
  open laws use {contents, size_lem, bounded, push_room, pop_next}

  -- A queue that has just lost an entry has room for it at the other end.
  rotate :
      (x : ℕ) (xs : List ℕ) (s : Queue)
      → contents s ≡ x ∷ xs
      → contents (push_back x (pop_front s).1).1 ≡ xs ++ x ∷ []
  rotate x xs s e =
      let (_, rest) = pop_next x xs s e in
      let fits : length (contents (pop_front s).1) < q.room =
        omega (arith, ap length e, ap length rest, bounded s) in
      (push_room x (pop_front s).1 fits).1 ∙ ap (λ c. c ++ x ∷ []) rest

  -- Entries that are not the block are moved to the end, in order.
  search_passes :
      (b : ℕ) (xs ys : List ℕ) (s : Queue)
      → contents s ≡ xs ++ ys
      → count b xs ≡ 0
      → (t : Queue) × (search_queue q b (length xs) s ≡ passed t) × (contents t ≡ ys ++ xs)
  unfolding search_queue count
  search_passes b [] ys s e c = (s, refl, e ∙ sym (append-nil ys))
  search_passes b (x ∷ xs) ys s e c =
      let (got, rest) = pop_next x (xs ++ ys) s e in
      let moved = rotate x (xs ++ ys) s e ∙ append_assoc xs ys (x ∷ []) in
      let (t, run, held) =
        search_passes b xs (ys ++ x ∷ []) (push_back x (pop_front s).1).1 moved (omega arith) in
      (t, rw (got, search_queue) (ground (arith, run)), held ∙ append_assoc ys (x ∷ []) xs)

  -- The block is taken out where it is first met, and what stood before it stands at the end.
  search_finds :
      (b : ℕ) (xs ys : List ℕ) (n : ℕ) (s : Queue)
      → contents s ≡ xs ++ (b ∷ ys)
      → count b xs ≡ 0
      → length xs < n
      → (t : Queue) × (search_queue q b n s ≡ found t) × (contents t ≡ ys ++ xs)
  unfolding search_queue count
  search_finds b xs ys zero s e c lt = absurd (omega arith)
  search_finds b [] ys (suc n) s e c lt =
      let (got, rest) = pop_next b ys s e in
      ((pop_front s).1, rw (got, search_queue) (ground arith), rest ∙ sym (append-nil ys))
  search_finds b (x ∷ xs) ys (suc n) s e c lt =
      let (got, rest) = pop_next x (xs ++ (b ∷ ys)) s e in
      let moved = rotate x (xs ++ (b ∷ ys)) s e ∙ append_assoc xs (b ∷ ys) (x ∷ []) in
      let (t, run, held) =
        search_finds b xs (ys ++ x ∷ []) n (push_back x (pop_front s).1).1 moved (omega arith)
          (omega arith) in
      (t, rw (got, search_queue) (ground (arith, run)), held ∙ append_assoc ys (x ∷ []) xs)

  -- No queue of the list holds the block.
  abbrev pub Absent : ℕ → List Queue → Type 0
  Absent b [] = Unit
  Absent b (s ∷ rest) = (count b (contents s) ≡ 0) × Absent b rest

  search_passes_whole :
      (b : ℕ) (s : Queue)
      → count b (contents s) ≡ 0
      → (t : Queue) × (search_queue q b (size s) s ≡ passed t) × (contents t ≡ contents s)
  search_passes_whole b s c =
      rw size_lem (search_passes b (contents s) [] s (sym (append-nil (contents s))) c)

  remove_from_missing :
      (b : ℕ) (qs : List Queue)
      → Absent b qs
      → ((remove_from q b qs).0 ≡ err block_not_found)
        × (map contents (remove_from q b qs).1 ≡ map contents qs)
  unfolding remove_from
  remove_from_missing b [] absent = (refl, refl)
  remove_from_missing b (s ∷ rest) absent =
      let (t, run, held) = search_passes_whole b s absent.0 in
      let (fails, kept) = remove_from_missing b rest absent.1 in
      rw (run, remove_from) (fails, ap₂ ◌∷◌ held kept)

  remove_from_present :
      (b : ℕ) (before : List Queue) (s : Queue) (after : List Queue) (xs ys : List ℕ)
      → Absent b before
      → contents s ≡ xs ++ (b ∷ ys)
      → count b xs ≡ 0
      → ((remove_from q b (before ++ (s ∷ after))).0 ≡ ok tt)
        × (map contents (remove_from q b (before ++ (s ∷ after))).1
            ≡ map contents before ++ ((ys ++ xs) ∷ map contents after))
  unfolding remove_from
  remove_from_present b [] s after xs ys absent e c =
      let fits : length xs < size s =
        omega (arith, size_lem s, ap length e, length-append xs (b ∷ ys)) in
      let (t, run, held) = search_finds b xs ys (size s) s e c fits in
      rw (run, remove_from) (refl, ap (λ h. h ∷ map contents after) held)
  remove_from_present b (r ∷ before) s after xs ys absent e c =
      let (t, run, held) = search_passes_whole b r absent.0 in
      let (done, kept) = remove_from_present b before s after xs ys absent.1 e c in
      rw (run, remove_from) (done, ap₂ ◌∷◌ held kept)

  -- A block that no queue holds is reported, and every queue keeps its entries in their order.
  pub remove_block_missing :
      (b : ℕ) (s : RoundRobin q)
      → Absent b s.queues
      → ((remove_block q b s).0 ≡ err block_not_found)
        × (map contents (remove_block q b s).1.queues ≡ map contents s.queues)
  unfolding remove_block
  remove_block_missing b s absent = remove_from_missing b s.queues absent

  -- A block that a queue holds is removed once: its first entry in the first queue that holds it. In
  -- that queue, what stood before it now stands at the end; all other queues keep their entries in
  -- their order.
  pub remove_block_present :
      (b : ℕ) (s : RoundRobin q) (before : List Queue) (r : Queue) (after : List Queue)
      (xs ys : List ℕ)
      → s.queues ≡ before ++ (r ∷ after)
      → Absent b before
      → contents r ≡ xs ++ (b ∷ ys)
      → count b xs ≡ 0
      → ((remove_block q b s).0 ≡ ok tt)
        × (map contents (remove_block q b s).1.queues
            ≡ map contents before ++ ((ys ++ xs) ∷ map contents after))
  unfolding remove_block
  remove_block_present b s before r after xs ys split absent e c =
      rw (split, remove_block) (remove_from_present b before r after xs ys absent e c)
