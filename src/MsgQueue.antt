-- ===== src/MsgQueue.antt =====
-- core/block/MpMcQueue.hpp: a locked list of shared pointers, here the addresses of their objects.
-- Each method runs under the queue's mutex, so calls are atomic.
use dstreamon.Base.{
  ℕ, ◌+◌, ◌≡◌, List, [], ◌∷◌, ◌++◌, Option, none, some, arith, ◌==◌, if◌then◌else◌,
}

-- `m_queue`, oldest first.
abbrev pub MsgQueue : Type 0
MsgQueue = List ℕ

-- `pop`: the null pointer is `none`.
unfoldable pub pop : MsgQueue → Option ℕ × MsgQueue
pop [] = (none, [])
pop (x ∷ q) = (some x, q)

-- `remove`: every entry with the given address goes.
unfoldable pub remove : ℕ → MsgQueue → MsgQueue
remove a [] = []
remove a (x ∷ q) = let rest = remove a q in if x == a then rest else x ∷ rest

unfoldable pub push : ℕ → MsgQueue → MsgQueue
push x q = q ++ x ∷ []

-- How often an address is in the queue.
abbrev pub same : ℕ → ℕ → ℕ
same x y = if x == y then 1 else 0

unfoldable pub count : ℕ → MsgQueue → ℕ
count a [] = 0
count a (x ∷ q) = same x a + count a q

pub count-append : (a : ℕ) (xs ys : MsgQueue) → count a (xs ++ ys) ≡ count a xs + count a ys
unfolding count
count-append a [] ys = omega arith
count-append a (x ∷ xs) ys = omega (arith, count-append a xs ys)

pub count-push : (a x : ℕ) (q : MsgQueue) → count a (push x q) ≡ count a q + same x a
unfolding push count
count-push a x q = omega (arith, count-append a q (x ∷ []))

pub count-remove :
    (a b : ℕ) (q : MsgQueue) → count a (remove b q) ≡ (if a == b then 0 else count a q)
unfolding remove count
count-remove a b [] = ground arith
count-remove a b (x ∷ q) = ground (arith, count-remove a b q)
