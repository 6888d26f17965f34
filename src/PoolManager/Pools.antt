-- ===== src/PoolManager/Pools.antt =====
-- core/scheduler/PoolManager.hpp: pools by name.
use Prim.Native.String.{String}
use text.Mathlib.Text.{◌==◌ as str_eq}
use dstreamon.Base.{
  ℕ, ◌≡◌, ◌≢◌, refl, false, List, [], ◌∷◌, none, some, ok, arith, if◌then◌else◌, inl, inr,
  Result-cases,
}
use dstreamon.Assoc.{find, put, find-put}
use dstreamon.Scheduler.{Policy}
use dstreamon.ThreadPool.{create}
use dstreamon.PoolManager.{Pools, PoolNode, is_empty, no_core, read_cores, create_pool}

abbrev pub AllCores : List ℕ → Type 0
AllCores [] = Unit
AllCores (c ∷ cs) = (c ≢ no_core) × AllCores cs

read_cores-ok : (cs : List ℕ) → AllCores cs → read_cores cs ≡ ok cs
unfolding read_cores
read_cores-ok [] h = refl
read_cores-ok (c ∷ cs) h = ground (arith, read_cores-ok cs h.1)

read_cores_needs : (cs : List ℕ) {r : List ℕ} → read_cores cs ≡ ok r → AllCores cs
unfolding read_cores
read_cores_needs [] e = tt
read_cores_needs (c ∷ cs) e = elim (Result-cases (read_cores cs)) [
  | inl (x, f) ↦ absurd (ground (arith, f))
  | inr (x, f) ↦ (ground (arith, f), read_cores_needs cs f)
]

module _ (p : Policy) where
  -- A pool with a name, threads and readable cores, whose name is new, is created; a lookup finds it
  -- under its name, and finds what it found before under any other.
  pub find-create_pool :
      (n : PoolNode) (m : Pools p) (k : String)
      → is_empty n.id ≡ false
      → n.num_threads ≢ 0
      → AllCores n.cores
      → find n.id m ≡ none
      → (m' : Pools p) × (create_pool p n m ≡ ok m')
        × (find k m' ≡ (if str_eq n.id k then some (create p n.num_threads n.cores) else find k m))
  unfolding create_pool
  find-create_pool n m k named threads cores new = (
    put n.id (create p n.num_threads n.cores) m,
    rw (named, read_cores-ok n.cores cores) (rw new (ground arith)),
    find-put n.id k (create p n.num_threads n.cores) m,
  )

  -- A pool is only created if its element has a name, a number of threads other than zero and cores
  -- that can be read, and no pool has its name.
  pub create_pool_needs :
      (n : PoolNode) (m m' : Pools p)
      → create_pool p n m ≡ ok m'
      → (is_empty n.id ≡ false) × (n.num_threads ≢ 0) × AllCores n.cores × (find n.id m ≡ none)
  unfolding create_pool
  create_pool_needs n m m' e = elim (Result-cases (read_cores n.cores)) [
    | inl (x, f) ↦ absurd (ground (arith, f))
    | inr (x, f) ↦
        (ground (arith, f), ground (arith, f), read_cores_needs n.cores f, ground (arith, f))
  ]
