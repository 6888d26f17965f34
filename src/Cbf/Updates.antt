-- ===== src/Cbf/Updates.antt =====
-- lib/lib_botstream/cbf.cpp: what an update does to the counters, and so to the estimates.
use dstreamon.Base.{
  ℕ, zero, suc, ◌+◌, ◌≤◌, ◌<◌, ◌≡◌, refl, ◌∙◌, List, [], ◌∷◌, arith, length, max, ltb, ◌==◌,
  if◌then◌else◌, set, length-set, inl, inr, Bool-cases,
}
use dstreamon.Cbf.{count_at, least_count, raise_equal, raise_below, smaller}

-- Every index is a place of the array.
abbrev pub AllPlaces : List ℕ → List ℕ → Type 0
AllPlaces [] c = Unit
AllPlaces (k ∷ ks) c = (k < length c) × AllPlaces ks c

abbrev pub AllAtLeast : ℕ → List ℕ → List ℕ → Type 0
AllAtLeast v [] c = Unit
AllAtLeast v (k ∷ ks) c = (v ≤ count_at c k) × AllAtLeast v ks c

pub count_at-set :
    (c : List ℕ) (k v j : ℕ)
    → k < length c
    → count_at (set c k v) j ≡ (if k == j then v else count_at c j)
count_at-set [] k v j lt = absurd (omega arith)
count_at-set (x ∷ c) zero v zero lt = ground arith
count_at-set (x ∷ c) zero v (suc j) lt = ground arith
count_at-set (x ∷ c) (suc k) v zero lt = ground arith
count_at-set (x ∷ c) (suc k) v (suc j) lt = count_at-set c k v j (omega arith) ∙ ground arith

-- The least counter is at least a bound of all, and of the start.
pub least_count-ge :
    (v : ℕ) (ks c : List ℕ) (x : ℕ) → AllAtLeast v ks c → v ≤ x → v ≤ least_count ks c x
unfolding least_count
least_count-ge v [] c x all le = le
least_count-ge v (k ∷ ks) c x all le =
    least_count-ge v ks c (smaller (count_at c k) x) all.1 (ground (arith, all.0))

-- Where no counter exceeds the larger of its old value and `v`, neither does the least.
pub least_count-le :
    (v : ℕ) (ks c c' : List ℕ) (x x' : ℕ)
    → ((j : ℕ) → count_at c' j ≤ max (count_at c j) v)
    → x' ≤ max x v
    → least_count ks c' x' ≤ max (least_count ks c x) v
unfolding least_count
least_count-le v [] c c' x x' all le = le
least_count-le v (k ∷ ks) c c' x x' all le =
    least_count-le v ks c c' (smaller (count_at c k) x) (smaller (count_at c' k) x') all
      (ground (arith, all k))

-- More in the counters is more in the least counter.
pub least_count_mono :
    (ks c c' : List ℕ) (x x' : ℕ)
    → ((j : ℕ) → count_at c j ≤ count_at c' j)
    → x ≤ x'
    → least_count ks c x ≤ least_count ks c' x'
unfolding least_count
least_count_mono [] c c' x x' all le = le
least_count_mono (k ∷ ks) c c' x x' all le =
    least_count_mono ks c c' (smaller (count_at c k) x) (smaller (count_at c' k) x') all
      (ground (arith, all k))

pub least_count-start : (ks c : List ℕ) (x : ℕ) → least_count ks c x ≤ x
unfolding least_count
least_count-start [] c x = omega arith
least_count-start (k ∷ ks) c x = ground (arith, least_count-start ks c (smaller (count_at c k) x))

pub least_count-all : (ks c : List ℕ) (x : ℕ) → AllAtLeast (least_count ks c x) ks c
unfolding least_count
least_count-all [] c x = tt
least_count-all (k ∷ ks) c x = (
  ground (arith, least_count-start ks c (smaller (count_at c k) x)),
  least_count-all ks c (smaller (count_at c k) x),
)

AllPlaces-set : (ks c : List ℕ) (k v : ℕ) → AllPlaces ks c → AllPlaces ks (set c k v)
AllPlaces-set [] c k v all = tt
AllPlaces-set (j ∷ ks) c k v all =
    (omega (arith, all.0, length-set c k v), AllPlaces-set ks c k v all.1)

-- One step of either loop.
abbrev raise_one : ℕ → ℕ → List ℕ → List ℕ
raise_one v k c = if ltb (count_at c k) v then set c k v else c

count_at-raise_one :
    (v k j : ℕ) (c : List ℕ)
    → k < length c
    → count_at (raise_one v k c) j ≡ (if k == j then max (count_at c j) v else count_at c j)
count_at-raise_one v k j c lt = elim (Bool-cases (ltb (count_at c k) v)) [
  | inl less ↦ rw less (count_at-set c k v j lt ∙ ground arith)
  | inr more ↦ rw more (ground arith)
]

AllPlaces-raise_one : (ks c : List ℕ) (k v : ℕ) → AllPlaces ks c → AllPlaces ks (raise_one v k c)
AllPlaces-raise_one ks c k v all = elim (Bool-cases (ltb (count_at c k) v)) [
  | inl less ↦ rw less (AllPlaces-set ks c k v all)
  | inr more ↦ rw more all
]

-- The loop raises counters, and none beyond `v`.
pub count_at-raise_below :
    (v : ℕ) (ks c : List ℕ) (j : ℕ)
    → AllPlaces ks c
    → (count_at c j ≤ count_at (raise_below v ks c) j)
      × (count_at (raise_below v ks c) j ≤ max (count_at c j) v)
unfolding raise_below
count_at-raise_below v [] c j all = (omega arith, omega arith)
count_at-raise_below v (k ∷ ks) c j all =
    let (more, less) =
      count_at-raise_below v ks (raise_one v k c) j (AllPlaces-raise_one ks c k v all.1) in
    let here = count_at-raise_one v k j c all.0 in
    (ground (arith, more, here), ground (arith, less, here))

-- Each counter that the loop visits is at least `v` after it.
pub AllAtLeast-raise_below :
    (v : ℕ) (ks c : List ℕ) → AllPlaces ks c → AllAtLeast v ks (raise_below v ks c)
unfolding raise_below
AllAtLeast-raise_below v [] c all = tt
AllAtLeast-raise_below v (k ∷ ks) c all =
    let next = AllPlaces-raise_one ks c k v all.1 in
    let (more, _) = count_at-raise_below v ks (raise_one v k c) k next in
    (
      ground (arith, more, count_at-raise_one v k k c all.0),
      AllAtLeast-raise_below v ks (raise_one v k c) next,
    )

AllAtLeast-raise_one :
    (x v k : ℕ) (ks c : List ℕ)
    → k < length c
    → AllAtLeast x ks c
    → AllAtLeast x ks (raise_one v k c)
AllAtLeast-raise_one x v k [] c lt all = tt
AllAtLeast-raise_one x v k (j ∷ ks) c lt all =
    (ground (arith, all.0, count_at-raise_one v k j c lt), AllAtLeast-raise_one x v k ks c lt all.1)

-- Where no counter is below `x`, to increment those at `x` is to raise all to `x + 1`.
pub raise_equal-raise_below :
    (x : ℕ) (ks c : List ℕ)
    → AllPlaces ks c
    → AllAtLeast x ks c
    → raise_equal x ks c ≡ raise_below (x + 1) ks c
unfolding raise_equal raise_below
raise_equal-raise_below x [] c all least = refl
raise_equal-raise_below x (k ∷ ks) c all least =
    let same : (if count_at c k == x then set c k (x + 1) else c) ≡ raise_one (x + 1) k c =
      ground (arith, least.0) in
    rw same (
      raise_equal-raise_below x ks (raise_one (x + 1) k c)
        (AllPlaces-raise_one ks c k (x + 1) all.1)
        (AllAtLeast-raise_one x (x + 1) k ks c all.0 least.1))

pub raise_below_done : (x : ℕ) (ks c : List ℕ) → AllAtLeast x ks c → raise_below x ks c ≡ c
unfolding raise_below
raise_below_done x [] c least = refl
raise_below_done x (k ∷ ks) c least =
    let same : raise_one x k c ≡ c = ground (arith, least.0) in
    rw same (raise_below_done x ks c least.1)

pub length-raise_equal : (x : ℕ) (ks c : List ℕ) → length (raise_equal x ks c) ≡ length c
unfolding raise_equal
length-raise_equal x [] c = refl
length-raise_equal x (k ∷ ks) c =
    length-raise_equal x ks (if count_at c k == x then set c k (x + 1) else c)
    ∙ ground (arith, length-set c k (x + 1))
