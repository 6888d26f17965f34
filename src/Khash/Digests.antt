-- ===== src/Khash/Digests.antt =====
-- lib/hash/khash.cpp: the digests in `msgdig`, and what a hash object keeps from call to call.
use mathlib.Core.Path.{fun_ext}
use dstreamon.Base.{
  ℕ, zero, suc, ◌-◌, ◌*◌, ◌≤◌, ◌≡◌, refl, sym, ap, ◌∙◌, List, [], ◌∷◌, ◌++◌, arith, length, get_or,
  take, drop,
}
use dstreamon.Khash.{Khash, compute}

-- What is written over the bytes from an index on; what does not fit, which C++ leaves open, is lost.
unfoldable pub overwrite : List ℕ → List ℕ → List ℕ
overwrite [] m = m
overwrite (b ∷ bs) [] = []
overwrite (b ∷ bs) (c ∷ m) = b ∷ overwrite bs m

unfoldable pub put_at : ℕ → List ℕ → List ℕ → List ℕ
unfolding overwrite
put_at zero bs m = overwrite bs m
put_at (suc n) bs [] = []
put_at (suc n) bs (c ∷ m) = c ∷ put_at n bs m

-- `sha bytes` is what `hash->compute` writes for the bytes it is given.
module _ (sha : List ℕ → List ℕ) where
  -- The loop over the digests from `i` on: each is that of `len` bytes from the digest before on,
  -- where `len` is the length of the key. A read behind the array, which C++ leaves open, ends with it.
  unfoldable pub rehash_each : ℕ → ℕ → ℕ → ℕ → List ℕ → List ℕ
  unfolding put_at
  rehash_each zero i diglen len m = m
  rehash_each (suc n) i diglen len m =
      rehash_each n (suc i) diglen len
        (put_at (i * diglen) (sha (take len (drop ((i - 1) * diglen) m))) m)

  -- What `msgdig` holds after `compute` of a key, from what it held before.
  unfoldable pub digest : Khash → List ℕ → List ℕ → List ℕ
  unfolding put_at rehash_each
  digest h key m = rehash_each (h.hashtodo - 1) 1 h.hashdiglen (length key) (put_at 0 (sha key) m)

  -- `H(i)` after `compute` of a key, where `msgdig` held `m` before.
  unfoldable pub value : Khash → List ℕ → List ℕ → ℕ → ℕ
  unfolding digest compute
  value h m key i = get_or (compute h (digest h key m)) i 0

  -- One digest has all the bits that are needed, and `m` has room for it.
  pub record HasOneDigest (h : Khash) (m : List ℕ) : Type 0 where
    pub one : h.hashtodo ≡ 1
    pub sized : (key : List ℕ) → length (sha key) ≡ h.hashdiglen
    pub room : h.hashdiglen ≤ length m

  overwrite_all : (bs m : List ℕ) → length bs ≤ length m → overwrite bs m ≡ bs ++ drop (length bs) m
  unfolding overwrite
  overwrite_all [] m le = refl
  overwrite_all (b ∷ bs) [] le = absurd (omega arith)
  overwrite_all (b ∷ bs) (c ∷ m) le = ap (◌∷◌ b) (overwrite_all bs m (omega arith))

  length-overwrite : (bs m : List ℕ) → length (overwrite bs m) ≡ length m
  unfolding overwrite
  length-overwrite [] m = refl
  length-overwrite (b ∷ bs) [] = refl
  length-overwrite (b ∷ bs) (c ∷ m) = ap suc (length-overwrite bs m)

  drop-append : (bs m : List ℕ) → drop (length bs) (bs ++ m) ≡ m
  drop-append [] m = refl
  drop-append (b ∷ bs) m = drop-append bs m

  -- The digest of the key stands before bytes that are never written.
  digest_one :
      (h : Khash) (key m : List ℕ)
      → HasOneDigest h m
      → digest h key m ≡ sha key ++ drop h.hashdiglen m
  unfolding digest
  digest_one h key m good = rw good.one (
      overwrite_all (sha key) m (omega (arith, good.sized key, good.room))
      ∙ ap (λ n. sha key ++ drop n m) (good.sized key))

  pub HasOneDigest-digest :
      (h : Khash) (key m : List ℕ) → HasOneDigest h m → HasOneDigest h (digest h key m)
  unfolding digest
  HasOneDigest-digest h key m good = record {
    one = good.one;
    sized = good.sized;
    room = rw good.one (omega (arith, length-overwrite (sha key) m, good.room));
  }

  tail-digest :
      (h : Khash) (key m : List ℕ)
      → HasOneDigest h m
      → drop h.hashdiglen (digest h key m) ≡ drop h.hashdiglen m
  tail-digest h key m good =
      ap (drop h.hashdiglen) (digest_one h key m good)
      ∙ (ap (λ n. drop n (sha key ++ drop h.hashdiglen m)) (sym (good.sized key))
          ∙ drop-append (sha key) (drop h.hashdiglen m))

  -- Where one digest is enough, no call changes the hash values that later calls give.
  pub value-digest :
      (h : Khash) (key m : List ℕ) → HasOneDigest h m → value h (digest h key m) ≡ value h m
  unfolding value
  value-digest h key m good = fun_ext (λ k. fun_ext (λ i.
      ap (λ d. get_or (compute h d) i 0)
        (digest_one h k (digest h key m) (HasOneDigest-digest h key m good)
          ∙ (ap (λ t. sha k ++ t) (tail-digest h key m good) ∙ sym (digest_one h k m good)))))
