-- ===== src/Bloom/Insertion.antt =====
-- lib/bloom/bloom.cpp: `set_bits` and `check_bits`, and the count of zeros.
use native.Mathlib.Nat.{pow-le-pow_right}
use dstreamon.Base.{
  ℕ, zero, suc, ◌+◌, ◌-◌, ◌*◌, ◌%◌, ◌^◌, ◌≤◌, ◌<◌, ◌≡◌, refl, sym, ap, ◌∙◌, Bool, true, false, not,
  List, [], ◌∷◌, ok, ◌>>=◌, arith, ◌==◌, length, inl, inr, Bool-cases, subst, ap₂,
}
use dstreamon.BitFields.{AllWords, pow_add}
use dstreamon.MultiHash.{split}
use dstreamon.MultiHash.Runs.{Agree, Bounded, split-Alike}
use dstreamon.Bloom.{
  Bloom, check_each, insert_values, check_values, values_from, mmax_arr, mmax, set_bits, check_bits,
}
use dstreamon.Bloom.Marks.{AllBytes, ones}
use dstreamon.Bloom.Membership.{
  AllIn, AllMarked, Marked, mark_each-Marked, check_each-AllMarked, check_each_needs,
  check_each-mark_each, AllMarked-mono,
}

-- The array has its size, and the count is that of the clear bits. Filters of less than eight bits are
-- left out.
pub record InOrder (s : Bloom) : Type 0 where
  pub large : 3 ≤ s.hasher.shash
  pub small : s.hasher.shash < 32
  pub res_sized : length s.res ≡ suc s.hasher.nhash
  pub sized : length s.m ≡ mmax_arr s.hasher.shash
  pub bytes : AllBytes s.m
  pub zeros : ones s.m + s.num_zeros ≡ mmax s.hasher.shash

-- Eight bits to a byte.
pub mmax-mmax_arr : (shash : ℕ) → 3 ≤ shash → mmax shash ≡ 8 * mmax_arr shash
mmax-mmax_arr shash large =
    let arr : mmax_arr shash ≡ 2 ^ (shash - 3) = ground (arith, large) in
    let e : shash ≡ 3 + (shash - 3) = omega (arith, large) in
    ap (λ k. 2 ^ k) e ∙ (pow_add 3 (shash - 3) ∙ omega (arith, arr))

ones-le : (m : List ℕ) → ones m ≤ 8 * length m
unfolding ones
ones-le [] = omega arith
ones-le (b ∷ m) = omega (arith, ones-le m)

AllIn-values_from :
    (shash n i : ℕ) (res : List ℕ)
    → 3 ≤ shash
    → 0 < i
    → Bounded (mmax shash) (n + i) res
    → AllIn (mmax_arr shash) (values_from n i res)
AllIn-values_from shash zero i res large some_i all = tt
AllIn-values_from shash (suc n) i res large some_i all = (
  omega (arith, mmax-mmax_arr shash large, all i some_i (omega arith)),
  AllIn-values_from shash n (suc i) res large (omega arith)
      (λ j some_j lt. all j some_j (omega (arith, lt))),
)

values_from-Agree :
    (n i : ℕ) (a b : List ℕ) → 0 < i → Agree (n + i) a b → values_from n i a ≡ values_from n i b
values_from-Agree zero i a b some_i same = refl
values_from-Agree (suc n) i a b some_i same =
    ap₂ (λ v vs. v ∷ vs) (same i some_i (omega arith))
      (values_from-Agree n (suc i) a b (omega arith)
        (λ j some_j lt. same j some_j (omega (arith, lt))))

-- Digests of six words.
abbrev pub SixWords : List ℕ → Type 0
SixWords bits = AllWords bits × (length bits ≡ 6)

-- The values of a digest, on any array.
values_lem :
    (s : Bloom) (bits res b : List ℕ)
    → InOrder s
    → SixWords bits
    → split s.hasher bits s.res ≡ ok res
    → length b ≡ suc s.hasher.nhash
    → AllIn (mmax_arr s.hasher.shash) (values_from s.hasher.nhash 1 res)
      × (length res ≡ suc s.hasher.nhash)
      × ((res' : List ℕ) × (split s.hasher bits b ≡ ok res')
          × (values_from s.hasher.nhash 1 res' ≡ values_from s.hasher.nhash 1 res))
values_lem s bits res b good six run len =
    let n = s.hasher.nhash in
    let next : n + 1 ≡ suc n = omega arith in
    elim (split-Alike s.hasher bits s.res b (omega (arith, good.large)) good.small six.0 six.1
      good.res_sized len) [
        | inl (e, fails, _) ↦ absurd (ground (arith, fails, run))
        | inr (x, y, left, right, same, all, sized) ↦
            let e : x ≡ res = ground (arith, left, run) in
            (
              subst (λ r. AllIn (mmax_arr s.hasher.shash) (values_from n 1 r)) e
                  (AllIn-values_from s.hasher.shash n 1 x good.large (omega arith)
                    (λ i some_i lt. all i some_i (omega (arith, lt)))),
              ap length (sym e) ∙ sized,
              (
                y,
                right,
                sym (
                      values_from-Agree n 1 x y (omega arith)
                        (λ i some_i lt. same i some_i (omega (arith, lt))))
                    ∙ ap (values_from n 1) e,
              ),
            )
      ]

-- What an insertion of values leaves.
abbrev after : Bloom → List ℕ → List ℕ × ℕ → Bloom
after s res r = record s { res = res; m = r.0; num_zeros = s.num_zeros - r.1 }

InOrder-after :
    (s : Bloom) (res vs : List ℕ) (r : List ℕ × ℕ)
    → InOrder s
    → length res ≡ suc s.hasher.nhash
    → Marked vs s.m 0 r
    → (r.1 ≤ s.num_zeros) × InOrder (after s res r)
InOrder-after s res vs r good len done =
    let most = ones-le r.0 in
    let size = mmax-mmax_arr s.hasher.shash good.large in
    let fits : r.1 ≤ s.num_zeros =
      omega (arith, most, size, done.sized, good.sized, done.counted, good.zeros) in
    (
      fits,
      record {
        large = good.large;
        small = good.small;
        res_sized = len;
        sized = done.sized ∙ good.sized;
        bytes = done.bytes;
        zeros = omega (arith, fits, done.counted, good.zeros);
      },
    )

-- The zeros fit the unsigned counter.
zeros_small : (s : Bloom) → InOrder s → s.num_zeros < 2 ^ 32
zeros_small s good =
    let below : s.hasher.shash ≤ 31 = omega (arith, good.small) in
    let top : 2 ^ s.hasher.shash ≤ 2 ^ 31 = pow-le-pow_right (omega arith) below in
    omega (arith, top, good.zeros)

insert_values_lem :
    (s : Bloom) (res : List ℕ)
    → InOrder s
    → length res ≡ suc s.hasher.nhash
    → AllIn (mmax_arr s.hasher.shash) (values_from s.hasher.nhash 1 res)
    → (r : List ℕ × ℕ) × (insert_values s res ≡ ok (not (r.1 == 0), after s res r))
      × Marked (values_from s.hasher.nhash 1 res) s.m 0 r
      × (check_values s res ≡ ok (r.1 == 0))
unfolding insert_values check_values
insert_values_lem s res good len all =
    let vs = values_from s.hasher.nhash 1 res in
    let size = mmax_arr s.hasher.shash in
    let (r, run, done) = mark_each-Marked size vs s.m 0 good.bytes good.sized all in
    let (fits, _) = InOrder-after s res vs r good len done in
    let answer = check_each-mark_each size vs s.m 0 r good.bytes good.sized all run in
    let small = zeros_small s good in
    let wrapped : (s.num_zeros + 2 ^ 32 - r.1) % 2 ^ 32 ≡ s.num_zeros - r.1 =
      omega (arith, fits, small) in
    elim (Bool-cases (r.1 == 0)) [
      | inl none_new ↦
          let same : s.num_zeros ≡ s.num_zeros - r.1 = ground (arith, none_new) in
          (
            r,
            rw (run, insert_values)
                (rw none_new
                  (ap (λ z. ok (false, record s { res = res; m = r.0; num_zeros = z })) same)),
            done,
            answer,
          )
      | inr some_new ↦ (
        r,
        rw (run, insert_values)
            (rw some_new
              (ap (λ z. ok (true, record s { res = res; m = r.0; num_zeros = z })) wrapped)),
        done,
        answer,
      )
    ]

-- `set_bits` on a filter in order, with a digest of six words that `split` cuts up: it returns
-- whether `check_bits` said no before, `check_bits` says yes after it, and the filter is in order
-- again: its array has its size, and its count is the number of its clear bits.
pub check_bits-set_bits :
    (s : Bloom) (bits res : List ℕ)
    → InOrder s
    → SixWords bits
    → split s.hasher bits s.res ≡ ok res
    → (new : Bool) × (s' : Bloom) × (set_bits bits s ≡ ok (new, s'))
      × (check_bits bits s ≡ ok (not new))
      × (check_bits bits s' ≡ ok true)
      × InOrder s'
unfolding set_bits check_bits check_values
check_bits-set_bits s bits res good six run =
    let n = s.hasher.nhash in
    let size = mmax_arr s.hasher.shash in
    let (all, len, _) = values_lem s bits res s.res good six run good.res_sized in
    let (_, _, (res', again, same)) = values_lem s bits res res good six run len in
    let (r, ran, done, answer) = insert_values_lem s res good len all in
    let vs = values_from n 1 res in
    let (_, ordered) = InOrder-after s res vs r good len done in
    let present : check_each size (values_from n 1 res') r.0 ≡ ok true =
      ap (λ l. check_each size l r.0) same
      ∙ check_each-AllMarked size vs r.0 done.bytes all done.marked in
    (
      not (r.1 == 0),
      after s res r,
      rw (run, ◌>>=◌) ran,
      rw (run, ◌>>=◌) (answer ∙ ap ok (ground arith)),
      rw (again, ◌>>=◌) present,
      ordered,
    )

-- Where `set_bits` succeeds, whatever `check_bits` found in the filter before, it finds after it.
pub set_bits_keeps :
    (s s' : Bloom) (bits res other res' : List ℕ) (new : Bool)
    → InOrder s
    → SixWords bits
    → SixWords other
    → split s.hasher bits s.res ≡ ok res
    → split s.hasher other s.res ≡ ok res'
    → set_bits bits s ≡ ok (new, s')
    → check_bits other s ≡ ok true
    → check_bits other s' ≡ ok true
unfolding set_bits check_bits check_values
set_bits_keeps s s' bits res other res' new good six six' run run' ran present =
    let n = s.hasher.nhash in
    let size = mmax_arr s.hasher.shash in
    let (all, len, _) = values_lem s bits res s.res good six run good.res_sized in
    let (all', _, (res'', again, same)) = values_lem s other res' res good six' run' len in
    let (r, went, done, _) = insert_values_lem s res good len all in
    let vs = values_from n 1 res' in
    let before : check_each size vs s.m ≡ ok true = rw (run', ◌>>=◌) at present in
    let marked : AllMarked vs r.0 =
      AllMarked-mono vs s.m r.0 done.kept (check_each_needs size vs s.m good.bytes before) in
    let went' : set_bits bits s ≡ ok (not (r.1 == 0), after s res r) = rw (run, ◌>>=◌) went in
    let state : s' ≡ after s res r = ground (arith, went', ran) in
    rw state (
      rw (again, ◌>>=◌)
        (ap (λ l. check_each size l r.0) same
          ∙ check_each-AllMarked size vs r.0 done.bytes all' marked))
