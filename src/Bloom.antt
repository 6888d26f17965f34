-- ===== src/Bloom.antt =====
-- lib/bloom/bloom.cpp: a Bloom filter over the bits of an array of bytes.
pub mod Bits
pub mod Marks
pub mod Membership
pub mod Insertion
pub mod Serial
pub mod Tests
use Prim.Native.Nat.{bit_and, bit_or}
use dstreamon.Base.{
  ℕ, zero, suc, ◌+◌, ◌-◌, ◌*◌, ◌/◌, ◌%◌, ◌^◌, Bool, true, false, ◌||◌, List, [], ◌∷◌, ◌++◌, Option,
  none, some, Result, ok, err, ◌>>=◌, ltb, leb, ◌==◌, if◌then◌else◌, get_or, set, length, take,
  drop, replicate,
}
use dstreamon.MultiHash
use dstreamon.MultiHash.{Hasher, Fault, assertion_failed, split, compute}

-- `res` is the result array of the base class.
pub record Bloom : Type 0 where
  pub hasher : Hasher
  pub res : List ℕ
  pub m : List ℕ
  pub num_zeros : ℕ

abbrev pub mmax : ℕ → ℕ
mmax shash = 2 ^ shash

abbrev pub mmax_arr : ℕ → ℕ
mmax_arr shash = if ltb shash 3 then 1 else 2 ^ (shash - 3)

abbrev pub clean : Hasher → List ℕ → Bloom
clean h res = record {
  hasher = h;
  res = res;
  m = replicate (mmax_arr h.shash) 0;
  num_zeros = mmax h.shash;
}

-- What the array of the base class holds at first is unknown, hence a parameter.
unfoldable pub create : ℕ → ℕ → Bool → List ℕ → Result Fault Bloom
create nhash shash norep res = MultiHash.create nhash shash norep >>= λ h. ok (clean h res)

unfoldable pub clear : Bloom → Bloom
clear s = clean s.hasher s.res

-- `H(i)`, ..., `H(i + n - 1)`
abbrev pub values_from : ℕ → ℕ → List ℕ → List ℕ
values_from zero i res = []
values_from (suc n) i res = get_or res i 0 ∷ values_from n (suc i) res

-- The byte of a hash value, and the bit in it.
abbrev pub byte_of : List ℕ → ℕ → ℕ
byte_of m v = get_or m (v / 8) 0

abbrev pub bit_of : ℕ → ℕ
bit_of v = 2 ^ (v % 8)

abbrev pub is_clear : List ℕ → ℕ → Bool
is_clear m v = bit_and (byte_of m v) (bit_of v) == 0

unfoldable pub mark_one : ℕ → List ℕ → List ℕ
mark_one v m = if is_clear m v then set m (v / 8) (bit_or (byte_of m v) (bit_of v)) else m

-- The loop of `insert` and of `set_bits`, with the count `extra_ones`.
unfoldable pub mark_each : ℕ → List ℕ → List ℕ → ℕ → Result Fault (List ℕ × ℕ)
unfolding mark_one
mark_each size [] m extra_ones = ok (m, extra_ones)
mark_each size (v ∷ vs) m extra_ones =
    let rest =
      mark_each size vs (mark_one v m) (if is_clear m v then extra_ones + 1 else extra_ones) in
    if ltb (v / 8) size then rest else err assertion_failed

-- The loop of `check` and of `check_bits`.
unfoldable pub check_each : ℕ → List ℕ → List ℕ → Result Fault Bool
check_each size [] m = ok true
check_each size (v ∷ vs) m =
    let rest = check_each size vs m in
    if ltb (v / 8) size then (if is_clear m v then ok false else rest) else err assertion_failed

-- What follows the computation of the hash values. `num_zeros` is unsigned.
unfoldable pub insert_values : Bloom → List ℕ → Result Fault (Bool × Bloom)
unfolding mark_each
insert_values s res =
    elim (mark_each (mmax_arr s.hasher.shash) (values_from s.hasher.nhash 1 res) s.m 0) [
      | err e ↦ err e
      | ok (m, extra_ones) ↦
          if extra_ones == 0
          then ok (false, record s { res = res; m = m })
          else ok (
            true,
            record s { res = res; m = m; num_zeros = (s.num_zeros + 2 ^ 32 - extra_ones) % 2 ^ 32 },
          )
    ]

unfoldable pub check_values : Bloom → List ℕ → Result Fault Bool
unfolding check_each
check_values s res = check_each (mmax_arr s.hasher.shash) (values_from s.hasher.nhash 1 res) s.m

unfoldable pub set_bits : List ℕ → Bloom → Result Fault (Bool × Bloom)
unfolding insert_values
set_bits bits s = split s.hasher bits s.res >>= insert_values s

unfoldable pub check_bits : List ℕ → Bloom → Result Fault Bool
unfolding check_values
check_bits bits s = split s.hasher bits s.res >>= check_values s

module _ {Key : Type 0} (rehash : Key → List ℕ → List ℕ) (fuel : ℕ) where
  unfoldable pub insert : Key → ℕ → Bloom → Result Fault (Bool × Bloom)
  unfolding insert_values
  insert key len s = compute rehash fuel s.hasher key len s.res >>= insert_values s

  unfoldable pub check : Key → ℕ → Bloom → Result Fault Bool
  unfolding check_values
  check key len s = compute rehash fuel s.hasher key len s.res >>= check_values s

-- The four bytes of an `int`, least byte first, and the `int` of four bytes.
abbrev pub int_bytes : ℕ → List ℕ
int_bytes n = n % 256 ∷ (n / 256 % 256 ∷ (n / 65536 % 256 ∷ (n / 16777216 % 256 ∷ [])))

abbrev pub int_at : List ℕ → ℕ → ℕ
int_at b i =
    get_or b i 0
    + (get_or b (i + 1) 0 * 256 + (get_or b (i + 2) 0 * 65536 + get_or b (i + 3) 0 * 16777216))

-- The bytes written, or none where the code returns -1.
unfoldable pub serialize : ℕ → Bloom → Option (List ℕ)
serialize max_len s =
    if ltb max_len (mmax_arr s.hasher.shash + 8)
    then none
    else some (
        int_bytes s.hasher.nhash
        ++ (int_bytes s.hasher.shash ++ take (mmax_arr s.hasher.shash) s.m))

-- `memcpy` to the start of an array.
abbrev pub copy_to : List ℕ → List ℕ → List ℕ
copy_to bytes m = bytes ++ drop (length bytes) m

-- `(1 << shash)/8` as a `size_t`; `1 << 31` is the least `int`.
abbrev pub memory_size : ℕ → ℕ
memory_size shash = if shash == 31 then 2 ^ 64 - 2 ^ 28 else 2 ^ shash / 8

-- `deserialize` once it has read the two numbers. A null pointer is `none`. A negative number in the
-- buffer, and a shift by more than 31, are taken as the failed assertion of the constructor.
unfoldable pub read_filter : ℕ → ℕ → List ℕ → List ℕ → Result Fault (Option Bloom)
unfolding create
read_filter nhash shash buffer res =
    if leb (2 ^ 31) nhash || leb 32 shash
    then err assertion_failed
    else if ltb (length buffer - 8) (memory_size shash)
    then ok none
    else create nhash shash true res >>= λ bf.
        ok (some (record bf { m = copy_to (take (memory_size shash) (drop 8 buffer)) bf.m }))

unfoldable pub deserialize : List ℕ → List ℕ → Result Fault (Option Bloom)
unfolding read_filter
deserialize buffer res =
    if ltb (length buffer) 8
    then ok none
    else read_filter (int_at buffer 0) (int_at buffer 4) buffer res
