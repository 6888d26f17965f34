-- ===== src/Buffers.antt =====
-- lib/streamon/IBuffer.hpp, Buffer.cpp, HashedBuffer.cpp, ReadBuffer.hpp, HashedReadBuffer.hpp: byte
-- buffers that are the keys of the tables, with a hash that is kept.
pub mod Contents
pub mod Hashing
pub mod Keys
pub mod Tests
use dstreamon.Base.{
  ℕ, zero, suc, ◌+◌, ◌-◌, ◌*◌, ◌/◌, ◌%◌, ◌^◌, Bool, true, false, ◌&&◌, List, [], ◌∷◌, ◌++◌, Result,
  ok, err, ltb, ◌==◌, if◌then◌else◌, get_or, set, length, take, drop,
}

pub data Fault : Type 0 where
  buffer_full not_enough_data read_outside : Fault

-- `buffer_type`
pub data BufferType : Type 0 where
  unknown uint ipv4 double string : BufferType

-- The bytes of the array, as many as its size S, and how many are in use. The size is at most 65536.
pub record Buffer : Type 0 where
  pub kind : BufferType
  pub count : ℕ
  pub bytes : List ℕ

-- `Count` has 16 bits.
unfoldable pub append : List ℕ → BufferType → Buffer → Result Fault Buffer
append ptr kind b =
    if ltb (length b.bytes) (b.count + length ptr)
    then err buffer_full
    else ok (record {
      kind = kind;
      count = (b.count + length ptr) % 2 ^ 16;
      bytes = take b.count b.bytes ++ (ptr ++ drop (b.count + length ptr) b.bytes);
    })

-- `GetRawData` and `GetLength`: the bytes in use.
abbrev pub raw : Buffer → List ℕ
raw b = take b.count b.bytes

abbrev pub reset : Buffer → Buffer
reset b = record b { count = 0 }

-- Bytes of an unsigned integer, least first, and the integer of bytes.
unfoldable pub bytes_of : ℕ → ℕ → List ℕ
bytes_of zero n = []
bytes_of (suc size) n = n % 256 ∷ bytes_of size (n / 256)

unfoldable pub uint_of : List ℕ → ℕ
uint_of [] = 0
uint_of (b ∷ bs) = b + 256 * uint_of bs

-- `Get<T>` for an unsigned type of that size. The subtraction is that of an `unsigned long`; a read
-- behind the array is `read_outside`.
unfoldable pub get : ℕ → ℕ → Buffer → Result Fault ℕ
unfolding uint_of
get size offset b =
    if ltb ((b.count + 2 ^ 64 - offset) % 2 ^ 64) size
    then err not_enough_data
    else if ltb (length b.bytes) (offset + size)
    then err read_outside
    else ok (uint_of (take size (drop offset b.bytes)))

-- `operator<<` of the unsigned integers, all written as 32 bits, of a string and of another buffer.
unfoldable pub put_uint : ℕ → Buffer → Result Fault Buffer
unfolding append bytes_of
put_uint v b = append (bytes_of 4 v) uint b

unfoldable pub put_string : List ℕ → Buffer → Result Fault Buffer
unfolding append
put_string s b = append s string b

unfoldable pub put_buffer : Buffer → Buffer → Result Fault Buffer
unfolding append
put_buffer other b = append (raw other) unknown b

-- `memcmp`
unfoldable pub equal_bytes : List ℕ → List ℕ → Bool
equal_bytes [] [] = true
equal_bytes [] (y ∷ ys) = false
equal_bytes (x ∷ xs) [] = false
equal_bytes (x ∷ xs) (y ∷ ys) = x == y && equal_bytes xs ys

unfoldable pub equal : Buffer → Buffer → Bool
unfolding equal_bytes
equal a b = a.count == b.count && equal_bytes (raw a) (raw b)

-- A buffer with the seven words of its digest; the first says whether the others are up to date.
pub record HashedBuffer : Type 0 where
  pub buffer : Buffer
  pub digest : List ℕ

abbrev pub mark_stale : List ℕ → List ℕ
mark_stale digest = set digest 0 0

-- An exception of `super::append` leaves the digest marked.
unfoldable pub hashed_append :
    List ℕ → BufferType → HashedBuffer → Result Fault (Unit {0}) × HashedBuffer
unfolding append
hashed_append ptr kind h =
    let stale : HashedBuffer = record h { digest = mark_stale h.digest } in
    elim (append ptr kind h.buffer) [
      | err e ↦ (err e, stale)
      | ok b ↦ (ok tt, record stale { buffer = b })
    ]

unfoldable pub hashed_reset : HashedBuffer → HashedBuffer
hashed_reset h = record { buffer = reset h.buffer; digest = mark_stale h.digest }

-- `Buffer::Reset` is not virtual: called through a `Buffer &` it leaves the digest as it is.
unfoldable pub base_reset : HashedBuffer → HashedBuffer
base_reset h = record h { buffer = reset h.buffer }

-- `operator=`
unfoldable pub assign : HashedBuffer → HashedBuffer → Result Fault (Unit {0}) × HashedBuffer
unfolding hashed_append hashed_reset
assign other h = hashed_append (raw other.buffer) other.buffer.kind (hashed_reset h)

-- A HashedReadBuffer: bytes of a variable elsewhere. `bind` does not touch the digest.
unfoldable pub bind : List ℕ → BufferType → HashedBuffer → HashedBuffer
bind var kind h = record h {
  buffer = record { kind = kind; count = length var % 2 ^ 16; bytes = var };
}

-- The hash function is a parameter: two words from the bytes and the two words before.
module _ (hashlittle2 : List ℕ → ℕ → ℕ → ℕ × ℕ) where
  -- The digest of bytes, from the words 1 to 6 that `digest_reset` puts in place.
  unfoldable pub compute_digest : List ℕ → List ℕ
  compute_digest bytes =
      let (a, b) = hashlittle2 bytes 1 2 in
      let (c, d) = hashlittle2 bytes 3 4 in
      let (e, f) = hashlittle2 bytes 5 6 in 1 ∷ (a ∷ (b ∷ (c ∷ (d ∷ (e ∷ (f ∷ []))))))

  -- `GetHash`: the digest, computed if the first word is not 1.
  unfoldable pub get_hash : HashedBuffer → List ℕ × HashedBuffer
  unfolding compute_digest
  get_hash h =
      let fresh = compute_digest (raw h.buffer) in
      if get_or h.digest 0 0 == 1 then (h.digest, h) else (fresh, record h { digest = fresh })
