-- ===== src/Buffers/Contents.antt =====
-- lib/streamon/Buffer.cpp, IBuffer.hpp: what a buffer holds.
use dstreamon.Base.{
  ℕ, zero, suc, ◌+◌, ◌-◌, ◌/◌, ◌%◌, ◌^◌, ◌≤◌, ◌<◌, ◌≡◌, ◌⊎◌, ◌↔◌, refl, ap, ap₂, ◌∙◌, true, false,
  List, [], ◌∷◌, ◌++◌, ok, err, arith, ltb, ◌==◌, length, length-append, length-take, length-drop,
  take, drop, inl, inr, Bool-cases,
}
use dstreamon.Buffers.{
  Buffer, BufferType, uint, buffer_full, append, raw, bytes_of, uint_of, get, put_uint, equal_bytes,
  equal,
}

-- The bytes in used are in the array, and the counter can count them all.
abbrev pub InUse : Buffer → Type 0
InUse b = (b.count ≤ length b.bytes) × (length b.bytes < 2 ^ 16)

take-append : (xs ys : List ℕ) (n : ℕ) → length xs ≡ n → take n (xs ++ ys) ≡ xs
take-append [] ys zero e = refl
take-append [] ys (suc n) e = absurd (omega (arith, e))
take-append (x ∷ xs) ys zero e = absurd (omega (arith, e))
take-append (x ∷ xs) ys (suc n) e = ap (λ t. x ∷ t) (take-append xs ys n (omega (arith, e)))

drop-append : (xs ys : List ℕ) (n : ℕ) → length xs ≡ n → drop n (xs ++ ys) ≡ ys
drop-append [] ys zero e = refl
drop-append [] ys (suc n) e = absurd (omega (arith, e))
drop-append (x ∷ xs) ys zero e = absurd (omega (arith, e))
drop-append (x ∷ xs) ys (suc n) e = drop-append xs ys n (omega (arith, e))

append_assoc : (xs ys zs : List ℕ) → xs ++ (ys ++ zs) ≡ (xs ++ ys) ++ zs
append_assoc [] ys zs = refl
append_assoc (x ∷ xs) ys zs = ap (λ t. x ∷ t) (append_assoc xs ys zs)

pub length-raw : (b : Buffer) → InUse b → length (raw b) ≡ b.count
length-raw b used = omega (arith, length-take b.count b.bytes, used.0)

-- The buffer that an append with room leaves.
abbrev pub appended : List ℕ → BufferType → Buffer → Buffer
appended ptr kind b = record {
  kind = kind;
  count = b.count + length ptr;
  bytes = raw b ++ (ptr ++ drop (b.count + length ptr) b.bytes);
}

pub append_room :
    (ptr : List ℕ) (kind : BufferType) (b : Buffer)
    → InUse b
    → b.count + length ptr ≤ length b.bytes
    → append ptr kind b ≡ ok (appended ptr kind b)
unfolding append
append_room ptr kind b used room =
    let fits : ltb (length b.bytes) (b.count + length ptr) ≡ false = ground (arith, room) in
    let count : (b.count + length ptr) % 2 ^ 16 ≡ b.count + length ptr =
      omega (arith, room, used.1) in
    rw fits (
      ap
        (λ c. ok (record {
          kind = kind;
          count = c;
          bytes = raw b ++ (ptr ++ drop (b.count + length ptr) b.bytes);
        }))
        count)

length-appended :
    (ptr : List ℕ) (kind : BufferType) (b : Buffer)
    → InUse b
    → b.count + length ptr ≤ length b.bytes
    → length (appended ptr kind b).bytes ≡ length b.bytes
length-appended ptr kind b used room = omega (
  arith,
  length-append (raw b) (ptr ++ drop (b.count + length ptr) b.bytes),
  length-append ptr (drop (b.count + length ptr) b.bytes),
  length-raw b used,
  length-drop (b.count + length ptr) b.bytes,
  room,
)

pub raw-appended :
    (ptr : List ℕ) (kind : BufferType) (b : Buffer)
    → InUse b
    → raw (appended ptr kind b) ≡ raw b ++ ptr
raw-appended ptr kind b used =
    let rest = drop (b.count + length ptr) b.bytes in
    ap (take (b.count + length ptr)) (append_assoc (raw b) ptr rest)
    ∙ take-append (raw b ++ ptr) rest (b.count + length ptr)
        (omega (arith, length-append (raw b) ptr, length-raw b used))

-- An append to a buffer of less than 65536 bytes: it throws exactly when the bytes do not fit, and
-- otherwise leaves a buffer that holds what it held and then the bytes, with the type that was given.
pub raw-append :
    (ptr : List ℕ) (kind : BufferType) (b : Buffer)
    → InUse b
    → ((append ptr kind b ≡ err buffer_full) × (length b.bytes < b.count + length ptr))
      ⊎ ((b' : Buffer) × (append ptr kind b ≡ ok b')
          × (b.count + length ptr ≤ length b.bytes)
          × (raw b' ≡ raw b ++ ptr)
          × (b'.kind ≡ kind)
          × InUse b')
unfolding append
raw-append ptr kind b used = elim (Bool-cases (ltb (length b.bytes) (b.count + length ptr))) [
  | inl full ↦ inl (rw full refl, ground (arith, full))
  | inr fits ↦
      let room : b.count + length ptr ≤ length b.bytes = ground (arith, fits) in
      let len = length-appended ptr kind b used room in
      inr (
        appended ptr kind b,
        append_room ptr kind b used room,
        room,
        raw-appended ptr kind b used,
        refl,
        (omega (arith, len, room), omega (arith, len, used.1)),
      )
]

length-bytes_of : (size n : ℕ) → length (bytes_of size n) ≡ size
unfolding bytes_of
length-bytes_of zero n = refl
length-bytes_of (suc size) n = ap suc (length-bytes_of size (n / 256))

uint_of-bytes_of : (n : ℕ) → n < 2 ^ 32 → uint_of (bytes_of 4 n) ≡ n
unfolding uint_of bytes_of
uint_of-bytes_of n lt = omega (arith, lt)

-- An integer of 32 bits that was appended to a buffer of less than 65536 bytes is read back at the
-- place where the buffer ended.
pub get-put_uint :
    (v : ℕ) (b b' : Buffer) → InUse b → v < 2 ^ 32 → put_uint v b ≡ ok b' → get 4 b.count b' ≡ ok v
unfolding put_uint get
get-put_uint v b b' used small run = elim (raw-append (bytes_of 4 v) uint b used) [
  | inl (fails, _) ↦ absurd (ground (arith, fails, run))
  | inr (_, _, room, _, _, _) ↦
      let p = bytes_of 4 v in
      let four : length p ≡ 4 = length-bytes_of 4 v in
      let rest = drop (b.count + length p) b.bytes in
      let b1 = appended p uint b in
      let e : b' ≡ b1 = ground (arith, run, append_room p uint b used room) in
      let enough : ltb ((b1.count + 2 ^ 64 - b.count) % 2 ^ 64) 4 ≡ false = ground (arith, four) in
      let inside : ltb (length b1.bytes) (b.count + 4) ≡ false =
        ground (arith, length-appended p uint b used room, room, four) in
      let there : take 4 (drop b.count b1.bytes) ≡ p =
        ap (take 4) (drop-append (raw b) (p ++ rest) b.count (length-raw b used))
        ∙ take-append p rest 4 four in
      rw e (
        rw enough (rw inside (ap (λ bs. ok (uint_of bs)) there ∙ ap ok (uint_of-bytes_of v small))))
]

equal_bytes_iff : (xs ys : List ℕ) → (equal_bytes xs ys ≡ true) ↔ (xs ≡ ys)
unfolding equal_bytes
equal_bytes_iff [] [] = (λ e. refl, λ e. refl)
equal_bytes_iff [] (y ∷ ys) = (λ e. absurd (ground (arith, e)), λ e. absurd (ground (arith, e)))
equal_bytes_iff (x ∷ xs) [] = (λ e. absurd (ground (arith, e)), λ e. absurd (ground (arith, e)))
equal_bytes_iff (x ∷ xs) (y ∷ ys) = (
  λ e. ap₂ (λ a l. a ∷ l) (ground (arith, e)) ((equal_bytes_iff xs ys).0 (ground (arith, e))),
  λ e. ground (arith, (equal_bytes_iff xs ys).1 (ground (arith, e)), e),
)

-- `==` compares the bytes in used, and nothing else.
pub equal_iff : (a b : Buffer) → InUse a → InUse b → (equal a b ≡ true) ↔ (raw a ≡ raw b)
unfolding equal
equal_iff a b used used' = (
  λ e. (equal_bytes_iff (raw a) (raw b)).0 (ground (arith, e)),
  λ e.
      let same : a.count ≡ b.count =
        omega (arith, length-raw a used, length-raw b used', ap length e) in
      let test : (a.count == b.count) ≡ true = ground (arith, same) in
      rw test ((equal_bytes_iff (raw a) (raw b)).1 e),
)
