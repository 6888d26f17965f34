-- ===== src/Buffers/Tests.antt =====
-- lib/streamon/Buffer.cpp, HashedBuffer.cpp: buffers of eight bytes as keys.
use dstreamon.Base.{
  ℕ, ◌+◌, ◌*◌, ◌%◌, ◌^◌, ◌≡◌, refl, true, false, List, [], ◌∷◌, ok, err, some, arith, length,
  get_or, replicate,
}
use dstreamon.Buffers.{
  Buffer, unknown, uint, string, buffer_full, not_enough_data, HashedBuffer, append, raw, reset,
  get, uint_of, put_uint, put_string, put_buffer, bytes_of, equal, equal_bytes, hashed_append,
  hashed_reset, assign, bind, get_hash, compute_digest, base_reset,
}
use dstreamon.Buffers.Contents.{InUse, get-put_uint}
use dstreamon.Buffers.Hashing.{
  Call, appends, resets, hashes, UpToDate, run_calls, get_hash-run_calls, get_hash-bind,
}
use dstreamon.Buffers.Keys.{GivesWords, key_of, read-add_same}
use dstreamon.HashSplitter.{next, set_digest}
use dstreamon.DLeft.{
  DLeft, Node, add, read, write_found, reserve, reserve_from, find_place, update, change,
  fnv_modified_hash, fnv_loop,
}
use dstreamon.DLeft.Reserve.{WellFormed}

abbrev half_full : Buffer
half_full = record {
  kind = string;
  count = 3;
  bytes = 1 ∷ (2 ∷ (3 ∷ (0 ∷ (0 ∷ (0 ∷ (0 ∷ (0 ∷ [])))))));
}

half_full-InUse : InUse half_full
half_full-InUse = (omega arith, omega arith)

abbrev with_uint : Buffer
with_uint = record {
  kind = uint;
  count = 7;
  bytes = 1 ∷ (2 ∷ (3 ∷ (0x44 ∷ (0x33 ∷ (0x22 ∷ (0x11 ∷ (0 ∷ [])))))));
}

put : put_uint 0x11223344 half_full ≡ ok with_uint
unfolding put_uint append bytes_of
put = refl

buffer_runs :
    (get 4 3 with_uint ≡ ok 0x11223344)
    × (get 4 4 with_uint ≡ err not_enough_data)
    × (put_uint 5 with_uint ≡ err buffer_full)
    × (put_string (1 ∷ (2 ∷ (3 ∷ []))) (reset half_full) ≡ ok half_full)
    × (put_buffer half_full (reset half_full) ≡ ok (record half_full { kind = unknown }))
    × (equal half_full (record half_full { kind = uint }) ≡ true)
    × (equal half_full with_uint ≡ false)
unfolding get uint_of put_uint put_string put_buffer append bytes_of equal equal_bytes
buffer_runs = (refl, refl, refl, refl, refl, refl, refl)

-- A hash that gives words: it mixes the first byte, the length and the words before.
abbrev toy_hash : List ℕ → ℕ → ℕ → ℕ × ℕ
toy_hash bytes a b = ((a * 1000 + get_or bytes 0 0) % 2 ^ 32, (b + length bytes) % 2 ^ 32)

toy_hash-GivesWords : GivesWords toy_hash
toy_hash-GivesWords bytes a b = (omega arith, omega arith)

abbrev stale : HashedBuffer
stale = record { buffer = half_full; digest = 0 ∷ (9 ∷ (9 ∷ (9 ∷ (9 ∷ (9 ∷ (9 ∷ [])))))) }

stale-UpToDate : UpToDate toy_hash stale
stale-UpToDate = (refl, λ e. ground (arith, e))

-- The same bytes, with a digest that is kept.
abbrev kept : HashedBuffer
kept = record {
  buffer = record half_full { kind = unknown };
  digest = 1 ∷ (1001 ∷ (5 ∷ (3001 ∷ (7 ∷ (5001 ∷ (9 ∷ []))))));
}

kept-UpToDate : UpToDate toy_hash kept
unfolding compute_digest
kept-UpToDate = (refl, λ e. refl)

hash_runs :
    ((get_hash toy_hash stale).0 ≡ kept.digest)
    × ((hashed_append (7 ∷ []) uint kept).1.digest
        ≡ 0 ∷ (1001 ∷ (5 ∷ (3001 ∷ (7 ∷ (5001 ∷ (9 ∷ [])))))))
    × ((assign kept (hashed_reset stale)).1.buffer ≡ kept.buffer)
unfolding get_hash compute_digest hashed_append append assign hashed_reset
hash_runs = (refl, refl, refl)

get-put_uint_example : get 4 3 with_uint ≡ ok 0x11223344
get-put_uint_example = get-put_uint 0x11223344 half_full with_uint half_full-InUse (omega arith) put

abbrev calls : List Call
calls = hashes ∷ (appends (7 ∷ []) uint ∷ (hashes ∷ (resets ∷ (appends (8 ∷ []) uint ∷ []))))

get_hash-run_calls_example :
    let h' = run_calls toy_hash calls stale in
    ((get_hash toy_hash h').0 ≡ compute_digest toy_hash (raw h'.buffer))
    × ((get_hash toy_hash h').1.buffer ≡ h'.buffer)
    × (raw (base_reset (get_hash toy_hash h').1).buffer ≡ [])
    × ((get_hash toy_hash (base_reset (get_hash toy_hash h').1)).0
        ≡ compute_digest toy_hash (raw h'.buffer))
get_hash-run_calls_example = get_hash-run_calls toy_hash calls stale stale-UpToDate

get_hash-bind_example :
    (get_hash toy_hash (bind (5 ∷ (6 ∷ [])) uint (get_hash toy_hash kept).1)).0
    ≡ compute_digest toy_hash (raw kept.buffer)
get_hash-bind_example = get_hash-bind toy_hash (5 ∷ (6 ∷ [])) uint kept kept-UpToDate

abbrev table : DLeft ℕ
table = record {
  tables = replicate 4 (record { object = 0; hash_key = 0 }) ∷ [];
  nhash = 8;
  shash = 2;
}

table-WellFormed : WellFormed table
table-WellFormed = ((refl, tt), omega arith, omega arith)

abbrev free_node : Node ℕ
free_node = record { object = 0; hash_key = 0 }

abbrev filled : DLeft ℕ
filled = record table {
  tables =
      (free_node ∷ (record { object = 7; hash_key = 2730030712 } ∷ (free_node ∷ (free_node ∷ []))))
      ∷ [];
}

addition : add 0 (key_of toy_hash stale) 7 table ≡ (ok (some (0, 1)), filled)
unfolding add write_found reserve reserve_from find_place update change next set_digest
    fnv_modified_hash fnv_loop key_of get_hash compute_digest
addition = refl

read-add_same_example : read (key_of toy_hash kept) filled ≡ ok (some 7)
read-add_same_example =
    read-add_same toy_hash 0 stale kept 7 table filled (0, 1) toy_hash-GivesWords stale-UpToDate
      kept-UpToDate refl (omega arith) (omega arith) (omega arith) table-WellFormed addition
