-- ===== src/BloomFilter/Tests.antt =====
-- lib/lib_botstream: filters of four bits with two hash functions.
use dstreamon.Base.{ℕ, ◌+◌, ◌%◌, ◌≡◌, refl, false, List, [], ◌∷◌, ok, arith, inl, get_or, replicate}
use dstreamon.Khash
use dstreamon.Khash.{Khash, compute, cut_each}
use dstreamon.Khash.Digests.{digest, value, put_at, overwrite, rehash_each}
use dstreamon.BloomFilter.{Bloom, stats_sbf, zeros, create}
use dstreamon.BloomFilter.Swap.{Filter, SwapBf, insert_swap, create_filter, create_swap}
use dstreamon.BloomFilter.Fresh.{IsReady-create_swap}
use dstreamon.BloomFilter.Order.{IsInOrder}
use dstreamon.BloomFilter.Turns.{IsReady, Answers, insert_swap_lem}
use dstreamon.Log2.{log2, log2_from}

-- A toy hash function with digests of 20 bytes.
abbrev toy_sha : List ℕ → List ℕ
toy_sha key = (9 + get_or key 0 0) % 256 ∷ replicate 19 0

abbrev empty : Bloom
empty = record {
  bitset = false ∷ (false ∷ (false ∷ (false ∷ [])));
  nhash = 2;
  hashsize = 2;
  div = false;
}

abbrev filter : Filter
filter = record {
  bloom = empty;
  khash = record { hashdiglen = 20; nhash = 2; shash = 2; norep = false; hashtodo = 1 };
  msgdig = replicate 24 0;
}

abbrev fresh : SwapBf
fresh = record { sbf1 = filter; sbf2 = filter; active_bf = 1 }

create_swap-fresh : create_swap 4 2 ≡ ok fresh
unfolding create_swap create_filter create log2 log2_from Khash.create
create_swap-fresh = refl

-- The key 1 has the hash values 2 and 2.
swap_runs :
    (value toy_sha filter.khash filter.msgdig (1 ∷ []) 0 ≡ 2)
    × (value toy_sha filter.khash filter.msgdig (1 ∷ []) 1 ≡ 2)
unfolding value digest put_at overwrite rehash_each compute cut_each
swap_runs = (refl, refl)

IsReady-create_swap_example : IsReady toy_sha fresh × (fresh.active_bf ≡ 1)
unfolding log2 log2_from
IsReady-create_swap_example =
    IsReady-create_swap toy_sha (λ k. refl) 4 2 fresh (omega arith) create_swap-fresh

filter-IsInOrder : IsInOrder toy_sha filter
filter-IsInOrder = record {
  one = record { one = refl; sized = λ k. refl; room = omega arith };
  hashes = refl;
  size = refl;
  whole = refl;
  bits = refl;
}

fresh-IsReady : IsReady toy_sha fresh
unfolding stats_sbf zeros
fresh-IsReady = record {
  order1 = filter-IsInOrder;
  order2 = filter-IsInOrder;
  side = inl (refl, refl);
}

insert_swap_lem_example :
    (s' : SwapBf) × (insert_swap toy_sha (1 ∷ []) fresh ≡ ok s')
    × IsReady toy_sha s'
    × Answers toy_sha (1 ∷ []) s'
insert_swap_lem_example = insert_swap_lem toy_sha (1 ∷ []) fresh fresh-IsReady
