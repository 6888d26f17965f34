-- ===== src/HashSplitter.antt =====
-- lib/streamon/HashSplitter.hpp: the cursor that cuts a digest into numbers of a few bits.
pub mod Fields
use dstreamon.Base.{
  ℕ, ◌+◌, ◌-◌, ◌*◌, ◌/◌, ◌%◌, ◌^◌, List, Option, none, some, ltb, if◌then◌else◌, get_elem?, length,
  drop,
}

-- The buffer is given by its words; what lies behind them is not known.
pub record Splitter : Type 0 where
  pub buffer : List ℕ
  pub bits : ℕ
  pub ptr : ℕ

-- `set(digest, beginFrom)`: the length is that of the whole digest.
unfoldable pub set_digest : List ℕ → ℕ → Splitter
set_digest digest begin_from = record {
  buffer = drop begin_from digest;
  bits = length digest * 32;
  ptr = 0;
}

unfoldable pub reset : Splitter → Splitter
reset s = record s { ptr = 0 }

-- What a call of `next` does: it writes a number, returns false, or reads beyond the buffer.
pub data Draw : Type 0 where
  drawn : ℕ → Splitter → Draw
  spent : Draw
  outside : Draw

-- The bits from `bit` on in the word, and where they do not suffice those of the next word. The two
-- parts share no bit, so that `|` is a sum. The size is below 32.
abbrev pub joined : ℕ → ℕ → ℕ → ℕ → ℕ
joined size bit low high =
    low / 2 ^ bit % 2 ^ size + high % 2 ^ (bit + size - 32) * 2 ^ (size - (bit + size - 32))

unfoldable pub next : ℕ → Splitter → Draw
next size s =
    let after : Splitter = record s { ptr = s.ptr + size } in
    let block = s.ptr / 32 in
    let bit = s.ptr % 32 in
    if ltb s.bits s.ptr then spent else elim (get_elem? s.buffer block) [
      | none ↦ outside
      | some low ↦
          if ltb 32 (bit + size)
          then elim (get_elem? s.buffer (block + 1)) [
            | none ↦ outside
            | some high ↦ drawn (joined size bit low high) after
          ]
          else drawn (low / 2 ^ bit % 2 ^ size) after
    ]
