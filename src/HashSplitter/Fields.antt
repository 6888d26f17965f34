-- ===== src/HashSplitter/Fields.antt =====
-- lib/streamon/HashSplitter.hpp: the numbers that the cursor gives.
use dstreamon.Base.{
  ℕ, suc, ◌+◌, ◌*◌, ◌/◌, ◌%◌, ◌^◌, ◌≤◌, ◌<◌, ◌≡◌, sym, ap, ◌∙◌, some, arith, ltb, length, get_elem?,
  get_elem?_within, drop, inl, inr, Bool-cases, false,
}
use dstreamon.BitFields.{
  number, field, AllWords, number_from, word_bound, field_within, field_across, field_at,
}
use dstreamon.HashSplitter.{Splitter, drawn, next, joined}

-- While the cursor is within the words, `next` gives the next bits of the number that the words
-- stand for, also where they lie in two words, and moves on by as many.
pub next-field :
    (size : ℕ) (s : Splitter)
    → size < 32
    → 0 < size
    → AllWords s.buffer
    → s.ptr ≤ s.bits
    → s.ptr + size ≤ 32 * length s.buffer
    → next size s ≡ drawn (field (number s.buffer) s.ptr size) (record s { ptr = s.ptr + size })
unfolding next
next-field size s small some_bit words open_ within =
    let ws = s.buffer in
    let b = s.ptr / 32 in
    let t = s.ptr % 32 in
    let (low, e) = get_elem?_within ws b (omega (arith, within, some_bit)) in
    let starts : ltb s.bits s.ptr ≡ false = ground (arith, open_) in
    let at = field_at ws s.ptr size low words e in
    elim (Bool-cases (ltb 32 (t + size))) [
      | inl cross ↦
          let over : 32 < t + size = ground (arith, cross) in
          let (high, e') = get_elem?_within ws (b + 1) (omega (arith, within, over)) in
          let next_e : get_elem? ws (suc b) ≡ some high = ap (get_elem? ws) (omega arith) ∙ e' in
          let value : field (number ws) s.ptr size ≡ joined size t low high =
            at
            ∙ (ap (λ n. field (low + 2 ^ 32 * n) t size) (number_from (suc b) ws high next_e)
                ∙ field_across low high (number (drop (suc (suc b)) ws)) t size
                    (word_bound b ws low words e) (omega arith) small over) in
          rw (starts, next)
            (rw (e, next)
              (rw cross (rw e' (ap (λ v. drawn v (record s { ptr = s.ptr + size })) (sym value)))))
      | inr alone ↦
          let value : field (number ws) s.ptr size ≡ field low t size =
            at ∙ field_within low (number (drop (suc b) ws)) t size (ground (arith, alone)) in
          rw (starts, next)
            (rw (e, next)
              (rw alone (ap (λ v. drawn v (record s { ptr = s.ptr + size })) (sym value))))
    ]
