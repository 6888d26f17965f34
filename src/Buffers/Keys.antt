-- ===== src/Buffers/Keys.antt =====
-- lib/streamon/HashedBuffer.cpp, DLeft.cpp: hashed buffers as the keys of a d-left table.
use dstreamon.Base.{
  ℕ, ◌*◌, ◌^◌, ◌≤◌, ◌<◌, ◌≡◌, sym, ap, ap₂, ◌∙◌, List, some, ok, arith, inl, inr, subst,
}
use dstreamon.Buffers.{HashedBuffer, raw, get_hash, compute_digest}
use dstreamon.Buffers.Hashing.{UpToDate, get_hash_value}
use dstreamon.DLeft.{DLeft, Key, Slot, add, read}
use dstreamon.DLeft.Places.{HasBits}
use dstreamon.DLeft.Reserve.{WellFormed}
use dstreamon.DLeft.Lookup.{read-add}

module _ (hashlittle2 : List ℕ → ℕ → ℕ → ℕ × ℕ) where
  -- What a table asks of its key.
  unfoldable pub key_of : HashedBuffer → Key
  key_of h = record { digest = (get_hash hashlittle2 h).0; raw = raw h.buffer }

  -- The hash function gives words.
  abbrev pub GivesWords : Type 0
  GivesWords =
      (bytes : List ℕ) (a b : ℕ)
      → ((hashlittle2 bytes a b).0 < 2 ^ 32) × ((hashlittle2 bytes a b).1 < 2 ^ 32)

  pub key_of_value :
      (h : HashedBuffer)
      → UpToDate hashlittle2 h
      → key_of h ≡ record { digest = compute_digest hashlittle2 (raw h.buffer); raw = raw h.buffer }
  unfolding key_of
  key_of_value h good =
      ap (λ r. record { digest = r.0; raw = raw h.buffer }) (get_hash_value hashlittle2 h good)

  -- The six words of a digest serve as many tables as have 192 bits of places in all.
  pub HasBits-key_of :
      (h : HashedBuffer) (shash n : ℕ)
      → GivesWords
      → UpToDate hashlittle2 h
      → 0 < shash
      → shash < 32
      → n * shash ≤ 192
      → HasBits (key_of h) shash n
  unfolding compute_digest
  HasBits-key_of h shash n words good some_bit small room =
      let b = raw h.buffer in
      subst (λ k. HasBits k shash n) (sym (key_of_value h good))
        (
          some_bit,
          small,
          (
            (words b 1 2).0,
            (
              (words b 1 2).1,
              ((words b 3 4).0, ((words b 3 4).1, ((words b 5 6).0, ((words b 5 6).1, tt)))),
            ),
          ),
          omega (arith, room),
        )

  -- A value that was added under one buffer is read under any buffer that holds the same bytes, where
  -- both hashes are up to date, the hash function gives words, and the tables' places take no more
  -- than 192 bits.
  pub read-add_same {ℓ} :
      {V : Type ℓ} (blank : V) (a b : HashedBuffer) (v : V) (d d' : DLeft V) (slot : Slot)
      → GivesWords
      → UpToDate hashlittle2 a
      → UpToDate hashlittle2 b
      → raw a.buffer ≡ raw b.buffer
      → 0 < d.shash
      → d.shash < 32
      → d.nhash * d.shash ≤ 192
      → WellFormed d
      → add blank (key_of a) v d ≡ (ok (some slot), d')
      → read (key_of b) d' ≡ ok (some v)
  read-add_same blank a b v d d' slot words good good' same some_bit small room ordered run =
      let bits = HasBits-key_of a d.shash d.nhash words good some_bit small room in
      let keys : key_of b ≡ key_of a =
        key_of_value b good'
        ∙ (ap (λ r. record { digest = compute_digest hashlittle2 r; raw = r }) (sym same)
            ∙ sym (key_of_value a good)) in
      let after : (add blank (key_of a) v d).1 ≡ d' = ap (λ r. r.1) run in
      elim (read-add blank (key_of a) v d bits ordered) [
        | inl (s, _, _, there, _) ↦ ap₂ read keys (sym after) ∙ there
        | inr (fails, _, _, _) ↦ absurd (ground (arith, fails, ap (λ r. r.0) run))
      ]
