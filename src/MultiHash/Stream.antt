-- ===== src/MultiHash/Stream.antt =====
-- lib/bloom/khash.cpp: the values of `compute`, where a value may be repeated.
use dstreamon.Base.{
  ℕ, zero, suc, ◌+◌, ◌-◌, ◌*◌, ◌/◌, ◌%◌, ◌≤◌, ◌<◌, ◌≡◌, refl, ap, ap₂, ◌∙◌, true, false, ◌&&◌, List,
  [], ◌∷◌, ◌++◌, some, ok, arith, leb, ltb, ◌==◌, length, length-append, get_elem?,
  get_elem?_within, get_or, set, length-set, inl, inr, Bool-cases,
}
use dstreamon.BitFields.{number, field, AllWords}
use dstreamon.MultiHash.{Hasher, cut, draw, compute, compute_from, next_index, low_part, high_part}
use dstreamon.MultiHash.Fields.{cut-field, get_or-set_self, get_or-set_ne}

get_elem?_first : (xs ys : List ℕ) (i : ℕ) → i < length xs → get_elem? (xs ++ ys) i ≡ get_elem? xs i
get_elem?_first [] ys i lt = absurd (omega arith)
get_elem?_first (x ∷ xs) ys zero lt = refl
get_elem?_first (x ∷ xs) ys (suc i) lt = get_elem?_first xs ys i (omega arith)

get_elem?_rest : (xs ys : List ℕ) → get_elem? (xs ++ ys) (length xs) ≡ get_elem? ys 0
get_elem?_rest [] ys = refl
get_elem?_rest (x ∷ xs) ys = get_elem?_rest xs ys

AllWords-append : (xs ys : List ℕ) → AllWords xs → AllWords ys → AllWords (xs ++ ys)
AllWords-append [] ys words words' = words'
AllWords-append (x ∷ xs) ys words words' = (words.0, AllWords-append xs ys words.1 words')

-- Six words.
abbrev pub SixWords : List ℕ → Type 0
SixWords ws = AllWords ws × (length ws ≡ 6)

module _ {Key : Type 0} (rehash : Key → List ℕ → List ℕ) where
  abbrev pub GivesWords : Type 0
  GivesWords = (key : Key) (ws : List ℕ) → SixWords (rehash key ws)

  -- The digests of a key, each made of the one before.
  unfoldable pub digest_at : Key → ℕ → List ℕ
  digest_at key zero = rehash key (1 ∷ (2 ∷ (3 ∷ (4 ∷ (5 ∷ (6 ∷ []))))))
  digest_at key (suc c) = rehash key (digest_at key c)

  pub digest_at-SixWords : (key : Key) (c : ℕ) → GivesWords → SixWords (digest_at key c)
  unfolding digest_at
  digest_at-SixWords key zero words = words key _
  digest_at-SixWords key (suc c) words = words key (digest_at key c)

  -- The value at a digest and the one made of it.
  abbrev value_at : ℕ → Key → List ℕ → ℕ → ℕ
  value_at shash key ws ptr = field (number (ws ++ rehash key ws)) ptr shash

  cut_both :
      (shash : ℕ) (key : Key) (ws : List ℕ) (ptr : ℕ)
      → 0 < shash
      → shash < 32
      → SixWords ws
      → SixWords (rehash key ws)
      → ptr < 192
      → cut shash (ws ++ rehash key ws) ptr ≡ some (value_at shash key ws ptr)
  cut_both shash key ws ptr some_bit small six next lt =
      cut-field shash (ws ++ rehash key ws) ptr some_bit small
        (AllWords-append ws (rehash key ws) six.0 next.0)
        (omega (arith, lt, small, length-append ws (rehash key ws), six.1, next.1))

  draw_refill :
      (shash : ℕ) (key : Key) (ws : List ℕ) (ptr : ℕ)
      → 0 < shash
      → shash < 32
      → SixWords ws
      → SixWords (rehash key ws)
      → ptr < 192
      → 192 ≤ ptr + shash
      → draw rehash shash key ws ptr
        ≡ some (value_at shash key ws ptr, rehash key ws, ptr + shash - 192)
  unfolding draw cut
  draw_refill shash key ws ptr some_bit small six next lt full =
      let fresh = rehash key ws in
      let five : ptr / 32 ≡ 5 = omega (arith, lt, full, small) in
      let (low, e) = get_elem?_within ws (ptr / 32) (omega (arith, five, six.1)) in
      let (high, e') = get_elem?_within fresh 0 (omega (arith, next.1)) in
      let refill : (leb 32 (ptr % 32 + shash) && (ptr / 32 == 5)) ≡ true =
        ground (arith, full, five) in
      let both = cut_both shash key ws ptr some_bit small six next lt in
      let first : get_elem? (ws ++ fresh) (ptr / 32) ≡ some low =
        get_elem?_first ws fresh (ptr / 32) (omega (arith, five, six.1)) ∙ e in
      let place : ptr / 32 + 1 ≡ length ws = omega (arith, five, six.1) in
      let second : get_elem? (ws ++ fresh) (ptr / 32 + 1) ≡ some high =
        ap (get_elem? (ws ++ fresh)) place ∙ (get_elem?_rest ws fresh ∙ e') in
      elim (Bool-cases (ltb 32 (ptr % 32 + shash))) [
        | inl cross ↦
            let there : cut shash (ws ++ fresh) ptr
                ≡ some (low_part shash ptr low + high_part shash ptr high) =
              rw (first, cut) (rw cross (rw second refl)) in
            let value : low_part shash ptr low + high_part shash ptr high
                ≡ value_at shash key ws ptr =
              ground (arith, there, both) in
            rw (e, draw)
              (rw refill (rw cross (rw e' (ap (λ v. some (v, fresh, ptr + shash - 192)) value))))
        | inr alone ↦
            let there : cut shash (ws ++ fresh) ptr ≡ some (low_part shash ptr low) =
              rw (first, cut) (rw alone refl) in
            let value : low_part shash ptr low ≡ value_at shash key ws ptr =
              ground (arith, there, both) in
            rw (e, draw) (rw refill (rw alone (ap (λ v. some (v, fresh, ptr + shash - 192)) value)))
      ]

  draw_within :
      (shash : ℕ) (key : Key) (ws : List ℕ) (ptr : ℕ)
      → 0 < shash
      → shash < 32
      → SixWords ws
      → SixWords (rehash key ws)
      → ptr + shash < 192
      → draw rehash shash key ws ptr ≡ some (value_at shash key ws ptr, ws, ptr + shash)
  unfolding draw cut
  draw_within shash key ws ptr some_bit small six next room =
      let fresh = rehash key ws in
      let (low, e) = get_elem?_within ws (ptr / 32) (omega (arith, room, six.1)) in
      let no_refill : (leb 32 (ptr % 32 + shash) && (ptr / 32 == 5)) ≡ false =
        ground (arith, room) in
      let both = cut_both shash key ws ptr some_bit small six next (omega (arith, room)) in
      let first : get_elem? (ws ++ fresh) (ptr / 32) ≡ some low =
        get_elem?_first ws fresh (ptr / 32) (omega (arith, room, six.1)) ∙ e in
      let same : cut shash ws ptr ≡ cut shash (ws ++ fresh) ptr =
        elim (Bool-cases (ltb 32 (ptr % 32 + shash))) [
          | inl cross ↦
              let inside : ptr / 32 + 1 < length ws = ground (arith, room, cross, six.1) in
              let second = get_elem?_first ws fresh (ptr / 32 + 1) inside in
              rw (e, cut) (rw (first, cut) (rw cross (rw second refl)))
          | inr alone ↦ rw (e, cut) (rw (first, cut) (rw alone refl))
        ] in
      rw (e, draw) (rw no_refill (rw (same ∙ both, draw) refl))

  -- The value behind the first `total` bits of the digests.
  abbrev pub stream_value : ℕ → Key → ℕ → ℕ
  stream_value shash key total =
      let c = total / 192 in
      field (number (digest_at key c ++ digest_at key (suc c))) (total % 192) shash

  draw-stream_value :
      (shash : ℕ) (key : Key) (total : ℕ)
      → GivesWords
      → 0 < shash
      → shash < 32
      → draw rehash shash key (digest_at key (total / 192)) (total % 192)
        ≡ some (
          stream_value shash key total,
          digest_at key ((total + shash) / 192),
          (total + shash) % 192,
        )
  unfolding digest_at
  draw-stream_value shash key total words some_bit small =
      let ws = digest_at key (total / 192) in
      let six = digest_at-SixWords key (total / 192) words in
      let next = words key ws in
      elim (Bool-cases (leb 192 (total % 192 + shash))) [
        | inl full ↦
            let over : 192 ≤ total % 192 + shash = ground (arith, full) in
            let c : suc (total / 192) ≡ (total + shash) / 192 = omega (arith, over, small) in
            let p : total % 192 + shash - 192 ≡ (total + shash) % 192 =
              omega (arith, over, small) in
            draw_refill shash key ws (total % 192) some_bit small six next (omega arith) over
            ∙ ap₂ (λ d q. some (stream_value shash key total, digest_at key d, q)) c p
        | inr room ↦
            let under : total % 192 + shash < 192 = ground (arith, room) in
            let c : total / 192 ≡ (total + shash) / 192 = omega (arith, under) in
            let p : total % 192 + shash ≡ (total + shash) % 192 = omega (arith, under) in
            draw_within shash key ws (total % 192) some_bit small six next under
            ∙ ap₂ (λ d q. some (stream_value shash key total, digest_at key d, q)) c p
      ]

  -- What the loop leaves from the index `k` on.
  Drawn : Hasher → Key → ℕ → ℕ → ℕ → List ℕ → List ℕ → Type 0
  Drawn h key n total k res res' =
      ((j : ℕ) → j < k → get_or res' j 0 ≡ get_or res j 0)
      × ((i : ℕ) → i < n → get_or res' (k + i) 0 ≡ stream_value h.shash key (total + i * h.shash))

  compute_from-Drawn :
      (n fuel : ℕ) (h : Hasher) (key : Key) (total k : ℕ) (res : List ℕ)
      → GivesWords
      → h.norep ≡ false
      → 0 < h.shash
      → h.shash < 32
      → length res ≡ suc h.nhash
      → n + k ≡ suc h.nhash
      → n < fuel
      → (res' : List ℕ) × (compute_from rehash fuel h key
            (digest_at key (total / 192))
            (total % 192)
            k
            res
          ≡ ok res')
        × Drawn h key n total k res res'
  unfolding compute_from Drawn
  compute_from-Drawn n zero h key total k res words free some_bit small len count enough =
      absurd (omega arith)
  compute_from-Drawn zero (suc fuel) h key total k res words free some_bit small len count enough =
      let over : leb k h.nhash ≡ false = ground (arith, count) in
      (res, rw (over, compute_from) refl, (λ j lt. refl, λ i lt. absurd (omega (arith, lt))))
  compute_from-Drawn (suc n) (suc fuel) h key total k res words free some_bit small len count
        enough =
      let more : leb k h.nhash ≡ true = ground (arith, count) in
      let v = stream_value h.shash key total in
      let drawn = draw-stream_value h.shash key total words some_bit small in
      let fits : leb ((total + h.shash) % 192) 192 ≡ true = ground arith in
      let next : next_index h k (set res k v) ≡ suc k = rw free refl in
      let (res', run, (keeps, values)) =
        compute_from-Drawn n fuel h key (total + h.shash) (suc k) (set res k v) words free some_bit
          small (length-set res k v ∙ len) (omega (arith, count)) (omega arith) in
      (
        res',
        rw (more, compute_from)
            (rw (drawn, compute_from)
              (rw fits (
                ap
                  (λ j.
                    compute_from rehash fuel h key (digest_at key ((total + h.shash) / 192))
                      ((total + h.shash) % 192) j (set res k v))
                  next
                ∙ run))),
        (
          λ j lt. keeps j (omega (arith, lt)) ∙ get_or-set_ne res k j v (λ e. omega (arith, e, lt)),
          λ i lt.
              elim i
                  as (λ (i : ℕ).
                    i < suc n
                    → get_or res' (k + i) 0 ≡ stream_value h.shash key (total + i * h.shash)) [
                      | zero ↦ λ lt.
                          let k0 : k + 0 ≡ k = omega arith in
                          let t0 : total ≡ total + 0 * h.shash = omega arith in
                          ap (λ j. get_or res' j 0) k0
                          ∙ (keeps k (omega arith)
                              ∙ (get_or-set_self res k v (omega (arith, len, count))
                                  ∙ ap (stream_value h.shash key) t0))
                      | suc i ↦ λ lt.
                          let k1 : k + suc i ≡ suc k + i = omega arith in
                          let t1 : total + h.shash + i * h.shash ≡ total + suc i * h.shash =
                            grind arith in
                          ap (λ j. get_or res' j 0) k1
                          ∙ (values i (omega (arith, lt)) ∙ ap (stream_value h.shash key) t1)
                    ]
                lt,
        ),
      )

  some_first : (n : ℕ) → 0 < n → ltb 0 n ≡ true
  some_first n lt = ground (arith, lt)

  -- For a key of at least one byte, where values of 1 to 31 bits may be repeated, each digest has six words and the array has room
  -- for the values, `compute` succeeds with as many rounds as there are values and one more: value
  -- `i + 1` is the field of `shash` bits that starts behind the `i` values before it in the row of
  -- all digests of the key, also where it lies in two of them.
  pub compute-stream_value :
      (h : Hasher) (key : Key) (bytes : ℕ) (res : List ℕ) (fuel i : ℕ)
      → GivesWords
      → 0 < bytes
      → h.norep ≡ false
      → 0 < h.shash
      → h.shash < 32
      → length res ≡ suc h.nhash
      → h.nhash < fuel
      → i < h.nhash
      → (res' : List ℕ) × (compute rehash fuel h key bytes res ≡ ok res')
        × (get_or res' (suc i) 0 ≡ stream_value h.shash key (i * h.shash))
  unfolding compute Drawn digest_at
  compute-stream_value h key bytes res fuel i words some_byte free some_bit small len enough lt =
      let (res', run, (keeps, values)) =
        compute_from-Drawn h.nhash fuel h key 0 1 res words free some_bit small len (omega arith)
          enough in
      let index : suc i ≡ 1 + i = omega arith in
      let start : 0 + i * h.shash ≡ i * h.shash = omega arith in
      (
        res',
        rw (some_first bytes some_byte, compute) run,
        ap (λ j. get_or res' j 0) index ∙ (values i lt ∙ ap (stream_value h.shash key) start),
      )
