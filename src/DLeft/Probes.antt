-- ===== src/DLeft/Probes.antt =====
-- lib/streamon/DLeft.cpp: what a change of one node does to what the searches see.
use dstreamon.Base.{
  ℕ, zero, suc, ◌+◌, ◌^◌, ◌<◌, ◌≡◌, ◌≢◌, refl, sym, ap, ◌∙◌, List, [], ◌∷◌, ◌++◌, none, some, arith,
  ◌==◌, if◌then◌else◌, false, length, set, get_or, replicate, get_elem?, Option-cases, inl, inr,
}
use dstreamon.DLeft.{Node, Key, change, update, mark, store}
use dstreamon.DLeft.Places.{
  index_of, vacancy, next_index, place, place_bound, probe_from, hash_key_at, key_of, AllSized,
}

pub index_of-vacancy :
    (h : ℕ) (ks : List ℕ) (m : ℕ) → vacancy h ks ≡ some m → index_of h (set ks m h) ≡ some m
unfolding index_of vacancy
index_of-vacancy h [] m e = absurd (ground (arith, e))
index_of-vacancy h (k ∷ ks) zero e = ground arith
index_of-vacancy h (k ∷ ks) (suc m) e = elim (Option-cases (vacancy h ks)) [
  | inl no_place ↦ absurd (ground (arith, e, no_place))
  | inr (m', at) ↦
      let same_m : m ≡ m' = ground (arith, e, at) in
      let full : (k == h) ≡ false = ground (arith, e) in
      rw full (ap next_index (index_of-vacancy h ks m (rw same_m at)))
]

-- An entry that is neither the old nor the new one is found where it was.
pub index_of-set :
    (h : ℕ) (ks : List ℕ) (m x : ℕ)
    → h ≢ x
    → h ≢ get_or ks m 1
    → index_of h (set ks m x) ≡ index_of h ks
unfolding index_of
index_of-set h [] m x new old = refl
index_of-set h (k ∷ ks) zero x new old = ground arith
index_of-set h (k ∷ ks) (suc m) x new old =
    ap (λ o. if k == h then some 0 else next_index o) (index_of-set h ks m x new old)

pub index_of-append : (h : ℕ) (ks : List ℕ) → h ≢ 0 → index_of h (ks ++ (0 ∷ [])) ≡ index_of h ks
unfolding index_of
index_of-append h [] some_key = ground arith
index_of-append h (k ∷ ks) some_key =
    ap (λ o. if k == h then some 0 else next_index o) (index_of-append h ks some_key)

pub vacancy-append :
    (h : ℕ) (ks : List ℕ) → vacancy h ks ≡ none → vacancy h (ks ++ (0 ∷ [])) ≡ some (length ks)
unfolding vacancy
vacancy-append h [] e = ground arith
vacancy-append h (k ∷ ks) e = elim (Option-cases (vacancy h ks)) [
  | inl no_place ↦ ground (arith, e, vacancy-append h ks no_place)
  | inr (m, at) ↦ absurd (ground (arith, e, at))
]

pub set_same : (ks : List ℕ) (m x : ℕ) → get_or ks m 1 ≡ x → set ks m x ≡ ks
set_same [] m x e = refl
set_same (k ∷ ks) zero x e = ap (λ y. y ∷ ks) (sym e)
set_same (k ∷ ks) (suc m) x e = ap (λ t. k ∷ t) (set_same ks m x e)

pub vacancy_within : (h : ℕ) (ks : List ℕ) (m : ℕ) → vacancy h ks ≡ some m → m < length ks
unfolding vacancy
vacancy_within h [] m e = absurd (ground (arith, e))
vacancy_within h (k ∷ ks) zero e = omega arith
vacancy_within h (k ∷ ks) (suc m) e = elim (Option-cases (vacancy h ks)) [
  | inl no_place ↦ absurd (ground (arith, e, no_place))
  | inr (m', at) ↦
      let same_m : m ≡ m' = ground (arith, e, at) in
      omega (arith, vacancy_within h ks m (rw same_m at))
]

module _ {ℓ} {V : Type ℓ} where
  length-change :
      (f : Node V → Node V) (p : ℕ) (t : List (Node V)) → length (change f p t) ≡ length t
  unfolding change
  length-change f p [] = refl
  length-change f zero (n ∷ t) = refl
  length-change f (suc p) (n ∷ t) = ap suc (length-change f p t)

  pub length-update :
      (f : Node V → Node V) (i p : ℕ) (ts : List (List (Node V)))
      → length (update f i p ts) ≡ length ts
  unfolding update
  length-update f i p [] = refl
  length-update f zero p (t ∷ ts) = refl
  length-update f (suc i) p (t ∷ ts) = ap suc (length-update f i p ts)

  pub AllSized-update :
      (shash : ℕ) (f : Node V → Node V) (i p : ℕ) (ts : List (List (Node V)))
      → AllSized shash ts
      → AllSized shash (update f i p ts)
  unfolding update
  AllSized-update shash f i p [] sized = tt
  AllSized-update shash f zero p (t ∷ ts) sized = (length-change f p t ∙ sized.0, sized.1)
  AllSized-update shash f (suc i) p (t ∷ ts) sized =
      (sized.0, AllSized-update shash f i p ts sized.1)

  pub AllSized-append :
      (shash : ℕ) (ts : List (List (Node V))) (t : List (Node V))
      → AllSized shash ts
      → length t ≡ 2 ^ shash
      → AllSized shash (ts ++ (t ∷ []))
  AllSized-append shash [] t sized e = (e, tt)
  AllSized-append shash (u ∷ ts) t sized e = (sized.0, AllSized-append shash ts t sized.1 e)

  -- The node that was changed, and any other.
  hash_key_at-mark :
      (x p : ℕ) (t : List (Node V)) → p < length t → hash_key_at (change (mark x) p t) p ≡ x
  unfolding change
  hash_key_at-mark x p [] lt = absurd (omega arith)
  hash_key_at-mark x zero (n ∷ t) lt = refl
  hash_key_at-mark x (suc p) (n ∷ t) lt = hash_key_at-mark x p t (omega arith)

  get_elem?_away :
      (f : Node V → Node V) (p q : ℕ) (t : List (Node V))
      → q ≢ p
      → get_elem? (change f p t) q ≡ get_elem? t q
  unfolding change
  get_elem?_away f p q [] ne = refl
  get_elem?_away f zero zero (n ∷ t) ne = absurd (ne refl)
  get_elem?_away f zero (suc q) (n ∷ t) ne = refl
  get_elem?_away f (suc p) zero (n ∷ t) ne = refl
  get_elem?_away f (suc p) (suc q) (n ∷ t) ne = get_elem?_away f p q t (λ e. ne (ap suc e))

  hash_key_at-store :
      (v : V) (p q : ℕ) (t : List (Node V)) → hash_key_at (change (store v) p t) q ≡ hash_key_at t q
  unfolding change
  hash_key_at-store v p q [] = refl
  hash_key_at-store v zero zero (n ∷ t) = refl
  hash_key_at-store v zero (suc q) (n ∷ t) = refl
  hash_key_at-store v (suc p) zero (n ∷ t) = refl
  hash_key_at-store v (suc p) (suc q) (n ∷ t) = hash_key_at-store v p q t

  -- A mark at a key's own place shows in its probe.
  pub probe_from-mark :
      (key : Key) (shash i j x p : ℕ) (ts : List (List (Node V)))
      → AllSized shash ts
      → place key shash (i + j) ≡ p
      → probe_from key shash i (update (mark x) j p ts) ≡ set (probe_from key shash i ts) j x
  unfolding probe_from update
  probe_from-mark key shash i j x p [] sized here = refl
  probe_from-mark key shash i zero x p (t ∷ ts) sized here =
      let i0 : i + 0 ≡ i = omega arith in
      let at : place key shash i ≡ p = ap (place key shash) (sym i0) ∙ here in
      let within : p < length t = omega (arith, at, sized.0, place_bound key shash i) in
      ap (λ k. k ∷ probe_from key shash (suc i) ts) (rw at (hash_key_at-mark x p t within))
  probe_from-mark key shash i (suc j) x p (t ∷ ts) sized here =
      let shift : suc i + j ≡ i + suc j = omega arith in
      ap (λ ks. hash_key_at t (place key shash i) ∷ ks)
        (probe_from-mark key shash (suc i) j x p ts sized.1 (ap (place key shash) shift ∙ here))

  -- A change elsewhere does not.
  pub probe_from_away :
      (key : Key) (shash i j p : ℕ) (f : Node V → Node V) (ts : List (List (Node V)))
      → place key shash (i + j) ≢ p
      → probe_from key shash i (update f j p ts) ≡ probe_from key shash i ts
  unfolding probe_from update
  probe_from_away key shash i j p f [] away = refl
  probe_from_away key shash i zero p f (t ∷ ts) away =
      let i0 : i + 0 ≡ i = omega arith in
      ap (λ k. key_of k ∷ probe_from key shash (suc i) ts)
        (get_elem?_away f p (place key shash i) t (λ e. away (ap (place key shash) i0 ∙ e)))
  probe_from_away key shash i (suc j) p f (t ∷ ts) away =
      let shift : suc i + j ≡ i + suc j = omega arith in
      ap (λ ks. hash_key_at t (place key shash i) ∷ ks)
        (probe_from_away key shash (suc i) j p f ts
          (λ e. away (sym (ap (place key shash) shift) ∙ e)))

  pub probe_from-store :
      (key : Key) (shash i j p : ℕ) (v : V) (ts : List (List (Node V)))
      → probe_from key shash i (update (store v) j p ts) ≡ probe_from key shash i ts
  unfolding probe_from update
  probe_from-store key shash i j p v [] = refl
  probe_from-store key shash i zero p v (t ∷ ts) =
      ap (λ k. k ∷ probe_from key shash (suc i) ts) (hash_key_at-store v p (place key shash i) t)
  probe_from-store key shash i (suc j) p v (t ∷ ts) =
      ap (λ ks. hash_key_at t (place key shash i) ∷ ks)
        (probe_from-store key shash (suc i) j p v ts)

  pub probe_from-append :
      (key : Key) (shash i : ℕ) (ts : List (List (Node V))) (t : List (Node V))
      → probe_from key shash i (ts ++ (t ∷ []))
        ≡ probe_from key shash i ts ++ (hash_key_at t (place key shash (i + length ts)) ∷ [])
  unfolding probe_from
  probe_from-append key shash i [] t =
      let i0 : i + 0 ≡ i = omega arith in ap (λ j. hash_key_at t (place key shash j) ∷ []) (sym i0)
  probe_from-append key shash i (u ∷ ts) t =
      let shift : suc i + length ts ≡ i + suc (length ts) = omega arith in
      ap (λ ks. hash_key_at u (place key shash i) ∷ ks)
        (probe_from-append key shash (suc i) ts t
          ∙ ap (λ j. probe_from key shash (suc i) ts ++ (hash_key_at t (place key shash j) ∷ []))
              shift)

  pub length-probe_from :
      (key : Key) (shash i : ℕ) (ts : List (List (Node V)))
      → length (probe_from key shash i ts) ≡ length ts
  unfolding probe_from
  length-probe_from key shash i [] = refl
  length-probe_from key shash i (t ∷ ts) = ap suc (length-probe_from key shash (suc i) ts)

  pub hash_key_at-replicate :
      (k p : ℕ) (b : V) → hash_key_at (replicate k (record { object = b; hash_key = 0 })) p ≡ 0
  hash_key_at-replicate zero p b = refl
  hash_key_at-replicate (suc k) zero b = refl
  hash_key_at-replicate (suc k) (suc p) b = hash_key_at-replicate k p b
