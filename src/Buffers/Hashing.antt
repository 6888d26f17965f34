-- ===== src/Buffers/Hashing.antt =====
-- lib/streamon/HashedBuffer.cpp, HashedReadBuffer.hpp: the kept hash and the bytes it is of.
use dstreamon.Base.{
  ℕ, ◌≡◌, refl, sym, ap, ◌∙◌, true, false, List, [], ◌∷◌, arith, ◌==◌, length, length-set, get_or,
  inl, inr, Bool-cases, Result-cases, subst,
}
use dstreamon.Buffers.{
  Buffer, BufferType, HashedBuffer, append, raw, hashed_append, hashed_reset, assign, bind,
  get_hash, compute_digest, mark_stale, base_reset,
}

-- The calls on a buffer.
pub data Call : Type 0 where
  appends : List ℕ → BufferType → Call
  assigns : HashedBuffer → Call
  resets : Call
  hashes : Call

module _ (hashlittle2 : List ℕ → ℕ → ℕ → ℕ × ℕ) where
  unfoldable pub run_call : Call → HashedBuffer → HashedBuffer
  run_call (appends ptr kind) h = (hashed_append ptr kind h).1
  run_call (assigns other) h = (assign other h).1
  run_call resets h = hashed_reset h
  run_call hashes h = (get_hash hashlittle2 h).1

  unfoldable pub run_calls : List Call → HashedBuffer → HashedBuffer
  unfolding run_call
  run_calls [] h = h
  run_calls (c ∷ cs) h = run_calls cs (run_call c h)

  -- A digest that is marked as up to date is that of the bytes in use.
  abbrev pub UpToDate : HashedBuffer → Type 0
  UpToDate h =
      (length h.digest ≡ 7)
      × ((get_or h.digest 0 0 == 1) ≡ true → h.digest ≡ compute_digest hashlittle2 (raw h.buffer))

  first_stale :
      (digest : List ℕ) → length digest ≡ 7 → (get_or (mark_stale digest) 0 0 == 1) ≡ false
  first_stale [] e = absurd (omega (arith, e))
  first_stale (w ∷ ws) e = ground arith

  UpToDate-mark_stale :
      (b : Buffer) (digest : List ℕ)
      → length digest ≡ 7
      → UpToDate (record { buffer = b; digest = mark_stale digest })
  UpToDate-mark_stale b digest len =
      (length-set digest 0 0 ∙ len, λ e. absurd (ground (arith, first_stale digest len, e)))

  UpToDate-hashed_append :
      (ptr : List ℕ) (kind : BufferType) (h : HashedBuffer)
      → length h.digest ≡ 7
      → UpToDate (hashed_append ptr kind h).1
  unfolding hashed_append
  UpToDate-hashed_append ptr kind h len = elim (Result-cases (append ptr kind h.buffer)) [
    | inl (e, fails) ↦ rw (fails, hashed_append) (UpToDate-mark_stale h.buffer h.digest len)
    | inr (b, done) ↦ rw (done, hashed_append) (UpToDate-mark_stale b h.digest len)
  ]

  pub get_hash_value :
      (h : HashedBuffer)
      → UpToDate h
      → get_hash hashlittle2 h ≡ (
        compute_digest hashlittle2 (raw h.buffer),
        record h { digest = compute_digest hashlittle2 (raw h.buffer) },
      )
  unfolding get_hash
  get_hash_value h good = elim (Bool-cases (get_or h.digest 0 0 == 1)) [
    | inr stale ↦ rw stale refl
    | inl kept ↦ rw kept (ap (λ d. (d, record h { digest = d })) (good.1 kept))
  ]

  pub digest_sized : (bytes : List ℕ) → length (compute_digest hashlittle2 bytes) ≡ 7
  unfolding compute_digest
  digest_sized bytes = refl

  UpToDate-run_call : (c : Call) (h : HashedBuffer) → UpToDate h → UpToDate (run_call c h)
  unfolding run_call assign hashed_reset
  UpToDate-run_call (appends ptr kind) h good = UpToDate-hashed_append ptr kind h good.0
  UpToDate-run_call (assigns other) h good =
      UpToDate-hashed_append (raw other.buffer) other.buffer.kind (hashed_reset h)
        (length-set h.digest 0 0 ∙ good.0)
  UpToDate-run_call resets h good =
      UpToDate-mark_stale (record h.buffer { count = 0 }) h.digest good.0
  UpToDate-run_call hashes h good =
      subst (λ r. UpToDate r.1) (sym (get_hash_value h good))
        (digest_sized (raw h.buffer), λ e. refl)

  pub UpToDate-run_calls :
      (cs : List Call) (h : HashedBuffer) → UpToDate h → UpToDate (run_calls cs h)
  unfolding run_calls
  UpToDate-run_calls [] h good = good
  UpToDate-run_calls (c ∷ cs) h good =
      UpToDate-run_calls cs (run_call c h) (UpToDate-run_call c h good)

  raw-base_reset : (h : HashedBuffer) → raw (base_reset h).buffer ≡ []
  unfolding base_reset
  raw-base_reset h = refl

  get_hash-base_reset :
      (h : HashedBuffer)
      → (get_hash hashlittle2
          (base_reset (record h { digest = compute_digest hashlittle2 (raw h.buffer) }))).0
        ≡ compute_digest hashlittle2 (raw h.buffer)
  unfolding get_hash base_reset compute_digest
  get_hash-base_reset h = refl

  -- After any appends, assignments, resets and hashes that are called on a hashed buffer itself, whose
  -- digest was of its bytes or marked as stale, the hash that is asked for is that of the bytes in
  -- use then, and asking changes no byte. A reset that is called through a `Buffer &` after that
  -- empties the buffer and leaves the hash: what is asked for then is the hash of the old bytes.
  pub get_hash-run_calls :
      (cs : List Call) (h : HashedBuffer)
      → UpToDate h
      → let h' = run_calls cs h in
        ((get_hash hashlittle2 h').0 ≡ compute_digest hashlittle2 (raw h'.buffer))
        × ((get_hash hashlittle2 h').1.buffer ≡ h'.buffer)
        × (raw (base_reset (get_hash hashlittle2 h').1).buffer ≡ [])
        × ((get_hash hashlittle2 (base_reset (get_hash hashlittle2 h').1)).0
            ≡ compute_digest hashlittle2 (raw h'.buffer))
  get_hash-run_calls cs h good =
      let e = get_hash_value (run_calls cs h) (UpToDate-run_calls cs h good) in
      (
        ap (λ r. r.0) e,
        ap (λ r. r.1.buffer) e,
        raw-base_reset (get_hash hashlittle2 (run_calls cs h)).1,
        ap (λ r. (get_hash hashlittle2 (base_reset r.1)).0) e
            ∙ get_hash-base_reset (run_calls cs h),
      )

  -- A buffer whose digest was of its bytes or marked as stale, and that was hashed and then bound
  -- to another variable, gives the hash of the bytes that it was bound to before, whatever the new
  -- ones are.
  pub get_hash-bind :
      (var : List ℕ) (kind : BufferType) (h : HashedBuffer)
      → UpToDate h
      → (get_hash hashlittle2 (bind var kind (get_hash hashlittle2 h).1)).0
        ≡ compute_digest hashlittle2 (raw h.buffer)
  unfolding get_hash bind compute_digest
  get_hash-bind var kind h good = elim (Bool-cases (get_or h.digest 0 0 == 1)) [
    | inr stale ↦ rw stale refl
    | inl kept ↦ rw kept (rw kept (good.1 kept))
  ]
