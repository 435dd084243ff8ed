-- ===== src/Mutex/Attempts.antt =====
-- apicrud/session_manager.py, Mutex: what one attempt does, and how acquire ends.
use apicrud.Prelude.{
  ℕ, zero, suc, ◌+◌, ◌<◌, Bool, true, false, none, some, ◌≡◌, ◌∙◌, ap, arith, if◌then◌else◌,
  text_eq, eq_refl, Bool-cases, Option-cases, inl, inr, ltb,
}
use apicrud.Python.Result.{Result, ok}
use apicrud.Redis.{Redis, Value, text, get}
use apicrud.Mutex.{Mutex, mutex_key, attempt, acquire_loop, acquire}

module _ {B : Type 0} (r : Redis B) (m : Mutex) where
  pub attempt_free :
      (s : r.State)
      → get r s (mutex_key m.lockname) ≡ none
      → attempt r m s ≡ (r.put s (mutex_key m.lockname) (text m.lock_signature) (some m.ttl), true)
  unfolding attempt
  attempt_free s h = ground arith

  pub attempt_held :
      (s : r.State) {v : Value B}
      → get r s (mutex_key m.lockname) ≡ some v
      → attempt r m s ≡ (s, false)
  unfolding attempt
  attempt_held s h = ground arith

  -- The lock is there, with the mutex's signature, for all of its ttl.
  pub attempt_taken :
      (s : r.State) (n : ℕ)
      → (attempt r m s).1 ≡ true
      → r.get_later (attempt r m s).0 n (mutex_key m.lockname)
        ≡ (if ltb n m.ttl then some (text m.lock_signature) else none)
  attempt_taken s n h = elim (Option-cases (get r s (mutex_key m.lockname))) [
    | inl free_key ↦
        ap (λ (t : r.State × Bool). r.get_later t.0 n (mutex_key m.lockname))
          (attempt_free s free_key)
        ∙ r.later-put s (mutex_key m.lockname) (text m.lock_signature) (some m.ttl) n _
        ∙ rw (eq_refl (mutex_key m.lockname))
    | inr (v, held) ↦ let h' = rw (attempt_held s held) at h in cc h'
  ]

  module _ (up : ℕ → Bool) (world : ℕ → r.State → r.State) where
    abbrev EndsWithLock : r.State × Result Bool → Type 0
    EndsWithLock ended =
        ended.1 ≡ ok true
        → (n : ℕ)
        → r.get_later ended.0 n (mutex_key m.lockname)
          ≡ (if ltb n m.ttl then some (text m.lock_signature) else none)

    acquire_loop_sound : (k : ℕ) (s : r.State) → EndsWithLock (acquire_loop r m up world k s)
    unfolding acquire_loop
    acquire_loop_sound zero s = λ h n. cc
    acquire_loop_sound (suc k) s = elim (Bool-cases (up k)) [
      | inl there ↦ elim (Bool-cases (attempt r m s).1) [
        | inl taken ↦ rw there (rw taken (λ h n. attempt_taken s n taken))
        | inr missed ↦ rw there (rw missed (acquire_loop_sound k _))
      ]
      | inr away ↦ rw away (acquire_loop_sound k _)
    ]

    -- An acquire that returns has set the lock: it is there with the mutex's signature for all of
    -- its ttl, whatever other clients did while it waited.
    pub acquire_sound :
        (s : r.State)
        → (acquire r m up world s).1 ≡ ok true
        → (n : ℕ)
        → r.get_later (acquire r m up world s).0 n (mutex_key m.lockname)
          ≡ (if ltb n m.ttl then some (text m.lock_signature) else none)
    unfolding acquire
    acquire_sound s = acquire_loop_sound m.maxwait s

  waits :
      (k left : ℕ) (s : r.State) (v : Value B)
      → ((n : ℕ) → r.get_later s n (mutex_key m.lockname) ≡ (if ltb n k then some v else none))
      → k < left
      → (acquire_loop r m (λ n. true) (λ n t. r.tick t 1) left s).1 ≡ ok true
  unfolding acquire_loop
  waits zero zero s v held h = ground arith
  waits zero (suc left) s v held h = rw (attempt_free s (held 0))
  waits (suc k) zero s v held h = ground arith
  waits (suc k) (suc left) s v held h = rw (attempt_held s {v = v} (held 0 ∙ ground arith)) (
      waits k left (r.tick s 1) v (λ n. r.later-tick s 1 n _ ∙ held (1 + n) ∙ ground arith)
        (omega arith))

  -- A lock that its holder never releases does not block for ever: if it expires before the last
  -- attempt, and nobody else sets it, then acquire returns.
  pub acquire_expired :
      (k : ℕ) (s : r.State) (v : Value B)
      → ((n : ℕ) → r.get_later s n (mutex_key m.lockname) ≡ (if ltb n k then some v else none))
      → k < m.maxwait
      → (acquire r m (λ n. true) (λ n t. r.tick t 1) s).1 ≡ ok true
  unfolding acquire
  acquire_expired k s v held h = waits k m.maxwait s v held h
