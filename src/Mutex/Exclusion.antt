-- ===== src/Mutex/Exclusion.antt =====
-- apicrud/session_manager.py, Mutex: a lock that one client holds, and the attempts of others.
use apicrud.Prelude.{
  ℕ, ◌+◌, ◌-◌, ◌<◌, ◌≤◌, Bool, true, false, none, some, String, List, [], ◌∷◌, ◌≡◌, refl, ◌∙◌, ap,
  arith, if◌then◌else◌, ◌==◌, text_eq, eq_refl, Option-cases, inl, inr,
}
use apicrud.Python.Result.{Exn, Result, ok, err}
use apicrud.Redis.{Redis, text, get}
use apicrud.Mutex.{Mutex, mutex_key, is_signature, attempt, released, release}
use apicrud.Mutex.Attempts.{attempt_held, attempt_taken}

-- what other clients of redis do to a lock: they try to take it, and time passes
pub data Event : Type 0 where
  tries : (signature : String) (ttl : ℕ) → Event
  passes : ℕ → Event

abbrev pub seconds : List Event → ℕ
seconds [] = 0
seconds (tries signature ttl ∷ events) = seconds events
seconds (passes n ∷ events) = n + seconds events

abbrev pub rival : Mutex → String → ℕ → Mutex
rival m signature ttl = record {
  lock_signature = signature;
  lockname = m.lockname;
  maxwait = 1;
  ttl = ttl;
}

module _ {B : Type 0} (r : Redis B) (m : Mutex) where
  -- the state after the events, and whether an attempt has succeeded
  abbrev pub run : List Event → r.State → r.State × Bool
  run [] s = (s, false)
  run (tries signature ttl ∷ events) s =
      let (s', taken) = attempt r (rival m signature ttl) s in
      let (t, later) = run events s' in (t, if taken then true else later)
  run (passes n ∷ events) s = run events (r.tick s n)

  abbrev Held : r.State → ℕ → Type 0
  Held s rest =
      (n : ℕ) → n < rest → r.get_later s n (mutex_key m.lockname) ≡ some (text m.lock_signature)

  run-Held :
      (events : List Event) (s : r.State) (rest : ℕ)
      → Held s rest
      → seconds events < rest
      → ((run events s).1 ≡ false)
        × (get r (run events s).0 (mutex_key m.lockname) ≡ some (text m.lock_signature))
  run-Held [] s rest held h = (refl, held 0 (omega arith))
  run-Held (tries signature ttl ∷ events) s rest held h =
      rw (attempt_held r (rival m signature ttl) s (held 0 (omega arith)))
        (run-Held events s rest held h)
  run-Held (passes n ∷ events) s rest held h =
      run-Held events (r.tick s n) (rest - n)
        (λ k k<. r.later-tick s n k _ ∙ held (n + k) (omega arith)) (omega arith)

  release_own :
      (s : r.State)
      → get r s (mutex_key m.lockname) ≡ some (text m.lock_signature)
      → release r m (λ t. t) s ≡ (r.delete s (mutex_key m.lockname), ok tt)
  unfolding release released is_signature
  release_own s h = ground (arith, h, eq_refl m.lock_signature)

  -- Whatever other clients try within the ttl of a lock that was taken, none of them takes it, and
  -- the holder then releases it without an exception.
  pub exclusion :
      (s : r.State) (events : List Event)
      → (attempt r m s).1 ≡ true
      → seconds events < m.ttl
      → ((run events (attempt r m s).0).1 ≡ false)
        × ((release r m (λ t. t) (run events (attempt r m s).0).0).1 ≡ ok tt)
  exclusion s events taken h =
      let (none_took, mine) =
        run-Held events (attempt r m s).0 m.ttl (λ n n<. attempt_taken r m s n taken ∙ ground arith)
          h in
      (none_took, ap (λ (t : r.State × Result (Unit {0})). t.1) (release_own _ mine))

  -- A holder whose lock has expired, with nobody else on it, gets an AttributeError from release,
  -- not the TimeoutError that says so.
  pub release_expired :
      (between : r.State → r.State) (s : r.State) (n : ℕ)
      → (attempt r m s).1 ≡ true
      → m.ttl ≤ n
      → (release r m between (r.tick (attempt r m s).0 n)).1 ≡ err Exn.attribute_error
  unfolding release released
  release_expired between s n taken late =
      let gone : get r (r.tick (attempt r m s).0 n) (mutex_key m.lockname) ≡ none =
        r.later-tick (attempt r m s).0 n 0 _ ∙ attempt_taken r m s (n + 0) taken ∙ ground arith in
      rw gone

  -- A client whose lock has expired does not release the lock of the next holder: TimeoutError, and
  -- nothing is written.
  pub release_foreign :
      (between : r.State → r.State) (s : r.State) (signature : String)
      → get r s (mutex_key m.lockname) ≡ some (text signature)
      → (signature == m.lock_signature) ≡ false
      → release r m between s ≡ (s, err Exn.timeout_error)
  unfolding release released is_signature
  release_foreign between s signature held other =
      elim (Option-cases (get r (between s) (mutex_key m.lockname))) [
        | inl gone ↦ rw (held, gone, other)
        | inr (w, there) ↦ rw (held, there, other)
      ]
