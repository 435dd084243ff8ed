-- ===== src/Mutex.antt =====
-- apicrud/session_manager.py: class Mutex. The proofs are in the modules below.
pub mod Attempts
pub mod Exclusion
use apicrud.Prelude.{
  ℕ, zero, suc, Bool, true, false, Option, none, some, String, ◌⧺◌, if◌then◌else◌, ◌==◌, text_eq,
}
use apicrud.Python.Result.{Exn, Result, ok, err}
use apicrud.Redis.{Redis, Value, text, sealed, int, real, get, set_nx}

pub record Mutex : Type 0 where
  pub lock_signature : String
  pub lockname : String
  pub maxwait : ℕ
  pub ttl : ℕ

-- 'mutex:%s' % self.lockname
unfoldable pub mutex_key : String → String
mutex_key lockname = "mutex:" ⧺ lockname

-- the decoded value is the signature; a signature is an id with a prefix, so no number is one
unfoldable pub is_signature : {B : Type 0} → String → Value B → Bool
is_signature signature (text t) = t == signature
is_signature signature (sealed b) = false
is_signature signature (int z) = false
is_signature signature (real x) = false

module _ {B : Type 0} (r : Redis B) where
  -- one SET with NX: whether it took the lock
  unfoldable pub attempt : Mutex → r.State → r.State × Bool
  attempt m s = set_nx r s (mutex_key m.lockname) (text m.lock_signature) (some m.ttl)

  -- `world n` is what happens to redis in the second of sleep after the attempt with `n` retries
  -- left, and `up n` says whether redis answers that attempt
  unfoldable pub acquire_loop :
      Mutex → (ℕ → Bool) → (ℕ → r.State → r.State) → ℕ → r.State → r.State × Result Bool
  acquire_loop m up world zero s = (s, err Exn.timeout_error)
  acquire_loop m up world (suc n) s =
      let (s', taken) = attempt m s in
      let rest = acquire_loop m up world n (world n (if up n then s' else s)) in
      if up n then (if taken then (s', ok true) else rest) else rest

  unfoldable pub acquire :
      Mutex → (ℕ → Bool) → (ℕ → r.State → r.State) → r.State → r.State × Result Bool
  acquire m up world s = acquire_loop m up world m.maxwait s

  -- release, with what the GET found and what the DEL finds
  unfoldable pub released :
      Mutex → Option (Value B) → r.State → Option (Value B) → r.State → r.State × Result (Unit {0})
  released m none s later t = (s, err Exn.attribute_error)
  released m (some v) s none t =
      if is_signature m.lock_signature v
      then (t, err Exn.timeout_error)
      else (s, err Exn.timeout_error)
  released m (some v) s (some w) t =
      if is_signature m.lock_signature v
      then (r.delete t (mutex_key m.lockname), ok tt)
      else (s, err Exn.timeout_error)

  -- `between` is what happens to redis between the GET and the DEL
  unfoldable pub release : Mutex → (r.State → r.State) → r.State → r.State × Result (Unit {0})
  release m between s =
      released m (get r s (mutex_key m.lockname)) s (get r (between s) (mutex_key m.lockname))
        (between s)
