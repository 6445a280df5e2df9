-- ===== src/Registry/Lock.antt =====
-- index_registry/adapters/outbound/filesystem_registry/adapter.py: `_acquire_lock`, whose loop is
-- run on fuel. Times are in ticks of any length.
pub mod Termination
use ritebook.Prelude.{
  ℕ, zero, suc, ◌+◌, ◌-◌, ◌*◌, ◌≤◌, ◌<◌, ◌≡◌, refl, Bool, true, false, Option, none, some, Result,
  ok, err, arith, leb, if◌then◌else◌, Bool-cases, inl, inr,
}
use ritebook.Registry.Errors.{
  Exception, registry_error, index_registry_persistence, index_registry_busy,
}

-- How `fcntl.flock` ends: it returns, or it raises `BlockingIOError` or another `OSError`.
pub data Attempt : Type 0 where
  taken blocked refused : Attempt

-- What the loop meets: how its n-th attempt ends, and what the clock shows after it.
pub record LockTrials : Type 0 where
  pub attempt : ℕ → Attempt
  pub monotonic : ℕ → ℕ

-- min(a, b)
abbrev pub smaller : ℕ → ℕ → ℕ
smaller a b = if leb a b then a else b

module _ (T : LockTrials) (deadline : ℕ) where
  -- What is done after the n-th attempt: a result, or nothing before the next.
  unfoldable pub after_attempt : ℕ → Attempt → Option (Result Exception ℕ)
  after_attempt n taken = some (ok n)
  after_attempt n refused = some (err (registry_error index_registry_persistence))
  after_attempt n blocked =
      if leb deadline (T.monotonic n) then some (err (registry_error index_registry_busy)) else none

  abbrev or_next :
      Option (Result Exception ℕ) → Option (Result Exception ℕ) → Option (Result Exception ℕ)
  or_next none next = next
  or_next (some result) next = some result

  -- The loop, from the n-th attempt: the attempt that took the lock, if there was fuel enough.
  unfoldable pub acquire_from : ℕ → ℕ → Option (Result Exception ℕ)
  unfolding after_attempt
  acquire_from zero n = none
  acquire_from (suc fuel) n =
      let next = acquire_from fuel (suc n) in or_next (after_attempt n (T.attempt n)) next

-- `_acquire_lock`, once the file is open: at the time `start`
unfoldable pub acquire_lock : LockTrials → ℕ → ℕ → ℕ → Option (Result Exception ℕ)
unfolding acquire_from
acquire_lock T start timeout fuel = acquire_from T (start + timeout) fuel 0

-- What `time` documents: the clock does not go back, and a sleep takes at least its time. The time
-- between two attempts is at least the shorter of a hundredth of a second and the time allowed.
pub record IsClock (T : LockTrials) (start timeout hundredth : ℕ) : Type 0 where
  pub begins : start ≤ T.monotonic 0
  pub sleeps : (n : ℕ) → T.monotonic n + smaller hundredth timeout ≤ T.monotonic (suc n)

-- How the loop can end.
pub data Ends (T : LockTrials) (deadline : ℕ) : Result Exception ℕ → Type 0 where
  acquired : (n : ℕ) → T.attempt n ≡ taken → Ends T deadline (ok n)
  failed :
      (n : ℕ)
      → T.attempt n ≡ refused
      → Ends T deadline (err (registry_error index_registry_persistence))
  timed_out :
      (n : ℕ)
      → T.attempt n ≡ blocked
      → deadline ≤ T.monotonic n
      → Ends T deadline (err (registry_error index_registry_busy))
