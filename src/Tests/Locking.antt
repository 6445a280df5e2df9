-- ===== src/Tests/Locking.antt =====
-- The loop for the registry's lock, at a lock that is freed at the third attempt.
use ritebook.Prelude.{ℕ, zero, suc, ◌+◌, ◌*◌, ◌≡◌, some, Result, arith}
use ritebook.Registry.Errors.{Exception}
use ritebook.Registry.Lock.{Attempt, taken, blocked, LockTrials, acquire_lock, IsClock, Ends}
use ritebook.Registry.Lock.Termination.{acquire_lock-Ends}

abbrev third_time : ℕ → Attempt
third_time zero = blocked
third_time (suc zero) = blocked
third_time (suc (suc n)) = taken

abbrev trials : LockTrials
trials = record { attempt = third_time; monotonic = λ n. 100 + n * 10 }

trials-IsClock : IsClock trials 100 500 10
trials-IsClock = record { begins = omega arith; sleeps = λ n. omega arith }

acquire_lock-Ends_example :
    (r : Result Exception ℕ) × (acquire_lock trials 100 500 51 ≡ some r) × Ends trials 600 r
acquire_lock-Ends_example = acquire_lock-Ends trials 100 500 10 50 trials-IsClock (omega arith)
