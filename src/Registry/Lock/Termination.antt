-- ===== src/Registry/Lock/Termination.antt =====
-- The loop for the registry's lock ends.
use native.Mathlib.Nat.{suc-mul}
use ritebook.Prelude.{
  ℕ, zero, suc, ◌+◌, ◌*◌, ◌≤◌, ◌≡◌, refl, true, false, some, Result, arith, leb, Bool-cases, inl,
  inr, ◌⊎◌,
}
use ritebook.Registry.Errors.{Exception}
use ritebook.Registry.Lock.{
  Attempt, taken, blocked, refused, LockTrials, smaller, acquire_from, acquire_lock, IsClock, Ends,
  acquired, failed, timed_out,
}

Attempt-cases : (a : Attempt) → (a ≡ taken) ⊎ ((a ≡ refused) ⊎ (a ≡ blocked))
Attempt-cases taken = inl refl
Attempt-cases refused = inr (inl refl)
Attempt-cases blocked = inr (inr refl)

leb-true : (a b : ℕ) → leb a b ≡ true → a ≤ b
leb-true a b h = ground arith

module _ (T : LockTrials) (deadline step : ℕ)
    (sleeps : (n : ℕ) → T.monotonic n + step ≤ T.monotonic (suc n)) where
  -- What the loop returns with some fuel.
  abbrev Returns : ℕ → ℕ → Type 0
  Returns fuel n =
      (r : Result Exception ℕ) × (acquire_from T deadline fuel n ≡ some r) × Ends T deadline r

  -- After a lock that is held elsewhere: the time is over, or the next attempt is made.
  after_blocked :
      (fuel n : ℕ)
      → T.attempt n ≡ blocked
      → (leb deadline (T.monotonic n) ≡ false → Returns fuel (suc n))
      → Returns (suc fuel) n
  unfolding acquire_from
  after_blocked fuel n e next = elim (Bool-cases (leb deadline (T.monotonic n))) [
    | inl over ↦ (_, rw (e, over) refl, timed_out n e (leb-true _ _ over))
    | inr early ↦ let (r, found, ends) = next early in (r, rw (e, early) found, ends)
  ]

  first_attempt :
      (fuel n : ℕ)
      → (leb deadline (T.monotonic n) ≡ false → Returns fuel (suc n))
      → Returns (suc fuel) n
  unfolding acquire_from
  first_attempt fuel n next = elim (Attempt-cases (T.attempt n)) [
    | inl e ↦ (_, rw e refl, acquired n e)
    | inr (inl e) ↦ (_, rw e refl, failed n e)
    | inr (inr e) ↦ after_blocked fuel n e next
  ]

  -- One more attempt than the sleeps that fill the time left is enough.
  acquire_from-Ends : (fuel n : ℕ) → deadline ≤ T.monotonic n + fuel * step → Returns (suc fuel) n
  acquire_from-Ends zero n h = first_attempt zero n λ early. absurd (ground arith)
  acquire_from-Ends (suc fuel) n h =
      first_attempt (suc fuel) n
        λ early. acquire_from-Ends fuel (suc n) (omega (arith, sleeps n, suc-mul fuel step))

-- Given a clock as `time` documents it, the lock is taken, refused or found to be held for the time
-- allowed, within one more attempt than the sleeps that fill that time: a lock is reported as busy
-- only at or after the deadline.
pub acquire_lock-Ends :
    (T : LockTrials) (start timeout hundredth sleeps : ℕ)
    → IsClock T start timeout hundredth
    → timeout ≤ sleeps * smaller hundredth timeout
    → (r : Result Exception ℕ) × (acquire_lock T start timeout (suc sleeps) ≡ some r)
      × Ends T (start + timeout) r
unfolding acquire_lock
acquire_lock-Ends T start timeout hundredth sleeps clock h =
    acquire_from-Ends T (start + timeout) (smaller hundredth timeout) (clock.sleeps) sleeps 0
      (omega (arith, clock.begins))
