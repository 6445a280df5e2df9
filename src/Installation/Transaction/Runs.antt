-- ===== src/Installation/Transaction/Runs.antt =====
-- Actions on the disk that end in success unless the process is stopped: what they reach, what a stop
-- leaves, and how many disk operations they take.
use ritebook.Prelude.{ℕ, zero, suc, ◌+◌, ◌≤◌, ◌<◌, Bool, true, false, Option, Result, ok, err}
use ritebook.Prelude.{if◌then◌else◌, ◌≡◌, refl, arith}
use ritebook.Prelude.Actions.{Action, pure, continue, ◌>>=◌}
use ritebook.Installation.Transaction.Session.{
  Failure, interrupted, Journal, Hashes, Session, Disk, disk_step, spend, spent,
}

-- `Safe`: what holds wherever the process stops.
module _ (H : Hashes) (Safe : Disk H → Option Journal → Type 0) where
  -- The outcome of an action that needs at most `k` of the `n` disk operations that are left: it
  -- reaches `R`, or was stopped, with too few of them left, in a state of `Safe`.
  abbrev pub Outcome :
      {A : Type 0}
      → ℕ
      → (Disk H → Option Journal → Type 0)
      → ℕ
      → Result Failure A
      → Session H
      → Type 0
  Outcome k R n (ok a) t = R t.nodes t.journal × (n ≤ t.budget + k)
  Outcome k R n (err e) t = Safe t.nodes t.journal × (e ≡ interrupted) × (n < k)

  pub record Runs {A : Type 0} (k : ℕ) (P R : Disk H → Option Journal → Type 0)
      (m : Action Failure (Session H) A) : Type 0 where
    pub apply : (s : Session H) → P s.nodes s.journal → Outcome k R s.budget (m s).0 (m s).1

  weaken-Outcome :
      {A : Type 0} (k l n m : ℕ) (Q : Disk H → Option Journal → Type 0) (r : Result Failure A)
      (t : Session H)
      → n ≤ m + k
      → Outcome l Q m r t
      → Outcome (k + l) Q n r t
  weaken-Outcome k l n m Q (ok a) t le (q, h) = (q, omega arith)
  weaken-Outcome k l n m Q (err e) t le (q, i, h) = (q, i, omega arith)

  continue-Runs :
      {A B : Type 0} (k l n : ℕ) (R Q : Disk H → Option Journal → Type 0) (r : Result Failure A)
      (f : A → Action Failure (Session H) B) (t : Session H)
      → Outcome k R n r t
      → ((a : A) → Runs l R Q (f a))
      → Outcome (k + l) Q n (continue r f t).0 (continue r f t).1
  continue-Runs k l n R Q (ok a) f t (r, le) hf =
      weaken-Outcome k l n t.budget Q (f a t).0 (f a t).1 le ((hf a).apply t r)
  continue-Runs k l n R Q (err e) f t h hf = ground arith

  pub bind-Runs :
      {A B : Type 0} (k l : ℕ) (P R Q : Disk H → Option Journal → Type 0)
      (m : Action Failure (Session H) A) (f : A → Action Failure (Session H) B)
      → Runs k P R m
      → ((a : A) → Runs l R Q (f a))
      → Runs (k + l) P Q (m >>= f)
  unfolding ◌>>=◌
  bind-Runs k l P R Q m f h hf = record {
    apply = λ s p. continue-Runs k l s.budget R Q (m s).0 f (m s).1 (h.apply s p) hf;
  }

  pub pure-Runs :
      {A : Type 0} (k : ℕ) (P : Disk H → Option Journal → Type 0) (a : A) → Runs k P P (pure a)
  unfolding pure
  pure-Runs k P a = record { apply = λ s p. (p, ground arith) }

  pub if-Runs :
      {A : Type 0} (k : ℕ) (P R : Disk H → Option Journal → Type 0) (b : Bool)
      (m n : Action Failure (Session H) A)
      → (b ≡ true → Runs k P R m)
      → (b ≡ false → Runs k P R n)
      → Runs k P R (if b then m else n)
  if-Runs k P R true m n hm hn = hm refl
  if-Runs k P R false m n hm hn = hn refl

  -- with operations to spare, and from a stronger precondition
  pub weaken-Runs :
      {A : Type 0} (k l : ℕ) (P P' R : Disk H → Option Journal → Type 0)
      (m : Action Failure (Session H) A)
      → ((nodes : Disk H) (j : Option Journal) → P nodes j → P' nodes j)
      → Runs k P' R m
      → Runs (l + k) P R m
  weaken-Runs k l P P' R m into h = record {
    apply = λ s p.
        weaken-Outcome l k s.budget s.budget R (m s).0 (m s).1 (omega arith)
          (h.apply s (into s.nodes s.journal p));
  }

  -- The operation succeeds, in a state of `R`.
  abbrev pub Reaches : (Disk H → Option Journal → Type 0) → Result Failure (Session H) → Type 0
  Reaches R (ok t) = R t.nodes t.journal
  Reaches R (err e) = ⊥

  spent-Outcome :
      (n : ℕ) (R : Disk H → Option Journal → Type 0) (r : Result Failure (Session H))
      (s : Session H)
      → Reaches R r
      → Outcome 1 R (suc n) (spent H n s r).0 (spent H n s r).1
  spent-Outcome n R (ok t) s h = (h, omega arith)
  spent-Outcome n R (err e) s h = elim h [ ]

  spend-Outcome :
      (n : ℕ) (R : Disk H → Option Journal → Type 0) (f : Session H → Result Failure (Session H))
      (s : Session H)
      → Safe s.nodes s.journal
      → Reaches R (f s)
      → Outcome 1 R n (spend H n f s).0 (spend H n f s).1
  spend-Outcome zero R f s h r = (h, refl, omega arith)
  spend-Outcome (suc n) R f s h r = spent-Outcome n R (f s) s r

  pub disk_step-Runs :
      (P R : Disk H → Option Journal → Type 0) (f : Session H → Result Failure (Session H))
      → ((s : Session H) → P s.nodes s.journal → Safe s.nodes s.journal)
      → ((s : Session H) → P s.nodes s.journal → Reaches R (f s))
      → Runs 1 P R (disk_step H f)
  unfolding disk_step
  disk_step-Runs P R f safe h = record {
    apply = λ s p. spend-Outcome s.budget R f s (safe s p) (h s p);
  }
