-- ===== src/Contribution/Execute/Order.antt =====
-- The order of the steps of a run, against the sequence that a contribution is specified by.
use ritebook.Prelude.{
  ℕ, ◌≡◌, ◌≢◌, refl, List, [], ◌∷◌, ◌++◌, Result, ok, err, take, catch, arith, Result-cases, inl,
  inr,
}
use ritebook.Prelude.Actions.{Action, continue, raise, lift, ◌>>=◌}
use ritebook.Text.{Text}
use ritebook.Contribution.Errors.{Exception, value_error}
use ritebook.Contribution.Records.{
  ContributionLockfileEntry, ContributionWorkspace, SkillChangeComparison, SkillChangeStatus,
  no_changes, changed, upstream_changed, PublishSkillChangeCommand, PublishSkillChangeResult,
  check_result, parse,
}
use ritebook.Contribution.Execute.{
  PublishPorts, publish_change, publish_compared, validate_required_provenance, execute,
}

-- The calls of the ports, each as it returns, the comparison with what it showed.
pub data Step : Type 0 where
  resolved prepared branched copied validated regenerated committed : Step
  compared : SkillChangeStatus → Step

-- What there is to do after a comparison.
abbrev pub later_steps : SkillChangeStatus → List Step
later_steps changed = branched ∷ copied ∷ validated ∷ regenerated ∷ committed ∷ []
later_steps _ = []

abbrev pub contribution_steps : SkillChangeStatus → List Step
contribution_steps status = resolved ∷ prepared ∷ compared status ∷ later_steps status

-- The specification: a contribution that succeeds has taken all steps that its comparison leaves to
-- do, in their order, and tells what the comparison showed; one that fails has taken the first few
-- of them; and what was changed upstream does not succeed.
pub data Follows : Result Exception PublishSkillChangeResult → List Step → Type 0 where
  stopped :
      (e : Exception) (status : SkillChangeStatus) (n : ℕ)
      → Follows (err e) (take n (contribution_steps status))
  done :
      (r : PublishSkillChangeResult)
      → r.status ≢ upstream_changed
      → Follows (ok r) (contribution_steps r.status)

abbrev pub recorded :
    {A W : Type 0}
    → (A → Step)
    → List Step
    → Result Exception A × W
    → Result Exception A × (W × List Step)
recorded step steps (ok a, w) = (ok a, (w, steps ++ (step a ∷ [])))
recorded step steps (err e, w) = (err e, (w, steps))

-- A call that is recorded once it returns.
abbrev log : {A W : Type 0} → (A → Step) → Action Exception W A → Action Exception (W × List Step) A
log step m s = recorded step s.1 (m s.0)

-- The comparison, with what it showed.
abbrev pub shown : SkillChangeComparison → Step
shown comparison = compared (comparison.status)

-- The ports, with a record of the calls.
abbrev pub logged : PublishPorts → PublishPorts
logged P = record {
  World = P.World × List Step;
  resolve_entry = λ r path. log (λ _. resolved) (P.resolve_entry r path);
  prepare_workspace = λ e root. log (λ _. prepared) (P.prepare_workspace e root);
  compare = λ e w. log shown (P.compare e w);
  prepare_branch = λ e w. log (λ _. branched) (P.prepare_branch e w);
  copy_installed_skill = λ e w. log (λ _. copied) (P.copy_installed_skill e w);
  validate = λ e w. log (λ _. validated) (P.validate e w);
  regenerate_index = λ e w. log (λ _. regenerated) (P.regenerate_index e w);
  commit_changes = λ e w branch. log (λ _. committed) (P.commit_changes e w branch);
}

check_result-eq-ok : (r r' : PublishSkillChangeResult) → check_result r ≡ ok r' → r' ≡ r
unfolding check_result
check_result-eq-ok r r' h = ground arith

module _ (P : PublishPorts) where
  abbrev Outcome : Type 0
  Outcome = Result Exception PublishSkillChangeResult × (P.World × List Step)

  -- What a run leaves is as specified.
  abbrev pub IsOrdered : Outcome → Type 0
  IsOrdered out = Follows out.0 out.1.1

  recorded-IsOrdered :
      {A : Type 0} (step : A → Step) (steps : List Step) (out : Result Exception A × P.World)
      (f : A → Action Exception (P.World × List Step) PublishSkillChangeResult)
      → ((e : Exception) → Follows (err e) steps)
      → ((a : A) (w : P.World) → IsOrdered (f a (w, steps ++ (step a ∷ []))))
      → IsOrdered (continue (recorded step steps out).0 f (recorded step steps out).1)
  recorded-IsOrdered step steps (ok a, w) f h k = k a w
  recorded-IsOrdered step steps (err e, w) f h k = h e

  -- The result of a comparison that leaves all its steps done.
  check_result-Follows :
      (r : PublishSkillChangeResult) (steps : List Step) (n : ℕ)
      → r.status ≢ upstream_changed
      → steps ≡ contribution_steps r.status
      → steps ≡ take n (contribution_steps r.status)
      → Follows (catch (check_result r) value_error) steps
  check_result-Follows r steps n h all few = elim (Result-cases (check_result r)) [
    | inl (r', e) ↦
        let same = check_result-eq-ok r r' e in rw (e, all, ← same) (done r' (rw same h))
    | inr (x, e) ↦ rw (e, few) (stopped (value_error x) r.status n)
  ]

  publish_compared-IsOrdered :
      (requirement : Text) (entry : ContributionLockfileEntry) (workspace : ContributionWorkspace)
      (status : SkillChangeStatus) (w : P.World)
      → IsOrdered (
          publish_compared
            (logged P)
            requirement
            entry
            workspace
            status
            (w, take 3 (contribution_steps status)))
  unfolding publish_compared publish_change raise lift take ◌>>=◌
  publish_compared-IsOrdered requirement entry workspace upstream_changed w =
      stopped _ upstream_changed 3
  publish_compared-IsOrdered requirement entry workspace no_changes w =
      check_result-Follows _ _ 3 (λ h. ground arith) refl refl
  publish_compared-IsOrdered requirement entry workspace changed w =
      recorded-IsOrdered (λ _. branched) _ (P.prepare_branch entry workspace w) _
        (λ e. stopped e changed 3)
        λ branch w1.
          recorded-IsOrdered (λ _. copied) _ (P.copy_installed_skill entry workspace w1) _
            (λ e. stopped e changed 4)
            λ _ w2.
              recorded-IsOrdered (λ _. validated) _ (P.validate entry workspace w2) _
                (λ e. stopped e changed 5)
                λ _ w3.
                  recorded-IsOrdered (λ _. regenerated) _ (P.regenerate_index entry workspace w3) _
                    (λ e. stopped e changed 6)
                    λ _ w4.
                      recorded-IsOrdered (λ _. committed) _
                        (P.commit_changes entry workspace branch w4) _ (λ e. stopped e changed 7)
                        λ prepared w5. check_result-Follows _ _ 8 (λ h. ground arith) refl refl

  -- What a run with the recording ports leaves is as specified.
  pub execute-IsOrdered :
      (command : PublishSkillChangeCommand) (w : P.World)
      → IsOrdered (execute (logged P) command (w, []))
  unfolding execute lift take ◌>>=◌
  execute-IsOrdered command w = elim (Result-cases (parse command.skill_reference)) [
    | inr (x, e) ↦ rw e (stopped _ changed 0)
    | inl (reference, e) ↦ rw e (
        recorded-IsOrdered (λ _. resolved) [] (P.resolve_entry reference command.lockfile_path w) _
          (λ e. stopped e changed 0)
          λ entry w1.
            elim (Result-cases (validate_required_provenance entry reference.requirement)) [
              | inr (x, e) ↦ rw e (stopped _ changed 1)
              | inl (u, e) ↦ rw e (
                  recorded-IsOrdered (λ _. prepared) _
                    (P.prepare_workspace entry command.contribution_root w1) _
                    (λ e. stopped e changed 1)
                    λ workspace w2.
                      recorded-IsOrdered shown _ (P.compare entry workspace w2) _
                        (λ e. stopped e changed 2)
                        λ comparison w3.
                          publish_compared-IsOrdered reference.requirement entry workspace
                            comparison.status w3)
            ])
  ]
