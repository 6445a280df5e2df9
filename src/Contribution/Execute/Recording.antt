-- ===== src/Contribution/Execute/Recording.antt =====
-- The ports that record their calls run as the ports themselves.
use ritebook.Prelude.{◌≡◌, refl, List, [], Result, ok, err, Result-cases, inl, inr}
use ritebook.Prelude.Actions.{Action, continue, raise, lift, ◌>>=◌}
use ritebook.Text.{Text}
use ritebook.Contribution.Errors.{Exception}
use ritebook.Contribution.Records.{
  ContributionLockfileEntry, ContributionWorkspace, SkillChangeStatus, no_changes, changed,
  upstream_changed, PublishSkillChangeCommand, parse,
}
use ritebook.Contribution.Execute.{
  PublishPorts, publish_change, publish_compared, validate_required_provenance, execute,
}
use ritebook.Contribution.Execute.Order.{
  Step, branched, copied, validated, regenerated, committed, resolved, prepared, shown, recorded,
  logged, IsOrdered, execute-IsOrdered,
}

-- What is left of an outcome without the record.
abbrev pub erase : {R W : Type 0} → R × (W × List Step) → R × W
erase (r, (w, steps)) = (r, w)

recorded-erase :
    {A R W : Type 0} (step : A → Step) (steps : List Step) (out : Result Exception A × W)
    (f' : A → Action Exception (W × List Step) R) (f : A → Action Exception W R)
    → ((a : A) (w : W) (later : List Step) → erase (f' a (w, later)) ≡ f a w)
    → erase (continue (recorded step steps out).0 f' (recorded step steps out).1)
      ≡ continue out.0 f out.1
recorded-erase step steps (ok a, w) f' f h = h a w _
recorded-erase step steps (err e, w) f' f h = refl

module _ (P : PublishPorts) where
  compared-erase :
      (requirement : Text) (entry : ContributionLockfileEntry) (workspace : ContributionWorkspace)
      (status : SkillChangeStatus) (w : P.World) (steps : List Step)
      → erase (publish_compared (logged P) requirement entry workspace status (w, steps))
        ≡ publish_compared P requirement entry workspace status w
  unfolding publish_compared publish_change raise lift ◌>>=◌
  compared-erase requirement entry workspace upstream_changed w steps = refl
  compared-erase requirement entry workspace no_changes w steps = refl
  compared-erase requirement entry workspace changed w steps =
      recorded-erase (λ _. branched) steps (P.prepare_branch entry workspace w) _ _
        λ branch w1 l1.
          recorded-erase (λ _. copied) l1 (P.copy_installed_skill entry workspace w1) _ _
            λ _ w2 l2.
              recorded-erase (λ _. validated) l2 (P.validate entry workspace w2) _ _
                λ _ w3 l3.
                  recorded-erase (λ _. regenerated) l3 (P.regenerate_index entry workspace w3) _ _
                    λ _ w4 l4.
                      recorded-erase (λ _. committed) l4
                        (P.commit_changes entry workspace branch w4) _ _ λ done w5 l5. refl

  -- A run with ports that record their calls returns what a run with the ports returns, and leaves
  -- the same state.
  pub execute-logged :
      (command : PublishSkillChangeCommand) (w : P.World) (steps : List Step)
      → erase (execute (logged P) command (w, steps)) ≡ execute P command w
  unfolding execute lift ◌>>=◌
  execute-logged command w steps = elim (Result-cases (parse command.skill_reference)) [
    | inr (x, e) ↦ rw e refl
    | inl (reference, e) ↦ rw e (
        recorded-erase (λ _. resolved) steps (P.resolve_entry reference command.lockfile_path w) _ _
          λ entry w1 l1.
            elim (Result-cases (validate_required_provenance entry reference.requirement)) [
              | inr (x, e) ↦ rw e refl
              | inl (u, e) ↦ rw e (
                  recorded-erase (λ _. prepared) l1
                    (P.prepare_workspace entry command.contribution_root w1) _ _
                    λ workspace w2 l2.
                      recorded-erase shown l2 (P.compare entry workspace w2) _ _ λ comparison w3 l3.
                        compared-erase reference.requirement entry workspace comparison.status w3
                          l3)
            ])
  ]

  -- A run of a contribution takes its steps in the specified order, as ports that record their calls
  -- show it. What succeeds as changed was compared as changed, copied to a new branch, validated,
  -- indexed and then committed; what succeeds without changes was compared so, and no port was
  -- called after that; what was changed upstream does not succeed. A run that fails has taken the
  -- first few steps of those that its comparison leaves to do: none after a comparison that does not
  -- show a change. But for the record, a run with these ports is a run with the ports.
  pub execute-refines :
      (command : PublishSkillChangeCommand) (w : P.World)
      → IsOrdered P (execute (logged P) command (w, []))
        × (erase (execute (logged P) command (w, [])) ≡ execute P command w)
  execute-refines command w = (execute-IsOrdered P command w, execute-logged command w [])
