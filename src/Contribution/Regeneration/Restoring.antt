-- ===== src/Contribution/Regeneration/Restoring.antt =====
-- `regenerate_index` and the working directory, which it changes around the publisher.
use ritebook.Prelude.{
  ℕ, ◌≡◌, refl, Bool, true, false, Option, none, some, List, ◌⊎◌, inl, inr, Result, ok, err, ap,
  ◌∙◌,
}
use ritebook.Prelude.Actions.{
  Action, Keeps, continue, raise, pure, lift, ◌>>=◌, continue_stays, pure-Keeps, lift-Keeps,
  raise-Keeps, bind-Keeps,
}
use ritebook.Text.{Text}
use ritebook.Kernel.StrictJson.{JsonLibrary}
use ritebook.Kernel.Timestamps.{DatetimeLibrary}
use ritebook.Contribution.Errors.{Exception}
use ritebook.Contribution.Records.{ContributionLockfileEntry, ContributionWorkspace}
use ritebook.Contribution.Git.{ContributionHost}
use ritebook.Contribution.Catalog.{PublishIndexCommand}
use ritebook.Contribution.Regeneration.{
  Neighbours, PublishOutcome, published, validation_error, publisher_error, os_error,
  regeneration_error, require, validate_checkout_path, name_in, published_name, end_with,
  publish_in, regenerate_index,
}

module _ (H : ContributionHost) (N : Neighbours H) where
  -- What `os` documents: `chdir` changes to a directory or raises `OSError`, and a directory that
  -- was the working directory is again once it is changed to.
  pub record IsChdir : Type 0 where
    pub ends :
        (path : Text) (w : H.World)
        → ((H.chdir path w).0 ≡ ok true) ⊎ ((H.chdir path w).0 ≡ ok false)
    pub returns :
        (w later : H.World)
        → (H.chdir (H.cwd w) later).0 ≡ ok true
        → H.cwd (H.chdir (H.cwd w) later).1 ≡ H.cwd w

  -- A run that leaves the directory, or fails as a regeneration.
  abbrev pub Restores : {A : Type 0} → Text → Result Exception A × H.World → Type 0
  Restores directory out = (H.cwd out.1 ≡ directory) ⊎ (out.0 ≡ err regeneration_error)

  continue-Restores :
      {A B : Type 0} (c : Text) (r : Result Exception A) (f : A → Action Exception H.World B)
      (w : H.World)
      → H.cwd w ≡ c
      → ((a : A) → Restores c (f a w))
      → Restores c (continue r f w)
  continue-Restores c (ok a) f w h k = k a
  continue-Restores c (err e) f w h k = inl h

  bind-Restores :
      {A B : Type 0} (c : Text) (m : Action Exception H.World A)
      (f : A → Action Exception H.World B)
      → Keeps (λ w. H.cwd w ≡ c) m
      → ((a : A) (w : H.World) → H.cwd w ≡ c → Restores c (f a w))
      → (w : H.World) → H.cwd w ≡ c
      → Restores c ((m >>= f) w)
  unfolding ◌>>=◌
  bind-Restores c m f keeps k w h =
      let h1 = keeps.apply w h in continue-Restores c (m w).0 f (m w).1 h1 λ a. k a _ h1

  module _ (chdir : IsChdir) (D : DatetimeLibrary) (J : JsonLibrary) where
    publish_in-cwd :
        (checkout : Text) (command : PublishIndexCommand) (w : H.World)
        → (H.cwd (publish_in H N D J checkout command w).1 ≡ H.cwd w)
          ⊎ ((publish_in H N D J checkout command w).0 ≡ ok os_error)
    unfolding publish_in ◌>>=◌ pure lift
    publish_in-cwd checkout command w = elim (chdir.ends checkout w) [
      | inr e ↦ rw e (inr refl)
      | inl e ↦
          let out = N.publish command (H.chdir checkout w).1 in
          rw e (elim (chdir.ends (H.cwd w) out.1) [
            | inr e' ↦ rw e' (inr refl)
            | inl e' ↦ rw e' (inl (chdir.returns w out.1 e'))
          ])
    ]

    ends_quietly : (outcome : PublishOutcome) (w : H.World) → (end_with H N D J outcome w).1 ≡ w
    unfolding pure raise
    ends_quietly published w = refl
    ends_quietly validation_error w = refl
    ends_quietly publisher_error w = refl
    ends_quietly os_error w = refl

    ends_with-Restores :
        (c : Text) (r : Result Exception PublishOutcome) (w : H.World)
        → (H.cwd w ≡ c) ⊎ (r ≡ ok os_error)
        → Restores c (continue r (end_with H N D J) w)
    unfolding pure raise
    ends_with-Restores c r w (inr e) = rw e (inr refl)
    ends_with-Restores c r w (inl h) =
        inl
          (ap H.cwd (continue_stays r (end_with H N D J) w (λ outcome. ends_quietly outcome w)) ∙ h)

    published-Restores :
        (c checkout : Text) (command : PublishIndexCommand) (w : H.World)
        → H.cwd w ≡ c
        → Restores c ((publish_in H N D J checkout command >>= end_with H N D J) w)
    unfolding ◌>>=◌
    published-Restores c checkout command w h =
        ends_with-Restores c (publish_in H N D J checkout command w).0 _
          (elim (publish_in-cwd checkout command w) [ inl e ↦ inl (e ∙ h) | inr e ↦ inr e ])

    require-Keeps : (c : Text) (b : Bool) → Keeps (λ w. H.cwd w ≡ c) (require H N b)
    require-Keeps c true = pure-Keeps _
    require-Keeps c false = raise-Keeps _

    validate_checkout_path-Keeps :
        (c checkout : Text) → Keeps (λ w. H.cwd w ≡ c) (validate_checkout_path H N checkout)
    unfolding validate_checkout_path
    validate_checkout_path-Keeps c checkout = record {
      apply = λ w.
          (bind-Keeps _ _ (require-Keeps c _)
              λ _. bind-Keeps _ _ (require-Keeps c _) λ _. require-Keeps c _).apply
            w;
    }

    name_in-Keeps :
        (c : Text) (content : Option (List ℕ)) → Keeps (λ w. H.cwd w ≡ c) (name_in H N D J content)
    name_in-Keeps c none = raise-Keeps _
    name_in-Keeps c (some content) = bind-Keeps _ _ (lift-Keeps _) λ _. pure-Keeps _

    published_name-Keeps :
        (c checkout : Text) → Keeps (λ w. H.cwd w ≡ c) (published_name H N D J checkout)
    unfolding published_name
    published_name-Keeps c checkout = record {
      apply = λ w.
          (bind-Keeps _ _ (require-Keeps c _)
              λ _. bind-Keeps _ _ (require-Keeps c _) λ _. name_in-Keeps c _).apply
            w;
    }

    -- A regeneration ends in the working directory that it was started in, whatever the publisher
    -- does and however it ends, or it fails as a regeneration.
    pub regenerate_index-Restores :
        (entry : ContributionLockfileEntry) (workspace : ContributionWorkspace) (w : H.World)
        → Restores (H.cwd w) (regenerate_index H N D J entry workspace w)
    unfolding regenerate_index
    regenerate_index-Restores entry workspace w =
        let c = H.cwd w in
        bind-Restores c _ _ (validate_checkout_path-Keeps c _)
          (λ _. bind-Restores c _ _ (published_name-Keeps c _) λ name.
            bind-Restores c _ _ (lift-Keeps _) λ root.
              bind-Restores c _ _ (lift-Keeps _)
                λ command w' h. published-Restores c workspace.checkout_path command w' h)
          w refl
