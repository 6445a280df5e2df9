-- ===== src/Contribution/Workspace/Safety.antt =====
-- Which checkouts the preparation of a workspace touches, and what it verifies.
use mathlib.Core.Path.{subst}
use ritebook.Prelude.{
  ◌≡◌, refl, Bool, true, false, not, [], ◌∷◌, ◌++◌, Option, ok, arith, catch, catch-eq-ok,
}
use ritebook.Prelude.{◌==◌, nat_eq, list_eq, eq_iff}
use ritebook.Prelude.Actions.{pure, raise, lift, bind-eq-ok, Ensures, bind-Ensures}
use ritebook.Text.{Text, codes}
use ritebook.Contribution.Errors.{value_error}
use ritebook.Contribution.Records.{
  ContributionLockfileEntry, ContributionWorkspace, check_workspace,
}
use ritebook.Contribution.Git.{ContributionHost, CompletedProcess, git}
use ritebook.Contribution.Workspace.{
  refresh_checkout, fail_if, verify_locked_provenance, prepare_workspace,
}

check_workspace-eq-ok : (w w' : ContributionWorkspace) → check_workspace w ≡ ok w' → w ≡ w'
unfolding check_workspace
check_workspace-eq-ok w w' h = ground arith

module _ (H : ContributionHost) where
  -- The committed index of the locked revision, as git showed it, has the locked digest.
  pub record IsVerified (entry : ContributionLockfileEntry) (checkout : Text) : Type 0 where
    pub before : H.World
    pub shown : CompletedProcess
    pub run :
        (H.run_bytes
          (git checkout
            (codes "show" ∷ (entry.source_revision ++ codes ":ritebook-index.json") ∷ []))
          before).0
        ≡ ok shown
    pub succeeded : shown.returncode ≡ 0
    pub digest : codes "sha256:" ++ H.sha256_bytes shown.stdout ≡ entry.index_digest

  fail_if-eq-ok : (b : Bool) (w : H.World) {u : Unit} → (fail_if H b w).0 ≡ ok u → b ≡ false
  unfolding raise pure
  fail_if-eq-ok true w h = ground arith
  fail_if-eq-ok false w h = refl

  verify_locked_provenance-IsVerified :
      (checkout : Text) (entry : ContributionLockfileEntry) (w : H.World) {u : Unit}
      → (verify_locked_provenance H checkout entry w).0 ≡ ok u
      → IsVerified entry checkout
  unfolding verify_locked_provenance
  verify_locked_provenance-IsVerified checkout entry w h =
      let (revision, _, h1) =
        bind-eq-ok (H.run _) _ w (λ i. (h i, (verify_locked_provenance H checkout entry w).1)) in
      let (_, _, h2) = bind-eq-ok (fail_if H (not (revision.returncode == 0))) _ _ h1 in
      let (shown, run, h3) = bind-eq-ok (H.run_bytes _) _ _ h2 in
      let (_, code, h4) = bind-eq-ok (fail_if H (not (shown.returncode == 0))) _ _ h3 in
      let same =
        fail_if-eq-ok (not (codes "sha256:" ++ H.sha256_bytes shown.stdout == entry.index_digest)) _
          (λ i. (h4 i).0) in
      record {
        before = _;
        shown = shown;
        run = run;
        succeeded =
            (eq_iff shown.returncode 0).0
              (ground (arith, fail_if-eq-ok (not (shown.returncode == 0)) _ code));
        digest = (eq_iff _ entry.index_digest).0 (ground (arith, same));
      }

  -- What `refresh_checkout` returns is verified, and is the checkout that it was given.
  Verified : ContributionLockfileEntry → ContributionWorkspace → H.World → Type 0
  Verified entry workspace w = IsVerified entry workspace.checkout_path

  check_workspace-Ensures :
      (entry : ContributionLockfileEntry) (workspace : ContributionWorkspace) (w : H.World)
      → IsVerified entry workspace.checkout_path
      → Ensures (Verified entry) (lift (catch (check_workspace workspace) value_error)) w
  unfolding lift Verified
  check_workspace-Ensures entry workspace w verified = record {
    apply = λ r t h.
        let same = check_workspace-eq-ok workspace r (catch-eq-ok _ _ (λ i. (h i).0)) in
        subst (λ (x : ContributionWorkspace). IsVerified entry x.checkout_path) same verified;
  }

  refresh_checkout-Ensures :
      (entry : ContributionLockfileEntry) (checkout : Text) (w : H.World)
      → Ensures (Verified entry) (refresh_checkout H entry checkout) w
  unfolding refresh_checkout
  refresh_checkout-Ensures entry checkout w = bind-Ensures _ _ _ w λ origin _.
      bind-Ensures _ _ _ _ λ _ _. bind-Ensures _ _ _ _ λ _ verified. bind-Ensures _ _ _ _ λ base _.
        bind-Ensures _ _ _ _ λ _ _. bind-Ensures _ _ _ _ λ _ _. bind-Ensures _ _ _ _ λ _ _.
          bind-Ensures _ _ _ _ λ revision _.
            check_workspace-Ensures entry _ _
              (verify_locked_provenance-IsVerified checkout entry _ verified)

  prepare_workspace-Ensures :
      (entry : ContributionLockfileEntry) (contribution_root : Option Text) (w : H.World)
      → Ensures (Verified entry) (prepare_workspace H entry contribution_root) w
  unfolding prepare_workspace
  prepare_workspace-Ensures entry contribution_root w = bind-Ensures _ _ _ w λ _ _.
      bind-Ensures _ _ _ _
        λ checkout _. bind-Ensures _ _ _ _ λ _ _. refresh_checkout-Ensures entry checkout _

  -- A workspace that is prepared was verified: git showed the index of the locked revision, in the
  -- checkout that is returned, and it has the digest of the lockfile's entry.
  pub prepare_workspace-IsVerified :
      (entry : ContributionLockfileEntry) (contribution_root : Option Text) (w w' : H.World)
      (workspace : ContributionWorkspace)
      → prepare_workspace H entry contribution_root w ≡ (ok workspace, w')
      → IsVerified entry workspace.checkout_path
  unfolding Verified
  prepare_workspace-IsVerified entry contribution_root w w' workspace h =
      (prepare_workspace-Ensures entry contribution_root w).apply workspace w' h
