-- ===== src/Contribution/Git.antt =====
-- What the adapters of skill_contribution/adapters/outbound/ use of git, of the file system and of
-- the language, and the helpers with which they run git.
use ritebook.Prelude.{ℕ, Bool, ◌||◌, not, List, [], ◌∷◌, Option, map}
use ritebook.Prelude.{◌==◌, nat_eq, list_eq, if◌then◌else◌}
use ritebook.Prelude.Actions.{Action, pure, raise, ◌>>=◌}
use ritebook.Text.{Text, codes, strip}
use ritebook.Contribution.Errors.{Exception, contribution, contribution_git}

-- `subprocess.CompletedProcess`: a negative code, of a signal, stands for itself as some number
-- above 255.
pub record CompletedProcess : Type 0 where
  pub returncode : ℕ
  pub stdout : Text

pub record ContributionHost : Type 1 where
  pub World : Type 0
  -- the runners, which the adapters are given; the output of the second is bytes
  pub run : List Text → Action Exception World CompletedProcess
  pub run_bytes : List Text → Action Exception World CompletedProcess
  -- Path(path).exists(), is_dir(), is_file(), is_symlink()
  pub exists : World → Text → Bool
  pub is_dir : World → Text → Bool
  pub is_file : World → Text → Bool
  pub is_symlink : World → Text → Bool
  -- str(path.resolve(strict=False)), which may raise `OSError`
  pub resolve : World → Text → Option Text
  -- str(path.resolve(strict=True)) and path.read_bytes(), which may raise `OSError`
  pub resolve_strict : World → Text → Option Text
  pub read_bytes : World → Text → Option (List ℕ)
  -- Path.cwd(), and os.chdir(path): whether it succeeds
  pub cwd : World → Text
  pub chdir : Text → Action Exception World Bool
  -- path.parent.mkdir(parents=True, exist_ok=True)
  pub make_parents : Text → Action Exception World Unit
  -- path.write_text(content): whether it succeeds
  pub write_text : Text → Text → Action Exception World Bool
  -- Path(path).expanduser() and str(Path(path) / name)
  pub expanduser : Text → Text
  pub join_path : Text → Text → Text
  -- str(Path(path).joinpath(*parts))
  pub join_all : Text → List Text → Text
  -- Path(path).is_relative_to(root)
  pub is_relative_to : Text → Text → Bool
  -- hashlib.sha256(value).hexdigest(), of an encoded text and of bytes
  pub sha256 : Text → Text
  pub sha256_bytes : Text → Text
  -- self._clock().astimezone(UTC).strftime("%Y%m%d%H%M%S")
  pub timestamp : Action Exception World Text

-- value.replace("/", "-")
abbrev pub slug : Text → Text
slug = map (λ (c : ℕ). if c == b'/' then b'-' else c)

abbrev pub git_error : Exception
git_error = contribution contribution_git

-- `_git`
abbrev pub git : Text → List Text → List Text
git checkout_path arguments =
    codes "git" ∷ codes "--no-pager" ∷ codes "-C" ∷ checkout_path ∷ arguments

module _ (H : ContributionHost) where
  -- `_run`
  unfoldable pub run_git : List Text → Action Exception H.World Unit
  run_git command = do
    result ← H.run command
    if result.returncode == 0 then pure tt else raise git_error

  -- `_read_required_output`
  unfoldable pub read_required_output : List Text → Action Exception H.World Text
  read_required_output command = do
    result ← H.run command
    let value = strip result.stdout
    if not (result.returncode == 0) || value == [] then raise git_error else pure value
