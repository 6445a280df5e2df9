-- ===== src/Kernel/GitSources.antt =====
-- shared_kernel/git_sources.py: what may be stored as a source
use ritebook.Prelude.{Bool, false, ◌||◌, not, Option, some, Result, ok, err}
use ritebook.Prelude.{◌==◌, nat_eq, list_eq, if◌then◌else◌}
use ritebook.Text.{Text, codes, has_sub}
use ritebook.Kernel.Errors.{ValueError, unsafe_git_source}

-- `urlsplit`, which may raise `ValueError`, as far as the code looks: whether there is a user name
-- or a password.
pub record UrlLibrary : Type 0 where
  pub has_credentials : Text → Option Bool

abbrev pub git_url_source_type : Text
git_url_source_type = codes "git_url"

abbrev refuse_credentials : Option Bool → Result ValueError Unit
refuse_credentials (some false) = ok tt
refuse_credentials _ = err unsafe_git_source

unfoldable pub require_safe_persisted_source : UrlLibrary → Text → Text → Result ValueError Unit
require_safe_persisted_source U source source_type =
    if not (source_type == git_url_source_type) || not (has_sub source (codes "://"))
    then ok tt
    else refuse_credentials (U.has_credentials source)
