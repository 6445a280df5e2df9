-- ===== src/Installation/Direct/Ownership.antt =====
-- What a direct installation may replace, and what it records.
use ritebook.Prelude.{Bool, ◌==◌, nat_eq, list_eq, option_eq}
use ritebook.Text.{Text}
use ritebook.Installation.Records.{OwnedInstallation}

abbrev pub owns : Text → OwnedInstallation → Bool
owns target entry = entry.canonical_target == target
