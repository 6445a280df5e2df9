-- ===== src/Registry/Store/Paths.antt =====
-- Paths of the cache, as their parts, the last one first.
use ritebook.Prelude.{
  ℕ, Bool, false, ◌&&◌, ◌||◌, List, [], ◌∷◌, ◌==◌, nat_eq, list_eq, leb, all, length,
}
use ritebook.Text.{Text, codes}

abbrev pub FilePath : Type 0
FilePath = List Text

abbrev pub index_file : Text
index_file = codes "ritebook-index.json"

-- registry_cache_root(...) / "indexes" / name
unfoldable pub alias_root : FilePath → Text → FilePath
alias_root cache_root name = name ∷ codes "indexes" ∷ cache_root

-- the last two parts of `cached_index_path`
unfoldable pub index_path : FilePath → Text → FilePath
index_path root hex = index_file ∷ hex ∷ root

-- `_is_digest_directory`, of a directory's name
unfoldable pub is_digest_directory : Text → Bool
is_digest_directory name =
    length name == 64 && all (λ (c : ℕ). leb b'0' c && leb c b'9' || leb b'a' c && leb c b'f') name

-- `_is_owned_generation`
unfoldable pub is_owned_generation : FilePath → FilePath → Bool
unfolding is_digest_directory
is_owned_generation root [] = false
is_owned_generation root (file ∷ []) = false
is_owned_generation root (file ∷ directory ∷ parent) =
    file == index_file && parent == root && is_digest_directory directory
