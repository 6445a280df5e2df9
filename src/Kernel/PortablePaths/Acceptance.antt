-- ===== src/Kernel/PortablePaths/Acceptance.antt =====
-- Which literals are accepted, and what the accepted path is.
use ritebook.Prelude.{◌≡◌, refl, ◌≢◌, ◌↔◌, true, false, List, [], ◌∷◌, any, arith}
use ritebook.Prelude.{String, All, All-any, ◌==◌, nat_eq, list_eq, contains, ok}
use ritebook.Prelude.{sym, ◌∙◌, list_beq}
use ritebook.Text.{Text, codes, split, ends_with, join}
use ritebook.Text.Laws.{join-split}
use ritebook.Kernel.TextSafety.{is_non_portable_character, require_portable_text}
use ritebook.Kernel.PortablePaths.{
  is_malformed_literal, posix_parts, windows_forbidden_characters, windows_reserved_names,
  base_name, casefold, is_portable_segment, check_segments, validate_portable_relative_posix_path,
}
use ritebook.Kernel.PortablePaths.Slashes.{
  is_empty, is_malformed_part, is_malformed_literal-split, posix_parts-split,
}

-- What a path segment must be, for every file system that the catalog is meant for.
pub record IsPortableSegment (segment : Text) : Type 0 where
  pub nonempty : segment ≢ []
  pub portable : All (λ c. is_non_portable_character c ≡ false) segment
  pub no_dot_end : ends_with segment (codes ".") ≡ false
  pub no_space_end : ends_with segment (codes " ") ≡ false
  pub allowed : All (λ c. contains windows_forbidden_characters c ≡ false) segment
  pub not_reserved : contains windows_reserved_names (casefold (base_name segment)) ≡ false

nonempty_iff : (segment : Text) → (is_empty segment ≡ false) ↔ (segment ≢ [])
nonempty_iff [] = ground arith
nonempty_iff (c ∷ segment) = ground arith

is_portable_segment_iff :
    (segment : Text)
    → ((is_portable_segment segment ≡ true) × (is_empty segment ≡ false))
      ↔ IsPortableSegment segment
unfolding is_portable_segment require_portable_text
is_portable_segment_iff segment = (
  λ h. record {
    nonempty = (nonempty_iff segment).0 h.1;
    portable = (All-any is_non_portable_character segment).0 (ground arith);
    no_dot_end = ground arith;
    no_space_end = ground arith;
    allowed = (All-any (λ c. contains windows_forbidden_characters c) segment).0 (ground arith);
    not_reserved = ground arith;
  },
  λ h. (
    ground (
      arith,
      (All-any is_non_portable_character segment).1 h.portable,
      (All-any (λ c. contains windows_forbidden_characters c) segment).1 h.allowed,
      h.no_dot_end,
      h.no_space_end,
      h.not_reserved,
    ),
    (nonempty_iff segment).1 h.nonempty,
  ),
)

any-backslash :
    (segment : Text)
    → any (λ c. contains windows_forbidden_characters c) segment ≡ false
    → any (λ c. c == b'\\') segment ≡ false
any-backslash [] h = refl
any-backslash (c ∷ segment) h = ground (arith, any-backslash segment)

ends_with_dots :
    (segment : Text)
    → ends_with segment (codes ".") ≡ false
    → ((segment == codes ".") ≡ false) × ((segment == codes "..") ≡ false)
unfolding ends_with list_beq
ends_with_dots [] h = (refl, refl)
ends_with_dots (c ∷ []) h = ground arith
ends_with_dots (c ∷ d ∷ segment) h = ground arith

-- The checks of one segment cover the literal tests of it.
is_malformed_part_of_portable :
    (segment : Text)
    → is_portable_segment segment ≡ true
    → is_empty segment ≡ false
    → is_malformed_part segment ≡ false
unfolding is_portable_segment is_malformed_part
is_malformed_part_of_portable segment h k =
    ground (arith, any-backslash segment, ends_with_dots segment)

check_segments_iff :
    (segments : List Text) (field_name : String)
    → (check_segments segments field_name ≡ ok tt)
      ↔ All (λ segment. is_portable_segment segment ≡ true) segments
unfolding check_segments
check_segments_iff [] field_name = (λ h. tt, λ h. refl)
check_segments_iff (segment ∷ segments) field_name =
    ground (arith, check_segments_iff segments field_name)

All-portable_iff :
    (segments : List Text)
    → All IsPortableSegment segments ↔ (
        (any is_malformed_part segments ≡ false)
        × All (λ segment. is_portable_segment segment ≡ true) segments)
unfolding is_malformed_part
All-portable_iff [] = (λ h. (refl, tt), λ h. tt)
All-portable_iff (segment ∷ segments) = ground (
  arith,
  is_portable_segment_iff segment,
  is_malformed_part_of_portable segment,
  All-portable_iff segments,
)

accepts :
    (value : Text) (field_name : String) (parts : List Text)
    → validate_portable_relative_posix_path value field_name false ≡ ok parts
    → (is_malformed_literal value ≡ false)
      × (check_segments (split b'/' value) field_name ≡ ok tt)
      × (posix_parts value ≡ parts)
unfolding validate_portable_relative_posix_path
accepts value field_name parts h = ground arith

accepted :
    (value : Text) (field_name : String) (parts : List Text)
    → is_malformed_literal value ≡ false
    → check_segments (split b'/' value) field_name ≡ ok tt
    → posix_parts value ≡ parts
    → validate_portable_relative_posix_path value field_name false ≡ ok parts
unfolding validate_portable_relative_posix_path
accepted value field_name parts h k e = ground arith

-- A literal is accepted exactly when each part between its slashes is a portable segment; the
-- path then has those parts, which joined by slashes are the literal.
pub validate_portable_relative_posix_path_iff :
    (value : Text) (field_name : String) (parts : List Text)
    → (validate_portable_relative_posix_path value field_name false ≡ ok parts)
      ↔ (All IsPortableSegment parts × (parts ≡ split b'/' value) × (join b'/' parts ≡ value))
validate_portable_relative_posix_path_iff value field_name parts = (to, from)
  where
    to :
        validate_portable_relative_posix_path value field_name false ≡ ok parts
        → All IsPortableSegment parts × (parts ≡ split b'/' value) × (join b'/' parts ≡ value)
    to h =
        let (literal, checked, same) = accepts value field_name parts h in
        let e : split b'/' value ≡ parts = sym (posix_parts-split value literal) ∙ same in
        rw (← e) (
          (All-portable_iff (split b'/' value)).1 (
            rw is_malformed_literal-split at literal,
            (check_segments_iff _ field_name).0 checked,
          ),
          refl,
          join-split b'/' value,
        )

    from :
        All IsPortableSegment parts × (parts ≡ split b'/' value) × (join b'/' parts ≡ value)
        → validate_portable_relative_posix_path value field_name false ≡ ok parts
    from (h, e, _) =
        let k = (All-portable_iff (split b'/' value)).0 (rw e at h) in
        accepted value field_name parts (rw is_malformed_literal-split k.0)
          ((check_segments_iff _ field_name).1 k.1)
          (posix_parts-split value (rw is_malformed_literal-split k.0) ∙ sym e)
