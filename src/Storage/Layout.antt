-- ===== src/Storage/Layout.antt =====
-- The parts of archive paths (src/zammad_pdf_archiver/adapters/storage/layout.py and
-- app/jobs/ticket_path.py).
use zammad_ticket_archiver.Base.{
  ℕ, Bool, ◌||◌, Option, none, some, List, [], ◌∷◌, ◌++◌, map, length, take, contains, ◌==◌,
  list_beq, nat_eq, any, if◌then◌else◌,
}
use zammad_ticket_archiver.Base.Text.{Text, codes, text_eq, strip}
use zammad_ticket_archiver.Errors.{value_error}
use zammad_ticket_archiver.Effect.{Reply, Done, ok, err}
use zammad_ticket_archiver.Effect.Replies.{◌>>=◌, ◌>>◌}
use zammad_ticket_archiver.PathPolicy.{UnicodeData, sanitize_segment, validate_segments}

abbrev pub refuse : {A : Type 0} → Text → Reply A
refuse message = err (value_error message)

-- The defaults of `validate_segments`
abbrev pub default_depth : ℕ
default_depth = 10

abbrev pub default_length : ℕ
default_length = 64

-- The pieces of a text between the characters with `p`, as str.split and re.split give them.
abbrev pub onto_first : ℕ → List Text → List Text
onto_first c [] = (c ∷ []) ∷ []
onto_first c (piece ∷ pieces) = (c ∷ piece) ∷ pieces

unfoldable pub split_at : (ℕ → Bool) → Text → List Text
split_at p [] = [] ∷ []
split_at p (c ∷ s) = let rest = split_at p s in if p c then [] ∷ rest else onto_first c rest

-- [p for p in (part.strip() for part in parts) if p]
unfoldable pub strip_parts : List Text → List Text
strip_parts [] = []
strip_parts (part ∷ parts) =
    let rest = strip_parts parts in
    let stripped = strip part in if stripped == [] then rest else stripped ∷ rest

-- `_PREFIX_SPLIT_RE`
abbrev pub is_prefix_separator : ℕ → Bool
is_prefix_separator c = c == b'>' || c == b'/'

abbrev pub some_parts : Text → List Text → Reply (List Text)
some_parts message [] = refuse message
some_parts message (part ∷ parts) = ok (part ∷ parts)

-- `_parse_prefix_segments`
unfoldable pub parse_prefix_segments : Text → Reply (List Text)
parse_prefix_segments prefix =
    if strip prefix == []
    then refuse (codes "allow_prefixes entries must be non-empty strings")
    else some_parts (codes "allow_prefixes entry produced no segments")
        (strip_parts (split_at is_prefix_separator prefix))

-- segments[: len(prefix)] == prefix
abbrev pub starts_with : List Text → List Text → Bool
starts_with segments prefix = list_beq (take (length prefix) segments) prefix

-- How `pattern.format` ends; any exception but KeyError and ValueError is `failed`.
pub data Formatted : Type 0 where
  formatted unknown_placeholder bad_format failed : Text → Formatted

-- The `try` in `build_filename_from_pattern`.
abbrev pub rendered_of : Formatted → Reply Text
rendered_of (formatted s) = ok s
rendered_of (unknown_placeholder key) =
    refuse (codes "invalid filename_pattern format: unknown placeholder " ++ key)
rendered_of (bad_format message) = refuse message
rendered_of (failed message) = refuse (codes "invalid filename_pattern format: " ++ message)

-- What it checks of the stripped name.
unfoldable pub check_filename : Text → Reply Text
check_filename rendered =
    if rendered == []
    then refuse (codes "filename_pattern produced an empty filename")
    else if rendered == codes "." || rendered == codes ".."
    then refuse (codes "filename must not be '.' or '..'")
    else if contains rendered b'/' || contains rendered 0x5c || contains rendered 0
    then refuse (codes "filename_pattern must not include path separators or null bytes")
    else (do validate_segments 1 255 (rendered ∷ []); ok rendered)

module _ (unicode : UnicodeData) where
  abbrev pub sanitize_all : List Text → List Text
  sanitize_all = map (sanitize_segment unicode)

  -- The loop over `allow_prefixes`.
  unfoldable pub allowed_of : List Text → Reply (List (List Text))
  allowed_of [] = ok []
  allowed_of (prefix ∷ prefixes) = do
    parts ← parse_prefix_segments prefix
    validate_segments default_depth default_length parts
    safe ← validate_segments default_depth default_length (sanitize_all parts)
    allowed ← allowed_of prefixes
    ok (safe ∷ allowed)

  -- What `build_target_dir` checks of the sanitized segments by its allow-list.
  unfoldable pub check_allowed : Option (List Text) → List Text → Reply Done
  check_allowed none segments = ok tt
  check_allowed (some []) segments =
      refuse (codes "allow_prefixes is empty; no archive path allowed")
  check_allowed (some (prefix ∷ prefixes)) segments = do
    allowed ← allowed_of (prefix ∷ prefixes)
    (if any (starts_with segments) allowed
        then ok tt
        else refuse (codes "archive_path is not allowed by allow_prefixes policy"))

  -- `build_target_dir` up to its path: the parts below the root.
  unfoldable pub target_parts : Text → List Text → Option (List Text) → Reply (List Text)
  target_parts username segments allow_prefixes = do
    validate_segments 1 default_length (username ∷ [])
    validate_segments default_depth default_length segments
    validate_segments 1 default_length (sanitize_segment unicode username ∷ [])
    validate_segments default_depth default_length (sanitize_all segments)
    check_allowed allow_prefixes (sanitize_all segments)
    ok (sanitize_segment unicode username ∷ sanitize_all segments)

  -- `build_filename_from_pattern`; `format pattern ticket_number date` is `str.format`, with the date
  -- for timestamp_utc and for date_utc.
  unfoldable pub build_filename_from_pattern :
      (Text → Text → Text → Formatted) → Text → Text → Text → Reply Text
  build_filename_from_pattern format pattern ticket_number timestamp_utc =
      if strip pattern == [] then refuse (codes "pattern must be a non-empty string") else (do
        rendered ← rendered_of (
            format pattern (sanitize_segment unicode ticket_number)
              (sanitize_segment unicode timestamp_utc))
        check_filename (strip rendered))
