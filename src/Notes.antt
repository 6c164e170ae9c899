-- ===== src/Notes.antt =====
-- The notes on tickets (src/zammad_pdf_archiver/app/jobs/ticket_notes.py).
pub mod Markup
use zammad_ticket_archiver.Base.{
  ℕ, Bool, true, false, ◌&&◌, ◌||◌, Option, none, some, List, [], ◌∷◌, ◌++◌, ◌==◌, nat_eq,
  if◌then◌else◌,
}
use zammad_ticket_archiver.Base.Text.{Text, codes, strip, lower, has_part, or_text, show_nat}
use zammad_ticket_archiver.Errors.{
  Exc, DomainError, transient_error, permanent_error, message, auth_error, not_found, server_error,
  rate_limit, os_error, value_error, type_error,
}
use zammad_ticket_archiver.Queue.{or_blank}

-- One character of `html.escape`.
unfoldable pub escape_one : ℕ → Text
escape_one c =
    if c == b'&'
    then codes "&amp;"
    else if c == b'<'
    then codes "&lt;"
    else if c == b'>'
    then codes "&gt;"
    else if c == b'"'
    then codes "&quot;"
    else if c == 0x27
    then codes "&#x27;"
    else c ∷ []

-- `html.escape`
unfoldable pub escape : Text → Text
escape [] = []
escape (c ∷ s) = escape_one c ++ escape s

-- f"<li>{label}: <code>{text}</code></li>"
abbrev pub list_item : Text → Text → Text
list_item label text =
    codes "<li>" ++ (label ++ (codes ": <code>" ++ (text ++ codes "</code></li>")))

abbrev pub joined : List Text → Text
joined [] = []
joined (s ∷ texts) = s ++ joined texts

-- f"<p><strong>{title} ({VERSION})</strong></p>" and the list of the items
abbrev pub note : Text → Text → List Text → Text
note title version items =
    codes "<p><strong>"
    ++ (title
        ++ (codes " ("
            ++ (version
                ++ (codes ")</strong></p>" ++ (codes "<ul>" ++ (joined items ++ codes "</ul>"))))))

-- escape(value or default)
abbrev pub escape_or : Option Text → Text → Text
escape_or value default = escape (or_text (or_blank value) default)

-- `success_note_html`
unfoldable pub success_note_html :
    Text → Text → Text → Text → ℕ → Text → Option Text → Option Text → Text → Text
success_note_html version storage_dir filename sidecar_path size_bytes sha256_hex request_id
      delivery_id timestamp_utc =
    note (codes "PDF archived") version (
      list_item (codes "path") (escape storage_dir)
      ∷ list_item (codes "filename") (escape filename)
      ∷ list_item (codes "audit_sidecar") (escape sidecar_path)
      ∷ list_item (codes "size_bytes") (show_nat size_bytes)
      ∷ list_item (codes "sha256") (escape sha256_hex)
      ∷ list_item (codes "request_id") (escape_or request_id (codes "unknown"))
      ∷ list_item (codes "delivery_id") (escape_or delivery_id (codes "none"))
      ∷ list_item (codes "time_utc") (escape timestamp_utc)
      ∷ [])

-- The item for a text that is not empty.
abbrev pub item_if : Text → Text → List Text
item_if label [] = []
item_if label (c ∷ s) = list_item label (c ∷ s) ∷ []

-- `error_note_html`
unfoldable pub error_note_html :
    Text → Text → Text → Text → Option Text → Option Text → Text → Text → Text → Text
error_note_html version classification text action request_id delivery_id timestamp_utc code hint =
    note (codes "PDF archiver error") version (
      list_item (codes "classification") (escape classification)
      ∷ list_item (codes "error") (escape text)
      ∷ list_item (codes "action") (escape action)
      ∷ (item_if (codes "code") (escape code)
          ++ (item_if (codes "hint") (escape hint)
              ++ (list_item (codes "request_id") (escape_or request_id (codes "unknown"))
                  ∷ list_item (codes "delivery_id") (escape_or delivery_id (codes "none"))
                  ∷ list_item (codes "time_utc") timestamp_utc
                  ∷ []))))

-- The tests of `error_code_and_hint` on a stripped message in lower case.
unfoldable pub code_of : Text → Text × Text
code_of msg =
    if has_part (codes "archive_path is missing") msg
      || (has_part (codes "archive_path") msg && has_part (codes "missing") msg)
    then (codes "missing_archive_path", codes "Set custom_fields.archive_path on the ticket.")
    else if has_part (codes "archive_path must not be empty") msg
        || has_part (codes "all segments were empty") msg
    then (codes "empty_archive_path", codes "Set archive_path to at least one non-empty segment.")
    else if has_part (codes "archive_path must be a string") msg
        || has_part (codes "archive_path[") msg
    then (codes "invalid_archive_path", codes "Use a string or list of strings for archive_path.")
    else if has_part (codes "allow_prefixes") msg && has_part (codes "not allowed") msg
    then (codes "path_not_allowed", codes "Check allow_prefixes; archive_path must match a prefix.")
    else if has_part (codes "allow_prefixes is empty") msg
    then (
      codes "allow_prefixes_empty",
      codes "Configure at least one allow_prefixes entry or leave unset.",
    )
    else if has_part (codes "owner.login") msg || has_part (codes "updated_by.login") msg
    then (codes "missing_user_login", codes "Ensure ticket has owner/updated_by with login.")
    else if has_part (codes "archive_user") msg || has_part (codes "archive_user_mode") msg
    then (codes "missing_archive_user", codes "Set custom_fields.archive_user for fixed mode.")
    else if has_part (codes "filename") msg
        && (has_part (codes "pattern") msg
            || has_part (codes "segment") msg
            || has_part (codes "must not") msg)
    then (
      codes "invalid_filename",
      codes "Check filename_pattern and path policy (no ., .., separators).",
    )
    else if has_part (codes "path segment") msg
        || has_part (codes "path separators") msg
        || has_part (codes "dot segments") msg
    then (
      codes "path_validation",
      codes "Check archive_path segments (no ., .., empty, or separators).",
    )
    else (codes "permanent_error", [])

-- `error_code_and_hint`
unfoldable pub error_code_and_hint : Exc → Text × Text
error_code_and_hint e = code_of (lower (strip (message e)))

-- The errors of the file system that Python raises as PermissionError: EPERM and EACCES.
abbrev pub is_permission : Option ℕ → Bool
is_permission none = false
is_permission (some n) = n == 1 || n == 13

abbrev pub policy_hint : Text
policy_hint =
    codes
      "Non-retryable failure by policy. Fix the underlying issue and reapply the pdf:sign macro (and optionally remove pdf:error)."

abbrev pub fields_hint : Text
fields_hint =
    codes
      "Fix ticket fields / path policy validation, then reapply the pdf:sign macro (and optionally remove pdf:error for clarity)."

abbrev pub upstream_hint : Text
upstream_hint =
    codes
      "Upstream Zammad error was treated as permanent by policy. If the issue is resolved, reapply the pdf:sign macro to reprocess."

-- The hints of `action_hint` for an error that is not classified as transient.
unfoldable pub permanent_hint : Exc → Text
permanent_hint (auth_error m) =
    codes "Fix Zammad API token/permissions (HTTP 401/403), then reapply the pdf:sign macro."
permanent_hint (not_found m) =
    codes
      "Ticket/resource not found in Zammad. Verify the ticket still exists, then reapply pdf:sign."
permanent_hint (server_error m) = upstream_hint
permanent_hint (rate_limit m) = upstream_hint
permanent_hint (os_error n m) =
    if is_permission n
    then codes
        "Storage permission denied. Check network share mount options, ownership, and ACLs, then reapply the pdf:sign macro."
    else policy_hint
permanent_hint (value_error m) = fields_hint
permanent_hint (type_error m) = fields_hint
permanent_hint e = policy_hint

-- `action_hint`
unfoldable pub action_hint : Exc → Option DomainError → Text
action_hint e (some (transient_error m)) =
    codes
      "Transient failure. Verify Zammad/TSA reachability and storage availability; the ticket keeps pdf:sign so a retry can be triggered by saving the ticket or reapplying the macro."
action_hint e (some (permanent_error m)) = permanent_hint e
action_hint e none = permanent_hint e
