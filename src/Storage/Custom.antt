-- ===== src/Storage/Custom.antt =====
-- The user and the segments of an archive path, read from a ticket and its custom fields
-- (src/zammad_pdf_archiver/app/jobs/ticket_path.py).
use zammad_ticket_archiver.Base.{
  ℕ, suc, ◌≡◌, refl, ap, sym, arith, Option, none, some, List, [], ◌∷◌, ◌++◌, map, ◌==◌, nat_eq,
  if◌then◌else◌,
}
use zammad_ticket_archiver.Base.Text.{Text, codes, text_eq, strip, show_nat}
use zammad_ticket_archiver.Effect.{Reply, ok}
use zammad_ticket_archiver.Effect.Replies.{◌>>=◌}
use zammad_ticket_archiver.Storage.Layout.{refuse, split_at, strip_parts, some_parts}
use zammad_ticket_archiver.TicketId.{Value, Fields, get, str, dict}

-- A value of a custom field: None (as for a missing field), a text, a list with its texts and its
-- other items, or another value. The last two come with the text that `str` gives of them.
pub data Custom : Type 0 where
  nothing : Custom
  text : Text → Custom
  items : List (Option Text) → Text → Custom
  shown : Text → Custom

-- What is read of a ticket: the logins of its owner and of who updated it last.
pub record Logins : Type 0 where
  pub owner : Option Text
  pub updated_by : Option Text

-- `require_nonempty`, of a text or of a value that is no text
unfoldable pub require_nonempty : Option Text → Text → Reply Text
require_nonempty none field = refuse (field ++ codes " must be a string")
require_nonempty (some s) field =
    if strip s == [] then refuse (field ++ codes " must be non-empty") else ok (strip s)

abbrev pub text_of : Custom → Option Text
text_of (text s) = some s
text_of _ = none

-- str(raw_mode).strip() if raw_mode is not None else "owner"
abbrev pub mode_of : Custom → Text
mode_of nothing = codes "owner"
mode_of (text s) = strip s
mode_of (items xs s) = strip s
mode_of (shown s) = strip s

-- The login of the payload's user, if it is a text.
abbrev pub login_of : Value → Option Text
login_of (str s) = some s
login_of _ = none

abbrev pub user_login : Value → Option Text
user_login (dict fields) = login_of (get (codes "login") fields)
user_login _ = none

unfoldable pub agent_login : Option Text → Option Text → Reply Text
agent_login none updated_by = require_nonempty updated_by (codes "ticket.updated_by.login")
agent_login (some login) updated_by =
    if strip login == []
    then require_nonempty updated_by (codes "ticket.updated_by.login")
    else ok (strip login)

-- `determine_username`; `custom` is custom_fields.get, and `repr` the function of Python
unfoldable pub determine_username :
    (Text → Text) → Logins → Fields → (Text → Custom) → Text → Text → Reply Text
determine_username repr ticket payload custom mode_field_name archive_user_field_name =
    let mode = mode_of (custom mode_field_name) in
    if mode == codes "owner"
    then require_nonempty ticket.owner (codes "ticket.owner.login")
    else if mode == codes "current_agent"
    then agent_login (user_login (get (codes "user") payload)) ticket.updated_by
    else if mode == codes "fixed"
    then require_nonempty (text_of (custom archive_user_field_name))
        (codes "custom_fields." ++ archive_user_field_name)
    else refuse (codes "unsupported archive_user_mode: " ++ repr mode)

-- The loop over the items of a list, from the index `idx`.
unfoldable pub strip_items : ℕ → List (Option Text) → Reply (List Text)
strip_items idx [] = ok []
strip_items idx (none ∷ xs) =
    refuse (codes "custom_fields.archive_path[" ++ (show_nat idx ++ codes "] must be a string"))
strip_items idx (some s ∷ xs) = do
  rest ← strip_items (suc idx) xs
  ok (strip_parts (s ∷ []) ++ rest)

abbrev pub empty_path : Text
empty_path =
    codes
      "custom_fields.archive_path must not be empty after sanitization (all segments were empty or whitespace-only)"

-- `parse_archive_path_segments`
unfoldable pub parse_archive_path_segments : Custom → Reply (List Text)
parse_archive_path_segments nothing = refuse (codes "custom_fields.archive_path is missing")
parse_archive_path_segments (text s) =
    some_parts empty_path (strip_parts (split_at (λ c. c == b'>') s))
parse_archive_path_segments (items xs s) = do parts ← strip_items 0 xs; some_parts empty_path parts
parse_archive_path_segments (shown s) =
    refuse (codes "custom_fields.archive_path must be a string or list of strings")

strip_items-map :
    (idx : ℕ) (pieces : List Text) → strip_items idx (map some pieces) ≡ ok (strip_parts pieces)
unfolding strip_items strip_parts
strip_items-map idx [] = refl
strip_items-map idx (piece ∷ pieces) = ground (arith, strip_items-map (suc idx) pieces)

-- A text and the list of its pieces between the signs `>` give the same segments, or the same error.
pub parse_archive_path_segments-items :
    (s shown_as : Text)
    → parse_archive_path_segments (text s)
      ≡ parse_archive_path_segments (items (map some (split_at (λ c. c == b'>') s)) shown_as)
unfolding parse_archive_path_segments
parse_archive_path_segments-items s shown_as =
    sym (ap (λ r. r >>= some_parts empty_path) (strip_items-map 0 (split_at (λ c. c == b'>') s)))
