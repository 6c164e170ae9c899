-- ===== src/Process/Services.antt =====
-- What the processing of a ticket calls, and what it returns. The calls that leave the process, and
-- those into the rendering and storage of the archive, act on the remote world `R`.
use zammad_ticket_archiver.Base.{ℕ, Option, List}
use zammad_ticket_archiver.Base.Text.{Text}
use zammad_ticket_archiver.Errors.{Exc, DomainError}
use zammad_ticket_archiver.Effect.{Action, Done}
use zammad_ticket_archiver.Tags.{TicketTagger}
use zammad_ticket_archiver.Stores.{Redis}
use zammad_ticket_archiver.TicketId.{Fields, Unicode}

-- `ProcessTicketResult.status`
pub data Status : Type 0 where
  skipped_no_ticket_id skipped_in_flight skipped_idempotency skipped_not_triggered : Status
  processed failed_transient failed_permanent : Status

-- `_classification_label`
pub data Label : Type 0 where
  transient_label permanent_label : Label

-- `ProcessTicketResult`
pub record ProcessTicketResult : Type 0 where
  pub status : Status
  pub ticket_id : Option ℕ
  pub classification : Option Label
  pub message : Text

-- The arguments of `record_history_event`
pub record HistoryEvent : Type 0 where
  pub status : Status
  pub ticket_id : Option ℕ
  pub classification : Option Label
  pub message : Text
  pub delivery_id : Option Text
  pub request_id : Option Text

-- `Ticket`, `Paths`, `Rendered` and `Stored` are what Zammad's client, `compute_storage_paths`,
-- `build_and_render_pdf` and `store_ticket_files` return.
pub record Services (R Ticket Paths Rendered Stored : Type 0) : Type 0 where
  pub unicode : Unicode
  pub monotonic : R → ℕ × R
  pub redis : Redis R
  pub tagger : TicketTagger R
  pub get_ticket : ℕ → Action R Ticket
  pub list_tags : ℕ → Action R (List Text)
  -- an article with this body, posted on the ticket
  pub create_internal_article : ℕ → Text → Action R Done
  pub aclose : Action R Done
  pub record_history_event : HistoryEvent → Action R Done
  -- nanoseconds
  pub sleep : ℕ → Action R Done
  -- the point at which `asyncio.shield` delivers a cancellation
  pub checkpoint : Action R Done
  -- determine_username, parse_archive_path_segments, the clock and compute_storage_paths
  pub compute_paths : Ticket → Fields → Action R Paths
  pub build_and_render_pdf : Ticket → List Text → ℕ → Action R Rendered
  pub store_ticket_files : Rendered → Paths → Action R Stored
  -- success_note_html, error_note_html with the hints, and scrub_secrets_in_text
  pub success_note : Stored → Option Text → Option Text → Text
  pub error_note : Exc → DomainError → Option Text → Option Text → Text
  pub scrub : Text → Text
