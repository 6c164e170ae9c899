-- ===== src/Tags.antt =====
-- The ticket's state machine on its tags (src/zammad_pdf_archiver/domain/state_machine.py).
pub mod Service
pub mod Transitions
pub mod Decision
use zammad_ticket_archiver.Base.{ℕ, Bool, true, false, List, contains, if◌then◌else◌}
use zammad_ticket_archiver.Base.Text.{Text, codes, text_eq}
use zammad_ticket_archiver.Effect.{Action, Done, ◌>>◌}

abbrev pub trigger_tag_default : Text
trigger_tag_default = codes "pdf:sign"

abbrev pub processing_tag : Text
processing_tag = codes "pdf:processing"

abbrev pub done_tag : Text
done_tag = codes "pdf:signed"

abbrev pub error_tag : Text
error_tag = codes "pdf:error"

-- The protocol `TicketTagger`: what a client of Zammad offers, over the world `W` that it acts on.
pub record TicketTagger (W : Type 0) : Type 0 where
  pub add_tag : ℕ → Text → Action W Done
  pub remove_tag : ℕ → Text → Action W Done

-- `require_trigger_tag` is the last argument
unfoldable pub should_process : List Text → Text → Bool → Bool
should_process tags trigger_tag require_trigger_tag =
    if contains tags done_tag
    then false
    else if require_trigger_tag
    then contains tags trigger_tag
    else true

module _ {W : Type 0} (client : TicketTagger W) (ticket_id : ℕ) (trigger_tag : Text) where
  unfoldable pub apply_processing : Action W Done
  apply_processing = do
    client.remove_tag ticket_id done_tag
    client.remove_tag ticket_id error_tag
    client.remove_tag ticket_id trigger_tag
    client.add_tag ticket_id processing_tag

  unfoldable pub apply_done : Action W Done
  apply_done = do
    client.remove_tag ticket_id processing_tag
    client.remove_tag ticket_id error_tag
    client.remove_tag ticket_id trigger_tag
    client.add_tag ticket_id done_tag

  unfoldable pub apply_error : Bool → Action W Done
  apply_error keep_trigger = do
    client.remove_tag ticket_id processing_tag
    client.remove_tag ticket_id done_tag
    (if keep_trigger
        then client.add_tag ticket_id trigger_tag
        else client.remove_tag ticket_id trigger_tag)
    client.add_tag ticket_id error_tag
