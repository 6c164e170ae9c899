-- ===== src/Process/Failure.antt =====
-- `_handle_ticket_pipeline_exception` and its helpers.
use zammad_ticket_archiver.Base.{ℕ, ◌*◌, Bool, true, false, Option, some, take}
use zammad_ticket_archiver.Base.Text.{Text, strip}
use zammad_ticket_archiver.Errors.{Exc, described, DomainError, transient_error, permanent_error}
use zammad_ticket_archiver.Errors.Classify.{classify}
use zammad_ticket_archiver.Effect.{Action, Done, pure, ◌>>◌, except}
use zammad_ticket_archiver.Settings.{WorkflowSettings}
use zammad_ticket_archiver.Tags.{processing_tag, apply_error}
use zammad_ticket_archiver.Stores.{World, remotely, locally, count, failed_total}
use zammad_ticket_archiver.Process.Services.{
  Status, failed_transient, failed_permanent, Label, transient_label, permanent_label,
  ProcessTicketResult, HistoryEvent, Services,
}
use zammad_ticket_archiver.Process.Pipeline.{millisecond, record_history}

abbrev pub is_transient : DomainError → Bool
is_transient (transient_error _) = true
is_transient (permanent_error _) = false

unfoldable pub classification_label : DomainError → Label
classification_label (transient_error _) = transient_label
classification_label (permanent_error _) = permanent_label

abbrev pub failed_status : DomainError → Status
failed_status (transient_error _) = failed_transient
failed_status (permanent_error _) = failed_permanent

module _ {R Ticket Paths Rendered Stored : Type 0}
    (services : Services R Ticket Paths Rendered Stored) (settings : WorkflowSettings) where
  -- `concise_exc_message`
  unfoldable pub concise_exc_message : Exc → Text
  concise_exc_message e = take 500 (services.scrub (strip (described e)))

  module _ (ticket_id : ℕ) (trigger_tag : Text) (delivery_id request_id : Option Text) where
    unfoldable pub apply_error_with_retry : Bool → Action (World R) Done
    apply_error_with_retry keep_trigger =
        except (remotely (apply_error services.tagger ticket_id trigger_tag keep_trigger)) (λ e. do
          remotely (services.sleep (300 * millisecond))
          remotely (apply_error services.tagger ticket_id trigger_tag keep_trigger))

    unfoldable pub post_error_note : Exc → DomainError → Action (World R) Done
    post_error_note e classified =
        except
          (remotely (
            services.create_internal_article ticket_id
              (services.error_note e classified request_id delivery_id)))
          (λ _. pure tt)

    unfoldable pub apply_error_and_cleanup_processing_tag : DomainError → Action (World R) Done
    apply_error_and_cleanup_processing_tag classified = do
      except (apply_error_with_retry (is_transient classified)) (λ _. pure tt)
      except (remotely (services.tagger.remove_tag ticket_id processing_tag)) (λ _. pure tt)

    abbrev pub failed_result : Exc → DomainError → ProcessTicketResult
    failed_result e classified = record {
      status = failed_status classified;
      ticket_id = some ticket_id;
      classification = some (classification_label classified);
      message = concise_exc_message e;
    }

    abbrev pub failure_event : Exc → HistoryEvent
    failure_event e = record {
      status = failed_status (classify e);
      ticket_id = some ticket_id;
      classification = some (classification_label (classify e));
      message = concise_exc_message e;
      delivery_id = delivery_id;
      request_id = request_id;
    }

    -- The end of `_handle_ticket_pipeline_exception`: the history event and the result
    abbrev pub conclude_failure : Exc → Action (World R) ProcessTicketResult
    conclude_failure e = do
      record_history services settings (failure_event e)
      pure (failed_result e (classify e))

    abbrev pub tag_and_conclude : Exc → Action (World R) ProcessTicketResult
    tag_and_conclude e = do apply_error_and_cleanup_processing_tag (classify e); conclude_failure e

    unfoldable pub handle_ticket_pipeline_exception : Exc → Action (World R) ProcessTicketResult
    handle_ticket_pipeline_exception e = do
      locally (count failed_total)
      post_error_note e (classify e)
      tag_and_conclude e
