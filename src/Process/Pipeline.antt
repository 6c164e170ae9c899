-- ===== src/Process/Pipeline.antt =====
-- `_run_ticket_pipeline` and its helpers.
use zammad_ticket_archiver.Base.{
  ℕ, zero, suc, ◌+◌, ◌*◌, ◌^◌, Bool, true, false, Option, none, some, List, [], ◌==◌, nat_eq,
  if◌then◌else◌,
}
use zammad_ticket_archiver.Base.Text.{Text, codes}
use zammad_ticket_archiver.Effect.{Action, Done, pure, raise, ◌>>=◌, ◌>>◌, except}
use zammad_ticket_archiver.Settings.{WorkflowSettings}
use zammad_ticket_archiver.Tags.{apply_processing, apply_done, should_process}
use zammad_ticket_archiver.Stores.{World, remotely, locally, count, processed_total, skipped_total}
use zammad_ticket_archiver.TicketId.{Fields}
use zammad_ticket_archiver.Process.Services.{
  Status, skipped_not_triggered, processed, ProcessTicketResult, HistoryEvent, Services,
}

abbrev pub plain_result : Status → Option ℕ → ProcessTicketResult
plain_result status ticket_id = record {
  status = status;
  ticket_id = ticket_id;
  classification = none;
  message = [];
}

abbrev pub plain_event : Status → Option ℕ → Option Text → Option Text → HistoryEvent
plain_event status ticket_id delivery_id request_id = record {
  status = status;
  ticket_id = ticket_id;
  classification = none;
  message = [];
  delivery_id = delivery_id;
  request_id = request_id;
}

abbrev pub millisecond : ℕ
millisecond = 1_000_000

module _ {R Ticket Paths Rendered Stored : Type 0}
    (services : Services R Ticket Paths Rendered Stored) (settings : WorkflowSettings) where
  -- `_record_history`: no exception leaves it
  unfoldable pub record_history : HistoryEvent → Action (World R) Done
  record_history event = except (remotely (services.record_history_event event)) (λ e. pure tt)

  -- The counter, the history event and the result of a skip.
  unfoldable pub skip :
      Status → Text → Option ℕ → Option Text → Option Text → Action (World R) ProcessTicketResult
  skip status reason ticket_id delivery_id request_id = do
    locally (count (skipped_total reason))
    record_history (plain_event status ticket_id delivery_id request_id)
    pure (plain_result status ticket_id)

  module _ (ticket_id : ℕ) (trigger_tag : Text) where
    -- The loop of `_apply_done_with_backoff`, by the attempts that are left.
    unfoldable pub apply_done_attempts : ℕ → ℕ → Action (World R) Done
    apply_done_attempts zero attempt = pure tt
    apply_done_attempts (suc left) attempt =
        except (remotely (apply_done services.tagger ticket_id trigger_tag)) (λ e.
          if left == 0 then raise e else (do
            remotely (services.sleep (500 * millisecond * 2 ^ attempt))
            apply_done_attempts left (attempt + 1)))

    unfoldable pub apply_done_with_backoff : Action (World R) Done
    apply_done_with_backoff = apply_done_attempts 3 0

    unfoldable pub apply_done_best_effort : Action (World R) Done
    apply_done_best_effort = except apply_done_with_backoff (λ e. pure tt)

    module _ (payload : Fields) (delivery_id request_id : Option Text) where
      unfoldable pub acknowledge_success_if_enabled : Stored → Action (World R) Done
      acknowledge_success_if_enabled stored =
          if settings.acknowledge_on_success
          then remotely (
              services.create_internal_article ticket_id
                (services.success_note stored request_id delivery_id))
          else pure tt

      -- What `_run_ticket_pipeline` does with a ticket that is to be processed, from its end
      abbrev pub finish : Stored → Action (World R) (ProcessTicketResult × Bool)
      finish stored = do
        acknowledge_success_if_enabled stored
        apply_done_best_effort
        locally (count processed_total)
        record_history (plain_event processed (some ticket_id) delivery_id request_id)
        pure (plain_result processed (some ticket_id), true)

      abbrev pub store_rendered : Paths → Rendered → Action (World R) (ProcessTicketResult × Bool)
      store_rendered paths rendered = do
        stored ← remotely (services.store_ticket_files rendered paths)
        finish stored

      abbrev pub render_to :
          Ticket → List Text → Paths → Action (World R) (ProcessTicketResult × Bool)
      render_to ticket tags paths = do
        rendered ← remotely (services.build_and_render_pdf ticket tags ticket_id)
        store_rendered paths rendered

      abbrev pub place : Ticket → List Text → Action (World R) (ProcessTicketResult × Bool)
      place ticket tags = do
        paths ← remotely (services.compute_paths ticket payload)
        render_to ticket tags paths

      unfoldable pub archive : Ticket → List Text → Action (World R) (ProcessTicketResult × Bool)
      archive ticket tags = do
        remotely (apply_processing services.tagger ticket_id trigger_tag)
        place ticket tags

      abbrev pub skip_not_triggered : Action (World R) (ProcessTicketResult × Bool)
      skip_not_triggered = do
        result ←
            skip skipped_not_triggered (codes "not_triggered") (some ticket_id) delivery_id
              request_id
        pure (result, false)

      abbrev pub archive_or_skip :
          Ticket → List Text → Action (World R) (ProcessTicketResult × Bool)
      archive_or_skip ticket tags =
          if should_process tags trigger_tag settings.require_tag
          then archive ticket tags
          else skip_not_triggered

      abbrev pub list_then : Ticket → Action (World R) (ProcessTicketResult × Bool)
      list_then ticket = do
        tags ← remotely (services.list_tags ticket_id)
        archive_or_skip ticket tags

      -- The result, and whether the total time is observed
      unfoldable pub run_ticket_pipeline : Action (World R) (ProcessTicketResult × Bool)
      run_ticket_pipeline = do ticket ← remotely (services.get_ticket ticket_id); list_then ticket
