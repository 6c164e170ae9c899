-- ===== src/Process/Job.antt =====
-- `process_ticket`: the id of the ticket, its lock, the claim of the delivery, and the pipeline with
-- its error handling.
use zammad_ticket_archiver.Base.{ℕ, Bool, true, false, Option, none, some, [], ◌∷◌, if◌then◌else◌}
use zammad_ticket_archiver.Base.Text.{Text, codes, strip, or_text}
use zammad_ticket_archiver.Effect.{
  Reply, Action, Done, ok, err, cancelled, pure, raise, cancel, ◌>>=◌, ◌>>◌, except, finally,
}
use zammad_ticket_archiver.Settings.{WorkflowSettings}
use zammad_ticket_archiver.Tags.{trigger_tag_default}
use zammad_ticket_archiver.Stores.{
  World, remotely, locally, count, total_seconds, try_claim_delivery_id, try_acquire_ticket,
  release_ticket,
}
use zammad_ticket_archiver.TicketId.{Value, str, Fields, get, extract_ticket_id}
use zammad_ticket_archiver.Process.Services.{
  skipped_no_ticket_id, skipped_in_flight, skipped_idempotency, ProcessTicketResult, Services,
}
use zammad_ticket_archiver.Process.Pipeline.{skip, run_ticket_pipeline}
use zammad_ticket_archiver.Process.Failure.{handle_ticket_pipeline_exception}

-- `payload.get("_request_id")` where it is a text
abbrev pub text_of : Value → Option Text
text_of (str s) = some s
text_of _ = none

abbrev pub nonblank : Text → Text → Option Text
nonblank s [] = none
nonblank s (c ∷ rest) = some s

abbrev pub unless_blank : Option Text → Option Text
unless_blank none = none
unless_blank (some s) = nonblank s (strip s)

-- str(settings.workflow.trigger_tag).strip() or TRIGGER_TAG
unfoldable pub effective_trigger : WorkflowSettings → Text
effective_trigger settings = or_text (strip settings.trigger_tag) trigger_tag_default

module _ {R Ticket Paths Rendered Stored : Type 0}
    (services : Services R Ticket Paths Rendered Stored) (settings : WorkflowSettings) where
  module _ (payload : Fields) (ticket_id : ℕ) (delivery_id request_id : Option Text) where
    -- `finally: if observe_total: total_seconds.observe(...)` after a result, an error that is
    -- handled, or a cancellation, which is not handled
    abbrev pub observe : Reply (ProcessTicketResult × Bool) → Action (World R) ProcessTicketResult
    observe (ok (result, observe_total)) =
        if observe_total then (do locally (count total_seconds); pure result) else pure result
    observe (err e) =
        finally
          (handle_ticket_pipeline_exception services settings ticket_id (effective_trigger settings)
            delivery_id request_id e)
          (locally (count total_seconds))
    observe cancelled = finally cancel (locally (count total_seconds))

    unfoldable pub run_and_observe : Action (World R) ProcessTicketResult
    run_and_observe w =
        let (r, w') =
          run_ticket_pipeline services settings ticket_id (effective_trigger settings) payload
            delivery_id request_id w in
        observe r w'

    -- `async with AsyncZammadClient(...)`
    unfoldable pub process_ticket_with_client : Action (World R) ProcessTicketResult
    process_ticket_with_client = finally run_and_observe (remotely services.aclose)

    abbrev pub after_claim : Text → Bool → Action (World R) (Option ProcessTicketResult)
    after_claim id true = pure none
    after_claim id false = do
      result ←
          skip services settings skipped_idempotency (codes "idempotency") (some ticket_id)
            (some id) request_id
      pure (some result)

    abbrev pub claim_of : Text → Action (World R) (Option ProcessTicketResult)
    claim_of id = do
      claimed ← try_claim_delivery_id services.monotonic services.redis settings id
      after_claim id claimed

    -- `if not delivery_id` holds for None and for the empty text
    unfoldable pub claim_delivery_or_skip :
        Option Text → Action (World R) (Option ProcessTicketResult)
    claim_delivery_or_skip none = pure none
    claim_delivery_or_skip (some []) = pure none
    claim_delivery_or_skip (some (c ∷ s)) = claim_of (c ∷ s)

    abbrev pub or_process : Option ProcessTicketResult → Action (World R) ProcessTicketResult
    or_process none = process_ticket_with_client
    or_process (some result) = pure result

    unfoldable pub process_claimed : Action (World R) ProcessTicketResult
    process_claimed = do claimed ← claim_delivery_or_skip delivery_id; or_process claimed

    -- The inner task of `asyncio.shield` runs to its end; the outer call may then be cancelled.
    unfoldable pub release_ticket_lock : Action (World R) Done
    release_ticket_lock =
        except
          (do
            release_ticket services.monotonic services.redis settings ticket_id
            remotely services.checkpoint)
          (λ e. pure tt)

    abbrev pub with_lock : Bool → Action (World R) ProcessTicketResult
    with_lock true = finally process_claimed release_ticket_lock
    with_lock false =
        skip services settings skipped_in_flight (codes "in_flight") (some ticket_id) delivery_id
          request_id

    unfoldable pub process_with_ticket_lock : Action (World R) ProcessTicketResult
    process_with_ticket_lock = do
      acquired ← try_acquire_ticket services.monotonic services.redis settings ticket_id
      with_lock acquired

  abbrev pub process_extracted :
      Option Text → Fields → Reply (Option ℕ) → Action (World R) ProcessTicketResult
  process_extracted delivery_id payload (ok none) =
      skip services settings skipped_no_ticket_id (codes "no_ticket_id") none none
        (text_of (get (codes "_request_id") payload))
  process_extracted delivery_id payload (ok (some ticket_id)) =
      process_with_ticket_lock payload ticket_id delivery_id
        (unless_blank (text_of (get (codes "_request_id") payload)))
  process_extracted delivery_id payload (err e) = raise e
  process_extracted delivery_id payload cancelled = cancel

  unfoldable pub process_ticket : Option Text → Fields → Action (World R) ProcessTicketResult
  process_ticket delivery_id payload =
      process_extracted delivery_id payload (extract_ticket_id services.unicode payload)
