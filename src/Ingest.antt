-- ===== src/Ingest.antt =====
-- The routes that take webhooks (src/zammad_pdf_archiver/app/routes/ingest.py).
pub mod Batch
use zammad_ticket_archiver.Base.{
  ℕ, zero, suc, ◌+◌, Bool, true, false, Option, none, some, List, [], ◌∷◌, length, ◌==◌,
  if◌then◌else◌,
}
use zammad_ticket_archiver.Base.Text.{Text, codes, text_eq, strip}
use zammad_ticket_archiver.Effect.{Reply, Action, Done, ok, err, cancelled, pure, ◌>>=◌, ◌>>◌}
use zammad_ticket_archiver.Effect.Replies.{lift}
use zammad_ticket_archiver.Settings.{WorkflowSettings}
use zammad_ticket_archiver.Queue.{nonempty, or_blank}
use zammad_ticket_archiver.Queue.Registry.{execution_backend_of}
use zammad_ticket_archiver.TicketId.{
  Value, null, str, int, Fields, end, field, Unicode, extract_ticket_id,
}

-- The responses of the routes; `accepted_count` and `dry_run_count` are those of a batch.
pub data Response : Type 0 where
  accepted dry_run_accepted : Option ℕ → Response
  accepted_count dry_run_count : ℕ → Response
  shutting_down settings_not_configured : Response

-- `enqueue_ticket_job`, and the creation and tracking of a background task that runs `process_ticket`
pub record Dispatcher (W : Type 0) : Type 0 where
  pub enqueue : Option Text → Fields → Action W Done
  pub spawn : Option Text → Fields → Action W Done
  pub is_shutting_down : W → Bool

-- What is read of a request.
pub record IngestRequest : Type 0 where
  pub settings : Option WorkflowSettings
  pub request_id : Option Text
  pub delivery_header : Option Text

-- payload[key] = value
unfoldable pub set_field : Text → Value → Fields → Fields
set_field key v end = field key v end
set_field key v (field k w fields) =
    if k == key then field key v fields else field k w (set_field key v fields)

abbrev pub or_null : Option Text → Value
or_null none = null
or_null (some s) = str s

-- payload_for_job[REQUEST_ID_KEY] = getattr(request.state, "request_id", None)
abbrev pub for_job : IngestRequest → Fields → Fields
for_job request payload = set_field (codes "_request_id") (or_null request.request_id) payload

module _ {W : Type 0} (dispatcher : Dispatcher W) (unicode : Unicode) where
  -- `_dispatch_ticket`
  unfoldable pub dispatch_ticket : WorkflowSettings → Option Text → Fields → Action W Done
  dispatch_ticket settings delivery_id payload =
      if execution_backend_of settings == codes "redis_queue"
      then dispatcher.enqueue delivery_id payload
      else dispatcher.spawn delivery_id payload

  -- The routes after `_resolve_settings_or_error`.
  abbrev pub with_settings :
      IngestRequest → (WorkflowSettings → Action W Response) → Action W Response
  with_settings request handle w =
      if dispatcher.is_shutting_down w then (ok shutting_down, w) else elim request.settings [
        | none ↦ (ok settings_not_configured, w)
        | some settings ↦ handle settings w
      ]

  abbrev pub ingest_resolved :
      IngestRequest → Fields → Bool → WorkflowSettings → Option ℕ → Action W Response
  ingest_resolved request payload true settings ticket_id = pure (dry_run_accepted ticket_id)
  ingest_resolved request payload false settings none = pure (accepted none)
  ingest_resolved request payload false settings (some ticket_id) = do
    dispatch_ticket settings (nonempty (strip (or_blank request.delivery_header)))
        (for_job request payload)
    pure (accepted (some ticket_id))

  -- `ingest_webhook`, of a payload that pydantic has accepted
  unfoldable pub ingest_webhook : IngestRequest → Fields → Bool → Action W Response
  ingest_webhook request payload dry_run = with_settings request (λ settings. do
    ticket_id ← lift (extract_ticket_id unicode payload)
    ingest_resolved request payload dry_run settings ticket_id)

  abbrev pub dispatch_next :
      IngestRequest → WorkflowSettings → Fields → Option ℕ → Action W ℕ → Action W ℕ
  dispatch_next request settings payload none rest = rest
  dispatch_next request settings payload (some ticket_id) rest = do
    dispatch_ticket settings none (for_job request payload)
    rest

  -- The loop of `batch_ingest`, with the number of payloads accepted so far.
  unfoldable pub dispatch_all : IngestRequest → WorkflowSettings → ℕ → List Fields → Action W ℕ
  dispatch_all request settings count [] = pure count
  dispatch_all request settings count (payload ∷ payloads) = do
    ticket_id ← lift (extract_ticket_id unicode payload)
    dispatch_next request settings payload ticket_id (
        dispatch_all request settings (elim ticket_id [ none ↦ count | some _ ↦ count + 1 ])
          payloads)

  abbrev pub batch_with : IngestRequest → List Fields → Bool → WorkflowSettings → Action W Response
  batch_with request payloads true settings = pure (dry_run_count (length payloads))
  batch_with request payloads false settings = do
    count ← dispatch_all request settings 0 payloads
    pure (accepted_count count)

  -- `batch_ingest`
  unfoldable pub batch_ingest : IngestRequest → List Fields → Bool → Action W Response
  batch_ingest request payloads dry_run =
      with_settings request (batch_with request payloads dry_run)

  -- `retry_ticket`
  unfoldable pub retry_ticket : IngestRequest → ℕ → Action W Response
  retry_ticket request ticket_id = with_settings request (λ settings. do
    dispatch_ticket settings none (for_job request (field (codes "ticket_id") (int ticket_id) end))
    pure (accepted (some ticket_id)))
