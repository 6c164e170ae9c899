-- ===== src/Queue/Worker.antt =====
-- The worker: `_handle_envelope`, `_process_messages`, one pass of `_worker_loop`, and `drain_dlq`.
use zammad_ticket_archiver.Base.{
  ℕ, ◌+◌, ◌*◌, ◌-◌, ◌^◌, min, Option, none, some, List, [], ◌∷◌, ltb, leb, length, map, ◌==◌,
  nat_eq, ◌++◌, if◌then◌else◌,
}
use zammad_ticket_archiver.Base.Text.{Text, codes, text_eq, strip}
use zammad_ticket_archiver.Errors.{Exc, message, described}
use zammad_ticket_archiver.Effect.{
  Reply, Action, Done, ok, err, cancelled, pure, cancel, ◌>>=◌, ◌>>◌, except,
}
use zammad_ticket_archiver.Settings.{WorkflowSettings}
use zammad_ticket_archiver.Stores.{
  World, remotely, locally, count, queue_processed_total, queue_failed_total, queue_retried_total,
}
use zammad_ticket_archiver.TicketId.{end}
use zammad_ticket_archiver.Process.Services.{
  Status, failed_transient, failed_permanent, permanent_label, HistoryEvent, Services,
}
use zammad_ticket_archiver.Process.Job.{process_ticket}
use zammad_ticket_archiver.Queue.{
  Message, PendingEntry, Streams, Envelope, or_last, get_redis, time_of, decode_envelope,
  enqueue_ticket_job, ack_and_delete, push_dlq,
}

abbrev pub claim_idle_ms : ℕ
claim_idle_ms = 30_000

-- `_retry_delay_seconds`, in nanoseconds
unfoldable pub retry_delay : WorkflowSettings → ℕ → ℕ
retry_delay settings attempt = settings.queue_retry_backoff * 2 ^ attempt

-- `_merge_min_delay`
unfoldable pub merge_min_delay : Option ℕ → Option ℕ → Option ℕ
merge_min_delay current none = current
merge_min_delay none (some d) = if leb d 0 then none else some d
merge_min_delay (some c) (some d) = if leb d 0 then some c else if ltb d c then some d else some c

-- the ids that `_claim_stale_pending` asks for
unfoldable pub stale_ids : Text → List PendingEntry → List Text
stale_ids consumer [] = []
stale_ids consumer (entry ∷ entries) =
    let id = strip entry.message_id in
    let rest = stale_ids consumer entries in
    if id == []
    then rest
    else if strip entry.consumer == consumer
    then rest
    else if ltb entry.time_since_delivered claim_idle_ms
    then rest
    else id ∷ rest

-- the message of a job that raised
abbrev pub invalid_event : Exc → HistoryEvent
invalid_event e = record {
  status = failed_permanent;
  ticket_id = none;
  classification = some permanent_label;
  message = codes "invalid_message: " ++ message e;
  delivery_id = none;
  request_id = none;
}

abbrev pub invalid_envelope : Text → Exc → Envelope
invalid_envelope message_id e = record {
  message_id = message_id;
  payload = end;
  delivery_id = none;
  attempt = 0;
  not_before = 0;
  last_error = some (message e);
}

module _ {R Ticket Paths Rendered Stored : Type 0} (streams : Streams R)
    (services : Services R Ticket Paths Rendered Stored) (settings : WorkflowSettings) where
  -- The status and the message of the job; an exception counts as a transient failure.
  unfoldable pub run_job : Envelope → Action (World R) (Status × Text)
  run_job envelope =
      except
        (do
          result ← process_ticket services settings envelope.delivery_id envelope.payload
          pure (result.status, result.message))
        (λ e. do locally (count queue_failed_total); pure (failed_transient, described e))

  abbrev pub enqueue_retry : Envelope → Text → ℕ → Action (World R) Text
  enqueue_retry envelope text now =
      enqueue_ticket_job streams settings envelope.delivery_id envelope.payload
        (envelope.attempt + 1) (now + retry_delay settings envelope.attempt)
        (or_last text envelope.last_error)

  abbrev pub retry_at : Envelope → Text → ℕ → Action (World R) Done
  retry_at envelope text now = do
    enqueue_retry envelope text now
    locally (count queue_retried_total)

  unfoldable pub retry : Envelope → Text → Action (World R) Done
  retry envelope text = do now ← time_of streams settings; retry_at envelope text now

  unfoldable pub retry_or_bury : Envelope → Text → Action (World R) Done
  retry_or_bury envelope text =
      if ltb envelope.attempt settings.queue_retry_max_attempts
      then retry envelope text
      else push_dlq streams settings envelope (codes "retry_exhausted")
          (or_last text envelope.last_error)

  -- What `_handle_envelope` does with the outcome, before it acknowledges the message.
  unfoldable pub dispose : Envelope → Status × Text → Action (World R) Done
  dispose envelope (failed_transient, text) = retry_or_bury envelope text
  dispose envelope (failed_permanent, text) =
      push_dlq streams settings envelope (codes "permanent_error")
        (or_last text envelope.last_error)
  dispose envelope (_, text) = locally (count queue_processed_total)

  abbrev pub acknowledge : Envelope → Action (World R) ℕ
  acknowledge envelope = do ack_and_delete streams settings envelope.message_id; pure 0

  abbrev pub dispose_then : Envelope → Status × Text → Action (World R) ℕ
  dispose_then envelope outcome = do dispose envelope outcome; acknowledge envelope

  abbrev pub handle_at : Envelope → ℕ → Action (World R) ℕ
  handle_at envelope now =
      if ltb now envelope.not_before
      then pure (envelope.not_before - now)
      else (do outcome ← run_job envelope; dispose_then envelope outcome)

  -- `_handle_envelope`, which returns the time to wait
  unfoldable pub handle_envelope : Envelope → Action (World R) ℕ
  handle_envelope envelope = do now ← time_of streams settings; handle_at envelope now

  unfoldable pub reject_invalid : Text → Exc → Action (World R) (Option ℕ)
  reject_invalid message_id e = do
    locally (count queue_failed_total)
    push_dlq streams settings (invalid_envelope message_id e) (codes "invalid_message")
        (some (message e))
    remotely (services.record_history_event (invalid_event e))
    ack_and_delete streams settings message_id
    pure none

  abbrev pub handle_decoded : Text → Reply Envelope → Action (World R) (Option ℕ)
  handle_decoded message_id (ok envelope) =
      except (do delay ← handle_envelope envelope; pure (some delay))
        (λ e. do locally (count queue_failed_total); pure none)
  handle_decoded message_id (err e) = reject_invalid message_id e
  handle_decoded message_id cancelled = cancel

  -- One round of the loop of `_process_messages`, with the delay to be merged.
  unfoldable pub handle_message : Message → Action (World R) (Option ℕ)
  handle_message m = handle_decoded (m.0) (decode_envelope streams settings m)

  -- `_process_messages`, from the delay `min_delay`
  unfoldable pub process_messages : Option ℕ → List Message → Action (World R) (Option ℕ)
  process_messages min_delay [] = pure min_delay
  process_messages min_delay (m ∷ messages) = do
    delay ← handle_message m
    process_messages (merge_min_delay min_delay delay) messages

  -- `_claim_stale_pending`
  unfoldable pub claim_stale_pending : Text → Action (World R) (List Message)
  claim_stale_pending consumer = do
    entries ←
        except
          (remotely (
            streams.xpending_range settings.queue_stream settings.queue_group
              settings.queue_read_count))
          (λ e. pure [])
    let ids = stale_ids consumer entries
    (if length ids == 0
        then pure []
        else remotely
            (streams.xclaim settings.queue_stream settings.queue_group consumer claim_idle_ms ids))

  abbrev pub read_from : Text → Text → ℕ → Action (World R) (List Message)
  read_from consumer start block = remotely (
      streams.xreadgroup settings.queue_group consumer settings.queue_stream start
        settings.queue_read_count block)

  -- The body of the `try` in `_worker_loop`; it sleeps for at most a second.
  unfoldable pub worker_pass : Text → Action (World R) Done
  worker_pass consumer = do
    claimed ← claim_stale_pending consumer
    first ← process_messages none claimed
    pending ← read_from consumer (codes "0") 1
    second ← process_messages none pending
    let block_ms =
        if length claimed == 0
        then (if length pending == 0 then settings.queue_read_block_ms else 1)
        else 1
    messages ← read_from consumer (codes ">") block_ms
    third ← process_messages none messages
    elim (merge_min_delay (merge_min_delay (merge_min_delay none first) second) third) [
      | none ↦ pure tt
      | some d ↦ if ltb 0 d then remotely (services.sleep (min d 1_000_000_000)) else pure tt
    ]

  -- one round of the loop of `_worker_loop`
  unfoldable pub worker_round : Text → Action (World R) Done
  worker_round consumer = except (worker_pass consumer) (λ e. remotely (services.sleep 300_000_000))

  abbrev pub delete_entries : List Message → Action (World R) ℕ
  delete_entries [] = pure 0
  delete_entries (m ∷ entries) = do
    remotely (streams.xdel_all settings.queue_dlq_stream (map (λ e. e.0) (m ∷ entries)))
    pure (length (m ∷ entries))

  -- `drain_dlq`; a limit below 1 is 0 here
  unfoldable pub drain_dlq : ℕ → Action (World R) ℕ
  drain_dlq limit = if ltb limit 1 then pure 0 else (do
    get_redis streams settings
    entries ← remotely (streams.xrange settings.queue_dlq_stream (min limit 1000))
    delete_entries entries)
