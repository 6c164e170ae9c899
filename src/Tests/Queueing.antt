-- ===== src/Tests/Queueing.antt =====
-- Examples of the job queue.
use mathlib.Core.Path.{subst}
use zammad_ticket_archiver.Base.Text.{
  lower, text_eq, is_space, text_beq, Text, codes, strip, show_nat,
}
use zammad_ticket_archiver.Queue.Registry.{
  execution_backend_of, Registry, start_queue_worker, start_queue_worker-twice,
}
use zammad_ticket_archiver.Base.{
  false, none, lookup, ℕ, ◌+◌, ◌≤◌, ◌<◌, ◌≡◌, ◌⊎◌, refl, some, List, [], ◌∷◌, arith, length, nat_eq,
}
use zammad_ticket_archiver.Settings.{WorkflowSettings}
use zammad_ticket_archiver.Queue.{
  enqueue_ticket_job, get_redis, ack_and_delete, Message, Envelope, nonempty, decode_envelope,
  job_fields,
}
use zammad_ticket_archiver.Queue.Worker.{
  retry, retry_or_bury, run_job, dispose, handle_envelope, drain_dlq,
}
use zammad_ticket_archiver.Errors.{described, timeout}
use zammad_ticket_archiver.TicketId.{
  digits_value, parse_int, isdigit, coerce_text, get, coerce_ticket_id, extract_ticket_id, str, end,
  field,
}
use zammad_ticket_archiver.Process.Job.{process_ticket}
use zammad_ticket_archiver.Effect.{ok, err}
use zammad_ticket_archiver.Tags.Service.{Tables}
use zammad_ticket_archiver.Stores.{World}
use zammad_ticket_archiver.Process.Services.{Status, failed_transient}
use zammad_ticket_archiver.Queue.Codec.{decode_envelope-job_fields}
use zammad_ticket_archiver.Queue.Settled.{WasSettled, handle_envelope-WasSettled}
use zammad_ticket_archiver.Queue.Dlq.{drain_dlq_bounded}
use zammad_ticket_archiver.Tests.{
  ending, memory_settings, fresh, services, streams, full_streams, listed,
}

decode_envelope-job_fields_example :
    decode_envelope streams memory_settings
      (codes "2-0", job_fields streams memory_settings (some (codes "d-1")) end 1 9 none 8)
    ≡ ok (record {
      message_id = codes "2-0";
      payload = end;
      delivery_id = nonempty (strip (codes "d-1"));
      attempt = 1;
      not_before = 9;
      last_error = nonempty (strip []);
    })
unfolding text_beq show_nat
decode_envelope-job_fields_example =
    decode_envelope-job_fields streams memory_settings (codes "2-0") (some (codes "d-1")) end 1 9
      none 8 refl one_read nine_read
  where
    one_read : streams.parse_int (show_nat 1) ≡ some 1
    one_read = refl

    nine_read : streams.parse_time (streams.show_time 9) ≡ some 9
    nine_read = refl

-- a job without a ticket id
abbrev nameless : Envelope
nameless = record {
  message_id = codes "1-0";
  payload = end;
  delivery_id = none;
  attempt = 0;
  not_before = 0;
  last_error = none;
}

-- a job whose ticket id is no number, which is tried again
abbrev squared : Envelope
squared = record nameless { payload = field (codes "ticket_id") (str (0xb2 ∷ [])) end }

abbrev after_squared : World Tables
after_squared = (handle_envelope streams services memory_settings squared fresh).1

handles : (handle_envelope streams services memory_settings squared fresh).0 ≡ ok 0
unfolding handle_envelope run_job process_ticket extract_ticket_id coerce_ticket_id get text_beq
    coerce_text strip is_space isdigit parse_int digits_value dispose retry_or_bury retry
    enqueue_ticket_job get_redis ack_and_delete
handles = refl

handle_envelope-WasSettled_example :
    ((now : ℕ) × (0 < 0)
      × (now + 0 ≡ 0)
      × (streams.time fresh.remote ≡ (now, after_squared.remote))
      × (after_squared.local ≡ fresh.local))
    ⊎ ((◌≡◌ {A = ℕ} 0 0) × WasSettled streams services memory_settings squared fresh after_squared)
handle_envelope-WasSettled_example =
    handle_envelope-WasSettled streams services memory_settings squared 0 fresh after_squared
      (ending (handle_envelope streams services memory_settings squared fresh) (ok 0) handles)

listed_bounded :
    (stream : Text) (n : ℕ) (x x' : Tables) (entries : List Message)
    → streams.xrange stream n x ≡ (ok entries, x')
    → length entries ≤ n
listed_bounded stream n x x' entries h =
    let same : listed n ≡ entries = ground (arith, h) in
    subst (λ l. length l ≤ n) same (ground arith)

abbrev after_drain : World Tables
after_drain = (drain_dlq streams services memory_settings 5 fresh).1

drains : (drain_dlq streams services memory_settings 5 fresh).0 ≡ ok 1
unfolding drain_dlq get_redis strip is_space
drains = refl

drain_dlq_bounded_example : (1 ≤ 5) × (1 ≤ 1000)
drain_dlq_bounded_example =
    drain_dlq_bounded streams services memory_settings listed_bounded 5 1 fresh after_drain
      (ending (drain_dlq streams services memory_settings 5 fresh) (ok 1) drains)

abbrev raised : Status × Text
raised = (failed_transient, codes "ValueError: invalid literal for int() with base 10")

abbrev ran : World Tables
ran = (run_job full_streams services memory_settings squared fresh).1

raises : (run_job full_streams services memory_settings squared fresh).0 ≡ ok raised
unfolding run_job process_ticket extract_ticket_id coerce_ticket_id get text_beq coerce_text strip
    is_space isdigit parse_int digits_value described
raises = refl

abbrev unwritten : World Tables
unwritten = (dispose full_streams services memory_settings squared raised ran).1

refuses :
    (dispose full_streams services memory_settings squared raised ran).0
    ≡ err (timeout (codes "full"))
unfolding dispose retry_or_bury retry enqueue_ticket_job get_redis strip is_space
refuses = refl

abbrev queued_settings : WorkflowSettings
queued_settings = record memory_settings { execution_backend = codes "Redis_Queue" }

abbrev no_workers : Registry
no_workers = record { worker_tasks = []; worker_stops = []; set_events = []; next_task = 4 }

abbrev one_worker : Registry
one_worker = (start_queue_worker (λ t. false) queued_settings no_workers).1

starts_worker : (start_queue_worker (λ t. false) queued_settings no_workers).0 ≡ some 4
unfolding start_queue_worker text_beq execution_backend_of lower strip is_space lookup
starts_worker = refl

start_queue_worker-twice_example :
    start_queue_worker (λ t. false) queued_settings one_worker ≡ (some 4, one_worker)
start_queue_worker-twice_example =
    start_queue_worker-twice queued_settings (λ t. false) (λ t. false) no_workers one_worker 4
      (ending (start_queue_worker (λ t. false) queued_settings no_workers) (some 4) starts_worker)
      refl
