-- ===== src/Queue.antt =====
-- The job queue on Redis streams (src/zammad_pdf_archiver/app/jobs/redis_queue.py): its messages, and
-- what is written to its streams.
pub mod Worker
pub mod Codec
pub mod Delays
pub mod Written
pub mod Settled
pub mod Dlq
pub mod Registry
use zammad_ticket_archiver.Base.{
  ℕ, Bool, true, false, Option, none, some, List, [], ◌∷◌, leb, take, Dict, lookup, insert,
  if◌then◌else◌,
}
use zammad_ticket_archiver.Base.Text.{Text, codes, text_eq, strip, show_nat}
use zammad_ticket_archiver.Errors.{value_error, other}
use zammad_ticket_archiver.Effect.{
  Reply, Action, Done, ok, err, cancelled, pure, raise, ◌>>=◌, ◌>>◌, finally,
}
use zammad_ticket_archiver.Settings.{WorkflowSettings}
use zammad_ticket_archiver.Stores.{
  World, remotely, locally, count, queue_enqueued_total, queue_dlq_total,
}
use zammad_ticket_archiver.TicketId.{Value, dict, Fields, end}

-- A message of a stream, its id and its fields; with `decode_responses` all of them are texts.
abbrev pub Message : Type 0
Message = Text × Dict Text Text

-- What XPENDING tells of a message.
pub record PendingEntry : Type 0 where
  pub message_id : Text
  pub consumer : Text
  pub time_since_delivered : ℕ

-- The stream commands that the queue sends, the wall clock in nanoseconds, and Python's texts for
-- JSON and floats: a time is the float that stands for it, a negative one is 0.
pub record Streams (R : Type 0) : Type 0 where
  pub time : R → ℕ × R
  pub xadd : Text → Dict Text Text → Action R Text
  pub xack : Text → Text → Text → Action R Done
  pub xdel : Text → Text → Action R Done
  pub xpending_range : Text → Text → ℕ → Action R (List PendingEntry)
  -- stream, group, consumer, least idle time, ids
  pub xclaim : Text → Text → Text → ℕ → List Text → Action R (List Message)
  -- group, consumer, stream, start, count, block
  pub xreadgroup : Text → Text → Text → Text → ℕ → ℕ → Action R (List Message)
  pub xrange : Text → ℕ → Action R (List Message)
  -- the pipeline of XDEL commands
  pub xdel_all : Text → List Text → Action R Done
  pub host_consumer : Text
  pub dumps : Fields → Text
  pub loads : Text → Reply Value
  pub show_time : ℕ → Text
  pub parse_time : Text → Option ℕ
  pub parse_int : Text → Option ℕ

-- `_QueueEnvelope`
pub record Envelope : Type 0 where
  pub message_id : Text
  pub payload : Fields
  pub delivery_id : Option Text
  pub attempt : ℕ
  pub not_before : ℕ
  pub last_error : Option Text

-- x or None
abbrev pub nonempty : Text → Option Text
nonempty [] = none
nonempty (c ∷ s) = some (c ∷ s)

-- x or ""
abbrev pub or_blank : Option Text → Text
or_blank none = []
or_blank (some s) = s

abbrev pub or_zero : Option ℕ → ℕ
or_zero none = 0
or_zero (some n) = n

-- message or envelope.last_error
abbrev pub or_last : Text → Option Text → Option Text
or_last [] last = last
or_last (c ∷ s) last = some (c ∷ s)

-- fields.get(key, default)
abbrev pub get_text : Text → Text → Dict Text Text → Text
get_text key default fields = elim (lookup key fields) [ some v ↦ v | none ↦ default ]

-- if text: fields[key] = text[:500]
abbrev pub with_error : Text → Option Text → Dict Text Text → Dict Text Text
with_error key none fields = fields
with_error key (some []) fields = fields
with_error key (some (c ∷ s)) fields = insert key (take 500 (c ∷ s)) fields

-- `_consumer_name`
unfoldable pub consumer_name : Text → WorkflowSettings → Text
consumer_name host settings = elim (nonempty (strip (or_blank settings.queue_consumer))) [
  | some configured ↦ configured
  | none ↦ host
]

module _ {R : Type 0} (streams : Streams R) (settings : WorkflowSettings) where
  -- `_get_redis`, whose cache of clients only saves connections
  unfoldable pub get_redis : Action (World R) Done
  get_redis = elim (nonempty (strip (or_blank settings.redis_url))) [
    | some url ↦ pure tt
    | none ↦ raise (
        other (codes "RuntimeError")
          (codes "workflow.redis_url is required for redis queue backend"))
  ]

  abbrev pub time_of : Action (World R) ℕ
  time_of w = let (now, x) = streams.time w.remote in (ok now, record w { remote = x })

  -- the parts of `_decode_envelope` that cannot fail
  abbrev pub envelope_of : Text → Dict Text Text → Fields → Envelope
  envelope_of message_id fields payload = record {
    message_id = message_id;
    payload = payload;
    delivery_id = nonempty (strip (get_text (codes "delivery_id") [] fields));
    attempt = or_zero (streams.parse_int (get_text (codes "attempt") (codes "None") fields));
    not_before =
        or_zero (streams.parse_time (get_text (codes "not_before_ts") (codes "None") fields));
    last_error = nonempty (strip (get_text (codes "last_error") [] fields));
  }

  -- `_decode_envelope`
  unfoldable pub decode_envelope : Message → Reply Envelope
  decode_envelope (message_id, fields) =
      elim (streams.loads (get_text (codes "payload_json") (codes "{}") fields)) [
        | ok (dict payload) ↦ ok (envelope_of message_id fields payload)
        | ok _ ↦ err (value_error (codes "payload_json is not an object"))
        | err e ↦ err e
        | cancelled ↦ cancelled
      ]

  -- the fields that `enqueue_ticket_job` writes
  unfoldable pub job_fields : Option Text → Fields → ℕ → ℕ → Option Text → ℕ → Dict Text Text
  job_fields delivery_id payload attempt not_before last_error now =
      with_error (codes "last_error") last_error (
        (codes "payload_json", streams.dumps payload)
        ∷ (codes "delivery_id", or_blank delivery_id)
        ∷ (codes "attempt", show_nat attempt)
        ∷ (codes "not_before_ts", streams.show_time not_before)
        ∷ (codes "enqueued_at", streams.show_time now)
        ∷ [])

  unfoldable pub enqueue_ticket_job :
      Option Text → Fields → ℕ → ℕ → Option Text → Action (World R) Text
  enqueue_ticket_job delivery_id payload attempt not_before last_error = do
    get_redis
    now ← time_of
    message_id ← remotely (
        streams.xadd settings.queue_stream
          (job_fields delivery_id payload attempt not_before last_error now))
    locally (count queue_enqueued_total)
    pure message_id

  -- `_ack_and_delete`
  unfoldable pub ack_and_delete : Text → Action (World R) Done
  ack_and_delete message_id =
      finally (remotely (streams.xack settings.queue_stream settings.queue_group message_id))
        (remotely (streams.xdel settings.queue_stream message_id))

  -- the fields that `_push_dlq` writes
  unfoldable pub dlq_fields : Envelope → Text → Option Text → ℕ → Dict Text Text
  dlq_fields envelope reason error_message now = with_error (codes "error") error_message (
      (codes "payload_json", streams.dumps envelope.payload)
      ∷ (codes "delivery_id", or_blank envelope.delivery_id)
      ∷ (codes "attempt", show_nat envelope.attempt)
      ∷ (codes "reason", reason)
      ∷ (codes "failed_at", streams.show_time now)
      ∷ [])

  -- `_push_dlq`
  unfoldable pub push_dlq : Envelope → Text → Option Text → Action (World R) Done
  push_dlq envelope reason error_message = do
    now ← time_of
    remotely (streams.xadd settings.queue_dlq_stream (dlq_fields envelope reason error_message now))
    locally (count queue_dlq_total)
