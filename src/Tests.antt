-- ===== src/Tests.antt =====
-- A small installation that the examples run on: tags in memory, calls that succeed, and a clock that
-- stands still.
pub mod Tagging
pub mod Stores
pub mod Processing
pub mod Queueing
pub mod Parsing
pub mod Limits
pub mod Http
pub mod Files
pub mod Paths
pub mod Notes
pub mod Ingests
pub mod Webhooks
pub mod Histories
pub mod Snapshots
use mathlib.Core.Path.{◌≡◌}
use zammad_ticket_archiver.Base.{
  ℕ, Bool, true, false, Option, none, some, List, [], ◌∷◌, ◌==◌, nat_eq, if◌then◌else◌,
}
use zammad_ticket_archiver.Base.Text.{Text, codes, text_eq, show_nat}
use zammad_ticket_archiver.Effect.{Reply, Action, Done, ok, err, cancelled}
use zammad_ticket_archiver.Errors.{Exc, timeout}
use zammad_ticket_archiver.Idempotency.{TtlSet}
use zammad_ticket_archiver.Settings.{WorkflowSettings}
use zammad_ticket_archiver.Tags.Service.{Tables, memory_tagger}
use zammad_ticket_archiver.Stores.{Local, World, Redis}
use zammad_ticket_archiver.TicketId.{Value, dict, Fields, end, Unicode}
use zammad_ticket_archiver.Process.Services.{Services}
use zammad_ticket_archiver.Queue.{Streams, Message}

-- A pair with the first part known.
pub ending : {A B : Type 0} (p : A × B) (a : A) → p.0 ≡ a → p ≡ (a, p.1)
ending p a h = λ i. (h i, p.1)

abbrev pub trigger : Text
trigger = codes "pdf:sign"

abbrev pub memory_settings : WorkflowSettings
memory_settings = record {
  trigger_tag = trigger;
  require_tag = true;
  acknowledge_on_success = true;
  delivery_id_ttl_seconds = 3600;
  execution_backend = codes "inprocess";
  idempotency_backend = codes "memory";
  redis_url = some (codes "redis://queue");
  queue_retry_max_attempts = 3;
  queue_retry_backoff = 2_000_000_000;
  queue_stream = codes "jobs";
  queue_group = codes "archivers";
  queue_consumer = none;
  queue_dlq_stream = codes "dead";
  queue_read_count = 10;
  queue_read_block_ms = 1000;
}

abbrev pub redis_settings : WorkflowSettings
redis_settings = record memory_settings { idempotency_backend = codes " Redis " }

abbrev pub no_claims : Local
no_claims = record {
  delivery_id_sets = [];
  in_flight_tickets = [];
  shutting_down = false;
  metrics = [];
}

-- Ticket 7 is to be archived; no other ticket has a tag.
abbrev pub one_triggered : Tables
one_triggered u = if u == 7 then trigger ∷ [] else []

abbrev pub fresh : World Tables
fresh = record { local = no_claims; remote = one_triggered }

-- Ticket 7 is in flight.
abbrev pub busy : World Tables
busy = record { local = record no_claims { in_flight_tickets = 7 ∷ [] }; remote = one_triggered }

abbrev pub still_clock : Tables → ℕ × Tables
still_clock x = (5_000_000_000, x)

abbrev pub granting : Redis Tables
granting = record { set_nx = λ url key ttl x. (ok true, x); delete = λ url key x. (ok tt, x) }

-- a Redis that is asked when the task is cancelled
abbrev pub cancelling : Redis Tables
cancelling = record { set_nx = λ url key ttl x. (cancelled, x); delete = λ url key x. (ok tt, x) }

-- ASCII digits, and the superscript two, which is a digit without a decimal value
abbrev pub digits : Unicode
digits = record {
  is_digit = λ c. if c == 0xb2 then true else if c == b'7' then true else false;
  decimal = λ c. if c == b'7' then some 7 else none;
}

abbrev pub working : Redis Tables → Services Tables Done Done Done Done
working redis = record {
  unicode = digits;
  monotonic = still_clock;
  redis = redis;
  tagger = memory_tagger;
  get_ticket = λ t x. (ok tt, x);
  list_tags = λ t x. (ok (x t), x);
  create_internal_article = λ t body x. (ok tt, x);
  aclose = λ x. (ok tt, x);
  record_history_event = λ event x. (ok tt, x);
  sleep = λ t x. (ok tt, x);
  checkpoint = λ x. (ok tt, x);
  compute_paths = λ ticket payload x. (ok tt, x);
  build_and_render_pdf = λ ticket tags t x. (ok tt, x);
  store_ticket_files = λ rendered paths x. (ok tt, x);
  success_note = λ stored request_id delivery_id. [];
  error_note = λ e d request_id delivery_id. [];
  scrub = λ s. s;
}

abbrev pub services : Services Tables Done Done Done Done
services = working granting

-- Two messages of which XRANGE lists as many as it is asked for, and only they are read.
abbrev pub one_message : Message
one_message = (codes "1-0", [])

abbrev pub listed : ℕ → List Message
listed n = if n == 0 then [] else one_message ∷ []

abbrev pub streams : Streams Tables
streams = record {
  time = still_clock;
  xadd = λ stream fields x. (ok (codes "2-0"), x);
  xack = λ stream group id x. (ok tt, x);
  xdel = λ stream id x. (ok tt, x);
  xpending_range = λ stream group n x. (ok [], x);
  xclaim = λ stream group consumer idle ids x. (ok [], x);
  xreadgroup = λ group consumer stream start n block x. (ok [], x);
  xrange = λ stream n x. (ok (listed n), x);
  xdel_all = λ stream ids x. (ok tt, x);
  host_consumer = codes "host-1";
  dumps = λ payload. codes "{}";
  loads = λ text. ok (dict end);
  show_time = show_nat;
  parse_time = λ text. if text == codes "9" then some 9 else none;
  parse_int = λ text. if text == codes "1" then some 1 else none;
}

-- streams on which nothing can be written
abbrev pub full_streams : Streams Tables
full_streams = record streams { xadd = λ stream fields x. (err (timeout (codes "full")), x) }
