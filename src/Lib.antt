-- ===== src/Lib.antt =====
-- A model of the Zammad ticket archiver's job processing, and the theorems that make it correct.
--
-- A webhook of Zammad names a ticket. `process_ticket` extracts the ticket's id from the payload,
-- takes the lock of the ticket, claims the delivery id, and runs the pipeline: it fetches the ticket
-- and its tags, decides by the tags whether the ticket is to be archived, sets the processing tag,
-- renders and stores the document, and sets the done tag. A failure is classified, noted on the
-- ticket, and leaves the error tag. With the Redis backend, jobs wait in a stream, from which a worker
-- takes them; a transient failure is enqueued again, others go to a dead-letter stream.
--
-- Files, with the sources under src/zammad_pdf_archiver/:
--   Base         Booleans, lists, dicts, sets and Python's texts as lists of code points.
--   Effect       Awaited calls: an action takes a world to a reply and a world. A reply is a value,
--                an exception, or a cancellation, which `except Exception` does not catch.
--   Errors       The exceptions (domain/errors.py, adapters/zammad/errors.py) and `classify`
--                (app/jobs/retry_policy.py, domain/error_messages.py); Policy on what is retried.
--   Tags         domain/state_machine.py; Service is what is asked of Zammad's tag calls,
--                Transitions and Decision on the tags and on what they lead to.
--   Idempotency  InMemoryTTLSet (domain/idempotency.py); Live is the abstract set of live keys,
--                Claims on claims among other calls.
--   Settings     The fields of `settings.workflow` (config/settings.py).
--   Stores       app/jobs/ticket_stores.py and domain/redis_delivery_id.py; Locks and
--                Deliveries are the theorems.
--   TicketId     domain/ticket_id.py.
--   Process      app/jobs/process_ticket.py, app/jobs/ticket_fetcher.py: Services is the interface
--                to the rest of the program, Pipeline, Failure and Job are the code, and Keeping, Lock,
--                Counted and Mutex (interleaved calls), Archive, Outcome and Redelivery the
--                theorems.
--   Queue        app/jobs/redis_queue.py: messages; Worker is the worker, Registry the
--                worker tasks of a process, and Codec, Delays, Written (the commands
--                that are sent), Settled and Dlq the theorems.
--   PathPolicy   Sanitising and validation of path segments (domain/path_policy.py).
--   RateLimit    The token bucket (app/middleware/rate_limit.py).
--   Storage      adapters/storage/fs_storage.py over the calls of os and pathlib. Layout and Custom are
--                the parts of a path (adapters/storage/layout.py, app/jobs/ticket_path.py), Target the
--                computed paths, Ticket `store_ticket_files` (app/jobs/ticket_storage.py); Files, Staging,
--                Finals, Commit and Stored are on what its steps change, Places on which paths differ.
--   Zammad       The retry loop of adapters/zammad/client.py; Calls are the API calls, Attempts and
--                Recovery the theorems.
--   Webhook      app/middleware/hmac_verify.py; Signature is the header, Limit is
--                app/middleware/body_size_limit.py, Authentic and Replay the theorems.
--   History      app/jobs/history.py; Reading on what is read of what was recorded.
--   Notes        app/jobs/ticket_notes.py; Markup on what a text can put into a note.
--   Ingest       app/routes/ingest.py; Batch on what a batch dispatches.
--   Snapshot     The attachments of adapters/snapshot/build_snapshot.py, with Downloads and Limits.
--   Tests        A small installation, and the theorems at work on it.
--
-- The state is a `World`: the process-local tables (`_DELIVERY_ID_SETS`, `_IN_FLIGHT_TICKETS`, the
-- shutdown flag, the metrics that were counted) and a remote world of any type, on which Zammad, Redis,
-- the clocks, the rendering and the storage act. Those are records of operations (`Services`, `Redis`,
-- `Streams`, `TicketTagger`, `Unicode`), and what a theorem relies on of them is a hypothesis of it.
--
-- Times are natural numbers of nanoseconds. The three attempts of `_apply_done_with_backoff` are
-- counted down, so that no fuel is needed; the loops over messages recur on the list. The loop of the
-- worker is one round, as it ends only with a stop event. The loop of `_request` is given the rounds
-- that it may make, of which it needs no more than its attempts. `_read_body` and `drain_stream` are
-- given the number of messages that they may read, since a client may send without an end.
--
-- A file system is a record of the calls of os and pathlib; `IsFileSystem` is what POSIX documents of
-- them, and `IsOutage` describes a server that fails for a while. The HMAC, httpx, pydantic, the UUID,
-- `str.format` and the audit record are parameters. Downloads run one after another.
--
-- Not modelled: logging, the rendering and signing, and the command line, which are calls of
-- libraries or input and output; the construction of snapshots, the audit record, the routes for
-- administration and jobs, the settings' validation, and of the queue the statistics and the creation
-- of the consumer group, which are left for later.
pub mod Base
pub mod Effect
pub mod Errors
pub mod History
pub mod Idempotency
pub mod Ingest
pub mod Notes
pub mod PathPolicy
pub mod Process
pub mod Queue
pub mod RateLimit
pub mod Settings
pub mod Snapshot
pub mod Storage
pub mod Stores
pub mod Tags
pub mod Tests
pub mod TicketId
pub mod Webhook
pub mod Zammad
