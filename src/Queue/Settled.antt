-- ===== src/Queue/Settled.antt =====
-- No job is lost: a message is acknowledged only after its outcome was written down.
use mathlib.Core.Path.{subst}
use zammad_ticket_archiver.Base.{
  ℕ, ◌+◌, ◌*◌, ◌^◌, ◌-◌, refl, ◌<◌, ◌≤◌, ◌≡◌, ◌∙◌, ◌⊎◌, inl, inr, arith, ltb, Bool-cases,
}
use zammad_ticket_archiver.Base.Text.{Text, codes}
use zammad_ticket_archiver.Errors.{Exc, described}
use zammad_ticket_archiver.Effect.{Reply, cancelled, ok, err, pure, ◌>>=◌, >>=-eq-ok, >>-eq-ok}
use zammad_ticket_archiver.Settings.{WorkflowSettings}
use zammad_ticket_archiver.Stores.{World, locally, count, queue_retried_total}
use zammad_ticket_archiver.Process.Services.{
  Status, failed_transient, failed_permanent, skipped_no_ticket_id, skipped_in_flight,
  skipped_idempotency, skipped_not_triggered, processed, ProcessTicketResult, Services,
}
use zammad_ticket_archiver.Process.Job.{process_ticket}
use zammad_ticket_archiver.Queue.{Streams, Envelope, time_of, ack_and_delete}
use zammad_ticket_archiver.Queue.Written.{
  reported, IsJobEntry, IsDeadLetter, IsAdded, IsRemoved, enqueue_ticket_job-IsAdded,
  push_dlq-IsAdded, ack_and_delete-IsRemoved, time_of-eq-ok,
}
use zammad_ticket_archiver.Queue.Worker.{
  retry_delay, run_job, enqueue_retry, retry_at, retry, retry_or_bury, dispose, acknowledge,
  dispose_then, handle_at, handle_envelope,
}

-- The job was processed or skipped.
abbrev pub HasEnded : Status → Type 0
HasEnded failed_transient = ⊥
HasEnded failed_permanent = ⊥
HasEnded _ = Unit

module _ {R Ticket Paths Rendered Stored : Type 0} (streams : Streams R)
    (services : Services R Ticket Paths Rendered Stored) (settings : WorkflowSettings)
    (envelope : Envelope) where
  -- What the job reported: the result of `process_ticket`, or its exception as a transient failure.
  pub data IsRun (w w' : World R) : Status × Text → Type 0 where
    returned :
        (result : ProcessTicketResult)
        → process_ticket services settings envelope.delivery_id envelope.payload w ≡ (ok result, w')
        → IsRun w w' (result.status, result.message)
    raised :
        (e : Exc) (w1 : World R)
        → process_ticket services settings envelope.delivery_id envelope.payload w ≡ (err e, w1)
        → w1.remote ≡ w'.remote
        → IsRun w w' (failed_transient, described e)

  -- What is written to the streams for the outcome of a job, by the commands that are sent.
  pub data IsWritten (x x' : R) : Status × Text → Type 0 where
    -- the job once more, with the next attempt, which is at most the configured maximum, and not
    -- before the delay has passed, which doubles with each attempt
    retried :
        (text : Text) (now : ℕ) (x1 : R)
        → envelope.attempt + 1 ≤ settings.queue_retry_max_attempts
        → streams.time x ≡ (now, x1)
        → IsAdded streams settings settings.queue_stream
            (λ later fields.
              IsJobEntry streams settings envelope.delivery_id envelope.payload
                (envelope.attempt + 1)
                (now + settings.queue_retry_backoff * 2 ^ envelope.attempt)
                later
                (reported text envelope.last_error)
                fields)
            x1
            x'
        → IsWritten x x' (failed_transient, text)
    -- an entry of the dead-letter stream
    exhausted :
        (text : Text)
        → settings.queue_retry_max_attempts ≤ envelope.attempt
        → IsAdded streams settings settings.queue_dlq_stream
            (λ now fields.
              IsDeadLetter streams settings envelope
                (codes "retry_exhausted")
                now
                (reported text envelope.last_error)
                fields)
            x
            x'
        → IsWritten x x' (failed_transient, text)
    refused :
        (text : Text)
        → IsAdded streams settings settings.queue_dlq_stream
            (λ now fields.
              IsDeadLetter streams settings envelope
                (codes "permanent_error")
                now
                (reported text envelope.last_error)
                fields)
            x
            x'
        → IsWritten x x' (failed_permanent, text)
    -- nothing, for a job that was processed or skipped
    finished :
        (status : Status) (text : Text) → HasEnded status → x ≡ x' → IsWritten x x' (status, text)

  -- The whole course of a message that was handled and removed.
  pub record WasSettled (w w' : World R) : Type 0 where
    pub now : ℕ
    pub outcome : Status × Text
    pub started : World R
    pub ran : World R
    pub written : World R
    pub read : streams.time w.remote ≡ (now, started.remote)
    pub untouched : started.local ≡ w.local
    pub due : envelope.not_before ≤ now
    pub run : IsRun started ran outcome
    pub kept : IsWritten ran.remote written.remote outcome
    pub disposed : dispose streams services settings envelope outcome ran ≡ (ok tt, written)
    pub removed : IsRemoved streams settings envelope.message_id written.remote w'.remote

  run_job-IsRun :
      (outcome : Status × Text) (w w' : World R)
      → run_job streams services settings envelope w ≡ (ok outcome, w')
      → IsRun w w' outcome
  unfolding run_job
  run_job-IsRun outcome w w' h =
      let p = process_ticket services settings envelope.delivery_id envelope.payload w in
      cases p.0 p.1 refl h
    where
      cases :
          (r : Reply ProcessTicketResult) (w1 : World R)
          → process_ticket services settings envelope.delivery_id envelope.payload w ≡ (r, w1)
          → run_job streams services settings envelope w ≡ (ok outcome, w')
          → IsRun w w' outcome
      cases (ok result) w1 e h =
          let is : (result.status, result.message) ≡ outcome = ground (arith, e, h) in
          let ends : w1 ≡ w' = ground (arith, e, h) in
          subst (IsRun w w') is (returned result (e ∙ (λ i. (ok result, ends i))))
      cases (err x) w1 e h =
          let is : (failed_transient, described x) ≡ outcome = ground (arith, e, h) in
          subst (IsRun w w') is (raised x w1 e (ground (arith, e, h)))
      cases cancelled w1 e h = absurd (ground (arith, e, h))

  retry-IsWritten :
      (text : Text) (w w' : World R)
      → envelope.attempt < settings.queue_retry_max_attempts
      → retry streams services settings envelope text w ≡ (ok tt, w')
      → IsWritten w.remote w'.remote (failed_transient, text)
  unfolding retry retry_delay
  retry-IsWritten text w w' low h =
      let (now, w1, read, h1) =
        >>=-eq-ok (time_of streams settings) (retry_at streams services settings envelope text) w w'
          tt h in
      let (id, w2, written, counted) =
        >>-eq-ok (enqueue_retry streams services settings envelope text now)
          (locally (count queue_retried_total)) w1 w' tt h1 in
      let added =
        enqueue_ticket_job-IsAdded streams settings envelope.delivery_id envelope.payload
          (envelope.attempt + 1) (now + settings.queue_retry_backoff * 2 ^ envelope.attempt) text
          envelope.last_error id w1 w2 written in
      let same : w2.remote ≡ w'.remote = λ i. (counted i).1.remote in
      retried text now w1.remote (omega (arith, low)) (time_of-eq-ok streams settings now w w1 read)
        (subst
          (λ x.
            IsAdded streams settings settings.queue_stream
              (λ later fields.
                IsJobEntry streams settings envelope.delivery_id envelope.payload
                  (envelope.attempt + 1) (now + settings.queue_retry_backoff * 2 ^ envelope.attempt)
                  later (reported text envelope.last_error) fields)
              w1.remote x)
          same added)

  dispose-IsWritten :
      (status : Status) (text : Text) (w w' : World R)
      → dispose streams services settings envelope (status, text) w ≡ (ok tt, w')
      → IsWritten w.remote w'.remote (status, text)
  unfolding dispose retry_or_bury
  dispose-IsWritten failed_transient text w w' h =
      elim (Bool-cases (ltb envelope.attempt settings.queue_retry_max_attempts)) [
        | inl low ↦ retry-IsWritten text w w' (ground arith) (rw low at h)
        | inr high ↦ exhausted text (ground arith) (
            push_dlq-IsAdded streams settings envelope (codes "retry_exhausted") text
              envelope.last_error w w' (rw high at h))
      ]
  dispose-IsWritten failed_permanent text w w' h = refused text (
      push_dlq-IsAdded streams settings envelope (codes "permanent_error") text envelope.last_error
        w w' h)
  dispose-IsWritten skipped_no_ticket_id text w w' h = finished _ _ tt (λ i. (h i).1.remote)
  dispose-IsWritten skipped_in_flight text w w' h = finished _ _ tt (λ i. (h i).1.remote)
  dispose-IsWritten skipped_idempotency text w w' h = finished _ _ tt (λ i. (h i).1.remote)
  dispose-IsWritten skipped_not_triggered text w w' h = finished _ _ tt (λ i. (h i).1.remote)
  dispose-IsWritten processed text w w' h = finished _ _ tt (λ i. (h i).1.remote)

  settled :
      (now d : ℕ) (w w1 w' : World R)
      → time_of streams settings w ≡ (ok now, w1)
      → envelope.not_before ≤ now
      → (run_job streams services settings envelope
            >>= dispose_then streams services settings envelope)
          w1
        ≡ (ok d, w')
      → (d ≡ 0) × WasSettled w w'
  settled now d w w1 w' read due h =
      let (outcome, w2, run, h2) =
        >>=-eq-ok (run_job streams services settings envelope)
          (dispose_then streams services settings envelope) w1 w' d h in
      let (_, w3, disposed, h3) =
        >>-eq-ok (dispose streams services settings envelope outcome)
          (acknowledge streams services settings envelope) w2 w' d h2 in
      let (_, w4, removed, h4) =
        >>-eq-ok (ack_and_delete streams settings envelope.message_id) (pure 0) w3 w' d h3 in
      (
        ground arith,
        record {
          now = now;
          outcome = outcome;
          started = w1;
          ran = w2;
          written = w3;
          read = time_of-eq-ok streams settings now w w1 read;
          untouched = ground (arith, read);
          due = due;
          run = run_job-IsRun outcome w1 w2 run;
          kept = dispose-IsWritten outcome.0 outcome.1 w2 w3 disposed;
          disposed = disposed;
          removed =
              subst (IsRemoved streams settings envelope.message_id w3.remote)
                (λ i. (h4 i).1.remote)
                (ack_and_delete-IsRemoved streams settings envelope.message_id w3 w4 removed);
        },
      )

  -- A call of `_handle_envelope` that returns either returns the time, above 0, that is left
  -- before the job is due, and then has done no more than read the clock, so that the message stays
  -- pending; or it returns 0, and has run `process_ticket` once the job was due, then sent the XADD
  -- that its outcome asks for and no other command of the queue, and only then the XACK and the XDEL
  -- of the message. A transient failure adds to the job stream an entry with the same payload and
  -- delivery id, the next attempt, within the configured maximum, and the time when the doubled delay
  -- has passed; when the attempts are used up it adds a dead letter, as a permanent failure does, with
  -- the payload, the delivery id, the attempt and the reason; each with the error's first 500
  -- characters. A job that was processed or skipped adds nothing.
  pub handle_envelope-WasSettled :
      (d : ℕ) (w w' : World R)
      → handle_envelope streams services settings envelope w ≡ (ok d, w')
      → ((now : ℕ) × (0 < d)
          × (now + d ≡ envelope.not_before)
          × (streams.time w.remote ≡ (now, w'.remote))
          × (w'.local ≡ w.local))
        ⊎ ((d ≡ 0) × WasSettled w w')
  unfolding handle_envelope
  handle_envelope-WasSettled d w w' h =
      let (now, w1, read, h1) =
        >>=-eq-ok (time_of streams settings) (handle_at streams services settings envelope) w w' d
          h in
      elim (Bool-cases (ltb now envelope.not_before)) [
        | inl early ↦
            let same : Path (Reply ℕ × World R) (ok (envelope.not_before - now), w1) (ok d, w') =
              rw early at h1 in
            let left : envelope.not_before - now ≡ d = ground arith in
            inl (
              now,
              ground arith,
              ground arith,
              time_of-eq-ok streams settings now w w1 read ∙ (λ i. (now, (same i).1.remote)),
              ground (arith, read, same),
            )
        | inr due ↦ inr (settled now d w w1 w' read (ground arith) (rw due at h1))
      ]

  -- If the outcome of a job that is due cannot be written down, the call of `_handle_envelope`
  -- raises that error where it arose, with no command that acknowledges or deletes the message.
  pub handle_envelope-dispose_err :
      (now : ℕ) (outcome : Status × Text) (e : Exc) (w w1 w2 w3 : World R)
      → time_of streams settings w ≡ (ok now, w1)
      → envelope.not_before ≤ now
      → run_job streams services settings envelope w1 ≡ (ok outcome, w2)
      → dispose streams services settings envelope outcome w2 ≡ (err e, w3)
      → handle_envelope streams services settings envelope w ≡ (err e, w3)
  unfolding handle_envelope
  handle_envelope-dispose_err now outcome e w w1 w2 w3 read due run failed =
      ground (arith, read, run, failed)
