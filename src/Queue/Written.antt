-- ===== src/Queue/Written.antt =====
-- What the queue writes to its streams, by the commands that Redis gets and their fields.
use zammad_ticket_archiver.Base.{
  false, ◌==◌, eq_refl, lookup-insert, ℕ, ◌≡◌, refl, ap, ◌∙◌, Option, none, some, [], ◌∷◌, arith,
  take, Dict, lookup, Option-cases, inl, inr,
}
use zammad_ticket_archiver.Base.Text.{Text, codes, text_eq, text_beq, strip, show_nat}
use zammad_ticket_archiver.Effect.{
  Action, ok, pure, ◌>>=◌, ◌>>◌, >>=-eq-ok, >>-eq-ok, finally-eq-ok,
}
use zammad_ticket_archiver.Settings.{WorkflowSettings}
use zammad_ticket_archiver.Stores.{
  World, remotely, locally, count, queue_enqueued_total, queue_dlq_total,
}
use zammad_ticket_archiver.TicketId.{Fields}
use zammad_ticket_archiver.Queue.{
  Streams, Envelope, nonempty, or_blank, or_last, with_error, get_redis, time_of, job_fields,
  dlq_fields, enqueue_ticket_job, push_dlq, ack_and_delete,
}

-- The error that an entry reports, at most 500 characters of it: the message of the job, or else the
-- error of the attempt before; none if both are missing or empty.
abbrev pub reported : Text → Option Text → Option Text
reported (c ∷ s) last = some (take 500 (c ∷ s))
reported [] none = none
reported [] (some []) = none
reported [] (some (c ∷ s)) = some (take 500 (c ∷ s))

-- The value of a field of an entry.
abbrev IsField : Dict Text Text → Text → Text → Type 0
IsField fields key v = lookup key fields ≡ some v

remotely-eq-ok :
    {R A : Type 0} (m : Action R A) (w w' : World R) (a : A)
    → remotely m w ≡ (ok a, w')
    → m w.remote ≡ (ok a, w'.remote)
remotely-eq-ok m w w' a h = λ i. ((h i).0, (h i).1.remote)

-- `with_error` writes the reported error under its key, and leaves the other fields alone.
lookup-with_error :
    (key : Text) (text : Text) (last : Option Text) (fields : Dict Text Text)
    → lookup key fields ≡ none
    → lookup key (with_error key (or_last text last) fields) ≡ reported text last
lookup-with_error key (c ∷ s) last fields unset =
    ground (arith, lookup-insert key key (take 500 (c ∷ s)) fields, eq_refl key)
lookup-with_error key [] none fields unset = unset
lookup-with_error key [] (some []) fields unset = unset
lookup-with_error key [] (some (c ∷ s)) fields unset =
    ground (arith, lookup-insert key key (take 500 (c ∷ s)) fields, eq_refl key)

lookup-with_error_other :
    (key other v : Text) (error : Option Text) (fields : Dict Text Text)
    → (key == other) ≡ false
    → IsField fields other v
    → IsField (with_error key error fields) other v
lookup-with_error_other key other v none fields apart h = h
lookup-with_error_other key other v (some []) fields apart h = h
lookup-with_error_other key other v (some (c ∷ s)) fields apart h =
    ground (arith, lookup-insert key other (take 500 (c ∷ s)) fields, apart, h)

module _ {R : Type 0} (streams : Streams R) (settings : WorkflowSettings) where
  -- An entry that asks for a job.
  pub record IsJobEntry (delivery_id : Option Text) (payload : Fields) (attempt not_before now : ℕ)
      (error : Option Text) (fields : Dict Text Text) : Type 0 where
    pub payload_is : IsField fields (codes "payload_json") (streams.dumps payload)
    pub delivery_is :
        IsField fields (codes "delivery_id") (elim delivery_id [ none ↦ [] | some id ↦ id ])
    pub attempt_is : IsField fields (codes "attempt") (show_nat attempt)
    pub not_before_is : IsField fields (codes "not_before_ts") (streams.show_time not_before)
    pub now_is : IsField fields (codes "enqueued_at") (streams.show_time now)
    pub error_is : lookup (codes "last_error") fields ≡ error

  -- An entry of the dead-letter stream.
  pub record IsDeadLetter (envelope : Envelope) (reason : Text) (now : ℕ) (error : Option Text)
      (fields : Dict Text Text) : Type 0 where
    pub payload_is : IsField fields (codes "payload_json") (streams.dumps envelope.payload)
    pub delivery_is :
        IsField fields
          (codes "delivery_id")
          (elim envelope.delivery_id [ none ↦ [] | some id ↦ id ])
    pub attempt_is : IsField fields (codes "attempt") (show_nat envelope.attempt)
    pub reason_is : IsField fields (codes "reason") reason
    pub now_is : IsField fields (codes "failed_at") (streams.show_time now)
    pub error_is : lookup (codes "error") fields ≡ error

  job_fields-IsJobEntry :
      (delivery_id : Option Text) (payload : Fields) (attempt not_before now : ℕ) (text : Text)
      (last : Option Text)
      → IsJobEntry delivery_id payload attempt not_before now (reported text last) (
          job_fields streams settings delivery_id payload attempt not_before
            (or_last text last)
            now)
  unfolding job_fields lookup text_beq
  job_fields-IsJobEntry d p a n now text last =
      let plain = job_fields streams settings d p a n none now in
      let keeps = λ (other v : Text) (apart : (codes "last_error" == other) ≡ false).
        lookup-with_error_other (codes "last_error") other v (or_last text last) plain apart in
      record {
        payload_is = keeps (codes "payload_json") (streams.dumps p) refl refl;
        delivery_is = keeps (codes "delivery_id") _ refl (ground arith);
        attempt_is = keeps (codes "attempt") (show_nat a) refl refl;
        not_before_is = keeps (codes "not_before_ts") (streams.show_time n) refl refl;
        now_is = keeps (codes "enqueued_at") (streams.show_time now) refl refl;
        error_is = lookup-with_error (codes "last_error") text last plain refl;
      }

  pub time_of-eq-ok :
      (now : ℕ) (w w' : World R)
      → time_of streams settings w ≡ (ok now, w')
      → streams.time w.remote ≡ (now, w'.remote)
  time_of-eq-ok now w w' h = ground (arith, h)

  get_redis_world : (w w' : World R) → get_redis streams settings w ≡ (ok tt, w') → w ≡ w'
  unfolding get_redis
  get_redis_world w w' h = elim (Option-cases (nonempty (strip (or_blank settings.redis_url)))) [
    | inl unset ↦ ground (arith, h, unset)
    | inr (url, set) ↦ ground (arith, h, set)
  ]

  dlq_fields-IsDeadLetter :
      (envelope : Envelope) (reason : Text) (now : ℕ) (text : Text) (last : Option Text)
      → IsDeadLetter envelope reason now
          (reported text last)
          (dlq_fields streams settings envelope reason (or_last text last) now)
  unfolding dlq_fields lookup text_beq
  dlq_fields-IsDeadLetter x reason now text last =
      let plain = dlq_fields streams settings x reason none now in
      let keeps = λ (other v : Text) (apart : (codes "error" == other) ≡ false).
        lookup-with_error_other (codes "error") other v (or_last text last) plain apart in
      record {
        payload_is = keeps (codes "payload_json") (streams.dumps x.payload) refl refl;
        delivery_is = keeps (codes "delivery_id") _ refl (ground arith);
        attempt_is = keeps (codes "attempt") (show_nat x.attempt) refl refl;
        reason_is = keeps (codes "reason") reason refl refl;
        now_is = keeps (codes "failed_at") (streams.show_time now) refl refl;
        error_is = lookup-with_error (codes "error") text last plain refl;
      }

  -- The clock is read, and then one entry is added to the stream, and nothing else is sent.
  pub record IsAdded (stream : Text) (IsEntry : ℕ → Dict Text Text → Type 0) (x x' : R)
      : Type 0 where
    pub now : ℕ
    pub fields : Dict Text Text
    pub id : Text
    pub read : R
    pub clock : streams.time x ≡ (now, read)
    pub sent : streams.xadd stream fields read ≡ (ok id, x')
    pub entry : IsEntry now fields

  pub enqueue_ticket_job-IsAdded :
      (delivery_id : Option Text) (payload : Fields) (attempt not_before : ℕ) (text : Text)
      (last : Option Text) (id : Text) (w w' : World R)
      → enqueue_ticket_job streams settings delivery_id payload attempt not_before
          (or_last text last)
          w
        ≡ (ok id, w')
      → IsAdded settings.queue_stream
          (λ now fields.
            IsJobEntry delivery_id payload attempt not_before now (reported text last) fields)
          w.remote
          w'.remote
  unfolding enqueue_ticket_job
  enqueue_ticket_job-IsAdded d p a n text last id w w' h =
      let fields = λ (now : ℕ). job_fields streams settings d p a n (or_last text last) now in
      let end = λ (id : Text). locally (count queue_enqueued_total) >> pure id in
      let add = λ (now : ℕ). remotely (streams.xadd settings.queue_stream (fields now)) in
      let (_, w1, connected, h1) =
        >>-eq-ok (get_redis streams settings)
          (time_of streams settings >>= λ (now : ℕ). add now >>= end) w w' id h in
      let (now, w2, read, h2) =
        >>=-eq-ok (time_of streams settings) (λ (now : ℕ). add now >>= end) w1 w' id h1 in
      let (id', w3, added, h3) = >>=-eq-ok (add now) end w2 w' id h2 in
      let same : w.remote ≡ w1.remote = ap (λ w. w.remote) (get_redis_world w w1 connected) in
      record {
        now = now;
        fields = fields now;
        id = id';
        read = w2.remote;
        clock = ap streams.time same ∙ time_of-eq-ok now w1 w2 read;
        sent =
            remotely-eq-ok (streams.xadd settings.queue_stream (fields now)) w2 w3 id' added
            ∙ (λ i. (ok id', (h3 i).1.remote));
        entry = job_fields-IsJobEntry d p a n now text last;
      }

  pub push_dlq-IsAdded :
      (envelope : Envelope) (reason text : Text) (last : Option Text) (w w' : World R)
      → push_dlq streams settings envelope reason (or_last text last) w ≡ (ok tt, w')
      → IsAdded settings.queue_dlq_stream
          (λ now fields. IsDeadLetter envelope reason now (reported text last) fields)
          w.remote
          w'.remote
  unfolding push_dlq
  push_dlq-IsAdded envelope reason text last w w' h =
      let fields =
        λ (now : ℕ). dlq_fields streams settings envelope reason (or_last text last) now in
      let end = locally (count queue_dlq_total) in
      let add = λ (now : ℕ). remotely (streams.xadd settings.queue_dlq_stream (fields now)) in
      let (now, w1, read, h1) =
        >>=-eq-ok (time_of streams settings) (λ (now : ℕ). add now >> end) w w' tt h in
      let (id, w2, added, h2) = >>-eq-ok (add now) end w1 w' tt h1 in
      record {
        now = now;
        fields = fields now;
        id = id;
        read = w1.remote;
        clock = time_of-eq-ok now w w1 read;
        sent =
            remotely-eq-ok (streams.xadd settings.queue_dlq_stream (fields now)) w1 w2 id added
            ∙ (λ i. (ok id, (h2 i).1.remote));
        entry = dlq_fields-IsDeadLetter envelope reason now text last;
      }

  -- The message is acknowledged, and then deleted.
  pub record IsRemoved (message_id : Text) (x x' : R) : Type 0 where
    pub between : R
    pub acknowledged :
        streams.xack settings.queue_stream settings.queue_group message_id x ≡ (ok tt, between)
    pub deleted : streams.xdel settings.queue_stream message_id between ≡ (ok tt, x')

  pub ack_and_delete-IsRemoved :
      (message_id : Text) (w w' : World R)
      → ack_and_delete streams settings message_id w ≡ (ok tt, w')
      → IsRemoved message_id w.remote w'.remote
  unfolding ack_and_delete
  ack_and_delete-IsRemoved message_id w w' h =
      let ack = streams.xack settings.queue_stream settings.queue_group message_id in
      let del = streams.xdel settings.queue_stream message_id in
      let (w1, _, acknowledged, deleted) = finally-eq-ok (remotely ack) (remotely del) w w' tt h in
      record {
        between = w1.remote;
        acknowledged = remotely-eq-ok ack w w1 tt acknowledged;
        deleted = remotely-eq-ok del w1 w' tt deleted;
      }
