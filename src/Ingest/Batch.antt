-- ===== src/Ingest/Batch.antt =====
-- What a batch of webhooks dispatches.
use zammad_ticket_archiver.Base.{
  ℕ, suc, ◌+◌, ◌≡◌, eq_refl, refl, ap, sym, ◌∙◌, arith, false, Bool-cases, inl, inr, Option, none,
  some, List, [], ◌∷◌, ◌++◌, map, length, All, ◌==◌, if◌then◌else◌,
}
use zammad_ticket_archiver.Base.Text.{Text, codes, text_eq, text_beq_iff}
use zammad_ticket_archiver.Effect.{ok}
use zammad_ticket_archiver.Settings.{WorkflowSettings}
use zammad_ticket_archiver.Queue.Registry.{execution_backend_of}
use zammad_ticket_archiver.TicketId.{
  Value, null, str, Fields, end, field, get, Unicode, extract_ticket_id,
}
use zammad_ticket_archiver.Ingest.{
  accepted_count, Dispatcher, IngestRequest, or_null, set_field, for_job, dispatch_ticket,
  dispatch_all, batch_ingest,
}

abbrev pub Job : Type 0
Job = Option Text × Fields

-- Enqueueing and the creation of a task succeed, and `log` lists the jobs, the oldest first.
pub record IsLogged {W : Type 0} (dispatcher : Dispatcher W) (log : W → List Job) : Type 0 where
  pub enqueued :
      (delivery_id : Option Text) (payload : Fields) (w : W)
      → (y : W) × (dispatcher.enqueue delivery_id payload w ≡ (ok tt, y))
        × (log y ≡ log w ++ ((delivery_id, payload) ∷ []))
  pub spawned :
      (delivery_id : Option Text) (payload : Fields) (w : W)
      → (y : W) × (dispatcher.spawn delivery_id payload w ≡ (ok tt, y))
        × (log y ≡ log w ++ ((delivery_id, payload) ∷ []))

append_assoc : (a b c : List Job) → (a ++ b) ++ c ≡ a ++ (b ++ c)
append_assoc [] b c = refl
append_assoc (x ∷ a) b c = ap (λ l. x ∷ l) (append_assoc a b c)

append_nil : (a : List Job) → a ++ [] ≡ a
append_nil [] = refl
append_nil (x ∷ a) = ap (λ l. x ∷ l) (append_nil a)

get-set_field : (key : Text) (v : Value) (fields : Fields) → get key (set_field key v fields) ≡ v
unfolding get set_field
get-set_field key v end = ground (arith, eq_refl key)
get-set_field key v (field k w fields) = ground (arith, eq_refl key, get-set_field key v fields)

get-set_field_other :
    (key other : Text) (v : Value) (fields : Fields)
    → (key == other) ≡ false
    → get other (set_field key v fields) ≡ get other fields
unfolding get set_field
get-set_field_other key other v end apart = ground (arith, apart)
get-set_field_other key other v (field k w fields) apart =
    ground (arith, apart, text_beq_iff k key, get-set_field_other key other v fields apart)

-- The job that one webhook asks for: no delivery id, and the fields of its payload, but that the
-- field `_request_id` is the request's id, or null if it has none.
pub record IsJobOf (request_id : Option Text) (payload : Fields) (job : Job) : Type 0 where
  pub undelivered : job.0 ≡ none
  pub fields :
      (key : Text)
      → get key job.1 ≡ (
          if key == codes "_request_id"
          then elim request_id [ none ↦ null | some id ↦ str id ]
          else get key payload)

-- The jobs are those of the payloads, one for each and in the same order.
abbrev pub AreJobsOf : Option Text → List Fields → List Job → Type 0
AreJobsOf request_id [] [] = Unit
AreJobsOf request_id (payload ∷ payloads) (job ∷ jobs) =
    IsJobOf request_id payload job × AreJobsOf request_id payloads jobs
AreJobsOf request_id _ _ = ⊥

for_job-IsJobOf :
    (request : IngestRequest) (payload : Fields)
    → IsJobOf request.request_id payload (none, for_job request payload)
for_job-IsJobOf request payload = record {
  undelivered = refl;
  fields = λ key. ground (
    arith,
    text_beq_iff key (codes "_request_id"),
    text_beq_iff (codes "_request_id") key,
    get-set_field (codes "_request_id") (or_null request.request_id) payload,
    get-set_field_other (codes "_request_id") key (or_null request.request_id) payload,
  );
}

module _ {W : Type 0} (dispatcher : Dispatcher W) (unicode : Unicode) (log : W → List Job)
    (logged : IsLogged dispatcher log) (request : IngestRequest) (settings : WorkflowSettings) where
  dispatch_ticket-logged :
      (delivery_id : Option Text) (payload : Fields) (w : W)
      → (y : W) × (dispatch_ticket dispatcher unicode settings delivery_id payload w ≡ (ok tt, y))
        × (log y ≡ log w ++ ((delivery_id, payload) ∷ []))
  unfolding dispatch_ticket
  dispatch_ticket-logged delivery_id payload w =
      elim (Bool-cases (execution_backend_of settings == codes "redis_queue")) [
        | inl queue ↦
            let (y, e, l) = logged.enqueued delivery_id payload w in
            (y, ground (arith, queue, e), l)
        | inr inprocess ↦
            let (y, e, l) = logged.spawned delivery_id payload w in
            (y, ground (arith, inprocess, e), l)
      ]

  -- the job that is dispatched for a payload
  abbrev job_of : Fields → Job
  job_of payload = (none, for_job request payload)

  dispatch_all-logged :
      (count : ℕ) (payloads : List Fields) (w : W)
      → All (λ payload. (id : ℕ) × (extract_ticket_id unicode payload ≡ ok (some id))) payloads
      → (y : W) × (dispatch_all dispatcher unicode request settings count payloads w
          ≡ (ok (count + length payloads), y))
        × (log y ≡ log w ++ map job_of payloads)
  unfolding dispatch_all
  dispatch_all-logged count [] w named = (w, (λ i. (ok (plus_zero i), w)), sym (append_nil (log w)))
    where
      plus_zero : count ≡ count + 0
      plus_zero = omega arith
  dispatch_all-logged count (payload ∷ payloads) w ((id, e), named) =
      let (x, sent, l1) = dispatch_ticket-logged none (for_job request payload) w in
      let (y, rest, l2) = dispatch_all-logged (count + 1) payloads x named in
      let more : (count + 1) + length payloads ≡ count + suc (length payloads) = omega arith in
      (
        y,
        ground (arith, e, sent, rest, more),
        l2
            ∙ (ap (λ l. l ++ map job_of payloads) l1
                ∙ append_assoc (log w) (job_of payload ∷ []) (map job_of payloads)),
      )

  map-job_of :
      (payloads : List Fields) → AreJobsOf request.request_id payloads (map job_of payloads)
  map-job_of [] = tt
  map-job_of (payload ∷ payloads) = (for_job-IsJobOf request payload, map-job_of payloads)

  -- A batch that is no dry run, on a service that is configured and not shutting down, is dispatched
  -- whole: one job for each payload, in the order of the batch, without a delivery id, that has the
  -- fields of that payload, but that its `_request_id` is the id of the request, or null; and the
  -- response counts the payloads; if pydantic has found a ticket id in each of them, as its schema
  -- asks for.
  pub batch_ingest-logged :
      (payloads : List Fields) (w : W)
      → request.settings ≡ some settings
      → dispatcher.is_shutting_down w ≡ false
      → All (λ payload. (id : ℕ) × (extract_ticket_id unicode payload ≡ ok (some id))) payloads
      → (y : W) × (batch_ingest dispatcher unicode request payloads false w
          ≡ (ok (accepted_count (length payloads)), y))
        × (jobs : List Job) × (log y ≡ log w ++ jobs)
        × AreJobsOf request.request_id payloads jobs
  unfolding batch_ingest
  batch_ingest-logged payloads w configured running named =
      let (y, e, l) = dispatch_all-logged 0 payloads w named in
      let same : 0 + length payloads ≡ length payloads = omega arith in
      (y, ground (arith, configured, running, e, same), map job_of payloads, l, map-job_of payloads)
