-- ===== src/Process/Keeping.antt =====
-- What the pipeline, its error handling and its skips leave alone: everything of the process-local
-- state but the counted metrics.
use zammad_ticket_archiver.Base.{
  ℕ, zero, suc, ◌+◌, ◌*◌, ◌^◌, ◌≡◌, refl, ◌∙◌, Bool, true, false, Option, List, ◌==◌, nat_eq, Dict,
  if◌then◌else◌,
}
use zammad_ticket_archiver.Base.Text.{Text}
use zammad_ticket_archiver.Errors.{Exc}
use zammad_ticket_archiver.Effect.{
  Reply, Action, ok, err, cancelled, pure, raise, cancel, ◌>>=◌, except, finally,
}
use zammad_ticket_archiver.Settings.{WorkflowSettings}
use zammad_ticket_archiver.Idempotency.{TtlSet}
use zammad_ticket_archiver.Tags.{apply_done}
use zammad_ticket_archiver.Stores.{Local, World, Metric, remotely, locally, count}
use zammad_ticket_archiver.TicketId.{Fields}
use zammad_ticket_archiver.Process.Services.{Status, ProcessTicketResult, HistoryEvent, Services}
use zammad_ticket_archiver.Process.Pipeline.{
  millisecond, record_history, skip, apply_done_attempts, apply_done_with_backoff,
  apply_done_best_effort, acknowledge_success_if_enabled, archive, run_ticket_pipeline,
}
use zammad_ticket_archiver.Process.Failure.{
  apply_error_with_retry, post_error_note, apply_error_and_cleanup_processing_tag,
  handle_ticket_pipeline_exception,
}
use zammad_ticket_archiver.Process.Job.{
  effective_trigger, observe, run_and_observe, process_ticket_with_client,
}

-- The tables of the stores, without the metrics.
abbrev pub Tables : Type 0
Tables = record { sets : Dict ℕ TtlSet; in_flight : List ℕ; down : Bool }

abbrev pub tables : Local → Tables
tables local = record {
  sets = local.delivery_id_sets;
  in_flight = local.in_flight_tickets;
  down = local.shutting_down;
}

-- However `m` ends, the tables are as they were.
pub record Keeps {R A : Type 0} (m : Action (World R) A) : Type 0 where
  pub at : (w : World R) → tables (m w).1.local ≡ tables w.local

module _ {R : Type 0} where
  pub Keeps-pure : {A : Type 0} (a : A) → Keeps {R = R} (pure a)
  Keeps-pure a = record { at = λ w. refl }

  pub Keeps-raise : {A : Type 0} (e : Exc) → Keeps {R = R} {A = A} (raise e)
  Keeps-raise e = record { at = λ w. refl }

  pub Keeps-remotely : {A : Type 0} (m : Action R A) → Keeps (remotely m)
  Keeps-remotely m = record { at = λ w. refl }

  pub Keeps-cancel : {A : Type 0} → Keeps {R = R} {A = A} cancel
  Keeps-cancel = record { at = λ w. refl }

  pub Keeps-count : (m : Metric) → Keeps {R = R} (locally (count m))
  Keeps-count m = record { at = λ w. refl }

  pub Keeps-if :
      {A : Type 0} (b : Bool) (m n : Action (World R) A)
      → Keeps m
      → Keeps n
      → Keeps (if b then m else n)
  Keeps-if true m n km kn = km
  Keeps-if false m n km kn = kn

  bind_reply :
      {A B : Type 0} (r : Reply A) (w : World R) (k : A → Action (World R) B)
      → ((a : A) → Keeps (k a))
      → Path Tables
          (tables
            (let p : Reply B × World R = elim r [
              | ok a ↦ k a w
              | err e ↦ (err e, w)
              | cancelled ↦ (cancelled, w)
            ] in
              p).1.local)
          (tables w.local)
  bind_reply (ok a) w k kk = (kk a).at w
  bind_reply (err e) w k kk = refl
  bind_reply cancelled w k kk = refl

  pub Keeps-bind :
      {A B : Type 0} (m : Action (World R) A) (k : A → Action (World R) B)
      → Keeps m
      → ((a : A) → Keeps (k a))
      → Keeps (m >>= k)
  Keeps-bind m k km kk = record { at = λ w. bind_reply (m w).0 (m w).1 k kk ∙ km.at w }

  except_reply :
      {A : Type 0} (r : Reply A) (w : World R) (k : Exc → Action (World R) A)
      → ((e : Exc) → Keeps (k e))
      → Path Tables
          (tables
            (let p : Reply A × World R = elim r [
              | ok a ↦ (ok a, w)
              | err e ↦ k e w
              | cancelled ↦ (cancelled, w)
            ] in
              p).1.local)
          (tables w.local)
  except_reply (ok a) w k kk = refl
  except_reply (err e) w k kk = (kk e).at w
  except_reply cancelled w k kk = refl

  pub Keeps-except :
      {A : Type 0} (m : Action (World R) A) (k : Exc → Action (World R) A)
      → Keeps m
      → ((e : Exc) → Keeps (k e))
      → Keeps (except m k)
  Keeps-except m k km kk = record { at = λ w. except_reply (m w).0 (m w).1 k kk ∙ km.at w }

  final_reply :
      {A B : Type 0} (r : Reply A) (s : Reply B) (w : World R)
      → Path Tables
          (tables
            (let p : Reply A × World R = elim s [
              | ok _ ↦ (r, w)
              | err e ↦ (err e, w)
              | cancelled ↦ (cancelled, w)
            ] in
              p).1.local)
          (tables w.local)
  final_reply r (ok a) w = refl
  final_reply r (err e) w = refl
  final_reply r cancelled w = refl

  pub Keeps-finally :
      {A B : Type 0} (m : Action (World R) A) (k : Action (World R) B)
      → Keeps m
      → Keeps k
      → Keeps (finally m k)
  Keeps-finally m k km kk = record {
    at = λ w. final_reply (m w).0 (k (m w).1).0 (k (m w).1).1 ∙ (kk.at (m w).1 ∙ km.at w);
  }

pub ruleset keeps_rules = (
  Keeps-pure, Keeps-raise, Keeps-cancel, Keeps-remotely, Keeps-count, Keeps-if, Keeps-bind,
  Keeps-except, Keeps-finally,
)

module _ {R Ticket Paths Rendered Stored : Type 0}
    (services : Services R Ticket Paths Rendered Stored) (settings : WorkflowSettings) where
  record_history-Keeps : (event : HistoryEvent) → Keeps (record_history services settings event)
  unfolding record_history
  record_history-Keeps event = search keeps_rules

  pub skip-Keeps :
      (status : Status) (reason : Text) (id : Option ℕ) (delivery_id request_id : Option Text)
      → Keeps (skip services settings status reason id delivery_id request_id)
  unfolding skip
  skip-Keeps status reason id delivery_id request_id = search (keeps_rules, record_history-Keeps)

  module _ (id : ℕ) (trigger : Text) where
    apply_done_attempts-Keeps :
        (left attempt : ℕ) → Keeps (apply_done_attempts services settings id trigger left attempt)
    unfolding apply_done_attempts
    apply_done_attempts-Keeps zero attempt = search keeps_rules
    apply_done_attempts-Keeps (suc left) attempt =
        let again = apply_done_attempts-Keeps left (attempt + 1) in
        Keeps-except (remotely (apply_done services.tagger id trigger)) _ (Keeps-remotely _) (λ e.
          Keeps-if (left == 0) (raise e) _ (Keeps-raise e) (
            Keeps-bind (remotely (services.sleep (500 * millisecond * 2 ^ attempt))) _
              (Keeps-remotely _) (λ _. again)))

    apply_done_best_effort-Keeps : Keeps (apply_done_best_effort services settings id trigger)
    unfolding apply_done_best_effort apply_done_with_backoff
    apply_done_best_effort-Keeps = search (keeps_rules, apply_done_attempts-Keeps)

    module _ (payload : Fields) (delivery_id request_id : Option Text) where
      archive-Keeps :
          (ticket : Ticket) (tags : List Text)
          → Keeps (archive services settings id trigger payload delivery_id request_id ticket tags)
      unfolding archive acknowledge_success_if_enabled
      archive-Keeps ticket tags =
          search (keeps_rules, record_history-Keeps, apply_done_best_effort-Keeps) depth 20

      run_ticket_pipeline-Keeps :
          Keeps (run_ticket_pipeline services settings id trigger payload delivery_id request_id)
      unfolding run_ticket_pipeline
      run_ticket_pipeline-Keeps = search (keeps_rules, archive-Keeps, skip-Keeps) depth 9

    module _ (delivery_id request_id : Option Text) where
      handle-Keeps :
          (e : Exc)
          → Keeps (
              handle_ticket_pipeline_exception services settings id trigger delivery_id request_id
                e)
      unfolding handle_ticket_pipeline_exception post_error_note
          apply_error_and_cleanup_processing_tag apply_error_with_retry
      handle-Keeps e = search (keeps_rules, record_history-Keeps) depth 20

  module _ (payload : Fields) (id : ℕ) (delivery_id request_id : Option Text) where
    observe-Keeps :
        (r : Reply (ProcessTicketResult × Bool))
        → Keeps (observe services settings payload id delivery_id request_id r)
    observe-Keeps (ok (result, true)) = search keeps_rules
    observe-Keeps (ok (result, false)) = search keeps_rules
    observe-Keeps (err e) = search (keeps_rules, handle-Keeps)
    observe-Keeps cancelled = search keeps_rules

    run_and_observe-Keeps :
        Keeps (run_and_observe services settings payload id delivery_id request_id)
    unfolding run_and_observe
    run_and_observe-Keeps = record {
      at = λ w.
          let run =
            run_ticket_pipeline services settings id (effective_trigger settings) payload
              delivery_id request_id in
          (observe-Keeps (run w).0).at (run w).1
          ∙ (run_ticket_pipeline-Keeps id (effective_trigger settings) payload delivery_id
                request_id).at
              w;
    }

    pub process_ticket_with_client-Keeps :
        Keeps (process_ticket_with_client services settings payload id delivery_id request_id)
    unfolding process_ticket_with_client
    process_ticket_with_client-Keeps =
        Keeps-finally (run_and_observe services settings payload id delivery_id request_id)
          (remotely services.aclose) run_and_observe-Keeps (Keeps-remotely services.aclose)

    -- However the processing of a ticket ends once its lock is taken and its delivery claimed, the
    -- claimed ids, the tickets in flight and the shutdown flag are as they were.
    pub tables-process_ticket_with_client :
        (w : World R)
        → tables
            (process_ticket_with_client services settings payload id delivery_id request_id
              w).1.local
          ≡ tables w.local
    tables-process_ticket_with_client = process_ticket_with_client-Keeps.at
