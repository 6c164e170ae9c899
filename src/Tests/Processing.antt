-- ===== src/Tests/Processing.antt =====
-- Examples of the processing of ticket 7.
use zammad_ticket_archiver.Tags.{
  apply_error, apply_done, apply_processing, error_tag, should_process,
}
use zammad_ticket_archiver.Process.Failure.{
  apply_error_with_retry, apply_error_and_cleanup_processing_tag, post_error_note, is_transient,
  failed_result, handle_ticket_pipeline_exception,
}
use zammad_ticket_archiver.Base.Text.{is_space, strip, lower, text_beq, Text, codes}
use zammad_ticket_archiver.Stores.{
  backend, redis_backend, get_ticket_lock_store, claim_distributed, reserve, World,
  try_claim_delivery_id, try_acquire_ticket, is_ticket_in_flight, get_delivery_id_store,
  memory_store,
}
use zammad_ticket_archiver.Process.Pipeline.{
  record_history, apply_done_attempts, apply_done_with_backoff, apply_done_best_effort,
  acknowledge_success_if_enabled, archive, plain_result, skip, run_ticket_pipeline,
}
use zammad_ticket_archiver.Base.{
  ℕ, ◌≤◌, contains, ◌≡◌, ◌≢◌, ◌⊎◌, refl, ap, ◌∙◌, Bool, true, false, Option, none, some, [], arith,
}
use zammad_ticket_archiver.Errors.{Exc, server_error}
use zammad_ticket_archiver.Errors.Classify.{classify}
use zammad_ticket_archiver.Effect.{Reply, ok, err, cancelled}
use zammad_ticket_archiver.Tags.Service.{Tables, memory_view}
use zammad_ticket_archiver.TicketId.{end}
use zammad_ticket_archiver.Process.Services.{
  processed, skipped_in_flight, skipped_idempotency, ProcessTicketResult,
}
use zammad_ticket_archiver.Process.Job.{
  process_ticket_with_client, after_claim, claim_delivery_or_skip, process_with_ticket_lock,
}
use zammad_ticket_archiver.Process.Keeping.{tables, tables-process_ticket_with_client}
use zammad_ticket_archiver.Process.Archive.{
  WasArchived, run_ticket_pipeline-WasArchived, view-run_ticket_pipeline_idle,
}
use zammad_ticket_archiver.Process.Counted.{one_more}
use zammad_ticket_archiver.Process.Mutex.{called, start, Course, Course-exclusive}
use zammad_ticket_archiver.Process.Lock.{flight-process_with_ticket_lock, cancelled_acquire_leaks}
use zammad_ticket_archiver.Process.Outcome.{
  handle_replies, IsFailureOf, settled, view-handle_ticket_pipeline_exception,
  should_process_after_failure,
}
use zammad_ticket_archiver.Process.Redelivery.{claim_delivery_or_skip-redelivered}
use zammad_ticket_archiver.Tests.{
  ending, trigger, memory_settings, redis_settings, fresh, busy, cancelling, working, services,
}
use zammad_ticket_archiver.Tests.Tagging.{
  memory-IsTagService, trigger_ne_processing, trigger_ne_done, trigger_ne_error,
}
use zammad_ticket_archiver.Tests.Stores.{
  id, once, claims_once, once_up, memory_at, fresh-AreSets, in_memory, still,
}

abbrev delivery : Option Text
delivery = some (codes "d-1")

abbrev run_seven : World Tables
run_seven = (run_ticket_pipeline services memory_settings 7 trigger end delivery none fresh).1

runs :
    (run_ticket_pipeline services memory_settings 7 trigger end delivery none fresh).0
    ≡ ok (plain_result processed (some 7), true)
unfolding run_ticket_pipeline should_process contains text_beq archive apply_processing
    acknowledge_success_if_enabled apply_done_best_effort apply_done_with_backoff
    apply_done_attempts apply_done record_history
runs = refl

run_ticket_pipeline-WasArchived_example :
    WasArchived services memory_settings 7 trigger end delivery none fresh.remote
run_ticket_pipeline-WasArchived_example =
    run_ticket_pipeline-WasArchived services memory_settings 7 trigger end delivery none fresh
      run_seven (plain_result processed (some 7))
      (ending (run_ticket_pipeline services memory_settings 7 trigger end delivery none fresh)
        (ok (plain_result processed (some 7), true)) runs)

idle_eight : should_process [] trigger true ≡ false
unfolding should_process contains
idle_eight = refl

view-run_ticket_pipeline_idle_example :
    memory_view
      (run_ticket_pipeline services memory_settings 8 trigger end delivery none fresh).1.remote
      7
      trigger
    ≡ memory_view fresh.remote 7 trigger
view-run_ticket_pipeline_idle_example =
    view-run_ticket_pipeline_idle services memory_settings 8 trigger end delivery none memory_view
      (λ event x v j. refl) fresh tt [] fresh.remote fresh.remote refl refl idle_eight (λ v j. refl)
      7 trigger

acquires : (try_acquire_ticket services.monotonic services.redis redis_settings 7 fresh).0 ≡ ok true
unfolding try_acquire_ticket reserve contains claim_distributed get_ticket_lock_store redis_backend
    text_beq backend lower strip is_space
acquires = refl

acquires_ne :
    (try_acquire_ticket services.monotonic services.redis redis_settings 7 fresh).0 ≢ cancelled
acquires_ne h = ground (arith, acquires)

flight-process_with_ticket_lock_example :
    is_ticket_in_flight
      (process_with_ticket_lock services redis_settings end 7 delivery none fresh).1.local
      7
    ≡ is_ticket_in_flight fresh.local 7
flight-process_with_ticket_lock_example =
    flight-process_with_ticket_lock services redis_settings end 7 delivery none
      (λ url key x h. ground arith) fresh 7 acquires_ne

abbrev taking_seven : World Tables
taking_seven = (try_acquire_ticket services.monotonic services.redis redis_settings 7 fresh).1

-- one call has taken ticket 7
seven_taken : Course services redis_settings (one_more 7 (λ u. 0)) taking_seven
seven_taken = called 7 (ok true) (start fresh refl) (
    ending (try_acquire_ticket services.monotonic services.redis redis_settings 7 fresh) (ok true)
      acquires)

Course-exclusive_example :
    (1 ≤ 1)
    × ((◌≡◌ {A = ℕ} 1 0)
        ⊎ (((try_acquire_ticket services.monotonic services.redis redis_settings 7 taking_seven).0
              ≡ ok false)
            × (is_ticket_in_flight
                  (try_acquire_ticket services.monotonic services.redis redis_settings 7
                    taking_seven).1.local
                  7
                ≡ is_ticket_in_flight taking_seven.local 7)))
Course-exclusive_example =
    Course-exclusive services redis_settings (λ url key x h. ground arith) seven_taken 7 7

busy_seven : is_ticket_in_flight busy.local 7 ≡ true
unfolding is_ticket_in_flight contains
busy_seven = refl

abbrev leaked : World Tables
leaked = (process_with_ticket_lock (working cancelling) redis_settings end 7 delivery none fresh).1

stops :
    (try_acquire_ticket
      (working cancelling).monotonic
      (working cancelling).redis
      redis_settings
      7
      fresh).0
    ≡ cancelled
unfolding try_acquire_ticket reserve contains claim_distributed get_ticket_lock_store redis_backend
    text_beq backend lower strip is_space
stops = refl

cancelled_acquire_leaks_example :
    ((process_with_ticket_lock (working cancelling) redis_settings end 7 delivery none fresh).0
      ≡ cancelled)
    × (process_with_ticket_lock (working cancelling) redis_settings end 7 delivery none leaked
        ≡ skip
            (working cancelling)
            redis_settings
            skipped_in_flight
            (codes "in_flight")
            (some 7)
            delivery
            none
            leaked)
cancelled_acquire_leaks_example =
    cancelled_acquire_leaks (working cancelling) redis_settings end 7 delivery none fresh leaked
      stops refl

tables-process_ticket_with_client_example :
    tables (process_ticket_with_client services memory_settings end 7 delivery none busy).1.local
    ≡ tables busy.local
tables-process_ticket_with_client_example =
    tables-process_ticket_with_client services memory_settings end 7 delivery none busy

abbrev down : Exc
down = server_error (codes "502")

handle_replies_example :
    ((result : ProcessTicketResult) × ((handle_ticket_pipeline_exception services memory_settings 7
          trigger delivery none down fresh).0
        ≡ ok result)
      × IsFailureOf services memory_settings 7 trigger delivery none down result)
    ⊎ ((handle_ticket_pipeline_exception services memory_settings 7 trigger delivery none down
          fresh).0
        ≡ cancelled)
handle_replies_example = handle_replies services memory_settings 7 trigger delivery none down fresh

abbrev failed_result_seven : ProcessTicketResult
failed_result_seven =
    failed_result services memory_settings 7 trigger delivery none down (classify down)

abbrev after_failure : World Tables
after_failure =
    (handle_ticket_pipeline_exception services memory_settings 7 trigger delivery none down fresh).1

fails :
    (handle_ticket_pipeline_exception services memory_settings 7 trigger delivery none down fresh).0
    ≡ ok failed_result_seven
unfolding handle_ticket_pipeline_exception post_error_note apply_error_and_cleanup_processing_tag
    apply_error_with_retry apply_error classify record_history
fails = refl

fails_so :
    handle_ticket_pipeline_exception services memory_settings 7 trigger delivery none down fresh
    ≡ (ok failed_result_seven, after_failure)
fails_so =
    ending
      (handle_ticket_pipeline_exception services memory_settings 7 trigger delivery none down fresh)
      (ok failed_result_seven) fails

view-handle_ticket_pipeline_exception_example :
    memory_view after_failure.remote 7 error_tag
    ≡ settled services memory_settings 7 trigger delivery none memory_view memory-IsTagService
        (λ u tag x. refl)
        (λ u tag x. refl)
        (λ u body x v j. refl)
        (λ event x v j. refl)
        (is_transient (classify down))
        (memory_view fresh.remote)
        7
        error_tag
view-handle_ticket_pipeline_exception_example =
    view-handle_ticket_pipeline_exception services memory_settings 7 trigger delivery none
      memory_view memory-IsTagService (λ u tag x. refl) (λ u tag x. refl) (λ u body x v j. refl)
      (λ event x v j. refl) down fresh after_failure failed_result_seven fails_so 7 error_tag

should_process_after_failure_example :
    should_process (after_failure.remote 7) trigger true ≡ is_transient (classify down)
should_process_after_failure_example =
    should_process_after_failure services memory_settings 7 trigger delivery none memory_view
      memory-IsTagService (λ u tag x. refl) (λ u tag x. refl) (λ u body x v j. refl)
      (λ event x v j. refl) down fresh after_failure failed_result_seven (after_failure.remote 7)
      true fails_so (λ j. refl) trigger_ne_done trigger_ne_error trigger_ne_processing

abbrev after_seven : World Tables
after_seven = (process_ticket_with_client services memory_settings end 7 delivery none once).1

-- what `_claim_delivery_or_skip` does once the claim has ended
abbrev after_try : Reply Bool × World Tables → Reply (Option ProcessTicketResult) × World Tables
after_try (r, w) = elim r [
  | ok b ↦ after_claim services memory_settings end 7 delivery none id b w
  | err e ↦ (err e, w)
  | cancelled ↦ (cancelled, w)
]

claimed_so :
    claim_delivery_or_skip services memory_settings end 7 delivery none delivery fresh
    ≡ (ok none, once)
unfolding claim_delivery_or_skip
claimed_so = ap (after_try) (
    ending (try_claim_delivery_id services.monotonic services.redis memory_settings id fresh)
      (ok true) claims_once)

after_store : get_delivery_id_store memory_settings after_seven.local ≡ memory_store 3600
after_store = memory_at after_seven.local (
    ap (λ t. t.down)
      (tables-process_ticket_with_client services memory_settings end 7 delivery none once)
    ∙ once_up)

claim_delivery_or_skip-redelivered_example :
    ((claim_delivery_or_skip services memory_settings end 7 delivery none delivery after_seven).0
      ≡ ok (some (plain_result skipped_idempotency (some 7))))
    ⊎ ((claim_delivery_or_skip services memory_settings end 7 delivery none delivery after_seven).0
        ≡ cancelled)
claim_delivery_or_skip-redelivered_example =
    claim_delivery_or_skip-redelivered services memory_settings end 7 delivery none b'd'
      (codes "-1") 5_000_000_000 5_000_000_000 still 3600 (omega arith) fresh once after_seven
      fresh-AreSets in_memory claimed_so refl after_store
