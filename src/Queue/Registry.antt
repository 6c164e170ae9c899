-- ===== src/Queue/Registry.antt =====
-- The worker tasks of a process: `_WORKER_TASKS` and `_WORKER_STOPS`, `start_queue_worker`, and the
-- two parts of `stop_queue_worker`, before and after it waits for the task.
use zammad_ticket_archiver.Base.{
  ℕ, ◌+◌, ◌≡◌, refl, ap, sym, ◌∙◌, inl, inr, Bool-cases, Bool, false, Option, none, some, List, ◌∷◌,
  ◌++◌, arith, ◌==◌, Dict, lookup, insert, erase, lookup-insert, lookup-erase, if◌then◌else◌,
  eq_refl,
}
use zammad_ticket_archiver.Base.Text.{Text, codes, text_eq, strip, lower, or_text}
use zammad_ticket_archiver.Settings.{WorkflowSettings}
use zammad_ticket_archiver.Queue.{or_blank}

-- Tasks are numbered in the order in which they are created; a task's stop event has its number.
pub record Registry : Type 0 where
  pub worker_tasks : Dict Text ℕ
  pub worker_stops : Dict Text ℕ
  pub set_events : List ℕ
  pub next_task : ℕ

-- `_backend`
unfoldable pub execution_backend_of : WorkflowSettings → Text
execution_backend_of settings =
    lower (strip (or_text settings.execution_backend (codes "inprocess")))

-- `_worker_key`
unfoldable pub worker_key : WorkflowSettings → Text
worker_key settings =
    or_blank settings.redis_url
    ++ (codes "|" ++ (settings.queue_stream ++ (codes "|" ++ settings.queue_group)))

abbrev pub spawn : Text → Registry → Option ℕ × Registry
spawn key r = (
  some r.next_task,
  record r {
    worker_tasks = insert key r.next_task r.worker_tasks;
    worker_stops = insert key r.next_task r.worker_stops;
    next_task = r.next_task + 1;
  },
)

abbrev pub reuse : (ℕ → Bool) → Text → Registry → Option ℕ → Option ℕ × Registry
reuse done key r none = spawn key r
reuse done key r (some task) = if done task then spawn key r else (some task, r)

-- `start_queue_worker`, where `done` says which tasks have ended
unfoldable pub start_queue_worker : (ℕ → Bool) → WorkflowSettings → Registry → Option ℕ × Registry
start_queue_worker done settings r =
    if execution_backend_of settings == codes "redis_queue"
    then reuse done (worker_key settings) r (lookup (worker_key settings) r.worker_tasks)
    else (none, r)

-- The event of the worker is set, if there is a worker.
unfoldable pub stop_begin : WorkflowSettings → Registry → Registry
stop_begin settings r = elim (lookup (worker_key settings) r.worker_stops) [
  | none ↦ r
  | some event ↦ elim (lookup (worker_key settings) r.worker_tasks) [
    | none ↦ r
    | some task ↦ record r { set_events = event ∷ r.set_events }
  ]
]

-- The `finally` of `stop_queue_worker`
unfoldable pub stop_end : WorkflowSettings → Registry → Registry
stop_end settings r = record r {
  worker_tasks = erase (worker_key settings) r.worker_tasks;
  worker_stops = erase (worker_key settings) r.worker_stops;
}

module _ (settings : WorkflowSettings) where
  spawned :
      (key : Text) (r r' : Registry) (task : ℕ)
      → spawn key r ≡ (some task, r')
      → lookup key r'.worker_tasks ≡ some task
  spawned key r r' task h =
      ap (λ p. lookup key p.1.worker_tasks) (sym h)
      ∙ (lookup-insert key key r.next_task r.worker_tasks
          ∙ (ground (arith, eq_refl key) ∙ ap (λ p. p.0) h))

  registered :
      (done : ℕ → Bool) (key : Text) (r r' : Registry) (found : Option ℕ) (task : ℕ)
      → lookup key r.worker_tasks ≡ found
      → reuse done key r found ≡ (some task, r')
      → lookup key r'.worker_tasks ≡ some task
  registered done key r r' none task e h = spawned key r r' task h
  registered done key r r' (some t) task e h = elim (Bool-cases (done t)) [
    | inl ended ↦ spawned key r r' task (rw ended at h)
    | inr running ↦
        let same : Path (Option ℕ × Registry) (some t, r) (some task, r') = rw running at h in
        ap (λ p. lookup key p.1.worker_tasks) (sym same) ∙ (e ∙ ap (λ p. p.0) same)
  ]

  reused :
      (later : ℕ → Bool) (key : Text) (r' : Registry) (task : ℕ)
      → lookup key r'.worker_tasks ≡ some task
      → later task ≡ false
      → reuse later key r' (lookup key r'.worker_tasks) ≡ (some task, r')
  reused later key r' task e live = rw (e, live) refl

  -- A worker that was started and has not ended is found by each later call of
  -- `start_queue_worker` with the same settings, which starts no second one.
  pub start_queue_worker-twice :
      (done later : ℕ → Bool) (r r' : Registry) (task : ℕ)
      → start_queue_worker done settings r ≡ (some task, r')
      → later task ≡ false
      → start_queue_worker later settings r' ≡ (some task, r')
  unfolding start_queue_worker
  start_queue_worker-twice done later r r' task h live =
      elim (Bool-cases (execution_backend_of settings == codes "redis_queue")) [
        | inl on ↦ rw on (
            reused later (worker_key settings) r' task
              (registered done (worker_key settings) r r'
                (lookup (worker_key settings) r.worker_tasks) task refl (rw on at h))
              live)
        | inr off ↦ ground (arith, h, off)
      ]

  -- The end of `stop_queue_worker` leaves no worker and no stop event registered for its settings,
  -- and those of other keys as they were.
  pub stop_end_lem :
      (r : Registry) (key : Text)
      → (lookup key (stop_end settings r).worker_tasks
          ≡ (if worker_key settings == key then none else lookup key r.worker_tasks))
        × (lookup key (stop_end settings r).worker_stops
            ≡ (if worker_key settings == key then none else lookup key r.worker_stops))
  unfolding stop_end
  stop_end_lem r key = (
    lookup-erase (worker_key settings) key r.worker_tasks,
    lookup-erase (worker_key settings) key r.worker_stops,
  )
