-- ===== src/Stores.antt =====
-- Delivery-id claims and ticket locks (src/zammad_pdf_archiver/app/jobs/ticket_stores.py, with
-- domain/redis_delivery_id.py). Process-local tables are fields of `Local`; Redis and the clock act
-- on a remote world `R` of their own.
pub mod Locks
pub mod Deliveries
use zammad_ticket_archiver.Base.{
  ℕ, ◌*◌, Bool, true, false, ◌||◌, ◌&&◌, not, Option, none, some, List, [], ◌∷◌, ◌++◌, leb, ◌==◌,
  nat_eq, contains, add, discard, Dict, lookup, insert, if◌then◌else◌,
}
use zammad_ticket_archiver.Base.Text.{Text, codes, text_eq, strip, lower, or_text, show_nat}
use zammad_ticket_archiver.Effect.{
  Reply, Action, Done, ok, err, cancelled, pure, ◌>>=◌, ◌>>◌, except,
}
use zammad_ticket_archiver.Settings.{WorkflowSettings}
use zammad_ticket_archiver.Idempotency
use zammad_ticket_archiver.Idempotency.{TtlSet, second}

-- What the metrics module counts.
pub data Metric : Type 0 where
  processed_total failed_total total_seconds : Metric
  skipped_total : Text → Metric
  queue_enqueued_total queue_processed_total queue_failed_total queue_retried_total : Metric
  queue_dlq_total : Metric

-- The process-local state: `_DELIVERY_ID_SETS`, `_IN_FLIGHT_TICKETS`, `_SHUTTING_DOWN` of
-- shutdown.py, and the metrics that were counted, the last one first.
pub record Local : Type 0 where
  pub delivery_id_sets : Dict ℕ TtlSet
  pub in_flight_tickets : List ℕ
  pub shutting_down : Bool
  pub metrics : List Metric

pub record World (R : Type 0) : Type 0 where
  pub local : Local
  pub remote : R

-- A call on the remote world alone.
abbrev pub in_world : {R A : Type 0} → World R → Reply A × R → Reply A × World R
in_world w (r, x) = (r, record w { remote = x })

abbrev pub remotely : {R A : Type 0} → Action R A → Action (World R) A
remotely m w = in_world w (m w.remote)

abbrev pub locally : {R : Type 0} → (Local → Local) → Action (World R) Done
locally f w = (ok tt, record w { local = f w.local })

-- The Redis commands that the stores send: `SET key "1" EX ttl NX` replies whether the key was set.
pub record Redis (R : Type 0) : Type 0 where
  pub set_nx : Text → Text → ℕ → Action R Bool
  pub delete : Text → Text → Action R Done

-- `RedisDeliveryIdStore`
pub record RedisStore : Type 0 where
  pub url : Text
  pub ttl_seconds : ℕ
  pub prefix : Text

abbrev pub ticket_lock_prefix : Text
ticket_lock_prefix = codes "zammad:ticket_lock:"

abbrev pub ticket_lock_ttl : ℕ
ticket_lock_ttl = 300

abbrev or_empty : Option Text → Text
or_empty none = []
or_empty (some prefix) = prefix

-- The cache `_REDIS_STORES` gives one store for one key, and only saves a connection.
unfoldable pub get_redis_store : Text → ℕ → Option Text → RedisStore
get_redis_store redis_url ttl prefix = record {
  url = redis_url;
  ttl_seconds = ttl;
  prefix = or_empty prefix;
}

-- `_key`
unfoldable pub full_key : RedisStore → Text → Text
full_key store key = store.prefix ++ key

-- (settings.workflow.idempotency_backend or "memory").strip().lower()
unfoldable pub backend : WorkflowSettings → Text
backend settings = lower (strip (or_text settings.idempotency_backend (codes "memory")))

-- settings.workflow.redis_url, where it is neither None nor empty
abbrev pub set_url : Option Text → Option Text
set_url none = none
set_url (some []) = none
set_url (some (c ∷ url)) = some (c ∷ url)

-- backend == "redis" and settings.workflow.redis_url
unfoldable pub redis_backend : WorkflowSettings → Option Text
redis_backend settings =
    if backend settings == codes "redis" then set_url settings.redis_url else none

pub data DeliveryStore : Type 0 where
  off : DeliveryStore
  redis_store : RedisStore → DeliveryStore
  memory_store : ℕ → DeliveryStore

-- `_get_delivery_id_store`, which names the set in memory by its time to live
unfoldable pub get_delivery_id_store : WorkflowSettings → Local → DeliveryStore
get_delivery_id_store settings local =
    let ttl = settings.delivery_id_ttl_seconds in
    if leb ttl 0 || local.shutting_down then off else elim (redis_backend settings) [
      | some url ↦ redis_store (get_redis_store url ttl none)
      | none ↦ memory_store ttl
    ]

unfoldable pub get_ticket_lock_store : WorkflowSettings → Local → Option RedisStore
get_ticket_lock_store settings local =
    if local.shutting_down then none else elim (redis_backend settings) [
      | some url ↦ some (get_redis_store url ticket_lock_ttl (some ticket_lock_prefix))
      | none ↦ none
    ]

-- The local half of `try_acquire_ticket`: none if the ticket is in flight.
unfoldable pub reserve : ℕ → List ℕ → Option (List ℕ)
reserve ticket_id in_flight =
    if contains in_flight ticket_id then none else some (add ticket_id in_flight)

abbrev pub set_in_flight : List ℕ → Local → Local
set_in_flight tickets local = record local { in_flight_tickets = tickets }

abbrev pub count : Metric → Local → Local
count m local = record local { metrics = m ∷ local.metrics }

unfoldable pub unlock : ℕ → Local → Local
unlock ticket_id local = set_in_flight (discard ticket_id local.in_flight_tickets) local

module _ {R : Type 0} (monotonic : R → ℕ × R) (redis : Redis R) (settings : WorkflowSettings) where
  abbrev pub read_clock : Action (World R) ℕ
  read_clock w = let (now, x) = monotonic w.remote in (ok now, record w { remote = x })

  abbrev pub put_set : ℕ → TtlSet → Local → Local
  put_set ttl s local = record local { delivery_id_sets = insert ttl s local.delivery_id_sets }

  -- `if self._seen_sync(key): return False` and the rest of `try_claim`
  abbrev pub claim_at : ℕ → Text → Bool × TtlSet → Action (World R) Bool
  claim_at ttl delivery_id (true, s) = do locally (put_set ttl s); pure false
  claim_at ttl delivery_id (false, s) = do
    now' ← read_clock
    locally (put_set ttl (Idempotency.add delivery_id now' s))
    pure true

  -- The set in memory for a time to live; one that is missing is made, with a reading of the clock.
  unfoldable pub memory_set : ℕ → Action (World R) TtlSet
  memory_set ttl w = elim (lookup ttl w.local.delivery_id_sets) [
    | some s ↦ (ok s, w)
    | none ↦
        (do
          now ← read_clock
          let s = Idempotency.create (ttl * second) now
          locally (put_set ttl s)
          pure s)
          w
  ]

  -- `InMemoryTTLSet.try_claim`, with the readings of the clock
  abbrev pub claim_now : ℕ → Text → TtlSet → Action (World R) Bool
  claim_now ttl delivery_id s = do
    now ← read_clock
    claim_at ttl delivery_id (Idempotency.seen delivery_id now s)

  unfoldable pub claim_in_memory : ℕ → Text → Action (World R) Bool
  claim_in_memory ttl delivery_id = do s ← memory_set ttl; claim_now ttl delivery_id s

  -- `store.try_claim`, or True where there is no store
  abbrev pub claim_in : DeliveryStore → Text → Action (World R) Bool
  claim_in off delivery_id = pure true
  claim_in (redis_store store) delivery_id =
      remotely (redis.set_nx store.url (full_key store delivery_id) store.ttl_seconds)
  claim_in (memory_store ttl) delivery_id = claim_in_memory ttl delivery_id

  unfoldable pub try_claim_delivery_id : Text → Action (World R) Bool
  try_claim_delivery_id delivery_id w =
      claim_in (get_delivery_id_store settings w.local) delivery_id w

  -- The distributed half of `try_acquire_ticket`, with the local lock taken. Only an exception
  -- falls back to the local lock; a cancellation ends the call.
  unfoldable pub claim_distributed : ℕ → Action (World R) Bool
  claim_distributed ticket_id w = elim (get_ticket_lock_store settings w.local) [
    | none ↦ (ok true, w)
    | some store ↦
        except
          (do
            claimed ←
                remotely
                  (redis.set_nx store.url (full_key store (show_nat ticket_id)) store.ttl_seconds)
            (if claimed then pure true else (do locally (unlock ticket_id); pure false)))
          (λ e. pure true) w
  ]

  unfoldable pub try_acquire_ticket : ℕ → Action (World R) Bool
  try_acquire_ticket ticket_id w = elim (reserve ticket_id w.local.in_flight_tickets) [
    | none ↦ (ok false, w)
    | some tickets ↦
        claim_distributed ticket_id (record w { local = set_in_flight tickets w.local })
  ]

  unfoldable pub release_distributed : ℕ → Action (World R) Done
  release_distributed ticket_id w = elim (get_ticket_lock_store settings w.local) [
    | none ↦ (ok tt, w)
    | some store ↦
        except (remotely (redis.delete store.url (full_key store (show_nat ticket_id))))
          (λ e. pure tt) w
  ]

  unfoldable pub release_ticket : ℕ → Action (World R) Done
  release_ticket ticket_id = do release_distributed ticket_id; locally (unlock ticket_id)

-- `is_ticket_in_flight`
unfoldable pub is_ticket_in_flight : Local → ℕ → Bool
is_ticket_in_flight local ticket_id = contains local.in_flight_tickets ticket_id

-- `aclose_stores`, and `reset_for_tests`: what they do to the local tables
unfoldable pub clear_stores : Local → Local
clear_stores local = record local { delivery_id_sets = []; in_flight_tickets = [] }
