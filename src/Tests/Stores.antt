-- ===== src/Tests/Stores.antt =====
-- Examples of claims and locks.
use zammad_ticket_archiver.Base.{
  pop_all, ℕ, ◌+◌, ◌*◌, ◌≤◌, ◌<◌, ◌≡◌, ◌≢◌, ◌⊎◌, refl, true, false, not, ◌&&◌, none, some, [], ◌∷◌,
  ◌++◌, arith, ltb, ◌==◌, nat_eq, lookup, if◌then◌else◌,
}
use zammad_ticket_archiver.Base.Text.{
  is_space, text_beq, Text, codes, text_eq, show_nat, strip, lower,
}
use zammad_ticket_archiver.Effect.{ok, err, cancelled}
use zammad_ticket_archiver.Errors.{timeout}
use zammad_ticket_archiver.Idempotency.{
  TtlSet, second, create, seen, try_claim, maybe_evict, evict_expired_at, expired_keys,
}
use zammad_ticket_archiver.Idempotency.Live.{live, IsWellFormed, create-IsWellFormed}
use zammad_ticket_archiver.Idempotency.Claims.{
  seen_call, evict_call, run, try_claim_lem, try_claim_exclusive,
}
use zammad_ticket_archiver.Tags.Service.{Tables}
use zammad_ticket_archiver.Stores.{
  Local, World, RedisStore, ticket_lock_prefix, redis_backend, backend, redis_store, memory_store,
  get_delivery_id_store, get_ticket_lock_store, full_key, try_claim_delivery_id, claim_in_memory,
  memory_set, try_acquire_ticket, release_ticket, release_distributed, is_ticket_in_flight,
}
use zammad_ticket_archiver.Stores.Locks.{kept_lock, try_acquire_ticket_lem}
use zammad_ticket_archiver.Stores.Deliveries.{
  AreSets, delivery_key_collides, try_claim_delivery_id_twice,
}
use zammad_ticket_archiver.Tests.{
  ending, memory_settings, redis_settings, no_claims, fresh, still_clock, granting,
}

abbrev pub id : Text
id = codes "d-1"

-- a set for ten ticks
abbrev ten : TtlSet
ten = create 10 0

claimed_first : (try_claim id 1 1 ten).0 ≡ true
unfolding try_claim seen maybe_evict evict_expired_at expired_keys lookup create pop_all
claimed_first = refl

short : 8 < 1 + ten.ttl
unfolding create
short = omega arith

try_claim_lem_example :
    ((try_claim id 1 1 ten).0 ≡ not (live ten id 1))
    × (live (try_claim id 1 1 ten).1 id 5
        ≡ (if (try_claim id 1 1 ten).0 && id == id then ltb 5 (1 + ten.ttl) else live ten id 5))
try_claim_lem_example =
    try_claim_lem id 1 1 ten (create-IsWellFormed 10 0).0 (omega arith) id 5 (omega arith)

try_claim_exclusive_example :
    (try_claim id 8 8 (run (seen_call id 4 ∷ evict_call 6 ∷ []) (try_claim id 1 1 ten).1)).0 ≡ false
try_claim_exclusive_example =
    try_claim_exclusive id 1 1 8 8 ten (seen_call id 4 ∷ evict_call 6 ∷ [])
      (create-IsWellFormed 10 0).0 (omega arith) claimed_first
      (omega arith, omega arith, (omega arith, omega arith, omega arith)) (omega arith) short

try_acquire_ticket_lem_example :
    ((try_acquire_ticket still_clock granting redis_settings 7 fresh).0 ≢ err (timeout []))
    × ((is_ticket_in_flight no_claims 7 ≡ false)
        ⊎ ((try_acquire_ticket still_clock granting redis_settings 7 fresh).0 ≡ ok false))
    × (is_ticket_in_flight
          (try_acquire_ticket still_clock granting redis_settings 7 fresh).1.local
          7
        ≡ (if kept_lock (try_acquire_ticket still_clock granting redis_settings 7 fresh).0
            then true
            else is_ticket_in_flight no_claims 7))
try_acquire_ticket_lem_example =
    try_acquire_ticket_lem still_clock granting redis_settings 7 fresh 7 (timeout [])

released : (release_ticket still_clock granting memory_settings 7 fresh).0 ≡ ok tt
unfolding release_ticket release_distributed get_ticket_lock_store redis_backend backend strip lower
    text_beq is_space
released = refl

released_ne : (release_ticket still_clock granting memory_settings 7 fresh).0 ≢ cancelled
released_ne h = ground (arith, released)

uses_redis : redis_backend redis_settings ≡ some (codes "redis://queue")
unfolding redis_backend backend strip lower text_beq is_space
uses_redis = refl

delivery_key_collides_example :
    (deliveries : RedisStore) × (locks : RedisStore) × (get_delivery_id_store redis_settings
        no_claims
      ≡ redis_store deliveries)
    × (get_ticket_lock_store redis_settings no_claims ≡ some locks)
    × (deliveries.url ≡ locks.url)
    × (full_key deliveries (ticket_lock_prefix ++ show_nat 7) ≡ full_key locks (show_nat 7))
delivery_key_collides_example =
    delivery_key_collides redis_settings no_claims (codes "redis://queue") 7 uses_redis
      (omega arith) refl

-- No sets are made yet.
pub fresh-AreSets : AreSets []
unfolding lookup
fresh-AreSets = record { at = unmade }
  where
    unmade :
        (ttl : ℕ) (s : TtlSet) → lookup ttl [] ≡ some s → IsWellFormed s × (s.ttl ≡ ttl * second)
    unmade ttl s h = cc

pub in_memory : get_delivery_id_store memory_settings no_claims ≡ memory_store 3600
unfolding get_delivery_id_store redis_backend backend strip lower text_beq is_space
in_memory = refl

abbrev pub once : World Tables
once = (try_claim_delivery_id still_clock granting memory_settings id fresh).1

pub claims_once : (try_claim_delivery_id still_clock granting memory_settings id fresh).0 ≡ ok true
unfolding try_claim_delivery_id get_delivery_id_store redis_backend backend strip lower
    claim_in_memory memory_set lookup seen maybe_evict evict_expired_at expired_keys create text_beq
    is_space pop_all
claims_once = refl

later_store : get_delivery_id_store memory_settings once.local ≡ memory_store 3600
unfolding try_claim_delivery_id get_delivery_id_store redis_backend backend strip lower
    claim_in_memory memory_set lookup seen maybe_evict evict_expired_at expired_keys create text_beq
    is_space pop_all
later_store = refl

pub still : (x : Tables) → (5_000_000_000 ≤ (still_clock x).0) × ((still_clock x).0 ≤ 5_000_000_000)
still x = (omega arith, omega arith)

try_claim_delivery_id_twice_example :
    (try_claim_delivery_id still_clock granting memory_settings id once).0 ≡ ok false
try_claim_delivery_id_twice_example =
    try_claim_delivery_id_twice still_clock granting memory_settings 5_000_000_000 5_000_000_000
      still 3600 id fresh once once (omega arith) fresh-AreSets in_memory later_store
      (ending (try_claim_delivery_id still_clock granting memory_settings id fresh) (ok true)
        claims_once)
      refl

no_redis : redis_backend memory_settings ≡ none
unfolding redis_backend text_beq backend lower strip is_space
no_redis = refl

-- Without a shutdown these settings choose the set in memory.
pub memory_at :
    (local : Local)
    → local.shutting_down ≡ false
    → get_delivery_id_store memory_settings local ≡ memory_store 3600
unfolding get_delivery_id_store
memory_at local up = ground (arith, up, no_redis)

pub once_up : once.local.shutting_down ≡ false
unfolding try_claim_delivery_id get_delivery_id_store redis_backend text_beq backend lower strip
    is_space claim_in_memory memory_set lookup seen maybe_evict create evict_expired_at pop_all
    expired_keys
once_up = refl
