-- ===== src/Stores/Deliveries.antt =====
-- Claims of delivery ids through the store that the settings choose.
use mathlib.Core.Path.{subst}
use zammad_ticket_archiver.Base.{
  sym, ◌∙◌, lt→ltb, Option-cases, inl, inr, ℕ, ◌+◌, ◌*◌, ◌≤◌, ◌<◌, ◌≡◌, refl, Bool, true, false,
  none, some, ◌++◌, arith, nat_eq, Dict, lookup, lookup-insert,
}
use zammad_ticket_archiver.Base.Text.{Text, text_eq, show_nat}
use zammad_ticket_archiver.Effect.{ok, >>=-eq-ok}
use zammad_ticket_archiver.Settings.{WorkflowSettings}
use zammad_ticket_archiver.Idempotency
use zammad_ticket_archiver.Idempotency.{TtlSet, second, create}
use zammad_ticket_archiver.Idempotency.Live.{
  live, IsWellFormed, add-IsWellFormed, live-add_self, create-IsWellFormed, seen-eq-live,
  seen-IsWellFormed, ttl-seen,
}
use zammad_ticket_archiver.Stores.{
  claim_at, claim_now, Local, World, Redis, RedisStore, ticket_lock_prefix, get_redis_store,
  full_key, redis_backend, redis_store, memory_store, get_delivery_id_store, get_ticket_lock_store,
  memory_set, claim_in_memory, try_claim_delivery_id,
}

-- With the Redis backend, a time to live above 0 and no shutdown, a delivery id that spells the
-- lock prefix and a ticket's number is stored under the very key of that ticket's lock, on the
-- same server: the store of delivery ids is made with an empty prefix.
pub delivery_key_collides :
    (settings : WorkflowSettings) (local : Local) (url : Text) (ticket_id : ℕ)
    → redis_backend settings ≡ some url
    → 0 < settings.delivery_id_ttl_seconds
    → local.shutting_down ≡ false
    → (deliveries : RedisStore) × (locks : RedisStore) × (get_delivery_id_store settings local
        ≡ redis_store deliveries)
      × (get_ticket_lock_store settings local ≡ some locks)
      × (deliveries.url ≡ locks.url)
      × (full_key deliveries (ticket_lock_prefix ++ show_nat ticket_id)
          ≡ full_key locks (show_nat ticket_id))
unfolding get_delivery_id_store get_ticket_lock_store get_redis_store full_key
delivery_key_collides settings local url ticket_id backend ttl up = (
  get_redis_store url settings.delivery_id_ttl_seconds none,
  get_redis_store url 300 (some ticket_lock_prefix),
  ground arith,
  ground arith,
  refl,
  refl,
)

-- Each set in memory is one that its operations made, for its own time to live.
pub record AreSets (sets : Dict ℕ TtlSet) : Type 0 where
  pub at :
      (ttl : ℕ) (s : TtlSet) → lookup ttl sets ≡ some s → IsWellFormed s × (s.ttl ≡ ttl * second)

module _ {R : Type 0} (monotonic : R → ℕ × R) (redis : Redis R) (settings : WorkflowSettings)
    (a b : ℕ) (clock : (x : R) → (a ≤ (monotonic x).0) × ((monotonic x).0 ≤ b)) where
  -- The set for `ttl` holds `id` at every reading of the clock.
  pub Holds : ℕ → Text → Dict ℕ TtlSet → Type 0
  Holds ttl id sets =
      (s : TtlSet) × (lookup ttl sets ≡ some s)
      × IsWellFormed s
      × ((t : ℕ) → a ≤ t → t ≤ b → live s id t ≡ true)

  module _ (ttl : ℕ) (id : Text) (short : b < a + ttl * second) where
    claim_at-Holds :
        (was_seen : Bool) (s : TtlSet) (w w1 : World R)
        → IsWellFormed s
        → s.ttl ≡ ttl * second
        → claim_at monotonic redis settings ttl id (was_seen, s) w ≡ (ok true, w1)
        → Holds ttl id w1.local.delivery_id_sets
    unfolding Holds
    claim_at-Holds true s w w1 wf e h = cc
    claim_at-Holds false s w w1 wf e h =
        let now' = (monotonic w.remote).0 in
        (
          Idempotency.add id now' s,
          ground
              (arith, lookup-insert ttl ttl (Idempotency.add id now' s) w.local.delivery_id_sets),
          add-IsWellFormed now' s wf id,
          λ t low high.
              live-add_self now' s wf id t
              ∙ lt→ltb _ _ (omega (arith, e, short, high, (clock w.remote).0)),
        )

    claim_after_set :
        (s : TtlSet) (w w1 : World R)
        → IsWellFormed s
        → s.ttl ≡ ttl * second
        → claim_now monotonic redis settings ttl id s w ≡ (ok true, w1)
        → Holds ttl id w1.local.delivery_id_sets
    claim_after_set s w w1 wf e h =
        let (now, x) = monotonic w.remote in
        claim_at-Holds (Idempotency.seen id now s).0 (Idempotency.seen id now s).1
          (record w { remote = x }) w1 (seen-IsWellFormed now s wf id) (ttl-seen now s wf id ∙ e) h

    memory_set-IsWellFormed :
        (s : TtlSet) (w w' : World R)
        → AreSets w.local.delivery_id_sets
        → memory_set monotonic redis settings ttl w ≡ (ok s, w')
        → IsWellFormed s × (s.ttl ≡ ttl * second)
    memory_set-IsWellFormed s w w' sets h =
        elim (Option-cases (lookup ttl w.local.delivery_id_sets)) [
          | inl missing ↦
              let made : create (ttl * second) (monotonic w.remote).0 ≡ s =
                unfold memory_set in ground (arith, missing) in
              subst (λ s. IsWellFormed s × (s.ttl ≡ ttl * second)) made
                (create-IsWellFormed (ttl * second) (monotonic w.remote).0)
          | inr (s', found) ↦
              let same : s' ≡ s = unfold memory_set in ground (arith, found) in
              subst (λ s. IsWellFormed s × (s.ttl ≡ ttl * second)) same (sets.at ttl s' found)
        ]

    claim_in_memory-Holds :
        (w w1 : World R)
        → AreSets w.local.delivery_id_sets
        → claim_in_memory monotonic redis settings ttl id w ≡ (ok true, w1)
        → Holds ttl id w1.local.delivery_id_sets
    unfolding claim_in_memory
    claim_in_memory-Holds w w1 sets h =
        let (s, w', made, rest) =
          >>=-eq-ok (memory_set monotonic redis settings ttl)
            (claim_now monotonic redis settings ttl id) w w1 true h in
        let (wf, e) = memory_set-IsWellFormed s w w' sets made in claim_after_set s w' w1 wf e rest

    -- A set that holds the id refuses it.
    claim_in_memory-refused :
        (w : World R)
        → Holds ttl id w.local.delivery_id_sets
        → (claim_in_memory monotonic redis settings ttl id w).0 ≡ ok false
    unfolding claim_in_memory memory_set Holds
    claim_in_memory-refused w (s, found, wf, held) =
        let (low, high) = clock w.remote in
        ground (
          arith,
          found,
          seen-eq-live (monotonic w.remote).0 s wf id,
          held (monotonic w.remote).0 low high,
        )

  -- With the ids of deliveries in memory, in sets that their own operations made, once an id was
  -- claimed, a second claim of it is refused, as long as all the readings of the clock lie within
  -- less than the time to live, and the sets are as the first claim left them.
  pub try_claim_delivery_id_twice :
      (ttl : ℕ) (id : Text) (w w1 w2 : World R)
      → b < a + ttl * second
      → AreSets w.local.delivery_id_sets
      → get_delivery_id_store settings w.local ≡ memory_store ttl
      → get_delivery_id_store settings w2.local ≡ memory_store ttl
      → try_claim_delivery_id monotonic redis settings id w ≡ (ok true, w1)
      → w2.local.delivery_id_sets ≡ w1.local.delivery_id_sets
      → (try_claim_delivery_id monotonic redis settings id w2).0 ≡ ok false
  unfolding try_claim_delivery_id
  try_claim_delivery_id_twice ttl id w w1 w2 short sets first second_store claimed same =
      rw (second_store, try_claim_delivery_id)
        (claim_in_memory-refused ttl id short w2 (
          subst (Holds ttl id) (sym same) (
            claim_in_memory-Holds ttl id short w w1 sets
              (rw (first, try_claim_delivery_id) at claimed))))
