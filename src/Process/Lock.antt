-- ===== src/Process/Lock.antt =====
-- The lock of a ticket round its processing.
use zammad_ticket_archiver.Base.{
  ℕ, ◌≡◌, ◌≢◌, refl, ap, ◌∙◌, inl, inr, Bool, true, false, ◌&&◌, Option, none, some, [], ◌∷◌, arith,
  ◌==◌, nat_eq, contains, Option-cases, if◌then◌else◌,
}
use zammad_ticket_archiver.Base.Text.{Text, codes, show_nat}
use zammad_ticket_archiver.Errors.{Exc, type_error}
use zammad_ticket_archiver.Effect.{Reply, Action, ok, err, cancelled, finally, finally_world, ◌>>=◌}
use zammad_ticket_archiver.Settings.{WorkflowSettings}
use zammad_ticket_archiver.Stores.{
  DeliveryStore, off, redis_store, memory_store, get_delivery_id_store, claim_in,
  get_ticket_lock_store, full_key, World, memory_set, claim_in_memory, try_claim_delivery_id,
  try_acquire_ticket, release_distributed, release_ticket, reserve, is_ticket_in_flight,
}
use zammad_ticket_archiver.Stores.Locks.{
  kept_lock, flight-try_acquire_ticket, flight-release_ticket,
}
use zammad_ticket_archiver.TicketId.{Fields}
use zammad_ticket_archiver.Process.Services.{
  skipped_in_flight, skipped_idempotency, ProcessTicketResult, Services,
}
use zammad_ticket_archiver.Process.Pipeline.{skip}
use zammad_ticket_archiver.Process.Job.{
  after_claim, claim_of, claim_delivery_or_skip, or_process, process_claimed, release_ticket_lock,
  with_lock, process_with_ticket_lock,
}
use zammad_ticket_archiver.Process.Keeping.{
  Keeps, Keeps-pure, Keeps-bind, skip-Keeps, process_ticket_with_client-Keeps,
}

-- However `m` ends, the same tickets are in flight, and a shutdown has begun or not as before.
record KeepsFlight {R A : Type 0} (m : Action (World R) A) : Type 0 where
  at :
      (w : World R)
      → ((m w).1.local.in_flight_tickets ≡ w.local.in_flight_tickets)
        × ((m w).1.local.shutting_down ≡ w.local.shutting_down)

module _ {R : Type 0} where
  KeepsFlight-of_Keeps : {A : Type 0} {m : Action (World R) A} → Keeps m → KeepsFlight m
  KeepsFlight-of_Keeps k = record {
    at = λ w. (ap (λ t. t.in_flight) (k.at w), ap (λ t. t.down) (k.at w));
  }

  KeepsFlight-bind :
      {A B : Type 0} (m : Action (World R) A) (k : A → Action (World R) B)
      → KeepsFlight m
      → ((a : A) → KeepsFlight (k a))
      → KeepsFlight (m >>= k)
  KeepsFlight-bind {A} {B} m k km kk = record { at = λ w. go (m w).0 (m w).1 w (km.at w) }
    where
      go :
          (r : Reply A) (w' : World R) (w : World R)
          → (w'.local.in_flight_tickets ≡ w.local.in_flight_tickets)
            × (w'.local.shutting_down ≡ w.local.shutting_down)
          → let p : Reply B × World R = elim r [
            | ok a ↦ k a w'
            | err e ↦ (err e, w')
            | cancelled ↦ (cancelled, w')
          ] in
            (p.1.local.in_flight_tickets ≡ w.local.in_flight_tickets)
            × (p.1.local.shutting_down ≡ w.local.shutting_down)
      go (ok a) w' w h = (((kk a).at w').0 ∙ h.0, ((kk a).at w').1 ∙ h.1)
      go (err e) w' w h = h
      go cancelled w' w h = h

module _ {R Ticket Paths Rendered Stored : Type 0}
    (services : Services R Ticket Paths Rendered Stored) (settings : WorkflowSettings) where
  claim_in_memory-KeepsFlight :
      (ttl : ℕ) (id : Text)
      → KeepsFlight (claim_in_memory services.monotonic services.redis settings ttl id)
  unfolding claim_in_memory memory_set
  claim_in_memory-KeepsFlight ttl id = record { at = λ w. ground arith }

  claim_in-KeepsFlight :
      (store : DeliveryStore) (id : Text)
      → KeepsFlight (claim_in services.monotonic services.redis settings store id)
  claim_in-KeepsFlight off id = record { at = λ w. (refl, refl) }
  claim_in-KeepsFlight (redis_store store) id = record { at = λ w. (refl, refl) }
  claim_in-KeepsFlight (memory_store ttl) id = claim_in_memory-KeepsFlight ttl id

  try_claim-KeepsFlight :
      (id : Text)
      → KeepsFlight (try_claim_delivery_id services.monotonic services.redis settings id)
  unfolding try_claim_delivery_id
  try_claim-KeepsFlight id = record {
    at = λ w. (claim_in-KeepsFlight (get_delivery_id_store settings w.local) id).at w;
  }

  module _ (payload : Fields) (t : ℕ) (delivery_id request_id : Option Text) where
    after_claim-Keeps :
        (id : Text) (claimed : Bool)
        → Keeps (after_claim services settings payload t delivery_id request_id id claimed)
    after_claim-Keeps id true = Keeps-pure none
    after_claim-Keeps id false =
        Keeps-bind
          (skip services settings skipped_idempotency (codes "idempotency") (some t) (some id)
            request_id)
          _ (skip-Keeps services settings _ _ _ _ _) (λ r. Keeps-pure (some r))

    claim_of-KeepsFlight :
        (id : Text) → KeepsFlight (claim_of services settings payload t delivery_id request_id id)
    claim_of-KeepsFlight id =
        KeepsFlight-bind (try_claim_delivery_id services.monotonic services.redis settings id) _
          (try_claim-KeepsFlight id)
          (λ claimed. KeepsFlight-of_Keeps (after_claim-Keeps id claimed))

    claim_delivery_or_skip-KeepsFlight :
        (id : Option Text)
        → KeepsFlight (claim_delivery_or_skip services settings payload t delivery_id request_id id)
    unfolding claim_delivery_or_skip
    claim_delivery_or_skip-KeepsFlight none = KeepsFlight-of_Keeps (Keeps-pure none)
    claim_delivery_or_skip-KeepsFlight (some []) = KeepsFlight-of_Keeps (Keeps-pure none)
    claim_delivery_or_skip-KeepsFlight (some (c ∷ s)) = claim_of-KeepsFlight (c ∷ s)

    or_process-Keeps :
        (r : Option ProcessTicketResult)
        → Keeps (or_process services settings payload t delivery_id request_id r)
    or_process-Keeps none =
        process_ticket_with_client-Keeps services settings payload t delivery_id request_id
    or_process-Keeps (some r) = Keeps-pure r

    process_claimed-KeepsFlight :
        KeepsFlight (process_claimed services settings payload t delivery_id request_id)
    unfolding process_claimed
    process_claimed-KeepsFlight =
        KeepsFlight-bind
          (claim_delivery_or_skip services settings payload t delivery_id request_id delivery_id) _
          (claim_delivery_or_skip-KeepsFlight delivery_id)
          (λ r. KeepsFlight-of_Keeps (or_process-Keeps r))

    flight-process_claimed :
        (w : World R) (u : ℕ)
        → is_ticket_in_flight
            (process_claimed services settings payload t delivery_id request_id w).1.local
            u
          ≡ is_ticket_in_flight w.local u
    unfolding is_ticket_in_flight
    flight-process_claimed w u = ap (λ s. contains s u) ((process_claimed-KeepsFlight).at w).0

    module _
        (shielded : (url key : Text) (x : R)
          → (services.redis.delete url key x).0 ≢ cancelled) where
      release_ticket-ne-cancelled :
          (w : World R)
          → (release_ticket services.monotonic services.redis settings t w).0 ≢ cancelled
      unfolding release_ticket release_distributed
      release_ticket-ne-cancelled w h =
          elim (Option-cases (get_ticket_lock_store settings w.local)) [
            | inl unused ↦ ground arith
            | inr (store, used) ↦
                ground (arith, shielded store.url (full_key store (show_nat t)) w.remote)
          ]

      flight-release_ticket_lock :
          (w : World R) (u : ℕ)
          → is_ticket_in_flight
              (release_ticket_lock services settings payload t delivery_id request_id w).1.local
              u
            ≡ (if t == u then false else is_ticket_in_flight w.local u)
      unfolding release_ticket_lock
      flight-release_ticket_lock w u = ground (
        arith,
        flight-release_ticket services.monotonic services.redis settings t w u
            (release_ticket-ne-cancelled w),
      )

      pub flight-locked :
          (w : World R) (u : ℕ)
          → is_ticket_in_flight
              (finally
                (process_claimed services settings payload t delivery_id request_id)
                (release_ticket_lock services settings payload t delivery_id request_id)
                w).1.local
              u
            ≡ (if t == u then false else is_ticket_in_flight w.local u)
      flight-locked w u =
          let w' = (process_claimed services settings payload t delivery_id request_id w).1 in
          ap (λ (x : World R). is_ticket_in_flight x.local u)
            (finally_world (process_claimed services settings payload t delivery_id request_id)
              (release_ticket_lock services settings payload t delivery_id request_id) w)
          ∙ ground (arith, flight-release_ticket_lock w' u, flight-process_claimed w u)

      -- the rest of the call, by what `try_acquire_ticket` replied
      pub flight-with_lock :
          (r : Reply Bool) (w w1 : World R) (u : ℕ)
          → ((e : Exc) → r ≢ err e)
          → (is_ticket_in_flight w.local t ≡ true → r ≡ ok false)
          → is_ticket_in_flight w1.local u
            ≡ (if t == u && kept_lock r then true else is_ticket_in_flight w.local u)
          → r ≢ cancelled
          → let p : Reply ProcessTicketResult × World R = elim r [
            | ok a ↦ with_lock services settings payload t delivery_id request_id a w1
            | err e ↦ (err e, w1)
            | cancelled ↦ (cancelled, w1)
          ] in
            is_ticket_in_flight p.1.local u ≡ is_ticket_in_flight w.local u
      flight-with_lock (ok true) w w1 u no_err held after kept =
          flight-locked w1 u ∙ ground (arith, after, held)
      flight-with_lock (ok false) w w1 u no_err held after kept =
          unfold is_ticket_in_flight in
          ap (λ s. contains s.in_flight u)
            ((skip-Keeps services settings skipped_in_flight (codes "in_flight") (some t)
                delivery_id request_id).at
              w1)
          ∙ ground (arith, after)
      flight-with_lock (err e) w w1 u no_err held after kept = absurd (no_err e refl)
      flight-with_lock cancelled w w1 u no_err held after kept = absurd (kept refl)

      -- `process_with_ticket_lock` leaves the same tickets in flight as before, however the claim,
      -- the pipeline, its error handling and the release end, if the call of `try_acquire_ticket`
      -- is not cancelled, and no cancellation reaches the Redis command of the release, which
      -- `asyncio.shield` keeps it from.
      pub flight-process_with_ticket_lock :
          (w : World R) (u : ℕ)
          → (try_acquire_ticket services.monotonic services.redis settings t w).0 ≢ cancelled
          → is_ticket_in_flight
              (process_with_ticket_lock services settings payload t delivery_id request_id
                w).1.local
              u
            ≡ is_ticket_in_flight w.local u
      unfolding process_with_ticket_lock
      flight-process_with_ticket_lock w u kept =
          let acquired = try_acquire_ticket services.monotonic services.redis settings t w in
          let law = λ (e : Exc).
            flight-try_acquire_ticket services.monotonic services.redis settings t w u e in
          let any = type_error [] in
          flight-with_lock acquired.0 w acquired.1 u (λ e. (law e).0) (law any).1 (law any).2 kept

    -- What `process_with_ticket_lock` does once `try_acquire_ticket` has ended.
    after_acquire : Reply Bool × World R → Reply ProcessTicketResult × World R
    after_acquire (r, w1) = elim r [
      | ok a ↦ with_lock services settings payload t delivery_id request_id a w1
      | err e ↦ (err e, w1)
      | cancelled ↦ (cancelled, w1)
    ]

    process_with_ticket_lock_lem :
        (w : World R) (p : Reply Bool × World R)
        → try_acquire_ticket services.monotonic services.redis settings t w ≡ p
        → process_with_ticket_lock services settings payload t delivery_id request_id w
          ≡ after_acquire p
    unfolding process_with_ticket_lock after_acquire
    process_with_ticket_lock_lem w p e = ap after_acquire e

    -- A ticket that is in flight is skipped: the call does no more than count the skip and record
    -- it, and replies accordingly.
    pub process_with_ticket_lock-eq-skip :
        (w : World R)
        → is_ticket_in_flight w.local t ≡ true
        → process_with_ticket_lock services settings payload t delivery_id request_id w
          ≡ skip services settings skipped_in_flight
              (codes "in_flight")
              (some t)
              delivery_id
              request_id
              w
    unfolding after_acquire
    process_with_ticket_lock-eq-skip w held =
        process_with_ticket_lock_lem w (ok false, w)
          (unfold try_acquire_ticket reserve is_ticket_in_flight in ground (arith, held))

    -- If `try_acquire_ticket` is cancelled, the call ends cancelled with the ticket in flight, and
    -- each later call for that ticket on those tables is skipped.
    pub cancelled_acquire_leaks :
        (w w2 : World R)
        → (try_acquire_ticket services.monotonic services.redis settings t w).0 ≡ cancelled
        → w2.local
          ≡ (process_with_ticket_lock services settings payload t delivery_id request_id w).1.local
        → ((process_with_ticket_lock services settings payload t delivery_id request_id w).0
            ≡ cancelled)
          × (process_with_ticket_lock services settings payload t delivery_id request_id w2
              ≡ skip services settings skipped_in_flight
                  (codes "in_flight")
                  (some t)
                  delivery_id
                  request_id
                  w2)
    unfolding after_acquire
    cancelled_acquire_leaks w w2 stopped same =
        let w1 = (try_acquire_ticket services.monotonic services.redis settings t w).1 in
        let ends = process_with_ticket_lock_lem w (cancelled, w1) (λ i. (stopped i, w1)) in
        let taken : is_ticket_in_flight w1.local t ≡ true = ground (
          arith,
          (flight-try_acquire_ticket services.monotonic services.redis settings t w t
              (type_error [])).2,
          stopped,
        ) in
        (
          ap (λ p. p.0) ends,
          process_with_ticket_lock-eq-skip w2
              (ap (λ l. is_ticket_in_flight l t) (same ∙ ap (λ p. p.1.local) ends) ∙ taken),
        )
