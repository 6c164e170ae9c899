-- ===== src/Process/Redelivery.antt =====
-- A delivery id that comes again, from a webhook that is sent twice or from a retry of the queue.
use mathlib.Core.Path.{subst}
use zammad_ticket_archiver.Base.{
  ℕ, ◌+◌, ◌*◌, ◌≤◌, ◌<◌, ◌≡◌, refl, ap, ◌∙◌, ◌⊎◌, Bool, true, false, Option, none, some, ◌∷◌, arith,
}
use zammad_ticket_archiver.Base.Text.{Text}
use zammad_ticket_archiver.Effect.{ok, cancelled, >>=-eq-ok}
use zammad_ticket_archiver.Settings.{WorkflowSettings}
use zammad_ticket_archiver.Idempotency.{second}
use zammad_ticket_archiver.Stores.{
  World, memory_store, get_delivery_id_store, try_claim_delivery_id,
}
use zammad_ticket_archiver.Stores.Deliveries.{AreSets, try_claim_delivery_id_twice}
use zammad_ticket_archiver.TicketId.{Fields}
use zammad_ticket_archiver.Process.Services.{skipped_idempotency, Services}
use zammad_ticket_archiver.Process.Pipeline.{plain_result, record_history, skip}
use zammad_ticket_archiver.Process.Job.{
  process_ticket_with_client, after_claim, claim_delivery_or_skip,
}
use zammad_ticket_archiver.Process.Keeping.{process_ticket_with_client-Keeps}

module _ {R Ticket Paths Rendered Stored : Type 0}
    (services : Services R Ticket Paths Rendered Stored) (settings : WorkflowSettings)
    (payload : Fields) (t : ℕ) (delivery_id request_id : Option Text) (c : ℕ) (s : Text) where
  -- the skip of a delivery id that was seen
  after_claim_refused :
      (w : World R)
      → ((after_claim services settings payload t delivery_id request_id (c ∷ s) false w).0
          ≡ ok (some (plain_result skipped_idempotency (some t))))
        ⊎ ((after_claim services settings payload t delivery_id request_id (c ∷ s) false w).0
            ≡ cancelled)
  unfolding skip record_history
  after_claim_refused w = ground arith

  after_claim_granted :
      (claimed : Bool) (w1 w' : World R)
      → after_claim services settings payload t delivery_id request_id (c ∷ s) claimed w1
        ≡ (ok none, w')
      → (claimed ≡ true) × (w1 ≡ w')
  after_claim_granted true w1 w' h = (refl, ap (λ p. p.1) h)
  after_claim_granted false w1 w' h = ground (arith, after_claim_refused w1)

  claimed_once :
      (w w1 : World R)
      → claim_delivery_or_skip services settings payload t delivery_id request_id (some (c ∷ s)) w
        ≡ (ok none, w1)
      → try_claim_delivery_id services.monotonic services.redis settings (c ∷ s) w ≡ (ok true, w1)
  unfolding claim_delivery_or_skip
  claimed_once w w1 h =
      let (claimed, w', made, rest) =
        >>=-eq-ok (try_claim_delivery_id services.monotonic services.redis settings (c ∷ s))
          (after_claim services settings payload t delivery_id request_id (c ∷ s)) w w1 none h in
      let (granted, same) = after_claim_granted claimed w' w1 rest in
      subst
        (λ w'.
          try_claim_delivery_id services.monotonic services.redis settings (c ∷ s) w
          ≡ (ok true, w'))
        same
        (subst
          (λ b.
            try_claim_delivery_id services.monotonic services.redis settings (c ∷ s) w ≡ (ok b, w'))
          granted made)

  refused_skips :
      (w : World R)
      → (try_claim_delivery_id services.monotonic services.redis settings (c ∷ s) w).0 ≡ ok false
      → ((claim_delivery_or_skip services settings payload t delivery_id request_id
            (some (c ∷ s))
            w).0
          ≡ ok (some (plain_result skipped_idempotency (some t))))
        ⊎ ((claim_delivery_or_skip services settings payload t delivery_id request_id
              (some (c ∷ s))
              w).0
            ≡ cancelled)
  unfolding claim_delivery_or_skip
  refused_skips w h = ground (
    arith,
    h,
    after_claim_refused
        (try_claim_delivery_id services.monotonic services.redis settings (c ∷ s) w).1,
  )

  -- With the ids of deliveries in memory, in sets that their own operations made, once a job has
  -- claimed its delivery id, a job with the same id that finds the tables as the run of the first
  -- left them is skipped as a repetition (or cancelled), however that run ended, a failure that
  -- was to be tried again included, as long as all readings of the clock lie within less than the
  -- time to live.
  pub claim_delivery_or_skip-redelivered :
      (a b : ℕ)
      → ((x : R) → (a ≤ (services.monotonic x).0) × ((services.monotonic x).0 ≤ b))
      → (ttl : ℕ) → b < a + ttl * second
      → (w w1 w2 : World R) → AreSets w.local.delivery_id_sets
      → get_delivery_id_store settings w.local ≡ memory_store ttl
      → claim_delivery_or_skip services settings payload t delivery_id request_id (some (c ∷ s)) w
        ≡ (ok none, w1)
      → w2.local
        ≡ (process_ticket_with_client services settings payload t delivery_id request_id w1).1.local
      → get_delivery_id_store settings w2.local ≡ memory_store ttl
      → ((claim_delivery_or_skip services settings payload t delivery_id request_id
            (some (c ∷ s))
            w2).0
          ≡ ok (some (plain_result skipped_idempotency (some t))))
        ⊎ ((claim_delivery_or_skip services settings payload t delivery_id request_id
              (some (c ∷ s))
              w2).0
            ≡ cancelled)
  claim_delivery_or_skip-redelivered a b clock ttl short w w1 w2 sets first claimed same
        second_store =
      let kept =
        (process_ticket_with_client-Keeps services settings payload t delivery_id request_id).at
          w1 in
      refused_skips w2 (
        try_claim_delivery_id_twice services.monotonic services.redis settings a b clock ttl (c ∷ s)
          w w1 w2 short sets first second_store (claimed_once w w1 claimed)
          (ap (λ l. l.delivery_id_sets) same ∙ ap (λ p. p.sets) kept))
