-- ===== src/Process/Counted.antt =====
-- The table of tickets in flight against the number of locks that are held: what each operation on the
-- locks does to both.
use zammad_ticket_archiver.Base.{
  ℕ, ◌+◌, ◌-◌, ◌≤◌, ◌≡◌, ◌≢◌, ap, Bool, true, false, List, some, [], arith, ◌==◌, nat_eq, refl,
  Option, contains-add, ◌∙◌, sym, if◌then◌else◌,
}
use zammad_ticket_archiver.Base.Text.{Text}
use zammad_ticket_archiver.Errors.{timeout}
use zammad_ticket_archiver.Effect.{Reply, ok, cancelled}
use zammad_ticket_archiver.Settings.{WorkflowSettings}
use zammad_ticket_archiver.Stores.{
  World, reserve, set_in_flight, claim_distributed, release_ticket, is_ticket_in_flight,
  clear_stores, try_acquire_ticket,
}
use zammad_ticket_archiver.TicketId.{Fields}
use zammad_ticket_archiver.Process.Services.{ProcessTicketResult, Services}
use zammad_ticket_archiver.Process.Job.{with_lock}
use zammad_ticket_archiver.Process.Lock.{flight-locked, flight-with_lock}
use zammad_ticket_archiver.Stores.Locks.{
  kept_lock, flight-claim_distributed, flight-release_ticket, flight-release_distributed,
  flight-try_acquire_ticket,
}

-- One lock more, or one less, on the ticket `t`.
abbrev pub one_more : ℕ → (ℕ → ℕ) → ℕ → ℕ
one_more t held u = if t == u then held u + 1 else held u

abbrev pub one_less : ℕ → (ℕ → ℕ) → ℕ → ℕ
one_less t held u = if t == u then held u - 1 else held u

module _ {R Ticket Paths Rendered Stored : Type 0}
    (services : Services R Ticket Paths Rendered Stored) (settings : WorkflowSettings) where
  -- A ticket is held at most once, and only if it is in the table.
  abbrev pub IsCounted : (ℕ → ℕ) → World R → Type 0
  IsCounted held w = (u : ℕ) → held u ≤ (if is_ticket_in_flight w.local u then 1 else 0)

  pub called-IsCounted :
      (held : ℕ → ℕ) (w w' : World R) (t : ℕ) (r : Reply Bool)
      → IsCounted held w
      → try_acquire_ticket services.monotonic services.redis settings t w ≡ (r, w')
      → IsCounted (if kept_lock r then one_more t held else held) w'
  called-IsCounted held w w' t r counted e u =
      let (_, not_taken, after) =
        flight-try_acquire_ticket services.monotonic services.redis settings t w u (timeout []) in
      ground (arith, counted u, e, not_taken, after)

  pub begun-IsCounted :
      (held : ℕ → ℕ) (w : World R) (t : ℕ) (tickets : List ℕ)
      → IsCounted held w
      → reserve t w.local.in_flight_tickets ≡ some tickets
      → IsCounted (one_more t held) (record w { local = set_in_flight tickets w.local })
  unfolding reserve is_ticket_in_flight
  begun-IsCounted held w t tickets counted e u =
      ground (arith, counted u, e, contains-add t u w.local.in_flight_tickets)

  pub kept-IsCounted :
      (held : ℕ → ℕ) (w w' : World R) (t : ℕ) (r : Reply Bool)
      → IsCounted held w
      → claim_distributed services.monotonic services.redis settings t w ≡ (r, w')
      → r ≢ ok false
      → IsCounted held w'
  kept-IsCounted held w w' t r counted e not_refused u = ground (
    arith,
    counted u,
    e,
    flight-claim_distributed services.monotonic services.redis settings t w u,
  )

  pub refused-IsCounted :
      (held : ℕ → ℕ) (w w' : World R) (t : ℕ)
      → IsCounted held w
      → claim_distributed services.monotonic services.redis settings t w ≡ (ok false, w')
      → IsCounted (one_less t held) w'
  refused-IsCounted held w w' t counted e u = ground (
    arith,
    counted u,
    e,
    flight-claim_distributed services.monotonic services.redis settings t w u,
  )

  pub released-IsCounted :
      (held : ℕ → ℕ) (w w' : World R) (t : ℕ)
      → IsCounted held w
      → release_ticket services.monotonic services.redis settings t w ≡ (ok tt, w')
      → IsCounted (one_less t held) w'
  released-IsCounted held w w' t counted e u =
      let (_, after) =
        flight-release_ticket services.monotonic services.redis settings t w u
          (ground (arith, e)) in
      ground (arith, counted u, e, after)

  pub interrupted-IsCounted :
      (held : ℕ → ℕ) (w w' : World R) (t : ℕ)
      → IsCounted held w
      → release_ticket services.monotonic services.redis settings t w ≡ (cancelled, w')
      → IsCounted held w'
  unfolding release_ticket
  interrupted-IsCounted held w w' t counted e u = ground (
    arith,
    counted u,
    e,
    flight-release_distributed services.monotonic services.redis settings t w,
  )

  pub closed-IsCounted :
      (held : ℕ → ℕ) (w : World R)
      → ((u : ℕ) → held u ≡ 0)
      → IsCounted held (record w { local = clear_stores w.local })
  unfolding clear_stores
  closed-IsCounted held w none_held u = ground (arith, none_held u)

  pub other-IsCounted :
      (held : ℕ → ℕ) (w w' : World R)
      → IsCounted held w
      → w'.local.in_flight_tickets ≡ w.local.in_flight_tickets
      → IsCounted held w'
  unfolding is_ticket_in_flight
  other-IsCounted held w w' counted e u = ground (arith, counted u, e)

  -- What `process_with_ticket_lock` does with the reply keeps all other tickets, and all of them if
  -- the reply is false; no cancellation reaches the Redis command of the release.
  module _
      (shielded : (url key : Text) (x : R) → (services.redis.delete url key x).0 ≢ cancelled) where
    pub worked-IsCounted :
        (held : ℕ → ℕ) (w w' : World R) (t : ℕ) (payload : Fields)
        (delivery_id request_id : Option Text) (r : Reply ProcessTicketResult)
        → IsCounted held w
        → with_lock services settings payload t delivery_id request_id true w ≡ (r, w')
        → IsCounted (one_less t held) w'
    worked-IsCounted held w w' t payload delivery_id request_id r counted e u =
        let same : (with_lock services settings payload t delivery_id request_id true w).1 ≡ w' =
          ap (λ p. p.1) e in
        let after =
          ap (λ (x : World R). is_ticket_in_flight x.local u) (sym same)
          ∙ flight-locked services settings payload t delivery_id request_id shielded w u in
        ground (arith, counted u, after)

    pub skipped-IsCounted :
        (held : ℕ → ℕ) (w w' : World R) (t : ℕ) (payload : Fields)
        (delivery_id request_id : Option Text) (r : Reply ProcessTicketResult)
        → IsCounted held w
        → with_lock services settings payload t delivery_id request_id false w ≡ (r, w')
        → IsCounted held w'
    skipped-IsCounted held w w' t payload delivery_id request_id r counted e u =
        let same : (with_lock services settings payload t delivery_id request_id false w).1 ≡ w' =
          ap (λ p. p.1) e in
        let after =
          ap (λ (x : World R). is_ticket_in_flight x.local u) (sym same)
          ∙ flight-with_lock services settings payload t delivery_id request_id shielded (ok false)
              w w u (λ e h. cc) (λ held. refl) (ground arith) (λ h. cc) in
        ground (arith, counted u, after)
