-- ===== src/Stores/Locks.antt =====
-- The process-local lock of a ticket, whatever Redis replies.
use zammad_ticket_archiver.Base.{
  ℕ, ◌≡◌, ◌≢◌, ◌⊎◌, inl, inr, Bool-cases, ◌&&◌, Bool, true, false, arith, ◌==◌, nat_eq, contains,
  add, contains-add, contains-discard, if◌then◌else◌,
}
use zammad_ticket_archiver.Errors.{Exc}
use zammad_ticket_archiver.Effect.{Reply, ok, err, cancelled}
use zammad_ticket_archiver.Settings.{WorkflowSettings}
use zammad_ticket_archiver.Stores.{
  Local, World, Redis, reserve, unlock, claim_distributed, try_acquire_ticket, release_distributed,
  release_ticket, is_ticket_in_flight,
}

-- The call took the lock: it returned true, or was cancelled while Redis was asked.
abbrev pub kept_lock : Reply Bool → Bool
kept_lock (ok b) = b
kept_lock (err _) = true
kept_lock cancelled = true

module _ {R : Type 0} (monotonic : R → ℕ × R) (redis : Redis R) (settings : WorkflowSettings)
    (t : ℕ) where
  flight-unlock :
      (local : Local) (u : ℕ)
      → is_ticket_in_flight (unlock t local) u
        ≡ (if t == u then false else is_ticket_in_flight local u)
  unfolding unlock is_ticket_in_flight
  flight-unlock local u = contains-discard t u local.in_flight_tickets

  pub flight-claim_distributed :
      (w : World R) (u : ℕ)
      → is_ticket_in_flight (claim_distributed monotonic redis settings t w).1.local u ≡ (
          if t == u
          then (if kept_lock (claim_distributed monotonic redis settings t w).0
              then is_ticket_in_flight w.local u
              else false)
          else is_ticket_in_flight w.local u)
  unfolding claim_distributed
  flight-claim_distributed w u = ground (arith, flight-unlock w.local u)

  claim_distributed-ne-err :
      (w : World R) (e : Exc) → (claim_distributed monotonic redis settings t w).0 ≢ err e
  unfolding claim_distributed
  claim_distributed-ne-err w e = ground arith

  -- the parts of the theorem below
  pub flight-try_acquire_ticket :
      (w : World R) (u : ℕ) (e : Exc)
      → ((try_acquire_ticket monotonic redis settings t w).0 ≢ err e)
        × (is_ticket_in_flight w.local t ≡ true
            → (try_acquire_ticket monotonic redis settings t w).0 ≡ ok false)
        × (is_ticket_in_flight (try_acquire_ticket monotonic redis settings t w).1.local u ≡ (
            if t == u && kept_lock (try_acquire_ticket monotonic redis settings t w).0
            then true
            else is_ticket_in_flight w.local u))
  unfolding try_acquire_ticket reserve is_ticket_in_flight
  flight-try_acquire_ticket w u e = elim (Bool-cases (contains w.local.in_flight_tickets t)) [
    | inl held ↦ (ground arith, ground arith, ground arith)
    | inr free ↦
        let w1 : World R = record w {
          local = record w.local { in_flight_tickets = add t w.local.in_flight_tickets };
        } in
        (
          ground (arith, claim_distributed-ne-err w1 e),
          ground arith,
          ground (arith, flight-claim_distributed w1 u, contains-add t u w.local.in_flight_tickets),
        )
  ]

  -- `try_acquire_ticket` never raises. A ticket in flight is refused. Afterwards the ticket is in
  -- flight if it was before, or if the call returned true or was cancelled; every other ticket is
  -- in flight as it was.
  pub try_acquire_ticket_lem :
      (w : World R) (u : ℕ) (e : Exc)
      → ((try_acquire_ticket monotonic redis settings t w).0 ≢ err e)
        × ((is_ticket_in_flight w.local t ≡ false)
            ⊎ ((try_acquire_ticket monotonic redis settings t w).0 ≡ ok false))
        × (is_ticket_in_flight (try_acquire_ticket monotonic redis settings t w).1.local u ≡ (
            if t == u && kept_lock (try_acquire_ticket monotonic redis settings t w).0
            then true
            else is_ticket_in_flight w.local u))
  try_acquire_ticket_lem w u e =
      let (raises, refused, after) = flight-try_acquire_ticket w u e in
      (
        raises,
        elim (Bool-cases (is_ticket_in_flight w.local t)) [
          | inl held ↦ inr (refused held)
          | inr free ↦ inl free
        ],
        after,
      )

  pub flight-release_distributed :
      (w : World R)
      → ((release_distributed monotonic redis settings t w).1.local ≡ w.local)
        × (((release_distributed monotonic redis settings t w).0 ≡ ok tt)
            ⊎ ((release_distributed monotonic redis settings t w).0 ≡ cancelled))
  unfolding release_distributed
  flight-release_distributed w = (ground arith, ground arith)

  -- A `release_ticket` that is not cancelled returns, whether Redis is used, answers or fails;
  -- the ticket is then not in flight, and every other ticket is in flight as it was.
  pub flight-release_ticket :
      (w : World R) (u : ℕ)
      → (release_ticket monotonic redis settings t w).0 ≢ cancelled
      → ((release_ticket monotonic redis settings t w).0 ≡ ok tt)
        × (is_ticket_in_flight (release_ticket monotonic redis settings t w).1.local u
            ≡ (if t == u then false else is_ticket_in_flight w.local u))
  unfolding release_ticket
  flight-release_ticket w u kept =
      ground (arith, flight-release_distributed w, flight-unlock w.local u)
