-- ===== src/Process/Mutex.antt =====
-- Many calls of `try_acquire_ticket` and `release_ticket`, in any order and interleaving. Between two
-- awaits a task runs alone, so that the local half of `try_acquire_ticket` is one step and its
-- distributed half another, and other calls run between them; as are the work of
-- `process_with_ticket_lock` and its release.
use zammad_ticket_archiver.Base.{
  ℕ, ◌≤◌, ◌≡◌, ◌≢◌, Bool, true, false, List, some, [], arith, nat_eq, Option, ◌⊎◌, inl, inr,
  Bool-cases, if◌then◌else◌,
}
use zammad_ticket_archiver.Base.Text.{Text}
use zammad_ticket_archiver.Errors.{timeout}
use zammad_ticket_archiver.Effect.{Reply, ok, cancelled}
use zammad_ticket_archiver.Settings.{WorkflowSettings}
use zammad_ticket_archiver.Stores.{
  World, reserve, set_in_flight, claim_distributed, release_ticket, is_ticket_in_flight,
  clear_stores, try_acquire_ticket,
}
use zammad_ticket_archiver.TicketId.{Fields}
use zammad_ticket_archiver.Process.Services.{ProcessTicketResult, Services}
use zammad_ticket_archiver.Process.Job.{with_lock}
use zammad_ticket_archiver.Stores.Locks.{kept_lock, flight-try_acquire_ticket}
use zammad_ticket_archiver.Process.Counted.{
  one_more, one_less, IsCounted, called-IsCounted, begun-IsCounted, kept-IsCounted,
  refused-IsCounted, released-IsCounted, interrupted-IsCounted, closed-IsCounted, other-IsCounted,
  worked-IsCounted, skipped-IsCounted,
}

module _ {R Ticket Paths Rendered Stored : Type 0}
    (services : Services R Ticket Paths Rendered Stored) (settings : WorkflowSettings) where
  -- The calls so far have led to a world, and `held u` of them have taken the ticket `u` and have not
  -- given it back: it is counted by what the calls replied, not by the
  -- table. A call that is cancelled while Redis is asked has taken the ticket.
  pub data Course : (ℕ → ℕ) → World R → Type 0 where
    start : (w : World R) → w.local.in_flight_tickets ≡ [] → Course (λ u. 0) w
    -- a call of `try_acquire_ticket` that nothing interrupts
    called :
        {held : ℕ → ℕ} {w w' : World R} (t : ℕ) (r : Reply Bool)
        → Course held w
        → try_acquire_ticket services.monotonic services.redis settings t w ≡ (r, w')
        → Course (if kept_lock r then one_more t held else held) w'
    -- one that the local half did not refuse, and that now waits for Redis
    begun :
        {held : ℕ → ℕ} {w : World R} (t : ℕ) (tickets : List ℕ)
        → Course held w
        → reserve t w.local.in_flight_tickets ≡ some tickets
        → Course (one_more t held) (record w { local = set_in_flight tickets w.local })
    -- it goes on at some later time, and returns true, or is cancelled
    kept :
        {held : ℕ → ℕ} {w w' : World R} (t : ℕ) (r : Reply Bool)
        → Course held w
        → 1 ≤ held t
        → claim_distributed services.monotonic services.redis settings t w ≡ (r, w')
        → r ≢ ok false
        → Course held w'
    -- or it returns false
    refused :
        {held : ℕ → ℕ} {w w' : World R} (t : ℕ)
        → Course held w
        → 1 ≤ held t
        → claim_distributed services.monotonic services.redis settings t w ≡ (ok false, w')
        → Course (one_less t held) w'
    -- `process_with_ticket_lock` goes on with the reply true, to the end of its `finally`
    worked :
        {held : ℕ → ℕ} {w w' : World R} (t : ℕ) (payload : Fields)
        (delivery_id request_id : Option Text) (r : Reply ProcessTicketResult)
        → Course held w
        → 1 ≤ held t
        → with_lock services settings payload t delivery_id request_id true w ≡ (r, w')
        → Course (one_less t held) w'
    -- or with the reply false
    skipped :
        {held : ℕ → ℕ} {w w' : World R} (t : ℕ) (payload : Fields)
        (delivery_id request_id : Option Text) (r : Reply ProcessTicketResult)
        → Course held w
        → with_lock services settings payload t delivery_id request_id false w ≡ (r, w')
        → Course held w'
    -- its release, where other steps come between the work and it
    released :
        {held : ℕ → ℕ} {w w' : World R} (t : ℕ)
        → Course held w
        → 1 ≤ held t
        → release_ticket services.monotonic services.redis settings t w ≡ (ok tt, w')
        → Course (one_less t held) w'
    -- a release that is cancelled
    interrupted :
        {held : ℕ → ℕ} {w w' : World R} (t : ℕ)
        → Course held w
        → release_ticket services.monotonic services.redis settings t w ≡ (cancelled, w')
        → Course held w'
    -- `aclose_stores`, when no ticket is held
    closed :
        {held : ℕ → ℕ} {w : World R}
        → Course held w
        → ((u : ℕ) → held u ≡ 0)
        → Course held (record w { local = clear_stores w.local })
    -- anything else, which leaves the table alone
    other :
        {held : ℕ → ℕ} {w w' : World R}
        → Course held w
        → w'.local.in_flight_tickets ≡ w.local.in_flight_tickets
        → Course held w'

  module _
      (shielded : (url key : Text) (x : R) → (services.redis.delete url key x).0 ≢ cancelled) where
    Course-IsCounted :
        {held : ℕ → ℕ} {w : World R} → Course held w → IsCounted services settings held w
    Course-IsCounted (start w e) = λ u. omega arith
    Course-IsCounted (called {held} {w} {w'} t r c e) =
        called-IsCounted services settings held w w' t r (Course-IsCounted c) e
    Course-IsCounted (begun {held} {w} t tickets c e) =
        begun-IsCounted services settings held w t tickets (Course-IsCounted c) e
    Course-IsCounted (kept {held} {w} {w'} t r c _ e not_refused) =
        kept-IsCounted services settings held w w' t r (Course-IsCounted c) e not_refused
    Course-IsCounted (worked {held} {w} {w'} t p d q r c _ e) =
        worked-IsCounted services settings shielded held w w' t p d q r (Course-IsCounted c) e
    Course-IsCounted (skipped {held} {w} {w'} t p d q r c e) =
        skipped-IsCounted services settings shielded held w w' t p d q r (Course-IsCounted c) e
    Course-IsCounted (refused {held} {w} {w'} t c _ e) =
        refused-IsCounted services settings held w w' t (Course-IsCounted c) e
    Course-IsCounted (released {held} {w} {w'} t c _ e) =
        released-IsCounted services settings held w w' t (Course-IsCounted c) e
    Course-IsCounted (interrupted {held} {w} {w'} t c e) =
        interrupted-IsCounted services settings held w w' t (Course-IsCounted c) e
    Course-IsCounted (closed {held} {w} c none_held) =
        closed-IsCounted services settings held w none_held
    Course-IsCounted (other {held} {w} {w'} c e) =
        other-IsCounted services settings held w w' (Course-IsCounted c) e

    -- However the halves of the calls of `try_acquire_ticket`, their callers' work and skips, and the
    -- releases interleave, and whatever Redis replies, at most one of the callers that took a ticket
    -- has not given it back, and as long as there is one, the next call of `try_acquire_ticket` for it
    -- returns false and leaves the table of tickets in flight as it is; if callers release
    -- only what they took, `aclose_stores` is not called while a ticket is held, and `asyncio.shield`
    -- keeps cancellations from the Redis command of a release.
    pub Course-exclusive :
        {held : ℕ → ℕ} {w : World R}
        → Course held w
        → (t u : ℕ)
        → (held t ≤ 1)
          × ((held t ≡ 0)
              ⊎ (((try_acquire_ticket services.monotonic services.redis settings t w).0 ≡ ok false)
                  × (is_ticket_in_flight
                        (try_acquire_ticket services.monotonic services.redis settings t w).1.local
                        u
                      ≡ is_ticket_in_flight w.local u)))
    Course-exclusive {held} {w} c t u =
        let counted = Course-IsCounted c t in
        (
          ground (arith, counted),
          elim (Bool-cases (is_ticket_in_flight w.local t)) [
            | inl taken ↦
                let refuses =
                  (flight-try_acquire_ticket services.monotonic services.redis settings t w t
                      (timeout [])).1
                    taken in
                inr (
                  refuses,
                  ground (
                    arith,
                    refuses,
                    flight-try_acquire_ticket services.monotonic services.redis settings t w u
                        (timeout []),
                  ),
                )
            | inr free ↦ inl (ground (arith, counted, free))
          ],
        )
