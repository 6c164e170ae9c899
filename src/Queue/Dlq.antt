-- ===== src/Queue/Dlq.antt =====
-- Draining the dead-letter stream.
use zammad_ticket_archiver.Base.{
  ℕ, ◌≤◌, ◌≡◌, min, List, [], ◌∷◌, arith, ltb, length, inl, inr, Bool-cases,
}
use zammad_ticket_archiver.Base.Text.{Text}
use zammad_ticket_archiver.Effect.{ok, ◌>>=◌, >>=-eq-ok, >>-eq-ok}
use zammad_ticket_archiver.Settings.{WorkflowSettings}
use zammad_ticket_archiver.Stores.{World, remotely}
use zammad_ticket_archiver.Process.Services.{Services}
use zammad_ticket_archiver.Queue.{Message, Streams, get_redis}
use zammad_ticket_archiver.Queue.Worker.{delete_entries, drain_dlq}

module _ {R Ticket Paths Rendered Stored : Type 0} (streams : Streams R)
    (services : Services R Ticket Paths Rendered Stored) (settings : WorkflowSettings)
    (bounded : (stream : Text) (n : ℕ) (x x' : R) (entries : List Message)
      → streams.xrange stream n x ≡ (ok entries, x')
      → length entries ≤ n) where
  delete_entries-length :
      (entries : List Message) (w w' : World R) (n : ℕ)
      → delete_entries streams services settings entries w ≡ (ok n, w')
      → n ≡ length entries
  delete_entries-length [] w w' n h = ground arith
  delete_entries-length (m ∷ entries) w w' n h = ground arith

  -- `drain_dlq` replies a number of deleted entries that is at most its limit and at most 1000, if
  -- XRANGE lists no more entries than its COUNT.
  pub drain_dlq_bounded :
      (limit n : ℕ) (w w' : World R)
      → drain_dlq streams services settings limit w ≡ (ok n, w')
      → (n ≤ limit) × (n ≤ 1000)
  unfolding drain_dlq
  drain_dlq_bounded limit n w w' h = elim (Bool-cases (ltb limit 1)) [
    | inl small ↦ ground arith
    | inr big ↦
        let listed = remotely (streams.xrange settings.queue_dlq_stream (min limit 1000)) in
        let (_, w1, _, rest) =
          >>-eq-ok (get_redis streams settings)
            (listed >>= delete_entries streams services settings) w w' n (rw big at h) in
        let (entries, w2, got, deleted) =
          >>=-eq-ok listed (delete_entries streams services settings) w1 w' n rest in
        let few =
          bounded settings.queue_dlq_stream (min limit 1000) w1.remote w2.remote entries
            (λ i. ((got i).0, (got i).1.remote)) in
        omega (arith, few, delete_entries-length entries w2 w' n deleted)
  ]
