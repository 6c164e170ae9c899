-- ===== src/Tests/Http.antt =====
-- Examples of the Zammad client: a server that is down for a number of requests.
use mathlib.Core.Path.{◌≡◌, refl}
use zammad_ticket_archiver.Base.{
  ℕ, zero, suc, ◌+◌, ◌≤◌, ◌≢◌, ◌<◌, ◌⊎◌, true, false, none, some, arith, nat_eq,
}
use zammad_ticket_archiver.Base.Text.{codes}
use zammad_ticket_archiver.Effect.{ok, err}
use zammad_ticket_archiver.Errors.{Exc}
use zammad_ticket_archiver.Errors.Classify.{classify}
use zammad_ticket_archiver.Process.Failure.{is_transient}
use zammad_ticket_archiver.TicketId.{end, null}
use zammad_ticket_archiver.Zammad.{
  Response, Sent, replied, timed_out, Request, Http, default_policy, status_error,
  retry_delay_for_response, send,
}
use zammad_ticket_archiver.Zammad.Attempts.{retry_delay_for_response-status_error, send_terminates}
use zammad_ticket_archiver.Zammad.Recovery.{fails, succeeds, IsOutage, send_recovers, send_gives_up}

abbrev fine : Response
fine = record { status = 200; retry_after = none; url = codes "tags"; json = ok null }

-- The requests that fail before one is answered, and the number of requests so far.
abbrev answer : ℕ → ℕ → Sent × (ℕ × ℕ)
answer zero n = (replied fine, (0, n + 1))
answer (suc left) n = (timed_out, (left, n + 1))

abbrev down_for : Http (ℕ × ℕ)
down_for = record {
  request = λ request x. (ok (answer x.0 x.1).0, (answer x.0 x.1).1);
  sleep = λ d x. (ok tt, x);
  parse_float = λ s. none;
}

-- an answer of a server that limits the rate
abbrev limited : Response
limited = record { status = 429; retry_after = none; url = codes "tags"; json = ok null }

retry_delay_for_response-status_error_example :
    let workflow = is_transient (classify (status_error 429 (codes "tags"))) in
    let client = retry_delay_for_response down_for default_policy 0 limited in
    (workflow ≡ true)
    × (((workflow ≡ false) × (client ≡ ok none))
        ⊎ ((workflow ≡ true) × (0 < 3) × (d : ℕ) × (client ≡ ok (some d)))
        ⊎ ((workflow ≡ true)
            × (3 ≤ 0)
            × (e : Exc) × (client ≡ err e)
            × (is_transient (classify e) ≡ true)))
retry_delay_for_response-status_error_example =
    retry_delay_for_response-status_error down_for default_policy 0 limited

abbrev get_tags : Request
get_tags = record { method = codes "GET"; path = codes "api/v1/tags"; params = end; body = none }

one_each : (x : ℕ × ℕ) → (down_for.request get_tags x).1.1 ≤ x.1 + 1
one_each (zero, n) = omega arith
one_each (suc left, n) = omega arith

send_terminates_example :
    ((send down_for default_policy get_tags (9, 0)).0 ≢ ok none)
    × ((send down_for default_policy get_tags (9, 0)).1.1 ≤ 0 + (3 + 1))
send_terminates_example =
    send_terminates down_for default_policy get_tags (λ x. x.1) one_each (λ d x. omega arith) (9, 0)

is_outage : IsOutage down_for get_tags (λ x. x.0)
is_outage = record { sleep_ok = λ d x. refl; sleep_left = λ d x. refl; down = down; up = up }
  where
    down :
        (x : ℕ × ℕ) (n : ℕ)
        → x.0 ≡ suc n
        → (sent : Sent) × (y : ℕ × ℕ) × (down_for.request get_tags x ≡ (ok sent, y))
          × (fails sent ≡ true)
          × (y.0 ≡ n)
    down (zero, c) n e = absurd (omega arith)
    down (suc left, c) n e = (timed_out, (left, c + 1), refl, refl, omega (arith, e))

    up :
        (x : ℕ × ℕ)
        → x.0 ≡ 0
        → (response : Response) × (y : ℕ × ℕ) × (down_for.request get_tags x
            ≡ (ok (replied response), y))
          × (succeeds response ≡ true)
    up (zero, c) e = (fine, (0, c + 1), refl, refl)
    up (suc left, c) e = absurd (omega arith)

send_recovers_example :
    (response : Response) × ((send down_for default_policy get_tags (3, 0)).0 ≡ ok (some response))
    × (succeeds response ≡ true)
send_recovers_example =
    send_recovers down_for default_policy get_tags (λ x. x.0) is_outage (3, 0) (omega arith)

send_gives_up_example :
    (e : Exc) × ((send down_for default_policy get_tags (4, 0)).0 ≡ err e)
    × (is_transient (classify e) ≡ true)
send_gives_up_example =
    send_gives_up down_for default_policy get_tags (λ x. x.0) is_outage (4, 0) (omega arith)
