-- ===== src/Zammad/Attempts.antt =====
-- The attempts of a request: that they end, what they return, and when they get through.
use zammad_ticket_archiver.Base.{
  ℕ, zero, suc, ◌+◌, ◌≤◌, ◌<◌, ◌≡◌, ◌≢◌, ap, ◌||◌, Option, none, some, arith, leb, ◌==◌, nat_eq,
  ◌⊎◌, true, false, Bool-cases, inl, inr,
}
use zammad_ticket_archiver.Base.Text.{Text}
use zammad_ticket_archiver.Errors.{Exc}
use zammad_ticket_archiver.Errors.Classify.{classify}
use zammad_ticket_archiver.Effect.{Reply, Action, ok, err, cancelled, >>=-cases}
use zammad_ticket_archiver.Process.Failure.{is_transient}
use zammad_ticket_archiver.Zammad.{
  Response, Sent, replied, timed_out, transport_failed, Request, Http, RetryPolicy, backoff,
  exhausted_server, exhausted_limit, or_backoff, parse_retry_after, status_error,
  retry_after_failure, retry_delay_for_response, after_response, after_sent, request_rounds, send,
}

-- The workflow tries again after the errors that 429 and 500 and above raise, and after no others.
is_transient-status_error :
    (status : ℕ) (url : Text)
    → is_transient (classify (status_error status url)) ≡ (status == 429 || leb 500 status)
unfolding status_error classify
is_transient-status_error status url = ground arith

module _ {R : Type 0} (http : Http R) (policy : RetryPolicy) where
  -- The client and the workflow try the same answers again, those of 429 and of 500 and above. The
  -- workflow classifies the error of every other answer as permanent, and the client's retry test
  -- gives none for it. For one whose error is classified as transient, the test gives a time to wait
  -- below the maximum of retries, and from there on raises an error that is transient again.
  pub retry_delay_for_response-status_error :
      (c : ℕ) (response : Response)
      → let workflow = is_transient (classify (status_error response.status response.url)) in
        let client = retry_delay_for_response http policy c response in
        (workflow ≡ (response.status == 429 || leb 500 response.status))
        × (((workflow ≡ false) × (client ≡ ok none))
            ⊎ ((workflow ≡ true) × (c < policy.max_retries) × (d : ℕ) × (client ≡ ok (some d)))
            ⊎ ((workflow ≡ true)
                × (policy.max_retries ≤ c)
                × (e : Exc) × (client ≡ err e)
                × (is_transient (classify e) ≡ true)))
  unfolding retry_delay_for_response classify
  retry_delay_for_response-status_error c response =
      let is = is_transient-status_error response.status response.url in
      let d =
        or_backoff (parse_retry_after http.parse_float response.retry_after) (backoff policy c) in
      (
        is,
        elim (Bool-cases (leb 500 response.status)) [
          | inl server ↦ elim (Bool-cases (leb policy.max_retries c)) [
            | inl many ↦ inr (
                inr (
                  ground (arith, is, server),
                  ground (arith, many),
                  exhausted_server http policy response.status,
                  ground (arith, many, server),
                  ground arith,
                ))
            | inr few ↦ inr (
                inl (
                  ground (arith, is, server),
                  ground (arith, few),
                  backoff policy c,
                  ground (arith, few, server),
                ))
          ]
          | inr below ↦ elim (Bool-cases (response.status == 429)) [
            | inl limit ↦ elim (Bool-cases (leb policy.max_retries c)) [
              | inl many ↦ inr (
                  inr (
                    ground (arith, is, limit),
                    ground (arith, many),
                    exhausted_limit http policy,
                    ground (arith, many, limit),
                    ground arith,
                  ))
              | inr few ↦ inr (
                  inl (
                    ground (arith, is, limit),
                    ground (arith, few),
                    d,
                    ground (arith, few, limit, below),
                  ))
            ]
            | inr neither ↦ inl (ground (arith, is, below, neither), ground (arith, below, neither))
          ]
        ],
      )

module _ {R : Type 0} (http : Http R) (policy : RetryPolicy) (request : Request) where
  module _ (count : R → ℕ) (one : (x : R) → count (http.request request x).1 ≤ count x + 1)
      (sleeps : (d : ℕ) (x : R) → count (http.sleep d x).1 ≤ count x) where
    -- one round
    round_bounded :
        (again : ℕ → Action R (Option Response)) (k c : ℕ) (sent : Sent) (x : R)
        → ((d : ℕ) (y : R) → count (again d y).1 ≤ count y + k)
        → count (after_sent http policy again request c sent x).1 ≤ count x + k
    unfolding retry_after_failure
    round_bounded again k c timed_out x rest =
        let d = backoff policy c in ground (arith, sleeps d x, rest (c + 1) (http.sleep d x).1)
    round_bounded again k c transport_failed x rest =
        let d = backoff policy c in ground (arith, sleeps d x, rest (c + 1) (http.sleep d x).1)
    round_bounded again k c (replied response) x rest =
        waits (retry_delay_for_response http policy c response)
      where
        waits :
            (r : Reply (Option ℕ))
            → count (after_response http policy again c response r x).1 ≤ count x + k
        waits (ok (some d)) = ground (arith, sleeps d x, rest (c + 1) (http.sleep d x).1)
        waits (ok none) = ground arith
        waits (err e) = omega arith
        waits cancelled = omega arith

    rounds_bounded :
        (rounds c : ℕ) (x : R)
        → count (request_rounds http policy rounds request c x).1 ≤ count x + rounds
    unfolding request_rounds
    rounds_bounded zero c x = omega arith
    rounds_bounded (suc rounds) c x =
        >>=-cases (λ p. count p.1 ≤ count x + suc rounds) (http.request request)
          (after_sent http policy (request_rounds http policy rounds request) request c) x
          (λ sent y e.
            let same : (http.request request x).1 ≡ y = ap (λ p. p.1) e in
            omega (
              arith,
              one x,
              ap count same,
              round_bounded (request_rounds http policy rounds request) rounds c sent y
                  (rounds_bounded rounds),
            ))
          (λ e y h.
            let same : (http.request request x).1 ≡ y = ap (λ p. p.1) h in
            omega (arith, one x, ap count same))
          (λ y h.
            let same : (http.request request x).1 ≡ y = ap (λ p. p.1) h in
            omega (arith, one x, ap count same))

  -- the reply of a round is none only if the rest of the loop replies so
  round-ne-none :
      (again : ℕ → Action R (Option Response)) (c : ℕ) (sent : Sent) (x : R)
      → ((y : R) → c < policy.max_retries → (again (c + 1) y).0 ≢ ok none)
      → (after_sent http policy again request c sent x).0 ≢ ok none
  unfolding retry_after_failure retry_delay_for_response
  round-ne-none again c timed_out x rest h =
      ground (arith, rest (http.sleep (backoff policy c) x).1)
  round-ne-none again c transport_failed x rest h =
      ground (arith, rest (http.sleep (backoff policy c) x).1)
  round-ne-none again c (replied response) x rest h =
      let d =
        or_backoff (parse_retry_after http.parse_float response.retry_after) (backoff policy c) in
      ground (arith, rest (http.sleep (backoff policy c) x).1, rest (http.sleep d x).1)

  rounds-ne-none :
      (rounds c : ℕ) (x : R)
      → c ≤ policy.max_retries
      → policy.max_retries < rounds + c
      → (request_rounds http policy rounds request c x).0 ≢ ok none
  unfolding request_rounds
  rounds-ne-none zero c x few h = absurd (omega arith)
  rounds-ne-none (suc rounds) c x few h =
      >>=-cases (λ p. p.0 ≢ ok none) (http.request request)
        (after_sent http policy (request_rounds http policy rounds request) request c) x
        (λ sent y e.
          round-ne-none (request_rounds http policy rounds request) c sent y
            (λ y more. rounds-ne-none rounds (c + 1) y (omega arith) (omega arith)))
        (λ e y h'. cc) (λ y h'. cc)

  -- `_request` ends: it never runs out of rounds.
  send-ne-none : (x : R) → (send http policy request x).0 ≢ ok none
  unfolding send
  send-ne-none x = rounds-ne-none (policy.max_retries + 1) 0 x (omega arith) (omega arith)

  -- A call of `_request` ends by its own tests, with a response, an error or a cancellation, after at
  -- most `max_retries` + 1 requests, if each call of httpx sends one request and sleeping sends none.
  pub send_terminates :
      (count : R → ℕ)
      → ((x : R) → count (http.request request x).1 ≤ count x + 1)
      → ((d : ℕ) (x : R) → count (http.sleep d x).1 ≤ count x)
      → (x : R)
      → ((send http policy request x).0 ≢ ok none)
        × (count (send http policy request x).1 ≤ count x + (policy.max_retries + 1))
  unfolding send
  send_terminates count one sleeps x =
      (send-ne-none x, rounds_bounded count one sleeps (policy.max_retries + 1) 0 x)
