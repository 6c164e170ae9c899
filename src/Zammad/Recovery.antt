-- ===== src/Zammad/Recovery.antt =====
-- A Zammad that fails for a number of requests and then answers.
use zammad_ticket_archiver.Base.{
  ℕ, zero, suc, ◌+◌, ◌≤◌, ◌<◌, ◌≡◌, refl, ◌⊎◌, inl, inr, Bool, true, ◌||◌, ◌&&◌, Option, some,
  arith, ltb, leb, ◌==◌, nat_eq, Bool-cases,
}
use zammad_ticket_archiver.Errors.{Exc}
use zammad_ticket_archiver.Errors.Classify.{classify}
use zammad_ticket_archiver.Effect.{Action, ok, err}
use zammad_ticket_archiver.Process.Failure.{is_transient}
use zammad_ticket_archiver.Zammad.{
  Response, Sent, replied, timed_out, transport_failed, Request, Http, RetryPolicy, timeout_error,
  network_error, exhausted_server, exhausted_limit, backoff, or_backoff, parse_retry_after,
  retry_after_failure, retry_delay_for_response, after_sent, request_rounds, send,
}

zero_or_suc : (n : ℕ) → (n ≡ 0) ⊎ ((k : ℕ) × (n ≡ suc k))
zero_or_suc zero = inl refl
zero_or_suc (suc k) = inr (k, refl)

-- What the client tries again.
abbrev pub fails : Sent → Bool
fails timed_out = true
fails transport_failed = true
fails (replied response) = leb 500 response.status || response.status == 429

abbrev pub succeeds : Response → Bool
succeeds response = leb 200 response.status && ltb response.status 300

-- `left` counts the requests that fail before one is answered; sleeping returns and changes nothing.
pub record IsOutage {R : Type 0} (http : Http R) (request : Request) (left : R → ℕ) : Type 0 where
  pub sleep_ok : (d : ℕ) (x : R) → (http.sleep d x).0 ≡ ok tt
  pub sleep_left : (d : ℕ) (x : R) → left (http.sleep d x).1 ≡ left x
  pub down :
      (x : R) (n : ℕ)
      → left x ≡ suc n
      → (sent : Sent) × (y : R) × (http.request request x ≡ (ok sent, y))
        × (fails sent ≡ true)
        × (left y ≡ n)
  pub up :
      (x : R)
      → left x ≡ 0
      → (response : Response) × (y : R) × (http.request request x ≡ (ok (replied response), y))
        × (succeeds response ≡ true)

module _ {R : Type 0} (http : Http R) (policy : RetryPolicy) (request : Request) (left : R → ℕ)
    (outage : IsOutage http request left) where
  -- A failed attempt that is not the last one leads to the next one.
  failed_round :
      (again : ℕ → Action R (Option Response)) (c : ℕ) (sent : Sent) (x : R)
      → fails sent ≡ true
      → c < policy.max_retries
      → (y : R) × (after_sent http policy again request c sent x ≡ again (c + 1) y)
        × (left y ≡ left x)
  unfolding retry_after_failure retry_delay_for_response
  failed_round again c timed_out x bad more =
      let d = backoff policy c in
      ((http.sleep d x).1, ground (arith, outage.sleep_ok d x), outage.sleep_left d x)
  failed_round again c transport_failed x bad more =
      let d = backoff policy c in
      ((http.sleep d x).1, ground (arith, outage.sleep_ok d x), outage.sleep_left d x)
  failed_round again c (replied response) x bad more = elim (Bool-cases (leb 500 response.status)) [
    | inl server ↦
        let d = backoff policy c in
        (
          (http.sleep d x).1,
          ground (arith, server, more, outage.sleep_ok d x),
          outage.sleep_left d x,
        )
    | inr limited ↦
        let d =
          or_backoff (parse_retry_after http.parse_float response.retry_after) (backoff policy c) in
        (
          (http.sleep d x).1,
          ground (arith, limited, bad, more, outage.sleep_ok d x),
          outage.sleep_left d x,
        )
  ]

  last_round :
      (again : ℕ → Action R (Option Response)) (c : ℕ) (sent : Sent) (x : R)
      → fails sent ≡ true
      → policy.max_retries ≤ c
      → (e : Exc) × ((after_sent http policy again request c sent x).0 ≡ err e)
        × (is_transient (classify e) ≡ true)
  unfolding retry_after_failure retry_delay_for_response classify
  last_round again c timed_out x bad last =
      (timeout_error http policy request.path, ground arith, refl)
  last_round again c transport_failed x bad last = (network_error http policy, ground arith, refl)
  last_round again c (replied response) x bad last = elim (Bool-cases (leb 500 response.status)) [
    | inl server ↦
        (exhausted_server http policy response.status, ground (arith, server, last), refl)
    | inr limited ↦ (exhausted_limit http policy, ground (arith, limited, last, bad), refl)
  ]

  answered_round :
      (again : ℕ → Action R (Option Response)) (c : ℕ) (response : Response) (x : R)
      → succeeds response ≡ true
      → (after_sent http policy again request c (replied response) x).0 ≡ ok (some response)
  unfolding retry_delay_for_response
  answered_round again c response x good = ground (arith, good)

  rounds_recover :
      (rounds c : ℕ) (x : R)
      → left x < rounds
      → left x + c ≤ policy.max_retries
      → (response : Response) × ((request_rounds http policy rounds request c x).0
          ≡ ok (some response))
        × (succeeds response ≡ true)
  unfolding request_rounds
  rounds_recover zero c x few short = absurd (omega arith)
  rounds_recover (suc rounds) c x few short = elim (zero_or_suc (left x)) [
    | inl answered ↦
        let (response, y, sent, good) = outage.up x answered in
        (
          response,
          ground (
            arith,
            sent,
            answered_round (request_rounds http policy rounds request) c response y good,
          ),
          good,
        )
    | inr (n, more) ↦
        let (sent, y, asked, bad, n_left) = outage.down x n more in
        let (z, next, same) =
          failed_round (request_rounds http policy rounds request) c sent y bad
            (omega (arith, short, more)) in
        let (response, got, good) =
          rounds_recover rounds (c + 1) z (omega (arith, few, more, n_left, same))
            (omega (arith, short, more, n_left, same)) in
        (response, ground (arith, asked, next, got), good)
  ]

  rounds_give_up :
      (rounds c : ℕ) (x : R)
      → policy.max_retries < rounds + c
      → c ≤ policy.max_retries
      → policy.max_retries < left x + c
      → (e : Exc) × ((request_rounds http policy rounds request c x).0 ≡ err e)
        × (is_transient (classify e) ≡ true)
  unfolding request_rounds
  rounds_give_up zero c x few short long = absurd (omega arith)
  rounds_give_up (suc rounds) c x few short long = elim (zero_or_suc (left x)) [
    | inl answered ↦ absurd (omega arith)
    | inr (n, more) ↦
        let (sent, y, asked, bad, n_left) = outage.down x n more in
        elim (Bool-cases (leb policy.max_retries c)) [
          | inl last ↦
              let (e, raised, kind) =
                last_round (request_rounds http policy rounds request) c sent y bad
                  (ground arith) in
              (e, ground (arith, asked, raised), kind)
          | inr again ↦
              let (z, next, same) =
                failed_round (request_rounds http policy rounds request) c sent y bad
                  (ground arith) in
              let (e, raised, kind) =
                rounds_give_up rounds (c + 1) z (omega (arith, few)) (ground arith)
                  (omega (arith, long, more, n_left, same)) in
              (e, ground (arith, asked, next, raised), kind)
        ]
  ]

  -- A request that fails at most `max_retries` times, by a timeout, a lost connection or a status of 429
  -- or from 500, before Zammad answers it, is answered: `_request` returns a response with a status from
  -- 200 to 299; if sleeping returns.
  pub send_recovers :
      (x : R)
      → left x ≤ policy.max_retries
      → (response : Response) × ((send http policy request x).0 ≡ ok (some response))
        × (succeeds response ≡ true)
  unfolding send
  send_recovers x few =
      rounds_recover (policy.max_retries + 1) 0 x (omega (arith, few)) (omega (arith, few))

  -- A request that fails more often than `max_retries` times, by a timeout, a lost connection or a
  -- status of 429 or from 500, ends with an error that the workflow classifies as transient; if sleeping
  -- returns.
  pub send_gives_up :
      (x : R)
      → policy.max_retries < left x
      → (e : Exc) × ((send http policy request x).0 ≡ err e) × (is_transient (classify e) ≡ true)
  unfolding send
  send_gives_up x many =
      rounds_give_up (policy.max_retries + 1) 0 x (omega arith) (omega arith) (omega (arith, many))
