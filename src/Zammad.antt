-- ===== src/Zammad.antt =====
-- The requests of the Zammad client (src/zammad_pdf_archiver/adapters/zammad/client.py) over an HTTP
-- client of httpx.
pub mod Attempts
pub mod Calls
pub mod Recovery
use zammad_ticket_archiver.Base.{
  ℕ, zero, suc, ◌+◌, ◌*◌, ◌^◌, Bool, true, false, ◌||◌, ◌&&◌, Option, none, some, List, [], ◌∷◌,
  ◌++◌, ltb, leb, ◌==◌, nat_eq, if◌then◌else◌,
}
use zammad_ticket_archiver.Base.Text.{Text, codes, text_eq, show_nat, or_text}
use zammad_ticket_archiver.Errors.{
  Exc, server_error, rate_limit, auth_error, not_found, client_error, other,
}
use zammad_ticket_archiver.Effect.{
  Reply, Action, Done, ok, err, cancelled, pure, raise, cancel, ◌>>=◌, ◌>>◌, except,
}
use zammad_ticket_archiver.TicketId.{Value, Fields, get, str, int, dict, end, field}

-- `httpx.Response`
pub record Response : Type 0 where
  pub status : ℕ
  pub retry_after : Option Text
  pub url : Text
  pub json : Reply Value

-- How a call of `httpx.AsyncClient.request` ends: with a response, or with one of the exceptions that
-- the client tells apart. Any other exception is raised by the action.
pub data Sent : Type 0 where
  replied : Response → Sent
  timed_out transport_failed : Sent

-- A float of seconds, in nanoseconds.
pub data Seconds : Type 0 where
  below_zero : Seconds
  nanoseconds : ℕ → Seconds

-- What is sent: the method is GET or POST.
pub record Request : Type 0 where
  pub method : Text
  pub path : Text
  pub params : Fields
  pub body : Option Value

pub record Http (R : Type 0) : Type 0 where
  pub request : Request → Action R Sent
  pub sleep : ℕ → Action R Done
  -- float(value), none for a ValueError
  pub parse_float : Text → Option Seconds

-- `_RetryPolicy`
pub record RetryPolicy : Type 0 where
  pub max_retries : ℕ
  pub backoff_base : ℕ

abbrev pub default_policy : RetryPolicy
default_policy = record { max_retries = 3; backoff_base = 200_000_000 }

unfoldable pub backoff : RetryPolicy → ℕ → ℕ
backoff policy attempt = policy.backoff_base * 2 ^ attempt

-- `_raise_for_status`
unfoldable pub status_error : ℕ → Text → Exc
status_error status url =
    if status == 401 || status == 403
    then auth_error
        (codes "Zammad auth failed (status=" ++ (show_nat status ++ (codes ") at " ++ url)))
    else if status == 404
    then not_found (codes "Zammad resource not found (status=404) at " ++ url)
    else if status == 429
    then rate_limit (codes "Zammad rate limit (status=429) at " ++ url)
    else if leb 500 status
    then server_error
        (codes "Zammad server error (status=" ++ (show_nat status ++ (codes ") at " ++ url)))
    else if leb 400 status
    then client_error
        (codes "Zammad client error (status=" ++ (show_nat status ++ (codes ") at " ++ url)))
    else client_error
        (codes "Unexpected Zammad HTTP status=" ++ (show_nat status ++ (codes " at " ++ url)))

abbrev pub not_below : Option Seconds → Option ℕ
not_below none = none
not_below (some below_zero) = none
not_below (some (nanoseconds n)) = some n

-- `_parse_retry_after_seconds`
unfoldable pub parse_retry_after : (Text → Option Seconds) → Option Text → Option ℕ
parse_retry_after parse_float none = none
parse_retry_after parse_float (some []) = none
parse_retry_after parse_float (some (c ∷ s)) = not_below (parse_float (c ∷ s))

-- retry_after or backoff
abbrev pub or_backoff : Option ℕ → ℕ → ℕ
or_backoff none d = d
or_backoff (some zero) d = d
or_backoff (some (suc n)) d = suc n

module _ {R : Type 0} (http : Http R) (policy : RetryPolicy) where
  abbrev pub attempts_text : Text
  attempts_text = codes " after " ++ (show_nat (policy.max_retries + 1) ++ codes " attempts")

  abbrev pub timeout_error : Text → Exc
  timeout_error path = server_error (
      codes "Zammad API timeout"
      ++ (attempts_text ++ (codes " at " ++ or_text path (codes "<unknown>"))))

  abbrev pub network_error : Exc
  network_error = server_error (codes "Network error" ++ attempts_text)

  abbrev pub exhausted_server : ℕ → Exc
  exhausted_server status =
      server_error
        (codes "Zammad server error (status=" ++ (show_nat status ++ (codes ")" ++ attempts_text)))

  abbrev pub exhausted_limit : Exc
  exhausted_limit = rate_limit (codes "Zammad rate limit (status=429)" ++ attempts_text)

  -- `_retry_after_timeout_or_transport`: the error, or a sleep and the next count
  unfoldable pub retry_after_failure : ℕ → Exc → Action R ℕ
  retry_after_failure retry_count e =
      if leb policy.max_retries retry_count
      then raise e
      else (do http.sleep (backoff policy retry_count); pure (retry_count + 1))

  -- `_retry_delay_for_response`
  unfoldable pub retry_delay_for_response : ℕ → Response → Reply (Option ℕ)
  retry_delay_for_response retry_count response =
      if leb 500 response.status
      then (if leb policy.max_retries retry_count
          then err (exhausted_server response.status)
          else ok (some (backoff policy retry_count)))
      else if response.status == 429
      then (if leb policy.max_retries retry_count
          then err exhausted_limit
          else ok (
              some (
                or_backoff (parse_retry_after http.parse_float response.retry_after)
                  (backoff policy retry_count))))
      else ok none

  -- The end of a round whose response is not tried again.
  abbrev pub conclude : Response → Action R (Option Response)
  conclude response =
      if leb 200 response.status && ltb response.status 300
      then pure (some response)
      else raise (status_error response.status response.url)

  -- What a round does with a response, by the delay that it is given.
  abbrev pub after_response :
      (ℕ → Action R (Option Response))
      → ℕ
      → Response
      → Reply (Option ℕ)
      → Action R (Option Response)
  after_response again retry_count response (ok (some delay)) = do
    http.sleep delay
    again (retry_count + 1)
  after_response again retry_count response (ok none) = conclude response
  after_response again retry_count response (err e) = raise e
  after_response again retry_count response cancelled = cancel

  -- What a round does with a reply of httpx, where `again` is the rest of the loop.
  abbrev pub after_sent :
      (ℕ → Action R (Option Response)) → Request → ℕ → Sent → Action R (Option Response)
  after_sent again request retry_count timed_out = do
    count ← retry_after_failure retry_count (timeout_error request.path)
    again count
  after_sent again request retry_count transport_failed = do
    count ← retry_after_failure retry_count network_error
    again count
  after_sent again request retry_count (replied response) =
      after_response again retry_count response (retry_delay_for_response retry_count response)

  -- The loop of `_request`, by the rounds that it may make; none if they run out.
  unfoldable pub request_rounds : ℕ → Request → ℕ → Action R (Option Response)
  request_rounds zero request retry_count = pure none
  request_rounds (suc rounds) request retry_count = do
    sent ← http.request request
    after_sent (request_rounds rounds request) request retry_count sent

  -- `_request`, with one round for each of its attempts
  unfoldable pub send : Request → Action R (Option Response)
  send request = request_rounds (policy.max_retries + 1) request 0

  abbrev pub json_of : Option Response → Action R Value
  json_of none = raise (other (codes "RuntimeError") [])
  json_of (some response) = elim response.json [
    | ok value ↦ pure value
    | err e ↦ raise (
        client_error (
          codes "Invalid JSON from Zammad (status="
          ++ (show_nat response.status ++ (codes ") at " ++ response.url))))
    | cancelled ↦ cancel
  ]

  -- `_request_json`
  unfoldable pub request_json : Request → Action R Value
  request_json request = do response ← send request; json_of response
