-- ===== src/Errors/Policy.antt =====
-- What `classify` guarantees: which failures are retried.
use zammad_ticket_archiver.Base.{ℕ, ◌≤◌, ◌≡◌, refl, ◌↔◌, true, none, some, arith, contains, nat_eq}
use zammad_ticket_archiver.Base.Text.{Text}
use zammad_ticket_archiver.Errors.{
  Exc, transient, timeout, request_error, http_status, server_error, rate_limit, os_error,
  DomainError, transient_error, permanent_error, wrap_exception, as_exc,
}
use zammad_ticket_archiver.Errors.Classify.{
  transient_errnos, classify_http_status, classify_os_error, classify,
}

abbrev pub IsTransient : DomainError → Type 0
IsTransient (transient_error _) = Unit
IsTransient (permanent_error _) = ⊥

-- The failures that may go away by themselves: network trouble, a 5xx answer or a rate limit, and
-- the listed file system errors.
pub data IsRetryable : Exc → Type 0 where
  declared : (m : Text) → IsRetryable (transient m)
  timed_out : (m : Text) → IsRetryable (timeout m)
  unreachable : (m : Text) → IsRetryable (request_error m)
  upstream :
      (status : ℕ) (m : Text)
      → 500 ≤ status
      → status ≤ 599
      → IsRetryable (http_status (some status) m)
  server : (m : Text) → IsRetryable (server_error m)
  limited : (m : Text) → IsRetryable (rate_limit m)
  storage :
      (err : ℕ) (m : Text)
      → contains transient_errnos err ≡ true
      → IsRetryable (os_error (some err) m)

IsTransient-http :
    (status : ℕ)
    → IsTransient (classify_http_status (some status))
    → (500 ≤ status) × (status ≤ 599)
unfolding classify_http_status
IsTransient-http status h = ground arith

IsTransient-os :
    (err : ℕ) → IsTransient (classify_os_error (some err)) → contains transient_errnos err ≡ true
unfolding classify_os_error
IsTransient-os err h = ground arith

classify-IsRetryable : (e : Exc) → IsTransient (classify e) → IsRetryable e
unfolding classify wrap_exception
classify-IsRetryable (transient m) h = declared m
classify-IsRetryable (timeout m) h = timed_out m
classify-IsRetryable (request_error m) h = unreachable m
classify-IsRetryable (http_status none m) h = absurd (unfold classify_http_status in h)
classify-IsRetryable (http_status (some status) m) h =
    let (low, high) = IsTransient-http status h in upstream status m low high
classify-IsRetryable (server_error m) h = server m
classify-IsRetryable (rate_limit m) h = limited m
classify-IsRetryable (os_error none m) h = absurd (unfold classify_os_error in h)
classify-IsRetryable (os_error (some err) m) h = storage err m (IsTransient-os err h)
classify-IsRetryable _ h = absurd h

IsRetryable-classify : {e : Exc} → IsRetryable e → IsTransient (classify e)
unfolding classify classify_http_status classify_os_error
IsRetryable-classify (declared m) = tt
IsRetryable-classify (timed_out m) = tt
IsRetryable-classify (unreachable m) = tt
IsRetryable-classify (upstream status m low high) = ground arith
IsRetryable-classify (server m) = tt
IsRetryable-classify (limited m) = tt
IsRetryable-classify (storage err m h) = ground arith

-- An exception is classified as transient exactly if it is retryable: declared so, a time-out, a
-- connection error, an HTTP status from 500 to 599, a Zammad server error or rate limit, or an
-- OSError whose errno is one of the transient ones.
pub classify-IsTransient_iff : (e : Exc) → IsTransient (classify e) ↔ IsRetryable e
classify-IsTransient_iff e = (classify-IsRetryable e, IsRetryable-classify)

-- Classifying a classified error again, once it is raised, changes neither class nor message.
pub classify_idempotent : (e : Exc) → classify (as_exc (classify e)) ≡ classify e
classify_idempotent e = classify_as_exc (classify e)
  where
    classify_as_exc : (d : DomainError) → classify (as_exc d) ≡ d
    classify_as_exc (transient_error m) = unfold classify in refl
    classify_as_exc (permanent_error m) = unfold classify in refl
