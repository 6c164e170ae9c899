-- ===== src/Errors.antt =====
-- The exceptions that reach the archiver's own handlers (src/zammad_pdf_archiver/domain/errors.py,
-- adapters/zammad/errors.py, and the library classes that app/jobs/retry_policy.py names).
pub mod Classify
pub mod Policy
use zammad_ticket_archiver.Base.{ℕ, Option, [], ◌++◌}
use zammad_ticket_archiver.Base.Text.{Text, codes, strip, or_text}

-- One constructor for each class that a handler tells apart, with `str(exc)`. `os_error` stands for
-- OSError and its subclasses with its `errno`, `http_status` for httpx.HTTPStatusError with the
-- response's status code, and `other` for any other class, by its name.
pub data Exc : Type 0 where
  transient permanent : Text → Exc
  timeout request_error : Text → Exc
  http_status : Option ℕ → Text → Exc
  server_error rate_limit auth_error not_found client_error : Text → Exc
  os_error : Option ℕ → Text → Exc
  value_error type_error : Text → Exc
  other : Text → Text → Exc

-- str(exc)
unfoldable pub message : Exc → Text
message (transient m) = m
message (permanent m) = m
message (timeout m) = m
message (request_error m) = m
message (http_status _ m) = m
message (server_error m) = m
message (rate_limit m) = m
message (auth_error m) = m
message (not_found m) = m
message (client_error m) = m
message (os_error _ m) = m
message (value_error m) = m
message (type_error m) = m
message (other _ m) = m

-- exc.__class__.__name__
unfoldable pub class_name : Exc → Text
class_name (transient _) = codes "TransientError"
class_name (permanent _) = codes "PermanentError"
class_name (timeout _) = codes "TimeoutException"
class_name (request_error _) = codes "RequestError"
class_name (http_status _ _) = codes "HTTPStatusError"
class_name (server_error _) = codes "ServerError"
class_name (rate_limit _) = codes "RateLimitError"
class_name (auth_error _) = codes "AuthError"
class_name (not_found _) = codes "NotFoundError"
class_name (client_error _) = codes "ClientError"
class_name (os_error _ _) = codes "OSError"
class_name (value_error _) = codes "ValueError"
class_name (type_error _) = codes "TypeError"
class_name (other name _) = name

-- The two domain errors, as `classify` and `wrap_exception` return them.
pub data DomainError : Type 0 where
  transient_error permanent_error : Text → DomainError

-- f"{exc.__class__.__name__}: {exc}"
unfoldable pub described : Exc → Text
unfolding class_name message
described e = class_name e ++ (codes ": " ++ message e)

unfoldable pub wrap_exception : Exc → DomainError
unfolding described
wrap_exception (transient m) = transient_error m
wrap_exception (permanent m) = permanent_error m
wrap_exception e = permanent_error (or_text (strip (described e)) (class_name e))

-- A domain error raised again.
abbrev pub as_exc : DomainError → Exc
as_exc (transient_error m) = transient m
as_exc (permanent_error m) = permanent m
