-- ===== src/Errors/Classify.antt =====
-- `classify` and its helpers (src/zammad_pdf_archiver/app/jobs/retry_policy.py), and the messages
-- of domain/error_messages.py. The errno values are Linux's.
use zammad_ticket_archiver.Base.{
  ℕ, Bool, ◌&&◌, ◌||◌, Option, none, some, List, [], ◌∷◌, ◌++◌, leb, ◌==◌, nat_eq, contains,
  if◌then◌else◌,
}
use zammad_ticket_archiver.Base.Text.{Text, codes, show_nat, or_text}
use zammad_ticket_archiver.Errors.{
  Exc, transient, permanent, timeout, request_error, http_status, server_error, rate_limit,
  auth_error, not_found, client_error, os_error, value_error, type_error, other, DomainError,
  transient_error, permanent_error, wrap_exception,
}

-- EAGAIN, EWOULDBLOCK, ETIMEDOUT, ECONNRESET, EPIPE, ENOTCONN, ESTALE, EIO, ENETDOWN, ENETUNREACH,
-- EHOSTUNREACH, ENOENT, ENOSPC, EDQUOT, EROFS
abbrev pub transient_errnos : List ℕ
transient_errnos =
    11 ∷ 11 ∷ 110 ∷ 104 ∷ 32 ∷ 107 ∷ 116 ∷ 5 ∷ 100 ∷ 101 ∷ 113 ∷ 2 ∷ 28 ∷ 122 ∷ 30 ∷ []

-- EACCES, EPERM, EINVAL, ENAMETOOLONG, ENOTDIR, EISDIR
abbrev pub permanent_errnos : List ℕ
permanent_errnos = 13 ∷ 1 ∷ 22 ∷ 36 ∷ 20 ∷ 21 ∷ []

unfoldable pub format_http_error : Option ℕ → Bool → Text
format_http_error none is_auth = codes "HTTP connection/request error"
format_http_error (some status) is_auth =
    if is_auth
    then codes "HTTP " ++ (show_nat status ++ codes " (auth/permission) from upstream")
    else codes "HTTP " ++ (show_nat status ++ codes " from upstream")

unfoldable pub format_fs_error : Option ℕ → Bool → Text
format_fs_error none is_temporary = codes "Filesystem error"
format_fs_error (some errno) is_temporary =
    if is_temporary
    then codes "Temporary filesystem error (errno=" ++ (show_nat errno ++ codes ")")
    else codes "Filesystem policy/permission error (errno=" ++ (show_nat errno ++ codes ")")

unfoldable pub classify_http_status : Option ℕ → DomainError
classify_http_status none = permanent_error (codes "HTTP connection/request error")
classify_http_status (some status) =
    if leb 500 status && leb status 599
    then transient_error (format_http_error (some status) Bool.false)
    else if status == 401 || status == 403
    then permanent_error (format_http_error (some status) Bool.true)
    else permanent_error (format_http_error (some status) Bool.false)

unfoldable pub classify_os_error : Option ℕ → DomainError
classify_os_error none = permanent_error (codes "Filesystem error")
classify_os_error (some err) =
    if contains transient_errnos err
    then transient_error (format_fs_error (some err) Bool.true)
    else if contains permanent_errnos err
    then permanent_error (format_fs_error (some err) Bool.false)
    else permanent_error (codes "Filesystem error")

unfoldable pub classify : Exc → DomainError
classify (transient m) = transient_error m
classify (permanent m) = permanent_error m
classify (timeout m) = transient_error (codes "HTTP timeout")
classify (request_error m) = transient_error (codes "HTTP connection/request error")
classify (http_status status m) = classify_http_status status
classify (server_error m) = transient_error (or_text m (codes "Zammad transient error"))
classify (rate_limit m) = transient_error (or_text m (codes "Zammad transient error"))
classify (auth_error m) = permanent_error (or_text m (codes "Zammad permanent error"))
classify (not_found m) = permanent_error (or_text m (codes "Zammad permanent error"))
classify (client_error m) = permanent_error (or_text m (codes "Zammad client error"))
classify (os_error err m) = classify_os_error err
classify (value_error m) = permanent_error (or_text m (codes "ValueError"))
classify (type_error m) = permanent_error (or_text m (codes "TypeError"))
classify (other name m) = wrap_exception (other name m)
