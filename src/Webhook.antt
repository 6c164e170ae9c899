-- ===== src/Webhook.antt =====
-- The signature check of webhooks (src/zammad_pdf_archiver/app/middleware/hmac_verify.py) over an ASGI
-- server, and `drain_stream` of adapters/http_util.py.
pub mod Signature
pub mod Replay
pub mod Authentic
pub mod Limit
use zammad_ticket_archiver.Base.{
  ℕ, zero, suc, ◌+◌, ◌*◌, Bool, true, false, ◌||◌, ◌&&◌, not, Option, none, some, List, [], ◌∷◌,
  ◌++◌, ltb, length, drop, contains, ◌==◌, nat_eq, if◌then◌else◌,
}
use zammad_ticket_archiver.Base.Text.{Text, codes, text_eq, strip}
use zammad_ticket_archiver.Effect.{Reply, Action, Done, ok, err, cancelled, pure, ◌>>=◌, ◌>>◌}
use zammad_ticket_archiver.Storage.{Bytes}
use zammad_ticket_archiver.Webhook.Signature.{Algorithm, parse_signature}

-- The messages of ASGI that are told apart.
pub data Message : Type 0 where
  disconnect other_message : Message
  request : Bytes → Bool → Message

-- What is read of the settings.
pub record WebhookSettings : Type 0 where
  pub hmac_secret : Option Text
  pub shared_secret : Option Text
  pub allow_unsigned : Bool
  pub allow_unsigned_when_no_secret : Bool
  pub require_delivery_id : Bool

-- What is read of a request of HTTP.
pub record Scope : Type 0 where
  pub is_http : Bool
  pub method : Text
  pub path : Text
  pub signature : Option Text
  pub delivery_id : Option Text

-- What the application reads the body from: the client, or chunks that were read before.
pub data Source : Type 0 where
  client : Source
  replaying : List Bytes → Source

-- What the middleware does with a request: the application's call, or a response with a status.
pub data Decision : Type 0 where
  forward : Source → Decision
  respond : ℕ → Text → Decision

-- if value and value.strip()
abbrev pub nonblank : Option Text → Option Text
nonblank none = none
nonblank (some s) = if strip s == [] then none else some s

abbrev pub or_else : Option Text → Option Text → Option Text
or_else none other = other
or_else (some s) other = some s

-- `_secret_bytes`, of the settings
unfoldable pub secret_bytes : WebhookSettings → Option Text
secret_bytes settings = or_else (nonblank settings.hmac_secret) (nonblank settings.shared_secret)

-- `INGEST_PROTECTED_PATHS`
abbrev pub protected_paths : List Text
protected_paths = codes "/ingest" ∷ codes "/ingest/batch" ∷ []

abbrev pub is_protected : Scope → Bool
is_protected scope =
    scope.is_http && (scope.method == codes "POST") && contains protected_paths scope.path

-- `_forbidden`, `_service_misconfigured` and `_missing_delivery_id`
abbrev pub forbidden : Decision
forbidden = respond 403 (codes "forbidden")

abbrev pub service_misconfigured : Decision
service_misconfigured = respond 503 (codes "webhook_auth_not_configured")

abbrev pub missing_delivery_id : Decision
missing_delivery_id = respond 400 (codes "missing_delivery_id")

-- (value or "").strip()
abbrev pub stripped : Option Text → Text
stripped none = []
stripped (some s) = strip s

abbrev pub add_chunk : Bytes → List Bytes → List Bytes
add_chunk [] chunks = chunks
add_chunk (b ∷ body) chunks = (b ∷ body) ∷ chunks

abbrev pub prepend : Bytes → Option (List Bytes × Bool) → Option (List Bytes × Bool)
prepend body none = none
prepend body (some (chunks, disconnected)) = some (add_chunk body chunks, disconnected)

abbrev pub concat : List Bytes → Bytes
concat [] = []
concat (chunk ∷ chunks) = chunk ++ concat chunks

module _ {R : Type 0} (receive : Action R Message) where
  -- A round of the loop of `_read_body`, where `again` is the rest of it.
  abbrev pub take_message :
      Action R (Option (List Bytes × Bool)) → Message → Action R (Option (List Bytes × Bool))
  take_message again disconnect = pure (some ([], true))
  take_message again other_message = again
  take_message again (request body true) = do rest ← again; pure (prepend body rest)
  take_message again (request body false) = pure (some (add_chunk body [], false))

  -- `_read_body`, by the messages that it may read; none if they run out
  unfoldable pub read_body : ℕ → Action R (Option (List Bytes × Bool))
  read_body zero = pure none
  read_body (suc n) = do message ← receive; take_message (read_body n) message

  abbrev pub drain_message : Action R Bool → Message → Action R Bool
  drain_message again disconnect = pure true
  drain_message again other_message = again
  drain_message again (request body true) = again
  drain_message again (request body false) = pure true

  -- `drain_stream`, by the messages that it may read; false if they run out
  unfoldable pub drain_stream : ℕ → Action R Bool
  drain_stream zero = pure false
  drain_stream (suc n) = do message ← receive; drain_message (drain_stream n) message

-- `_replay_receive`, on the index of the next chunk
abbrev pub replay_next : ℕ → ℕ → List Bytes → Reply Message × ℕ
replay_next size idx [] = (ok (request [] false), idx)
replay_next size idx (body ∷ rest) = (ok (request body (ltb (idx + 1) size)), idx + 1)

unfoldable pub replay_receive : List Bytes → Action ℕ Message
replay_receive chunks idx = replay_next (length chunks) idx (drop idx chunks)

-- `hmac algorithm secret body` is the HMAC of the whole body, however it is handed over.
module _ {R : Type 0} (receive : Action R Message) (hmac : Algorithm → Text → Bytes → Bytes)
    (settings : WebhookSettings) (messages : ℕ) where
  -- A rejection after the body is drained.
  abbrev pub drained : Decision → Action R (Option Decision)
  drained decision = do
    done ← drain_stream receive messages
    pure (if done then some decision else none)

  -- The end of `__call__`, once the body is read.
  unfoldable pub compare_digest :
      Bytes → Algorithm → Text → Option (List Bytes × Bool) → Option Decision
  compare_digest signature algorithm secret none = none
  compare_digest signature algorithm secret (some (chunks, true)) = some forbidden
  compare_digest signature algorithm secret (some (chunks, false)) =
      if signature == hmac algorithm secret (concat chunks)
      then some (forward (replaying chunks))
      else some forbidden

  abbrev pub check_body : Text → Option (Bytes × Algorithm) → Action R (Option Decision)
  check_body secret none = drained forbidden
  check_body secret (some (signature, algorithm)) = do
    body ← read_body receive messages
    pure (compare_digest signature algorithm secret body)

  -- With a secret; a header that is missing or empty has no signature.
  abbrev pub check_signature : Text → Option Text → Action R (Option Decision)
  check_signature secret none = drained forbidden
  check_signature secret (some []) = drained forbidden
  check_signature secret (some (c ∷ header)) = check_body secret (parse_signature (c ∷ header))

  abbrev pub check_secret : Scope → Option Text → Action R (Option Decision)
  check_secret scope none =
      if settings.allow_unsigned && settings.allow_unsigned_when_no_secret
      then pure (some (forward client))
      else pure (some service_misconfigured)
  check_secret scope (some secret) = check_signature secret scope.signature

  -- `HmacVerifyMiddleware.__call__`, up to the call of the application or of the response; none if the
  -- client sends more messages than are counted with.
  unfoldable pub verify : Scope → Action R (Option Decision)
  verify scope =
      if not (is_protected scope)
      then pure (some (forward client))
      else if settings.require_delivery_id && (stripped scope.delivery_id == [])
      then drained missing_delivery_id
      else check_secret scope (secret_bytes settings)
