-- ===== src/Tests/Webhooks.antt =====
-- Examples of the webhook middleware: a client that sends a list of messages.
use mathlib.Core.Path.{◌≡◌, refl}
use zammad_ticket_archiver.Base.{
  ℕ, zero, suc, ◌+◌, ◌≤◌, true, false, contains, none, some, List, [], ◌∷◌, length,
}
use zammad_ticket_archiver.Base.Text.{Text, codes, strip, is_space, lower, text_beq}
use zammad_ticket_archiver.Effect.{Action, ok}
use zammad_ticket_archiver.Storage.{Bytes}
use zammad_ticket_archiver.Webhook.Signature.{
  Algorithm, digest_size, algorithm_of, partition_eq, hex_digit, from_hex, parse_signature,
}
use zammad_ticket_archiver.Webhook.{
  Message, disconnect, request, WebhookSettings, Scope, client, is_protected, replaying, forward,
  secret_bytes, concat, read_body, replay_receive, compare_digest, verify,
}
use zammad_ticket_archiver.Webhook.Authentic.{IsAuthentic, verify-IsAuthentic, verify-unsigned}
use zammad_ticket_archiver.Webhook.Replay.{replay-read_body}
use zammad_ticket_archiver.Webhook.Limit.{limited_receive, read_body_bounded}

abbrev receive : Action (List Message) Message
receive [] = (ok disconnect, [])
receive (message ∷ messages) = (ok message, messages)

abbrev repeated : ℕ → ℕ → Bytes
repeated zero b = []
repeated (suc n) b = b ∷ repeated n b

-- A digest of the right size, of the length of the body only.
abbrev lengths : Algorithm → Text → Bytes → Bytes
lengths algorithm secret body = repeated (digest_size algorithm) (length body)

abbrev signed_settings : WebhookSettings
signed_settings = record {
  hmac_secret = none;
  shared_secret = some (codes "hush");
  allow_unsigned = true;
  allow_unsigned_when_no_secret = true;
  require_delivery_id = false;
}

abbrev open_settings : WebhookSettings
open_settings = record signed_settings { shared_secret = some (codes "  ") }

abbrev ingest : Scope
ingest = record {
  is_http = true;
  method = codes "POST";
  path = codes "/ingest";
  signature = some (codes "SHA1=0303030303030303030303030303030303030303");
  delivery_id = none;
}

-- "{}\n" in two chunks
abbrev sent : List Message
sent = request (codes "{") true ∷ request [] true ∷ request (codes "}\n") false ∷ []

abbrev chunks : List Bytes
chunks = codes "{" ∷ codes "}\n" ∷ []

forwarded :
    verify receive lengths signed_settings 5 ingest sent
    ≡ (ok (some (forward (replaying chunks))), [])
unfolding verify text_beq contains secret_bytes strip is_space parse_signature partition_eq
    algorithm_of lower from_hex hex_digit read_body compare_digest
forwarded = refl

protected : is_protected ingest ≡ true
unfolding text_beq contains
protected = refl

secret : secret_bytes signed_settings ≡ some (codes "hush")
unfolding secret_bytes text_beq strip is_space
secret = refl

no_secret : secret_bytes open_settings ≡ none
unfolding secret_bytes text_beq strip is_space
no_secret = refl

verify-IsAuthentic_example :
    IsAuthentic receive lengths 5 (codes "hush") ingest.signature (replaying chunks) []
verify-IsAuthentic_example =
    verify-IsAuthentic receive lengths signed_settings 5 ingest (codes "hush") (replaying chunks)
      sent [] protected secret forwarded

unsigned : verify receive lengths open_settings 5 ingest sent ≡ (ok (some (forward client)), sent)
unfolding verify text_beq contains secret_bytes strip is_space
unsigned = refl

verify-unsigned_example :
    (open_settings.allow_unsigned ≡ true) × (open_settings.allow_unsigned_when_no_secret ≡ true)
verify-unsigned_example =
    verify-unsigned receive lengths open_settings 5 ingest client sent sent protected no_secret
      unsigned

was_read : read_body receive 3 sent ≡ (ok (some (chunks, false)), [])
unfolding read_body
was_read = refl

replay-read_body_example :
    (read_body (replay_receive chunks) (2 + 1) 0).0 ≡ ok (some (chunks, false))
replay-read_body_example = replay-read_body receive 3 chunks sent [] was_read

was_limited :
    read_body (limited_receive receive 3) 3 (sent, 0) ≡ (ok (some (chunks, false)), ([], 3))
unfolding read_body limited_receive
was_limited = refl

read_body_bounded_example : length (concat chunks) ≤ 3
read_body_bounded_example = read_body_bounded receive 3 3 chunks false sent ([], 3) was_limited
