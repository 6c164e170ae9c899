-- ===== src/Webhook/Authentic.antt =====
-- Which requests reach the application.
use zammad_ticket_archiver.Base.{
  ℕ, ◌≡◌, ◌≢◌, refl, arith, Bool, true, false, ◌&&◌, Bool-cases, inl, inr, Option, none, some, List,
  [], ◌∷◌, ◌==◌, nat_eq, if◌then◌else◌,
}
use zammad_ticket_archiver.Base.Text.{Text, codes, text_eq, text_beq_iff}
use zammad_ticket_archiver.Effect.{Action, ok, pure, >>=-eq-ok}
use zammad_ticket_archiver.Storage.{Bytes}
use zammad_ticket_archiver.Webhook.Signature.{Algorithm, parse_signature}
use zammad_ticket_archiver.Webhook.{
  Message, WebhookSettings, Scope, Source, replaying, forward, respond, secret_bytes, is_protected,
  stripped, concat, read_body, drain_stream, drained, compare_digest, check_body, check_signature,
  verify,
}

-- The body that was read is the one that the header signs with the secret.
pub record IsAuthentic {R : Type 0} (receive : Action R Message)
    (hmac : Algorithm → Text → Bytes → Bytes) (messages : ℕ) (secret : Text) (header : Option Text)
    (source : Source) (y : R) : Type 0 where
  pub value : Text
  pub header_is : header ≡ some value
  pub signature : Bytes
  pub algorithm : Algorithm
  pub parsed : parse_signature value ≡ some (signature, algorithm)
  pub chunks : List Bytes
  pub source_is : source ≡ replaying chunks
  pub before : R
  pub read : read_body receive messages before ≡ (ok (some (chunks, false)), y)
  pub signed : hmac algorithm secret (concat chunks) ≡ signature

module _ {R : Type 0} (receive : Action R Message) (hmac : Algorithm → Text → Bytes → Bytes)
    (settings : WebhookSettings) (messages : ℕ) where
  -- A request that is drained does not reach the application.
  drained-ne :
      (status : ℕ) (code : Text) (source : Source) (x y : R)
      → drained receive hmac settings messages (respond status code) x
        ≢ (ok (some (forward source)), y)
  drained-ne status code source x y h =
      let (done, x1, _, e) =
        >>=-eq-ok (drain_stream receive messages)
          (λ done. pure (if done then some (respond status code) else none)) x y
          (some (forward source)) h in
      ground (arith, e)

  compare_digest-signed :
      (signature : Bytes) (algorithm : Algorithm) (secret : Text)
      (body : Option (List Bytes × Bool)) (source : Source)
      → compare_digest receive hmac settings messages signature algorithm secret body
        ≡ some (forward source)
      → (chunks : List Bytes) × (body ≡ some (chunks, false))
        × (source ≡ replaying chunks)
        × (hmac algorithm secret (concat chunks) ≡ signature)
  unfolding compare_digest
  compare_digest-signed signature algorithm secret none source h = absurd cc
  compare_digest-signed signature algorithm secret (some (chunks, true)) source h = absurd cc
  compare_digest-signed signature algorithm secret (some (chunks, false)) source h = (
    chunks,
    refl,
    ground (arith, h),
    ground (arith, h, text_beq_iff signature (hmac algorithm secret (concat chunks))),
  )

  check_body-IsAuthentic :
      (secret value : Text) (parsed : Option (Bytes × Algorithm)) (source : Source) (x y : R)
      → parse_signature value ≡ parsed
      → check_body receive hmac settings messages secret parsed x ≡ (ok (some (forward source)), y)
      → IsAuthentic receive hmac messages secret (some value) source y
  check_body-IsAuthentic secret value none source x y e h = absurd (drained-ne 403 _ source x y h)
  check_body-IsAuthentic secret value (some (signature, algorithm)) source x y e h =
      let (body, x1, e1, h1) =
        >>=-eq-ok (read_body receive messages)
          (λ body.
            pure (compare_digest receive hmac settings messages signature algorithm secret body))
          x y (some (forward source)) h in
      let compared : compare_digest receive hmac settings messages signature algorithm secret body
          ≡ some (forward source) =
        cc in
      let (chunks, body_is, source_is, signed) =
        compare_digest-signed signature algorithm secret body source compared in
      record {
        value = value;
        header_is = refl;
        signature = signature;
        algorithm = algorithm;
        parsed = e;
        chunks = chunks;
        source_is = source_is;
        before = x;
        read = cc;
        signed = signed;
      }

  check_signature-IsAuthentic :
      (secret : Text) (header : Option Text) (source : Source) (x y : R)
      → check_signature receive hmac settings messages secret header x
        ≡ (ok (some (forward source)), y)
      → IsAuthentic receive hmac messages secret header source y
  check_signature-IsAuthentic secret none source x y h = absurd (drained-ne 403 _ source x y h)
  check_signature-IsAuthentic secret (some []) source x y h = absurd (drained-ne 403 _ source x y h)
  check_signature-IsAuthentic secret (some (c ∷ header)) source x y h =
      check_body-IsAuthentic secret (c ∷ header) (parse_signature (c ∷ header)) source x y refl h

  -- With a secret in the settings, a POST to a protected path reaches the application only with a
  -- signature in its header that is the HMAC, under that secret, of the body that was read to its end,
  -- and the application reads just that body.
  pub verify-IsAuthentic :
      (scope : Scope) (secret : Text) (source : Source) (x y : R)
      → is_protected scope ≡ true
      → secret_bytes settings ≡ some secret
      → verify receive hmac settings messages scope x ≡ (ok (some (forward source)), y)
      → IsAuthentic receive hmac messages secret scope.signature source y
  unfolding verify
  verify-IsAuthentic scope secret source x y protected has_secret h =
      elim (Bool-cases (settings.require_delivery_id && (stripped scope.delivery_id == []))) [
        | inl no_id ↦ absurd (
            drained-ne 400 (codes "missing_delivery_id") source x y
              (ground (arith, h, no_id, protected)))
        | inr has_id ↦
            check_signature-IsAuthentic secret scope.signature source x y
              (ground (arith, h, has_id, protected, has_secret))
      ]

  -- Without a secret, a POST to a protected path reaches the application only if the settings allow
  -- unsigned requests twice over.
  pub verify-unsigned :
      (scope : Scope) (source : Source) (x y : R)
      → is_protected scope ≡ true
      → secret_bytes settings ≡ none
      → verify receive hmac settings messages scope x ≡ (ok (some (forward source)), y)
      → (settings.allow_unsigned ≡ true) × (settings.allow_unsigned_when_no_secret ≡ true)
  unfolding verify
  verify-unsigned scope source x y protected no_secret h =
      elim (Bool-cases (settings.require_delivery_id && (stripped scope.delivery_id == []))) [
        | inl no_id ↦ absurd (
            drained-ne 400 (codes "missing_delivery_id") source x y
              (ground (arith, h, no_id, protected)))
        | inr has_id ↦ ground (arith, h, has_id, protected, no_secret)
      ]
