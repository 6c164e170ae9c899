-- ===== src/Webhook/Limit.antt =====
-- The limit on the size of a body (src/zammad_pdf_archiver/app/middleware/body_size_limit.py).
use zammad_ticket_archiver.Base.{
  ℕ, zero, suc, ◌+◌, ◌≤◌, ◌≡◌, refl, ap, arith, Bool, true, false, ◌&&◌, not, Bool-cases, inl, inr,
  Option, none, some, List, [], ◌∷◌, ltb, length, length-append, contains, nat_eq, if◌then◌else◌,
}
use zammad_ticket_archiver.Base.Text.{Text, codes, text_eq}
use zammad_ticket_archiver.Errors.{Exc, other}
use zammad_ticket_archiver.Effect.{Reply, Action, ok, err, cancelled, pure, >>=-eq-ok}
use zammad_ticket_archiver.Storage.{Bytes}
use zammad_ticket_archiver.Webhook.{
  Message, disconnect, other_message, request, Scope, protected_paths, add_chunk, prepend, concat,
  take_message, read_body,
}

-- `_BodyTooLarge`
abbrev pub body_too_large : Exc
body_too_large = other (codes "_BodyTooLarge") []

-- `_is_limited_path`
unfoldable pub is_limited_path : Scope → ℕ → Bool
is_limited_path scope max_bytes =
    scope.is_http && ltb 0 max_bytes && contains protected_paths scope.path

-- `_content_length_exceeds_limit`, of the header; `parse_int` gives none for a ValueError, and for a
-- negative number.
unfoldable pub content_length_exceeds_limit : (Text → Option ℕ) → Option Text → ℕ → Bool
content_length_exceeds_limit parse_int none max_bytes = false
content_length_exceeds_limit parse_int (some []) max_bytes = false
content_length_exceeds_limit parse_int (some (c ∷ s)) max_bytes = elim (parse_int (c ∷ s)) [
  | none ↦ false
  | some n ↦ ltb max_bytes n
]

-- How the application is called, or that it is not.
pub data Admission : Type 0 where
  unlimited limited request_too_large : Admission

-- `BodySizeLimitMiddleware.__call__`, up to the call of the application
unfoldable pub admit : (Text → Option ℕ) → Scope → Option Text → ℕ → Admission
admit parse_int scope content_length max_bytes =
    if not (is_limited_path scope max_bytes)
    then unlimited
    else if content_length_exceeds_limit parse_int content_length max_bytes
    then request_too_large
    else limited

-- The bytes of a message's body.
abbrev pub size : Message → ℕ
size (request body more) = length body
size _ = 0

concat-add_chunk :
    (body : Bytes) (chunks : List Bytes)
    → length (concat (add_chunk body chunks)) ≡ length body + length (concat chunks)
concat-add_chunk [] chunks = omega arith
concat-add_chunk (b ∷ body) chunks = length-append (b ∷ body) (concat chunks)

module _ {R : Type 0} (receive : Action R Message) (max_bytes : ℕ) where
  -- What is done with a message, by the bytes that were received before it.
  abbrev pub limit_message : Message → ℕ → Reply Message × ℕ
  limit_message disconnect received = (ok disconnect, received)
  limit_message other_message received = (ok other_message, received)
  limit_message (request body more) received =
      let total = received + length body in
      if ltb max_bytes total then (err body_too_large, total) else (ok (request body more), total)

  abbrev pub limit_reply : Reply Message → R → ℕ → Reply Message × (R × ℕ)
  limit_reply (ok message) y received =
      let (r, total) = limit_message message received in (r, (y, total))
  limit_reply (err e) y received = (err e, (y, received))
  limit_reply cancelled y received = (cancelled, (y, received))

  -- `limited_receive` of `_limited_receive_factory`, with the bytes received so far beside the world.
  unfoldable pub limited_receive : Action (R × ℕ) Message
  limited_receive (x, received) = let (r, y) = receive x in limit_reply r y received

  -- What is received with a message that is handed on stays in the limit.
  limit_reply_bounded :
      (r : Reply Message) (y : R) (received : ℕ) (message : Message) (z : R × ℕ)
      → received ≤ max_bytes
      → limit_reply r y received ≡ (ok message, z)
      → (z.1 ≡ received + size message) × (z.1 ≤ max_bytes)
  limit_reply_bounded (ok disconnect) y received message z few h =
      let is : disconnect ≡ message = cc in
      let total : received ≡ z.1 = cc in
      (omega (arith, total, ap size is), omega (arith, total, few))
  limit_reply_bounded (ok other_message) y received message z few h =
      let is : other_message ≡ message = cc in
      let total : received ≡ z.1 = cc in
      (omega (arith, total, ap size is), omega (arith, total, few))
  limit_reply_bounded (ok (request body more)) y received message z few h =
      elim (Bool-cases (ltb max_bytes (received + length body))) [
        | inl over ↦ absurd (ground (arith, h, over))
        | inr fits ↦
            let handed : Path (Reply Message × (R × ℕ))
                (ok (request body more), (y, received + length body)) (ok message, z) =
              ground (arith, h, fits) in
            let is : request body more ≡ message = cc in
            let total : received + length body ≡ z.1 = cc in
            (omega (arith, total, ap size is), ground (arith, fits, total))
      ]
  limit_reply_bounded (err e) y received message z few h = absurd cc
  limit_reply_bounded cancelled y received message z few h = absurd cc

  -- a round of `_read_body`, with what holds of the rounds after it
  message_total :
      (n : ℕ) (chunks : List Bytes) (gone : Bool) (y : R) (received total : ℕ) (z : R × ℕ)
      (message : Message)
      → take_message limited_receive (read_body limited_receive n) message (y, total)
        ≡ (ok (some (chunks, gone)), z)
      → total ≡ received + size message
      → total ≤ max_bytes
      → ((others : List Bytes) (g : Bool) (z' : R × ℕ)
          → read_body limited_receive n (y, total) ≡ (ok (some (others, g)), z')
          → total + length (concat others) ≤ max_bytes)
      → received + length (concat chunks) ≤ max_bytes
  message_total n chunks gone y received total z disconnect e sum fits ih =
      let is : [] ≡ chunks = cc in omega (arith, sum, fits, ap (λ c. length (concat c)) is)
  message_total n chunks gone y received total z other_message e sum fits ih =
      omega (arith, ih chunks gone z e, sum)
  message_total n chunks gone y received total z (request body true) e sum fits ih =
      let (rest, z', e1, e2) =
        >>=-eq-ok (read_body limited_receive n) (λ rest. pure (prepend body rest)) (y, total) z
          (some (chunks, gone)) e in
      prepended rest (λ others g r. ih others g z' cc) cc
    where
      prepended :
          (rest : Option (List Bytes × Bool))
          → ((others : List Bytes) (g : Bool)
              → rest ≡ some (others, g)
              → total + length (concat others) ≤ max_bytes)
          → prepend body rest ≡ some (chunks, gone)
          → received + length (concat chunks) ≤ max_bytes
      prepended none ih e = absurd cc
      prepended (some (others, g)) ih e =
          let is : add_chunk body others ≡ chunks = cc in
          omega (
            arith,
            ih others g refl,
            sum,
            concat-add_chunk body others,
            ap (λ c. length (concat c)) is,
          )
  message_total n chunks gone y received total z (request body false) e sum fits ih =
      let is : add_chunk body [] ≡ chunks = cc in
      omega (arith, sum, fits, concat-add_chunk body [], ap (λ c. length (concat c)) is)

  -- from a number of bytes that were received before
  read_body_total :
      (n : ℕ) (chunks : List Bytes) (gone : Bool) (x : R) (received : ℕ) (z : R × ℕ)
      → received ≤ max_bytes
      → read_body limited_receive n (x, received) ≡ (ok (some (chunks, gone)), z)
      → received + length (concat chunks) ≤ max_bytes
  unfolding read_body
  read_body_total zero chunks gone x received z few h = absurd cc
  read_body_total (suc n) chunks gone x received z few h =
      let (message, (y, total), e1, e2) =
        >>=-eq-ok limited_receive (take_message limited_receive (read_body limited_receive n))
          (x, received) z (some (chunks, gone)) h in
      let (sum, fits) =
        limit_reply_bounded (receive x).0 (receive x).1 received message (y, total) few
          (unfold limited_receive in e1) in
      message_total n chunks gone y received total z message e2 sum fits
        (λ others g z' e. read_body_total n others g y total z' fits e)

  -- A body that is read through the limit has at most `max_bytes` bytes, whatever its header says of
  -- its length.
  pub read_body_bounded :
      (n : ℕ) (chunks : List Bytes) (gone : Bool) (x : R) (z : R × ℕ)
      → read_body limited_receive n (x, 0) ≡ (ok (some (chunks, gone)), z)
      → length (concat chunks) ≤ max_bytes
  read_body_bounded n chunks gone x z h =
      omega (arith, read_body_total n chunks gone x 0 z (omega arith) h)
