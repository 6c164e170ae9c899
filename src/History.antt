-- ===== src/History.antt =====
-- The history of processed jobs (src/zammad_pdf_archiver/app/jobs/history.py), in a stream of Redis.
pub mod Reading
use zammad_ticket_archiver.Base.{
  ℕ, zero, suc, ◌*◌, min, max, Bool, true, false, not, ◌&&◌, Option, none, some, List, [], ◌∷◌,
  take, ltb, ◌==◌, nat_eq, Dict, lookup, if◌then◌else◌,
}
use zammad_ticket_archiver.Base.Text.{Text, codes, text_eq, strip, show_nat}
use zammad_ticket_archiver.Effect.{
  Reply, Action, Done, ok, err, cancelled, pure, ◌>>=◌, ◌>>◌, except, finally,
}
use zammad_ticket_archiver.Queue.{nonempty, or_blank}

-- What is read of `settings.workflow`.
pub record HistorySettings : Type 0 where
  pub redis_url : Option Text
  pub history_stream : Text
  pub history_retention_maxlen : ℕ

-- The arguments of `record_history_event`
pub record Event : Type 0 where
  pub status : Text
  pub ticket_id : Option ℕ
  pub classification : Option Text
  pub message : Text
  pub delivery_id : Option Text
  pub request_id : Option Text

-- What `_normalize_entry` makes of an entry; a time is kept as the type `Time`.
pub record Item (Time : Type 0) : Type 0 where
  pub id : Text
  pub status : Text
  pub ticket_id : Option ℕ
  pub classification : Option Text
  pub message : Text
  pub delivery_id : Option Text
  pub request_id : Option Text
  pub created_at : Time

-- The calls of Redis, of the clock and of Python's number parsers, none for a ValueError. A negative
-- number, which is no ticket's id, counts as none. `connect` is `Redis.from_url`.
pub record HistoryStream (R Time : Type 0) : Type 0 where
  pub available : Bool
  pub connect : Text → Action R Done
  pub xadd : Text → Dict Text Text → ℕ → Action R Done
  -- the newest entries, as many as the number at most
  pub xrevrange : Text → ℕ → Action R (List (Text × Dict Text Text))
  pub aclose : Action R Done
  pub now_text : Action R Text
  pub scrub : Text → Text
  pub parse_int : Text → Option ℕ
  pub parse_float : Text → Option Time
  pub zero_time : Time

-- str(fields.get(key, ""))
unfoldable pub field_text : Text → Dict Text Text → Text
field_text key fields = or_blank (lookup key fields)

module _ {R Time : Type 0} (redis : HistoryStream R Time) (settings : HistorySettings) where
  -- `_history_enabled`, with the address
  unfoldable pub enabled_url : Option Text
  enabled_url = elim (nonempty (or_blank settings.redis_url)) [
    | none ↦ none
    | some url ↦ if ltb 0 settings.history_retention_maxlen then some url else none
  ]

  abbrev pub connected : Option Text → Action R Bool
  connected none = pure false
  connected (some url) = if redis.available then (do redis.connect url; pure true) else pure false

  -- `_redis_client`, false for None
  unfoldable pub redis_client : Action R Bool
  redis_client = connected enabled_url

  -- `_bounded_message`
  unfoldable pub bounded_message : Text → Text
  bounded_message message = take 500 (redis.scrub (strip message))

  abbrev pub show_id : Option ℕ → Text
  show_id none = []
  show_id (some n) = show_nat n

  -- The fields of an event.
  unfoldable pub event_fields : Event → Text → Dict Text Text
  event_fields event created_at =
      (codes "status", event.status)
      ∷ (codes "ticket_id", show_id event.ticket_id)
      ∷ (codes "classification", or_blank event.classification)
      ∷ (codes "message", bounded_message event.message)
      ∷ (codes "delivery_id", or_blank event.delivery_id)
      ∷ (codes "request_id", or_blank event.request_id)
      ∷ (codes "created_at", created_at)
      ∷ []

  -- the `finally` of both operations
  abbrev pub close_quietly : Action R Done
  close_quietly = except redis.aclose (λ e. pure tt)

  abbrev pub add_event : Dict Text Text → Action R Bool
  add_event fields = do
    redis.xadd settings.history_stream fields settings.history_retention_maxlen
    pure true

  abbrev pub record_connected : Event → Bool → Action R Bool
  record_connected event false = pure false
  record_connected event true = do
    created_at ← redis.now_text
    finally (except (add_event (event_fields event created_at)) (λ e. pure false)) close_quietly

  -- `record_history_event`
  unfoldable pub record_history_event : Event → Action R Bool
  record_history_event event = redis_client >>= record_connected event

  -- `_to_int` and `_to_float`, with their defaults
  abbrev pub to_int : Text → Option ℕ
  to_int [] = none
  to_int (c ∷ s) = redis.parse_int (c ∷ s)

  abbrev pub or_zero_time : Option Time → Time
  or_zero_time none = redis.zero_time
  or_zero_time (some t) = t

  abbrev pub to_float : Text → Time
  to_float [] = redis.zero_time
  to_float (c ∷ s) = or_zero_time (redis.parse_float (c ∷ s))

  -- `_normalize_entry`
  unfoldable pub normalize_entry : Text → Dict Text Text → Item Time
  normalize_entry message_id fields = record {
    id = message_id;
    status = field_text (codes "status") fields;
    ticket_id = to_int (field_text (codes "ticket_id") fields);
    classification = nonempty (strip (field_text (codes "classification") fields));
    message = field_text (codes "message") fields;
    delivery_id = nonempty (strip (field_text (codes "delivery_id") fields));
    request_id = nonempty (strip (field_text (codes "request_id") fields));
    created_at = to_float (field_text (codes "created_at") fields);
  }

  -- ticket_id is None or item["ticket_id"] == ticket_id
  abbrev pub is_wanted : Option ℕ → Option ℕ → Bool
  is_wanted none id = true
  is_wanted (some n) none = false
  is_wanted (some n) (some m) = m == n

  abbrev pub bounded_limit : ℕ → ℕ
  bounded_limit limit = max 1 (min limit 5000)

  abbrev pub fetch_count : ℕ → Option ℕ → ℕ
  fetch_count limit none = bounded_limit limit
  fetch_count limit (some n) = min (bounded_limit limit * 8) 10_000

  -- The loop of `read_history`, by the number of items that it may still take.
  unfoldable pub select : Option ℕ → ℕ → List (Text × Dict Text Text) → List (Item Time)
  select ticket_id zero entries = []
  select ticket_id (suc left) [] = []
  select ticket_id (suc left) ((message_id, fields) ∷ entries) =
      let item = normalize_entry message_id fields in
      let taken = item ∷ select ticket_id left entries in
      let skipped = select ticket_id (suc left) entries in
      if is_wanted ticket_id item.ticket_id then taken else skipped

  abbrev pub fetch : ℕ → Action R (Option (List (Text × Dict Text Text)))
  fetch count = do entries ← redis.xrevrange settings.history_stream count; pure (some entries)

  abbrev pub selected :
      Option ℕ → ℕ → Option (List (Text × Dict Text Text)) → Action R (List (Item Time))
  selected ticket_id limit none = pure []
  selected ticket_id limit (some entries) = pure (select ticket_id (bounded_limit limit) entries)

  abbrev pub read_connected : ℕ → Option ℕ → Bool → Action R (List (Item Time))
  read_connected limit ticket_id false = pure []
  read_connected limit ticket_id true = do
    entries ← finally (except (fetch (fetch_count limit ticket_id)) (λ e. pure none)) close_quietly
    selected ticket_id limit entries

  -- `read_history`
  unfoldable pub read_history : ℕ → Option ℕ → Action R (List (Item Time))
  read_history limit ticket_id = redis_client >>= read_connected limit ticket_id
