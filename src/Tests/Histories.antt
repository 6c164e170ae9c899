-- ===== src/Tests/Histories.antt =====
-- Examples of the history: a stream of Redis in memory.
use mathlib.Core.Path.{◌≡◌, refl}
use zammad_ticket_archiver.Base.{
  ℕ, ◌≤◌, max, min, true, ◌==◌, none, some, List, [], ◌∷◌, take, length, Dict, lookup,
  if◌then◌else◌,
}
use zammad_ticket_archiver.Base.Text.{Text, codes, text_eq, text_beq, strip, is_space, show_nat}
use zammad_ticket_archiver.Effect.{ok}
use zammad_ticket_archiver.Queue.{nonempty}
use zammad_ticket_archiver.History.{
  HistorySettings, Event, Item, HistoryStream, field_text, enabled_url, redis_client,
  bounded_message, event_fields, record_history_event, normalize_entry, select, read_history,
}
use zammad_ticket_archiver.History.Reading.{
  InPage, read_history-InPage, normalize_entry-event_fields,
}

abbrev Entries : Type 0
Entries = List (Text × Dict Text Text)

-- Only the ticket id 7 is read back from its digits; the clock says "0".
abbrev stream : HistoryStream Entries ℕ
stream = record {
  available = true;
  connect = λ url x. (ok tt, x);
  xadd = λ name fields maxlen x. (ok tt, take maxlen ((codes "1-0", fields) ∷ x));
  xrevrange = λ name count x. (ok (take count x), x);
  aclose = λ x. (ok tt, x);
  now_text = λ x. (ok (codes "0"), x);
  scrub = λ s. s;
  parse_int = λ s. if s == codes "7" then some 7 else none;
  parse_float = λ s. none;
  zero_time = 0;
}

abbrev kept_settings : HistorySettings
kept_settings = record {
  redis_url = some (codes "redis://history");
  history_stream = codes "history";
  history_retention_maxlen = 100;
}

abbrev processed_event : Event
processed_event = record {
  status = codes "processed";
  ticket_id = some 7;
  classification = none;
  message = codes " done ";
  delivery_id = some (codes "d1");
  request_id = none;
}

abbrev item : Item ℕ
item = record {
  id = codes "1-0";
  status = codes "processed";
  ticket_id = some 7;
  classification = none;
  message = codes "done";
  delivery_id = some (codes "d1");
  request_id = none;
  created_at = 0;
}

abbrev two_events : Entries
two_events =
    (record_history_event stream kept_settings processed_event
      (record_history_event stream kept_settings (record processed_event { ticket_id = none })
        []).1).1

was_read : read_history stream kept_settings 5 (some 7) two_events ≡ (ok (item ∷ []), two_events)
unfolding read_history redis_client enabled_url select record_history_event normalize_entry
    field_text lookup event_fields text_beq show_nat strip bounded_message is_space
was_read = refl

read_history-InPage_example : InPage stream kept_settings (max 1 (min 5 5000)) (some 7) (item ∷ [])
read_history-InPage_example =
    read_history-InPage stream kept_settings 5 (some 7) (item ∷ []) two_events two_events was_read

digits_of_7 : show_nat 7 ≡ codes "7"
unfolding show_nat
digits_of_7 = refl

read_back : stream.parse_int (show_nat 7) ≡ some 7
unfolding show_nat text_beq
read_back = refl

normalize_entry-event_fields_example :
    let read =
      normalize_entry stream kept_settings
        (codes "1-0")
        (event_fields stream kept_settings processed_event (codes "0")) in
    (read.status ≡ codes "processed")
    × (read.ticket_id ≡ some 7)
    × (read.classification ≡ nonempty (strip []))
    × (read.delivery_id ≡ nonempty (strip (codes "d1")))
    × (read.request_id ≡ nonempty (strip []))
    × (read.message ≡ take 500 (strip (codes " done ")))
    × (length read.message ≤ 500)
normalize_entry-event_fields_example =
    normalize_entry-event_fields stream kept_settings processed_event 7 (codes "1-0") (codes "0")
      b'7' [] refl digits_of_7 read_back
