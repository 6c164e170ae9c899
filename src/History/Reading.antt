-- ===== src/History/Reading.antt =====
-- What `read_history` returns.
use mathlib.Core.Path.{subst}
use zammad_ticket_archiver.Base.{
  ℕ, zero, suc, ◌≤◌, ◌≡◌, refl, arith, min, max, Bool, true, false, Option, none, some, List, [],
  ◌∷◌, take, length, length-take, All, nat_eq, Dict, lookup, if◌then◌else◌,
}
use zammad_ticket_archiver.Base.Text.{Text, text_eq, text_beq, strip, show_nat}
use zammad_ticket_archiver.Effect.{ok, pure, except, finally, >>=-eq-ok}
use zammad_ticket_archiver.Queue.{nonempty, or_blank}
use zammad_ticket_archiver.History.{
  HistorySettings, Event, Item, HistoryStream, field_text, redis_client, bounded_message,
  event_fields, close_quietly, normalize_entry, is_wanted, bounded_limit, fetch_count, select,
  fetch, selected, read_connected, read_history,
}

module _ {R Time : Type 0} (redis : HistoryStream R Time) (settings : HistorySettings) where
  -- Items that are asked for: all, or those of one ticket.
  abbrev pub AllWanted : Option ℕ → List (Item Time) → Type 0
  AllWanted ticket_id = All (λ item. is_wanted redis settings ticket_id item.ticket_id ≡ true)

  abbrev pub InPage : ℕ → Option ℕ → List (Item Time) → Type 0
  InPage limit ticket_id items = (length items ≤ limit) × AllWanted ticket_id items

  select-InPage :
      (ticket_id : Option ℕ) (left : ℕ) (entries : List (Text × Dict Text Text))
      → InPage left ticket_id (select redis settings ticket_id left entries)
  unfolding select
  select-InPage ticket_id zero entries = (omega arith, tt)
  select-InPage ticket_id (suc left) [] = (omega arith, tt)
  select-InPage ticket_id (suc left) ((message_id, fields) ∷ entries) =
      step
        (is_wanted redis settings ticket_id
          (normalize_entry redis settings message_id fields).ticket_id)
        refl (select-InPage ticket_id left entries) (select-InPage ticket_id (suc left) entries)
    where
      step :
          (wanted : Bool)
          → is_wanted redis settings ticket_id
              (normalize_entry redis settings message_id fields).ticket_id
            ≡ wanted
          → InPage left ticket_id (select redis settings ticket_id left entries)
          → InPage (suc left) ticket_id (select redis settings ticket_id (suc left) entries)
          → InPage (suc left) ticket_id (
              if wanted
              then normalize_entry redis settings message_id fields
                ∷ select redis settings ticket_id left entries
              else select redis settings ticket_id (suc left) entries)
      step true e (few, all) skipped = (omega (arith, few), (e, all))
      step false e taken skipped = skipped

  -- `read_history` returns at most `limit` items, and at most one for a limit of 0, never more than 5000,
  -- and only items of the ticket that is asked for, if one is.
  pub read_history-InPage :
      (limit : ℕ) (ticket_id : Option ℕ) (items : List (Item Time)) (x y : R)
      → read_history redis settings limit ticket_id x ≡ (ok items, y)
      → InPage (max 1 (min limit 5000)) ticket_id items
  unfolding read_history
  read_history-InPage limit ticket_id items x y h =
      let (there, x1, _, e) =
        >>=-eq-ok (redis_client redis settings) (read_connected redis settings limit ticket_id) x y
          items h in
      connected there x1 e
    where
      of_entries :
          (entries : Option (List (Text × Dict Text Text))) (x2 : R)
          → selected redis settings ticket_id limit entries x2 ≡ (ok items, y)
          → InPage (max 1 (min limit 5000)) ticket_id items
      of_entries none x2 e =
          let is : [] ≡ items = cc in
          subst (InPage (max 1 (min limit 5000)) ticket_id) is (omega arith, tt)
      of_entries (some entries) x2 e =
          let is : select redis settings ticket_id (bounded_limit redis settings limit) entries
              ≡ items =
            cc in
          subst (InPage (max 1 (min limit 5000)) ticket_id) is
            (select-InPage ticket_id (bounded_limit redis settings limit) entries)

      connected :
          (there : Bool) (x1 : R)
          → read_connected redis settings limit ticket_id there x1 ≡ (ok items, y)
          → InPage (max 1 (min limit 5000)) ticket_id items
      connected false x1 e =
          let is : [] ≡ items = cc in
          subst (InPage (max 1 (min limit 5000)) ticket_id) is (omega arith, tt)
      connected true x1 e =
          let (entries, x2, _, e2) =
            >>=-eq-ok
              (finally
                (except (fetch redis settings (fetch_count redis settings limit ticket_id))
                  (λ e. pure none))
                (close_quietly redis settings))
              (selected redis settings ticket_id limit) x1 y items e in
          of_entries entries x2 e2

  -- The item of a recorded event has its status and its ticket, the classification, the delivery id and
  -- the request id without surrounding white space, and at most 500 characters of its scrubbed message;
  -- if Python reads back the digits that it wrote of the ticket's id.
  pub normalize_entry-event_fields :
      (event : Event) (ticket_id : ℕ) (message_id created_at : Text) (c : ℕ) (digits : Text)
      → event.ticket_id ≡ some ticket_id
      → show_nat ticket_id ≡ c ∷ digits
      → redis.parse_int (show_nat ticket_id) ≡ some ticket_id
      → let item =
          normalize_entry redis settings message_id
            (event_fields redis settings event created_at) in
        (item.status ≡ event.status)
        × (item.ticket_id ≡ event.ticket_id)
        × (item.classification ≡ nonempty (strip (or_blank event.classification)))
        × (item.delivery_id ≡ nonempty (strip (or_blank event.delivery_id)))
        × (item.request_id ≡ nonempty (strip (or_blank event.request_id)))
        × (item.message ≡ take 500 (redis.scrub (strip event.message)))
        × (length item.message ≤ 500)
  unfolding normalize_entry event_fields field_text lookup text_beq bounded_message
  normalize_entry-event_fields event ticket_id message_id created_at c digits has shown parsed = (
    refl,
    ground (arith, has, shown, parsed),
    refl,
    refl,
    refl,
    refl,
    omega (arith, length-take 500 (redis.scrub (strip event.message))),
  )
