-- ===== src/Zammad/Calls.antt =====
-- The calls of the Zammad client (the methods of `AsyncZammadClient` in
-- src/zammad_pdf_archiver/adapters/zammad/client.py).
use zammad_ticket_archiver.Base.{
  ℕ, Bool, true, false, Option, none, some, List, ◌++◌, ◌==◌, if◌then◌else◌,
}
use zammad_ticket_archiver.Base.Text.{Text, codes, text_eq, show_nat}
use zammad_ticket_archiver.Errors.{client_error}
use zammad_ticket_archiver.Effect.{Reply, Action, Done, pure, raise, ◌>>=◌, ◌>>◌}
use zammad_ticket_archiver.Tags.{TicketTagger}
use zammad_ticket_archiver.TicketId.{Value, Fields, get, bool, int, str, dict, end, field}
use zammad_ticket_archiver.Zammad.{Request, Http, RetryPolicy, request_json}

-- What pydantic makes of a value: a ticket, an article, or a list of texts, with its errors.
pub record Models (Ticket Article : Type 0) : Type 0 where
  pub ticket : Value → Reply Ticket
  pub article : Value → Reply Article
  pub texts : Value → Option (List Text)
  -- the ValidationError that it raises, as a text
  pub complaint : Value → Text

abbrev pub get_request : Text → Fields → Request
get_request path params = record { method = codes "GET"; path = path; params = params; body = none }

abbrev pub post_request : Text → Fields → Request
post_request path body = record {
  method = codes "POST";
  path = path;
  params = end;
  body = some (dict body);
}

-- {"object": "Ticket", "o_id": ticket_id, "item": tag}
abbrev pub tag_body : ℕ → Text → Fields
tag_body ticket_id tag =
    field (codes "object") (str (codes "Ticket"))
      (field (codes "o_id") (int ticket_id) (field (codes "item") (str tag) end))

-- "tags" in resp
unfoldable pub has_key : Text → Fields → Bool
has_key key end = false
has_key key (field k v fields) = if k == key then true else has_key key fields

-- The list itself, or the value of "tags" of an object that has it.
unfoldable pub tags_value : Value → Value
tags_value (dict fields) =
    if has_key (codes "tags") fields then get (codes "tags") fields else dict fields
tags_value v = v

module _ {R Ticket Article : Type 0} (http : Http R) (policy : RetryPolicy)
    (models : Models Ticket Article) where
  abbrev pub returned : {A : Type 0} → Reply A → Action R A
  returned r x = (r, x)

  unfoldable pub get_ticket : ℕ → Action R Ticket
  get_ticket ticket_id = do
    resp ←
        request_json http policy (get_request (codes "api/v1/tickets/" ++ show_nat ticket_id) end)
    returned (models.ticket resp)

  abbrev pub validated : ℕ → Value → Option (List Text) → Action R (List Text)
  validated ticket_id value (some tags) = pure tags
  validated ticket_id value none = raise (
      client_error (
        codes "Zammad tags response format unexpected for ticket "
        ++ (show_nat ticket_id ++ (codes ": " ++ models.complaint value))))

  unfoldable pub list_tags : ℕ → Action R (List Text)
  list_tags ticket_id = do
    resp ← request_json http policy (
        get_request (codes "api/v1/tags") (
          field (codes "object") (str (codes "Ticket"))
            (field (codes "o_id") (str (show_nat ticket_id)) end)))
    validated ticket_id (tags_value resp) (models.texts (tags_value resp))

  unfoldable pub add_tag : ℕ → Text → Action R Done
  add_tag ticket_id tag = do
    request_json http policy (post_request (codes "api/v1/tags/add") (tag_body ticket_id tag))
    pure tt

  unfoldable pub remove_tag : ℕ → Text → Action R Done
  remove_tag ticket_id tag = do
    request_json http policy (post_request (codes "api/v1/tags/remove") (tag_body ticket_id tag))
    pure tt

  -- `AsyncZammadClient` as the `TicketTagger` of the state machine
  abbrev pub client_tagger : TicketTagger R
  client_tagger = record { add_tag = add_tag; remove_tag = remove_tag }

  unfoldable pub create_internal_article : ℕ → Text → Text → Action R Article
  create_internal_article ticket_id subject body_html = do
    resp ← request_json http policy (
        post_request (codes "api/v1/ticket_articles") (
          field (codes "ticket_id") (int ticket_id) (
            field (codes "subject") (str subject) (
              field (codes "body") (str body_html) (
                field (codes "content_type") (str (codes "text/html"))
                  (field (codes "internal") (bool true) end))))))
    returned (models.article resp)
