-- ===== src/Tests/Parsing.antt =====
-- Examples of ticket ids in payloads, and of failures.
use zammad_ticket_archiver.TicketId.{
  digits_value, parse_int, isdigit, coerce_text, get, Fields, str, dict, end, field,
  extract_ticket_id, coerce_ticket_id,
}
use zammad_ticket_archiver.Base.Text.{strip, text_beq, codes, is_space}
use zammad_ticket_archiver.Base.{◌<◌, ◌≡◌, ◌↔◌, refl, false, some, [], ◌∷◌}
use zammad_ticket_archiver.Errors.{Exc, http_status}
use zammad_ticket_archiver.Errors.Classify.{classify}
use zammad_ticket_archiver.Errors.Policy.{IsTransient, IsRetryable, classify-IsTransient_iff}
use zammad_ticket_archiver.Effect.{ok, err}
use zammad_ticket_archiver.TicketId.Coercion.{extract_ticket_id-pos, coerce_ticket_id-err}
use zammad_ticket_archiver.Tests.{digits}

abbrev ticket_payload : Fields
ticket_payload = field (codes "ticket") (dict (field (codes "id") (str (codes " +7 ")) end)) end

extracts : extract_ticket_id digits ticket_payload ≡ ok (some 7)
unfolding extract_ticket_id coerce_ticket_id get text_beq coerce_text strip is_space isdigit
    parse_int digits_value
extracts = refl

extract_ticket_id-pos_example : 0 < 7
extract_ticket_id-pos_example = extract_ticket_id-pos digits ticket_payload 7 extracts

no_space : is_space 0xb2 ≡ false
unfolding is_space
no_space = refl

coerce_ticket_id-err_example : (e : Exc) × (coerce_ticket_id digits (str (0xb2 ∷ [])) ≡ err e)
coerce_ticket_id-err_example = coerce_ticket_id-err digits 0xb2 refl refl no_space refl

classify-IsTransient_iff_example :
    IsTransient (classify (http_status (some 503) [])) ↔ IsRetryable (http_status (some 503) [])
classify-IsTransient_iff_example = classify-IsTransient_iff (http_status (some 503) [])
