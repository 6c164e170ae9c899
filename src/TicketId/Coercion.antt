-- ===== src/TicketId/Coercion.antt =====
-- What the coercion of a ticket id accepts.
use zammad_ticket_archiver.Base.{
  ℕ, ◌<◌, ◌≡◌, ap, ◌∙◌, true, false, none, some, [], ◌∷◌, arith, ◌==◌, nat_eq,
}
use zammad_ticket_archiver.Base.Text.{Text, codes, strip, is_space, lstrip}
use zammad_ticket_archiver.Errors.{Exc, value_error}
use zammad_ticket_archiver.Effect.{ok, err}
use zammad_ticket_archiver.TicketId.{
  Value, null, bool, int, negative, str, dict, other, Fields, get, Unicode, isdigit, digits_value,
  parse_int, coerce_digits, drop_plus, coerce_stripped, coerce_text, coerce_ticket_id, id_of_ticket,
  extract_ticket_id,
}

module _ (unicode : Unicode) where
  coerce_digits-pos : (s : Text) (n : ℕ) → coerce_digits unicode s ≡ ok (some n) → 0 < n
  unfolding parse_int
  coerce_digits-pos s n h = ground arith

  coerce_stripped-pos : (s : Text) (n : ℕ) → coerce_stripped unicode s ≡ ok (some n) → 0 < n
  coerce_stripped-pos [] n h = cc
  coerce_stripped-pos (c ∷ s) n h = coerce_digits-pos (drop_plus unicode (c ∷ s)) n h

  coerce_ticket_id-pos : (v : Value) (n : ℕ) → coerce_ticket_id unicode v ≡ ok (some n) → 0 < n
  unfolding coerce_ticket_id coerce_text
  coerce_ticket_id-pos (str s) n h = coerce_stripped-pos (strip s) n h
  coerce_ticket_id-pos (int m) n h = ground arith
  coerce_ticket_id-pos _ n h = cc

  id_of_ticket-pos : (v : Value) (n : ℕ) → id_of_ticket unicode v ≡ ok (some n) → 0 < n
  id_of_ticket-pos (dict fields) n h = coerce_ticket_id-pos (get (codes "id") fields) n h
  id_of_ticket-pos null n h = coerce_ticket_id-pos null n h
  id_of_ticket-pos (bool b) n h = coerce_ticket_id-pos (bool b) n h
  id_of_ticket-pos (int m) n h = coerce_ticket_id-pos (int m) n h
  id_of_ticket-pos (negative m) n h = coerce_ticket_id-pos (negative m) n h
  id_of_ticket-pos (str s) n h = coerce_ticket_id-pos (str s) n h
  id_of_ticket-pos other n h = coerce_ticket_id-pos other n h

  -- Every ticket id that is extracted from a payload is positive, whether it came from `ticket_id`,
  -- from `ticket.id` or from `ticket` itself.
  pub extract_ticket_id-pos :
      (payload : Fields) (n : ℕ) → extract_ticket_id unicode payload ≡ ok (some n) → 0 < n
  unfolding extract_ticket_id
  extract_ticket_id-pos payload n h = ground (
    arith,
    coerce_ticket_id-pos (get (codes "ticket_id") payload) n,
    id_of_ticket-pos (get (codes "ticket") payload) n,
  )

  strip_single : (c : ℕ) → is_space c ≡ false → strip (c ∷ []) ≡ c ∷ []
  unfolding strip
  strip_single c space = rw (space, lstrip) (rw (space, lstrip))

  -- A text of one code point that `isdigit` accepts and `int` does not, and that is no white space
  -- and no plus sign, makes the coercion raise.
  pub coerce_ticket_id-err :
      (c : ℕ)
      → unicode.is_digit c ≡ true
      → unicode.decimal c ≡ none
      → is_space c ≡ false
      → (c == b'+') ≡ false
      → (e : Exc) × (coerce_ticket_id unicode (str (c ∷ [])) ≡ err e)
  unfolding coerce_ticket_id coerce_text parse_int digits_value isdigit
  coerce_ticket_id-err c digit decimal space plus = (
    value_error (codes "invalid literal for int() with base 10"),
    ap (coerce_stripped unicode) (strip_single c space) ∙ ground arith,
  )
