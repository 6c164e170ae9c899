-- ===== src/TicketId.antt =====
-- Ticket ids in webhook payloads (src/zammad_pdf_archiver/domain/ticket_id.py).
pub mod Coercion
use zammad_ticket_archiver.Base.{
  ℕ, zero, suc, ◌+◌, ◌*◌, Bool, true, false, ◌&&◌, not, Option, none, some, List, [], ◌∷◌, ltb,
  length, ◌==◌, nat_eq, if◌then◌else◌,
}
use zammad_ticket_archiver.Base.Text.{Text, codes, text_eq, strip}
use zammad_ticket_archiver.Errors.{value_error}
use zammad_ticket_archiver.Effect.{Reply, ok, err, cancelled}

-- JSON values, as far as ids are looked for in them: `negative n` is -(n + 1), and `other` is a
-- float or a list.
mutual
  pub data Value : Type 0 where
    null : Value
    bool : Bool → Value
    int negative : ℕ → Value
    str : Text → Value
    dict : Fields → Value
    other : Value

  pub data Fields : Type 0 where
    end : Fields
    field : Text → Value → Fields → Fields

-- payload.get(key), None for a missing key as for a null
unfoldable pub get : Text → Fields → Value
get key end = null
get key (field k v fields) = if k == key then v else get key fields

-- The interpreter's tables of Unicode: `str.isdigit` of one code point, and the value that `int`
-- gives it, if it is a decimal digit.
pub record Unicode : Type 0 where
  pub is_digit : ℕ → Bool
  pub decimal : ℕ → Option ℕ

module _ (unicode : Unicode) where
  all_digits : Text → Bool
  all_digits [] = true
  all_digits (c ∷ s) = unicode.is_digit c && all_digits s

  -- text.isdigit(), false on the empty text
  unfoldable pub isdigit : Text → Bool
  unfolding all_digits
  isdigit [] = false
  isdigit (c ∷ s) = all_digits (c ∷ s)

  unfoldable pub digits_value : ℕ → Text → Option ℕ
  digits_value n [] = some n
  digits_value n (c ∷ s) = elim (unicode.decimal c) [
    | none ↦ none
    | some d ↦ digits_value (n * 10 + d) s
  ]

  -- int(text) for a text of digits; the interpreter refuses more than 4300 of them
  unfoldable pub parse_int : Text → Reply ℕ
  parse_int s =
      if ltb 4300 (length s)
      then err (value_error (codes "Exceeds the limit (4300 digits) for integer string conversion"))
      else elim (digits_value 0 s) [
        | none ↦ err (value_error (codes "invalid literal for int() with base 10"))
        | some n ↦ ok n
      ]

  abbrev positive : ℕ → Option ℕ
  positive n = if ltb 0 n then some n else none

  -- text.startswith("+") and text[1:]
  abbrev drop_plus : Text → Text
  drop_plus [] = []
  drop_plus (c ∷ s) = if c == b'+' then s else c ∷ s

  abbrev coerce_digits : Text → Reply (Option ℕ)
  coerce_digits text =
      if isdigit text
      then elim (parse_int text) [ ok n ↦ ok (positive n) | err e ↦ err e | cancelled ↦ cancelled ]
      else ok none

  abbrev coerce_stripped : Text → Reply (Option ℕ)
  coerce_stripped [] = ok none
  coerce_stripped (c ∷ s) = coerce_digits (drop_plus (c ∷ s))

  unfoldable pub coerce_text : Text → Reply (Option ℕ)
  coerce_text value = coerce_stripped (strip value)

  unfoldable pub coerce_ticket_id : Value → Reply (Option ℕ)
  coerce_ticket_id (int n) = ok (positive n)
  coerce_ticket_id (str s) = coerce_text s
  coerce_ticket_id _ = ok none

  abbrev pub id_of_ticket : Value → Reply (Option ℕ)
  id_of_ticket (dict fields) = coerce_ticket_id (get (codes "id") fields)
  id_of_ticket ticket = coerce_ticket_id ticket

  unfoldable pub extract_ticket_id : Fields → Reply (Option ℕ)
  extract_ticket_id payload = elim (coerce_ticket_id (get (codes "ticket_id") payload)) [
    | ok (some n) ↦ ok (some n)
    | ok none ↦ id_of_ticket (get (codes "ticket") payload)
    | err e ↦ err e
    | cancelled ↦ cancelled
  ]
