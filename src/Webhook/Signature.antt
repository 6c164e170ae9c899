-- ===== src/Webhook/Signature.antt =====
-- The header X-Hub-Signature (`_parse_signature` of app/middleware/hmac_verify.py).
use zammad_ticket_archiver.Base.{
  ℕ, ◌+◌, ◌-◌, ◌*◌, Bool, true, false, ◌||◌, ◌&&◌, Option, none, some, List, [], ◌∷◌, leb, length,
  ◌==◌, nat_eq, if◌then◌else◌,
}
use zammad_ticket_archiver.Base.Text.{Text, codes, text_eq, strip, lower}

-- `_ALLOWED_ALGORITHMS`
pub data Algorithm : Type 0 where
  sha1 sha256 : Algorithm

unfoldable pub algorithm_of : Text → Option Algorithm
algorithm_of name =
    if name == codes "sha1" then some sha1 else if name == codes "sha256" then some sha256 else none

abbrev pub digest_size : Algorithm → ℕ
digest_size sha1 = 20
digest_size sha256 = 32

-- text.split("=", 1), none if there is no "="
abbrev pub with_head : ℕ → Option (Text × Text) → Option (Text × Text)
with_head c none = none
with_head c (some (left, right)) = some (c ∷ left, right)

unfoldable pub partition_eq : Text → Option (Text × Text)
partition_eq [] = none
partition_eq (c ∷ s) =
    let rest = partition_eq s in if c == b'=' then some ([], s) else with_head c rest

-- a hexadecimal digit
unfoldable pub hex_digit : ℕ → Option ℕ
hex_digit c =
    if leb b'0' c && leb c b'9'
    then some (c - b'0')
    else if leb b'a' c && leb c b'f'
    then some (c - b'a' + 10)
    else if leb b'A' c && leb c b'F'
    then some (c - b'A' + 10)
    else none

abbrev pub is_ascii_space : ℕ → Bool
is_ascii_space c = (leb 9 c && leb c 13) || c == 32

abbrev pub hex_byte : Option ℕ → Option ℕ → Option (List ℕ) → Option (List ℕ)
hex_byte (some high) (some low) (some rest) = some ((high * 16 + low) ∷ rest)
hex_byte _ _ _ = none

-- `bytes.fromhex`, which skips white space of ASCII between the bytes; `pending` is the first digit of
-- a byte that has begun.
unfoldable pub from_hex : Option ℕ → Text → Option (List ℕ)
from_hex none [] = some []
from_hex (some high) [] = none
from_hex none (c ∷ s) = elim (is_ascii_space c) [
  | true ↦ from_hex none s
  | false ↦ elim (hex_digit c) [ none ↦ none | some high ↦ from_hex (some high) s ]
]
from_hex (some high) (c ∷ s) = hex_byte (some high) (hex_digit c) (from_hex none s)

abbrev pub of_size : ℕ → Algorithm → Option (List ℕ) → Option (List ℕ × Algorithm)
of_size size algorithm none = none
of_size size algorithm (some digest) =
    if length digest == size then some (digest, algorithm) else none

abbrev pub digest_of : Text → Option Algorithm → Option (List ℕ × Algorithm)
digest_of hex none = none
digest_of hex (some algorithm) =
    of_size (digest_size algorithm) algorithm (from_hex none (strip hex))

abbrev pub parse_parts : Option (Text × Text) → Option (List ℕ × Algorithm)
parse_parts none = none
parse_parts (some (algorithm, hex)) = digest_of hex (algorithm_of (lower (strip algorithm)))

-- `_parse_signature`
unfoldable pub parse_signature : Text → Option (List ℕ × Algorithm)
parse_signature value = parse_parts (partition_eq (strip value))
