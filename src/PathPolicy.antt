-- ===== src/PathPolicy.antt =====
-- Path segments (src/zammad_pdf_archiver/domain/path_policy.py).
use zammad_ticket_archiver.Base.{
  ℕ, ◌≤◌, ◌≡◌, ◌≢◌, refl, Bool, true, false, ◌||◌, ◌&&◌, List, [], ◌∷◌, ◌++◌, map, arith, ltb, leb,
  length, All, ◌==◌, nat_eq, contains, if◌then◌else◌,
}
use zammad_ticket_archiver.Base.Text.{Text, codes, text_eq, text_beq_iff, is_space, show_nat}
use zammad_ticket_archiver.Errors.{value_error}
use zammad_ticket_archiver.Effect.{Reply, ok, err, cancelled}

-- `unicodedata`: the NFKD form of a text, and whether a code point has category Mn.
pub record UnicodeData : Type 0 where
  pub nfkd : Text → Text
  pub is_mark : ℕ → Bool

-- [A-Za-z0-9._-]
unfoldable pub is_allowed : ℕ → Bool
is_allowed c =
    (leb b'A' c && leb c b'Z')
    || (leb b'a' c && leb c b'z')
    || (leb b'0' c && leb c b'9')
    || c == b'.'
    || c == b'_'
    || c == b'-'

-- re.sub of each run of characters with `p` by "_"; the flag says whether a run goes on
unfoldable pub sub_runs : (ℕ → Bool) → Bool → Text → Text
sub_runs p running [] = []
sub_runs p running (c ∷ s) =
    let inside = sub_runs p true s in
    let outside = sub_runs p false s in
    if p c then (if running then inside else b'_' ∷ inside) else c ∷ outside

unfoldable pub to_ascii : (ℕ → Bool) → Text → Text
to_ascii is_mark [] = []
to_ascii is_mark (c ∷ s) =
    let rest = to_ascii is_mark s in
    if is_mark c then rest else if ltb c 128 then c ∷ rest else b'_' ∷ rest

unfoldable pub keep_allowed : Text → Text
keep_allowed = map (λ c. if is_allowed c then c else b'_')

abbrev pub is_underscore : ℕ → Bool
is_underscore c = c == b'_'

-- if seg and not out: out = "_"
abbrev pub or_underscore : Text → Text → Text
or_underscore [] out = out
or_underscore (c ∷ seg) [] = b'_' ∷ []
or_underscore (c ∷ seg) (d ∷ out) = d ∷ out

unfoldable pub sanitize_segment : UnicodeData → Text → Text
sanitize_segment unicode seg = or_underscore seg (
    sub_runs is_underscore false
      (keep_allowed (sub_runs is_space false (to_ascii unicode.is_mark (unicode.nfkd seg)))))

-- `_validate_segment`
unfoldable pub validate_segment : ℕ → Text → Reply Text
validate_segment max_length seg =
    if seg == []
    then err (value_error (codes "empty path segment is not allowed"))
    else if seg == codes "." || seg == codes ".."
    then err (value_error (codes "dot segments are not allowed"))
    else if contains seg 0
    then err (value_error (codes "null bytes are not allowed"))
    else if contains seg b'/' || contains seg 0x5c
    then err (value_error (codes "path separators are not allowed in segments"))
    else if ltb max_length (length seg)
    then err (
        value_error
          (codes "path segment too long (max_length=" ++ (show_nat max_length ++ codes ")")))
    else ok seg

unfoldable pub validate_each : ℕ → List Text → Reply (List Text)
validate_each max_length [] = ok []
validate_each max_length (seg ∷ segments) =
    let rest = validate_each max_length segments in
    elim (validate_segment max_length seg) [
      | ok s ↦ elim rest [ ok out ↦ ok (s ∷ out) | err e ↦ err e | cancelled ↦ cancelled ]
      | err e ↦ err e
      | cancelled ↦ cancelled
    ]

unfoldable pub validate_segments : ℕ → ℕ → List Text → Reply (List Text)
validate_segments max_depth max_length segments =
    if leb max_depth 0
    then err (value_error (codes "max_depth must be > 0"))
    else if leb max_length 0
    then err (value_error (codes "max_length must be > 0"))
    else if ltb max_depth (length segments)
    then err (
        value_error
          (codes "too many path segments (max_depth=" ++ (show_nat max_depth ++ codes ")")))
    else validate_each max_length segments

-- A segment that names one entry of its directory and nothing else.
pub record IsSafe (max_length : ℕ) (seg : Text) : Type 0 where
  pub not_empty : seg ≢ []
  pub not_here : seg ≢ codes "."
  pub not_parent : seg ≢ codes ".."
  pub no_null : contains seg 0 ≡ false
  pub no_slash : contains seg b'/' ≡ false
  pub no_backslash : contains seg 0x5c ≡ false
  pub short : length seg ≤ max_length

validate_segment-IsSafe :
    (max_length : ℕ) (seg out : Text)
    → validate_segment max_length seg ≡ ok out
    → (out ≡ seg) × IsSafe max_length seg
unfolding validate_segment
validate_segment-IsSafe max_length seg out h = (
  ground (arith, h),
  record {
    not_empty = λ e. ground (arith, h, text_beq_iff seg []);
    not_here = λ e. ground (arith, h, text_beq_iff seg (codes "."));
    not_parent = λ e. ground (arith, h, text_beq_iff seg (codes ".."));
    no_null = ground (arith, h);
    no_slash = ground (arith, h);
    no_backslash = ground (arith, h);
    short = ground (arith, h);
  },
)

validate_each-IsSafe :
    (max_length : ℕ) (segments out : List Text)
    → validate_each max_length segments ≡ ok out
    → (out ≡ segments) × All (IsSafe max_length) segments
unfolding validate_each
validate_each-IsSafe max_length [] out h = (ground arith, tt)
validate_each-IsSafe max_length (seg ∷ segments) out h =
    each (validate_segment max_length seg) (validate_each max_length segments) refl
      (λ t. validate_each-IsSafe max_length segments t) h
  where
    each :
        (r : Reply Text) (rs : Reply (List Text))
        → validate_segment max_length seg ≡ r
        → ((t : List Text) → rs ≡ ok t → (t ≡ segments) × All (IsSafe max_length) segments)
        → Path
            (Reply (List Text))
            (elim r [
              | ok s ↦ elim rs [ ok out ↦ ok (s ∷ out) | err e ↦ err e | cancelled ↦ cancelled ]
              | err e ↦ err e
              | cancelled ↦ cancelled
            ])
            (ok out)
        → (out ≡ seg ∷ segments) × All (IsSafe max_length) (seg ∷ segments)
    each (ok s) (ok t) h1 h2 h =
        let (one, safe) = validate_segment-IsSafe max_length seg s h1 in
        let (many, all) = h2 t refl in (cc, (safe, all))
    each (ok s) (err e) h1 h2 h = cc
    each (ok s) cancelled h1 h2 h = cc
    each (err e) rs h1 h2 h = cc
    each cancelled rs h1 h2 h = cc

-- Segments that `validate_segments` accepts are returned as they are, at most `max_depth` of them,
-- and each of them is safe: not empty, no dot segment, with no null character and no separator,
-- and at most `max_length` characters long.
pub validate_segments-IsSafe :
    (max_depth max_length : ℕ) (segments out : List Text)
    → validate_segments max_depth max_length segments ≡ ok out
    → (out ≡ segments) × (length segments ≤ max_depth) × All (IsSafe max_length) segments
unfolding validate_segments
validate_segments-IsSafe max_depth max_length segments out h =
    let each : validate_each max_length segments ≡ ok out = ground (arith, h) in
    let (same, safe) = validate_each-IsSafe max_length segments out each in
    (same, ground (arith, h), safe)

allowed_underscore : is_allowed b'_' ≡ true
unfolding is_allowed
allowed_underscore = refl

keep_one : ℕ → ℕ
keep_one c = if is_allowed c then c else b'_'

keep_one-allowed : (c : ℕ) → is_allowed (keep_one c) ≡ true
unfolding keep_one
keep_one-allowed c = ground (arith, allowed_underscore)

abbrev pub AllAllowed : Text → Type 0
AllAllowed = All (λ c. is_allowed c ≡ true)

keep_allowed-all : (s : Text) → AllAllowed (keep_allowed s)
unfolding keep_allowed keep_one
keep_allowed-all [] = tt
keep_allowed-all (c ∷ s) = (keep_one-allowed c, keep_allowed-all s)

sub_runs-all :
    (p : ℕ → Bool) (running : Bool) (s : Text) → AllAllowed s → AllAllowed (sub_runs p running s)
unfolding sub_runs
sub_runs-all p running [] h = tt
sub_runs-all p running (c ∷ s) (one, h) =
    step (p c) running (sub_runs-all p true s h) (sub_runs-all p false s h)
  where
    step :
        (inside running : Bool)
        → AllAllowed (sub_runs p true s)
        → AllAllowed (sub_runs p false s)
        → AllAllowed (
            if inside
            then (if running then sub_runs p true s else b'_' ∷ sub_runs p true s)
            else c ∷ sub_runs p false s)
    step true true hi ho = hi
    step true false hi ho = (allowed_underscore, hi)
    step false running hi ho = (one, ho)

or_underscore-all : (seg out : Text) → AllAllowed out → AllAllowed (or_underscore seg out)
or_underscore-all [] out h = h
or_underscore-all (c ∷ seg) [] h = (allowed_underscore, tt)
or_underscore-all (c ∷ seg) (d ∷ out) h = h

pub sanitize_segment-all :
    (unicode : UnicodeData) (seg : Text) → AllAllowed (sanitize_segment unicode seg)
unfolding sanitize_segment
sanitize_segment-all unicode seg =
    let ascii = sub_runs is_space false (to_ascii unicode.is_mark (unicode.nfkd seg)) in
    or_underscore-all seg (sub_runs is_underscore false (keep_allowed ascii))
      (sub_runs-all is_underscore false (keep_allowed ascii) (keep_allowed-all ascii))

contains-all : (s : Text) (c : ℕ) → AllAllowed s → is_allowed c ≡ false → contains s c ≡ false
unfolding contains
contains-all [] c h other = refl
contains-all (d ∷ s) c (one, h) other = ground (arith, contains-all s c h other, one, other)

or_underscore-ne : (seg out : Text) → seg ≢ [] → or_underscore seg out ≢ []
or_underscore-ne [] out ne h = ne refl
or_underscore-ne (c ∷ seg) [] ne h = cc
or_underscore-ne (c ∷ seg) (d ∷ out) ne h = cc

no_null_allowed : is_allowed 0 ≡ false
unfolding is_allowed
no_null_allowed = refl

no_slash_allowed : is_allowed b'/' ≡ false
unfolding is_allowed
no_slash_allowed = refl

no_backslash_allowed : is_allowed 0x5c ≡ false
unfolding is_allowed
no_backslash_allowed = refl

-- A text that is not empty, once it is sanitized, is accepted by the validation as it is, unless it is
-- then a dot segment or too long.
pub validate_segment-sanitize_segment :
    (unicode : UnicodeData) (max_length : ℕ) (seg : Text)
    → seg ≢ []
    → sanitize_segment unicode seg ≢ codes "."
    → sanitize_segment unicode seg ≢ codes ".."
    → length (sanitize_segment unicode seg) ≤ max_length
    → validate_segment max_length (sanitize_segment unicode seg) ≡ ok (sanitize_segment unicode seg)
validate_segment-sanitize_segment unicode max_length seg ne here parent short =
    accepted (sanitize_segment unicode seg) (unfold sanitize_segment in or_underscore-ne seg _ ne)
      (sanitize_segment-all unicode seg) here parent short
  where
    accepted :
        (s : Text)
        → s ≢ []
        → AllAllowed s
        → s ≢ codes "."
        → s ≢ codes ".."
        → length s ≤ max_length
        → validate_segment max_length s ≡ ok s
    accepted s ne all here parent short =
        unfold validate_segment in
        ground (
          arith,
          text_beq_iff s [],
          text_beq_iff s (codes "."),
          text_beq_iff s (codes ".."),
          ne,
          here,
          parent,
          short,
          contains-all s 0 all no_null_allowed,
          contains-all s b'/' all no_slash_allowed,
          contains-all s 0x5c all no_backslash_allowed,
        )
