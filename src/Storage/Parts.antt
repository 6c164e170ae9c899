-- ===== src/Storage/Parts.antt =====
-- What is known of the parts that layout.py builds paths of.
use mathlib.Core.Path.{subst}
use zammad_ticket_archiver.Base.{
  ◌≤◌, ◌≡◌, ap, sym, ◌∙◌, ◌⊎◌, inl, inr, arith, true, Bool-cases, Option, none, some, List, [], ◌∷◌,
  length, All, any, nat_eq, map, refl, suc,
}
use zammad_ticket_archiver.Base.Text.{Text, strip, text_eq}
use zammad_ticket_archiver.Effect.{Reply, ok}
use zammad_ticket_archiver.Effect.Replies.{◌>>=◌, >>=-eq-ok}
use zammad_ticket_archiver.PathPolicy.{
  UnicodeData, IsSafe, sanitize_segment, validate_segments, validate_segments-IsSafe, AllAllowed,
  sanitize_segment-all,
}
use zammad_ticket_archiver.Storage.Layout.{
  default_depth, default_length, parse_prefix_segments, sanitize_all, Formatted, formatted,
  unknown_placeholder, bad_format, failed, starts_with, allowed_of, check_allowed, target_parts,
  build_filename_from_pattern, check_filename, rendered_of,
}

check_filename-IsSafe : (rendered out : Text) → check_filename rendered ≡ ok out → IsSafe 255 out
unfolding check_filename
check_filename-IsSafe rendered out h =
    let accepted : (validate_segments 1 255 (rendered ∷ []) >>= λ _. ok rendered) ≡ ok out =
      ground (arith, h) in
    let (parts, valid, same) =
      >>=-eq-ok (validate_segments 1 255 (rendered ∷ [])) (λ _. ok rendered) out accepted in
    let (_, _, safe) = validate_segments-IsSafe 1 255 (rendered ∷ []) parts valid in
    let is : rendered ≡ out = cc in subst (IsSafe 255) is safe.0

module _ (unicode : UnicodeData) where
  -- A file's name that is built is one safe entry of its directory, at most 255 characters long.
  pub build_filename_from_pattern-IsSafe :
      (format : Text → Text → Text → Formatted) (pattern ticket_number timestamp_utc out : Text)
      → build_filename_from_pattern unicode format pattern ticket_number timestamp_utc ≡ ok out
      → IsSafe 255 out
  unfolding build_filename_from_pattern
  build_filename_from_pattern-IsSafe format pattern ticket_number timestamp_utc out h =
      let rendering = rendered_of (
        format pattern (sanitize_segment unicode ticket_number)
          (sanitize_segment unicode timestamp_utc)) in
      let checked : (rendering >>= λ rendered. check_filename (strip rendered)) ≡ ok out =
        ground (arith, h) in
      let (rendered, _, passed) =
        >>=-eq-ok rendering (λ rendered. check_filename (strip rendered)) out checked in
      check_filename-IsSafe (strip rendered) out passed

  -- It is the pattern, formatted with the sanitized number and date, and stripped.
  pub build_filename_from_pattern-eq-ok :
      (format : Text → Text → Text → Formatted) (pattern ticket_number timestamp_utc out : Text)
      → build_filename_from_pattern unicode format pattern ticket_number timestamp_utc ≡ ok out
      → (rendered : Text) × (format pattern
            (sanitize_segment unicode ticket_number)
            (sanitize_segment unicode timestamp_utc)
          ≡ formatted rendered)
        × (out ≡ strip rendered)
  unfolding build_filename_from_pattern check_filename
  build_filename_from_pattern-eq-ok format pattern ticket_number timestamp_utc out h =
      cases
        (format pattern (sanitize_segment unicode ticket_number)
          (sanitize_segment unicode timestamp_utc))
        refl
    where
      cases :
          (f : Formatted)
          → format pattern
              (sanitize_segment unicode ticket_number)
              (sanitize_segment unicode timestamp_utc)
            ≡ f
          → (rendered : Text) × (f ≡ formatted rendered) × (out ≡ strip rendered)
      cases (formatted rendered) e = (rendered, refl, ground (arith, h, e))
      cases (unknown_placeholder key) e = absurd (ground (arith, h, e))
      cases (bad_format message) e = absurd (ground (arith, h, e))
      cases (failed message) e = absurd (ground (arith, h, e))

  -- Some prefix of the list, split and sanitized, begins the segments.
  abbrev pub IsBelow : List Text → List Text → Type 0
  IsBelow [] segments = ⊥
  IsBelow (prefix ∷ prefixes) segments =
      ((parts : List Text) × (parse_prefix_segments prefix ≡ ok parts)
        × (starts_with segments (sanitize_all unicode parts) ≡ true))
      ⊎ IsBelow prefixes segments

  -- no allow-list, or a prefix of it begins the segments
  abbrev pub IsAllowed : Option (List Text) → List Text → Type 0
  IsAllowed none segments = Unit
  IsAllowed (some prefixes) segments = IsBelow prefixes segments

  allowed_of-IsBelow :
      (prefixes : List Text) (allowed : List (List Text)) (segments : List Text)
      → allowed_of unicode prefixes ≡ ok allowed
      → any (starts_with segments) allowed ≡ true
      → IsBelow prefixes segments
  unfolding allowed_of
  allowed_of-IsBelow [] allowed segments h found = none_left allowed h found
    where
      none_left :
          (allowed : List (List Text))
          → Path (Reply (List (List Text))) (ok []) (ok allowed)
          → any (starts_with segments) allowed ≡ true
          → ⊥
      none_left [] h found = cc
      none_left (a ∷ others) h found = cc
  allowed_of-IsBelow (prefix ∷ prefixes) allowed segments h found =
      let (parts, parsed, h1) = >>=-eq-ok (parse_prefix_segments prefix) _ allowed h in
      let (_, _, h2) =
        >>=-eq-ok (validate_segments default_depth default_length parts) _ allowed h1 in
      let (safe, valid, h3) =
        >>=-eq-ok (validate_segments default_depth default_length (sanitize_all unicode parts)) _
          allowed h2 in
      let (rest, others, h4) = >>=-eq-ok (allowed_of unicode prefixes) _ allowed h3 in
      let (same, _, _) =
        validate_segments-IsSafe default_depth default_length (sanitize_all unicode parts) safe
          valid in
      let is : safe ∷ rest ≡ allowed = cc in
      let found_here : any (starts_with segments) (safe ∷ rest) ≡ true =
        ap (any (starts_with segments)) is ∙ found in
      elim (Bool-cases (starts_with segments safe)) [
        | inl here ↦ inl (parts, parsed, ap (starts_with segments) (sym same) ∙ here)
        | inr not_here ↦ inr (
            allowed_of-IsBelow prefixes rest segments others (ground (arith, found_here, not_here)))
      ]

  -- The allow-list accepts only what one of its prefixes begins, and an empty list nothing.
  check_allowed-IsAllowed :
      (allow_prefixes : Option (List Text)) (segments : List Text)
      → check_allowed unicode allow_prefixes segments ≡ ok tt
      → IsAllowed allow_prefixes segments
  unfolding check_allowed
  check_allowed-IsAllowed none segments h = tt
  check_allowed-IsAllowed (some []) segments h = cc
  check_allowed-IsAllowed (some (prefix ∷ prefixes)) segments h =
      let (allowed, e, h1) = >>=-eq-ok (allowed_of unicode (prefix ∷ prefixes)) _ tt h in
      allowed_of-IsBelow (prefix ∷ prefixes) allowed segments e (ground (arith, h1))

  sanitize_all-allowed : (parts : List Text) → All AllAllowed (sanitize_all unicode parts)
  sanitize_all-allowed [] = tt
  sanitize_all-allowed (part ∷ parts) =
      (sanitize_segment-all unicode part, sanitize_all-allowed parts)

  -- The parts below the root are the user's name and the segments given, each of them sanitized.
  pub record AreParts (username : Text) (segments : List Text) (allow_prefixes : Option (List Text))
      (parts : List Text) : Type 0 where
    pub parts_are :
        parts ≡ sanitize_segment unicode username ∷ map (sanitize_segment unicode) segments
    pub safe : All (IsSafe 64) parts
    pub plain : All AllAllowed parts
    pub few : length segments ≤ 10
    pub allowed : IsAllowed allow_prefixes (map (sanitize_segment unicode) segments)

  sanitize_all-map :
      (segments : List Text)
      → sanitize_all unicode segments ≡ map (sanitize_segment unicode) segments
  sanitize_all-map [] = refl
  sanitize_all-map (segment ∷ segments) =
      ap (λ l. sanitize_segment unicode segment ∷ l) (sanitize_all-map segments)

  length-sanitize_all :
      (segments : List Text) → length (sanitize_all unicode segments) ≡ length segments
  length-sanitize_all [] = refl
  length-sanitize_all (segment ∷ segments) = ap suc (length-sanitize_all segments)

  pub target_parts-AreParts :
      (username : Text) (segments : List Text) (allow_prefixes : Option (List Text))
      (parts : List Text)
      → target_parts unicode username segments allow_prefixes ≡ ok parts
      → AreParts username segments allow_prefixes parts
  unfolding target_parts
  target_parts-AreParts username segments allow_prefixes parts h =
      let user = sanitize_segment unicode username in
      let segs = sanitize_all unicode segments in
      let (_, _, h1) = >>=-eq-ok (validate_segments 1 default_length (username ∷ [])) _ parts h in
      let (_, _, h2) =
        >>=-eq-ok (validate_segments default_depth default_length segments) _ parts h1 in
      let (_, e3, h3) = >>=-eq-ok (validate_segments 1 default_length (user ∷ [])) _ parts h2 in
      let (_, e4, h4) =
        >>=-eq-ok (validate_segments default_depth default_length segs) _ parts h3 in
      let (_, e5, h5) = >>=-eq-ok (check_allowed unicode allow_prefixes segs) _ parts h4 in
      let (_, _, (user_safe, _)) = validate_segments-IsSafe 1 default_length (user ∷ []) _ e3 in
      let (_, few, segs_safe) = validate_segments-IsSafe default_depth default_length segs _ e4 in
      let is : user ∷ segs ≡ parts = cc in
      record {
        parts_are = sym is ∙ ap (λ l. user ∷ l) (sanitize_all-map segments);
        safe = subst (All (IsSafe default_length)) is (user_safe, segs_safe);
        plain =
            subst (All AllAllowed) is
              (sanitize_segment-all unicode username, sanitize_all-allowed segments);
        few = subst (λ n. n ≤ default_depth) (length-sanitize_all segments) few;
        allowed =
            subst (IsAllowed allow_prefixes) (sanitize_all-map segments)
              (check_allowed-IsAllowed allow_prefixes segs e5);
      }
