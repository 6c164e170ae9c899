-- ===== src/Tests/Limits.antt =====
-- Examples of the rate limit and of path segments.
use zammad_ticket_archiver.PathPolicy.{
  is_allowed, to_ascii, keep_allowed, sub_runs, validate_each, UnicodeData, IsSafe,
  sanitize_segment, validate_segment, validate_segments, validate_segments-IsSafe,
}
use zammad_ticket_archiver.Base.Text.{is_space, text_beq, codes}
use zammad_ticket_archiver.Base.{
  contains, ◌+◌, ◌-◌, ◌*◌, ◌≤◌, ◌≡◌, ◌≢◌, refl, false, [], ◌∷◌, arith, length, All,
}
use zammad_ticket_archiver.Effect.{ok}
use zammad_ticket_archiver.RateLimit.{token, Bucket, Limiter, taken, taken_bounded}

-- two tokens, and five more in each second
abbrev half_full : Bucket
half_full = record { tokens = 2 * token; updated_at = 0 }

taken_bounded_example :
    (taken 5_000_000 10 (100 ∷ 200 ∷ 300 ∷ []) half_full).0 * token
    ≤ 2 * token + (400 - 0) * 5_000_000
taken_bounded_example =
    taken_bounded 5_000_000 10 (100 ∷ 200 ∷ 300 ∷ []) 400 half_full
      (omega arith, (omega arith, (omega arith, omega arith)))

abbrev one_client : Limiter
one_client = record {
  rps = 5_000_000;
  burst = 10;
  max_entries = 0;
  buckets = (codes "10.0.0.1", half_full) ∷ [];
}

accepted :
    validate_segments 10 64 (codes "Acme" ∷ codes "2024" ∷ [])
    ≡ ok (codes "Acme" ∷ codes "2024" ∷ [])
unfolding validate_segments validate_each validate_segment text_beq contains
accepted = refl

validate_segments-IsSafe_example :
    ((codes "Acme" ∷ codes "2024" ∷ []) ≡ (codes "Acme" ∷ codes "2024" ∷ []))
    × (2 ≤ 10)
    × All (IsSafe 64) (codes "Acme" ∷ codes "2024" ∷ [])
validate_segments-IsSafe_example =
    validate_segments-IsSafe 10 64 (codes "Acme" ∷ codes "2024" ∷ [])
      (codes "Acme" ∷ codes "2024" ∷ []) accepted

-- no text changes in the NFKD form, and no character is a mark
abbrev plain : UnicodeData
plain = record { nfkd = λ s. s; is_mark = λ c. false }

cleaned : sanitize_segment plain (codes "a / b") ≡ codes "a_b"
unfolding sanitize_segment sub_runs keep_allowed to_ascii is_space is_allowed
cleaned = refl

segment_ne : codes "a / b" ≢ []
segment_ne h = ground (arith, h)

here_ne : sanitize_segment plain (codes "a / b") ≢ codes "."
here_ne h = ground (arith, h, cleaned)

parent_ne : sanitize_segment plain (codes "a / b") ≢ codes ".."
parent_ne h = ground (arith, h, cleaned)

cleaned_short : length (sanitize_segment plain (codes "a / b")) ≤ 64
cleaned_short = rw cleaned (omega arith)
