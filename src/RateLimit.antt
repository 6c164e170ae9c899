-- ===== src/RateLimit.antt =====
-- The token bucket of the rate limit (src/zammad_pdf_archiver/app/middleware/rate_limit.py). Times are
-- nanoseconds and rates are millionths of a token per second, so that a token is 10 ^ 15 units, in
-- exact numbers in place of floats.
use mathlib.Core.Path.{subst}
use native.Mathlib.Nat.{add-mul}
use zammad_ticket_archiver.Base.{
  ℕ, zero, suc, ◌+◌, ◌-◌, ◌*◌, ◌≤◌, ◌≡◌, ap, sym, ◌∙◌, min, Bool, true, false, Option, none, some,
  List, [], ◌∷◌, arith, ltb, leb, length, drop, Dict, lookup, insert, if◌then◌else◌,
}
use zammad_ticket_archiver.Base.Text.{Text, text_eq}

abbrev pub token : ℕ
token = 1_000_000_000_000_000

-- `_Bucket`
pub record Bucket : Type 0 where
  pub tokens : ℕ
  pub updated_at : ℕ

-- `_InMemoryTokenBucketLimiter`
pub record Limiter : Type 0 where
  pub rps : ℕ
  pub burst : ℕ
  pub max_entries : ℕ
  pub buckets : Dict Text Bucket

-- The bucket once the time since its last update is credited.
unfoldable pub refill : ℕ → ℕ → ℕ → Bucket → Bucket
refill rps burst now bucket = record {
  tokens =
      if ltb 0 rps
      then min (burst * token) (bucket.tokens + (now - bucket.updated_at) * rps)
      else bucket.tokens;
  updated_at = now;
}

-- The end of `allow`, on the bucket of the key.
unfoldable pub take_token : ℕ → ℕ → ℕ → Bucket → Bool × Bucket
take_token rps burst now bucket =
    let full = refill rps burst now bucket in
    if leb token full.tokens
    then (true, record full { tokens = full.tokens - token })
    else (false, full)

-- The first entries leave once there are more than `max_entries`.
unfoldable pub evict : ℕ → Dict Text Bucket → Dict Text Bucket
evict max_entries buckets =
    if ltb max_entries (length buckets)
    then drop (min (length buckets - max_entries + 200) 2000) buckets
    else buckets

abbrev pub bucket_of : ℕ → ℕ → Option Bucket → Bucket
bucket_of burst now none = record { tokens = burst * token; updated_at = now }
bucket_of burst now (some bucket) = bucket

-- `allow`
unfoldable pub allow : Text → ℕ → Limiter → Bool × Limiter
allow key now l =
    let kept = evict l.max_entries l.buckets in
    let (allowed, bucket) =
      take_token l.rps l.burst now (bucket_of l.burst now (lookup key kept)) in
    (allowed, record l { buckets = insert key bucket kept })

-- How many of the calls at these times are allowed, on one bucket, and the bucket afterwards.
unfoldable pub taken : ℕ → ℕ → List ℕ → Bucket → ℕ × Bucket
taken rps burst [] bucket = (0, bucket)
taken rps burst (now ∷ times) bucket =
    let (allowed, bucket') = take_token rps burst now bucket in
    let (n, last) = taken rps burst times bucket' in (if allowed then suc n else n, last)

abbrev pub InOrder : ℕ → List ℕ → ℕ → Type 0
InOrder start [] last = start ≤ last
InOrder start (now ∷ times) last = (start ≤ now) × InOrder now times last

InOrder-le : (start : ℕ) (times : List ℕ) (last : ℕ) → InOrder start times last → start ≤ last
InOrder-le start [] last h = h
InOrder-le start (now ∷ times) last (a, h) = omega (arith, InOrder-le now times last h)

module _ (rps burst : ℕ) where
  take_token-le :
      (now : ℕ) (bucket : Bucket)
      → ((take_token rps burst now bucket).1.updated_at ≡ now)
        × ((take_token rps burst now bucket).1.tokens
              + (if (take_token rps burst now bucket).0 then token else 0)
            ≤ bucket.tokens + (now - bucket.updated_at) * rps)
  unfolding take_token refill
  take_token-le now bucket = ground arith

  credit : (a b c : ℕ) → a ≤ b → b ≤ c → (b - a) * rps + (c - b) * rps ≡ (c - a) * rps
  credit a b c le le' =
      sym (add-mul (b - a) (c - b) rps) ∙ ap (λ n. n * rps) (omega (arith, le, le'))

  -- The calls on one bucket that are allowed up to a time, as its clock does not go back, cost no more
  -- tokens than it held, and the rate times the time since its last update.
  pub taken_bounded :
      (times : List ℕ) (last : ℕ) (bucket : Bucket)
      → InOrder bucket.updated_at times last
      → (taken rps burst times bucket).0 * token ≤ bucket.tokens + (last - bucket.updated_at) * rps
  unfolding taken
  taken_bounded [] last bucket order = omega arith
  taken_bounded (now ∷ times) last bucket (le, order) =
      let b' = (take_token rps burst now bucket).1 in
      let (same, paid) = take_token-le now bucket in
      let rest = taken_bounded times last b' (subst (λ t. InOrder t times last) (sym same) order) in
      let whole = credit bucket.updated_at now last le (InOrder-le now times last order) in
      ground (arith, paid, rest, same, whole)

length-drop : (n : ℕ) (d : Dict Text Bucket) → length (drop n d) ≡ length d - n
length-drop zero d = omega arith
length-drop (suc n) [] = omega arith
length-drop (suc n) (b ∷ d) = omega (arith, length-drop n d)

length-insert :
    (key : Text) (bucket : Bucket) (d : Dict Text Bucket)
    → length (insert key bucket d) ≤ suc (length d)
unfolding insert
length-insert key bucket [] = omega arith
length-insert key bucket ((k, b) ∷ d) = ground (arith, length-insert key bucket d)

-- If a limiter has at most one bucket more than `max_entries`, it still has after a call of
-- `allow`.
pub allow_bounded :
    (key : Text) (now : ℕ) (l : Limiter)
    → length l.buckets ≤ suc l.max_entries
    → length (allow key now l).1.buckets ≤ suc l.max_entries
unfolding allow evict
allow_bounded key now l few =
    let b =
      (take_token l.rps l.burst now
        (bucket_of l.burst now (lookup key (evict l.max_entries l.buckets)))).1 in
    ground (
      arith,
      few,
      length-insert key b (evict l.max_entries l.buckets),
      length-drop (min (length l.buckets - l.max_entries + 200) 2000) l.buckets,
    )
