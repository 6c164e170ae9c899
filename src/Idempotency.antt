-- ===== src/Idempotency.antt =====
-- Delivery ids that were seen, with a time to live (src/zammad_pdf_archiver/domain/idempotency.py).
-- Times are nanoseconds of the monotonic clock, the clock's resolution; each reading of the clock
-- is an argument.
pub mod Live
pub mod Claims
use zammad_ticket_archiver.Base.{
  ℕ, ◌+◌, ◌*◌, min, max, Bool, true, false, Option, none, some, List, [], ◌∷◌, ltb, leb, Dict,
  lookup, insert, erase, pop_all, if◌then◌else◌,
}
use zammad_ticket_archiver.Base.Text.{Text, text_eq}

abbrev pub second : ℕ
second = 1_000_000_000

-- `InMemoryTTLSet`
pub record TtlSet : Type 0 where
  pub ttl : ℕ
  pub expires_at_by_key : Dict Text ℕ
  pub next_evict_at : ℕ

-- `InMemoryTTLSet(ttl_seconds=...)`; a negative time to live is refused there and no value here
unfoldable pub create : ℕ → ℕ → TtlSet
create ttl now = record { ttl = ttl; expires_at_by_key = []; next_evict_at = now }

unfoldable pub expired_keys : ℕ → Dict Text ℕ → List Text
expired_keys now [] = []
expired_keys now ((key, expires_at) ∷ d) =
    let rest = expired_keys now d in if leb expires_at now then key ∷ rest else rest

unfoldable pub evict_expired_at : ℕ → TtlSet → TtlSet
evict_expired_at now s = record s {
  expires_at_by_key = pop_all (expired_keys now s.expires_at_by_key) s.expires_at_by_key;
}

unfoldable pub maybe_evict : ℕ → TtlSet → TtlSet
maybe_evict now s = if ltb now s.next_evict_at then s else record (evict_expired_at now s) {
  next_evict_at = now + min (60 * second) (max second s.ttl);
}

-- `_seen_sync`
unfoldable pub seen : Text → ℕ → TtlSet → Bool × TtlSet
seen key now s =
    let s' = maybe_evict now s in
    elim (lookup key s'.expires_at_by_key) [
      | none ↦ (false, s')
      | some expires_at ↦
          if leb expires_at now
          then (false, record s' { expires_at_by_key = erase key s'.expires_at_by_key })
          else (true, s')
    ]

-- `_add_sync`
unfoldable pub add : Text → ℕ → TtlSet → TtlSet
add key now s =
    let s' = maybe_evict now s in
    record s' { expires_at_by_key = insert key (now + s'.ttl) s'.expires_at_by_key }

-- `try_claim`: the clock is read once by `_seen_sync` and once more by `_add_sync`
unfoldable pub try_claim : Text → ℕ → ℕ → TtlSet → Bool × TtlSet
try_claim key now now' s =
    let (was_seen, s') = seen key now s in if was_seen then (false, s') else (true, add key now' s')
