-- ===== src/Idempotency/Live.antt =====
-- The abstract set of live keys, and that each operation refines it: eviction, periodic or lazy,
-- is invisible at the time of the call and later.
use zammad_ticket_archiver.Base.{
  ℕ, ◌+◌, ◌≤◌, ◌≡◌, refl, Bool, false, Option, none, some, [], ◌∷◌, arith, ltb, leb, ◌==◌, contains,
  Dict, lookup, lookup-insert, lookup-erase, lookup-pop_all, NodupKeys, insert-NodupKeys,
  erase-NodupKeys, pop_all-NodupKeys, if◌then◌else◌,
}
use zammad_ticket_archiver.Base.Text.{Text, text_eq, text_beq_iff}
use zammad_ticket_archiver.Idempotency.{
  TtlSet, create, expired_keys, evict_expired_at, maybe_evict, seen, add,
}

abbrev pub before : ℕ → Option ℕ → Bool
before t none = false
before t (some expires_at) = ltb t expires_at

-- `key` counts as seen at time `t`.
abbrev pub live : TtlSet → Text → ℕ → Bool
live s key t = before t (lookup key s.expires_at_by_key)

abbrev pub IsWellFormed : TtlSet → Type 0
IsWellFormed s = NodupKeys s.expires_at_by_key

abbrev is_past : ℕ → Option ℕ → Bool
is_past now none = false
is_past now (some expires_at) = leb expires_at now

contains-expired_keys :
    (now : ℕ) (d : Dict Text ℕ) (key : Text)
    → NodupKeys d
    → contains (expired_keys now d) key ≡ is_past now (lookup key d)
unfolding contains expired_keys lookup
contains-expired_keys now [] key h = refl
contains-expired_keys now ((k, e) ∷ d) key (fresh, h) =
    ground (arith, contains-expired_keys now d key h, text_beq_iff k key)

module _ (now : ℕ) (s : TtlSet) (w : IsWellFormed s) where
  pub live-evict_expired_at :
      (key : Text) (t : ℕ) → now ≤ t → live (evict_expired_at now s) key t ≡ live s key t
  unfolding evict_expired_at
  live-evict_expired_at key t le = ground (
    arith,
    lookup-pop_all (expired_keys now s.expires_at_by_key) key s.expires_at_by_key,
    contains-expired_keys now s.expires_at_by_key key w,
  )

  pub evict_expired_at-IsWellFormed : IsWellFormed (evict_expired_at now s)
  unfolding evict_expired_at
  evict_expired_at-IsWellFormed =
      pop_all-NodupKeys (expired_keys now s.expires_at_by_key) s.expires_at_by_key w

  pub live-maybe_evict :
      (key : Text) (t : ℕ) → now ≤ t → live (maybe_evict now s) key t ≡ live s key t
  unfolding maybe_evict
  live-maybe_evict key t le = ground (arith, live-evict_expired_at key t le)

  pub maybe_evict-IsWellFormed : IsWellFormed (maybe_evict now s)
  unfolding maybe_evict
  maybe_evict-IsWellFormed = ground (arith, evict_expired_at-IsWellFormed)

  pub ttl-maybe_evict : (maybe_evict now s).ttl ≡ s.ttl
  unfolding maybe_evict evict_expired_at
  ttl-maybe_evict = ground arith

  module _ (key : Text) where
    pub seen-eq-live : (seen key now s).0 ≡ live s key now
    unfolding seen
    seen-eq-live = ground (arith, live-maybe_evict key now (omega arith))

    pub live-seen : (j : Text) (t : ℕ) → now ≤ t → live (seen key now s).1 j t ≡ live s j t
    unfolding seen
    live-seen j t le = ground (
      arith,
      live-maybe_evict j t le,
      lookup-erase key j (maybe_evict now s).expires_at_by_key,
      text_beq_iff key j,
    )

    pub seen-IsWellFormed : IsWellFormed (seen key now s).1
    unfolding seen
    seen-IsWellFormed = ground (
      arith,
      maybe_evict-IsWellFormed,
      erase-NodupKeys key (maybe_evict now s).expires_at_by_key maybe_evict-IsWellFormed,
    )

    pub ttl-seen : (seen key now s).1.ttl ≡ s.ttl
    unfolding seen
    ttl-seen = ground (arith, ttl-maybe_evict)

    pub live-add :
        (j : Text) (t : ℕ)
        → now ≤ t
        → live (add key now s) j t ≡ (if key == j then ltb t (now + s.ttl) else live s j t)
    unfolding add
    live-add j t le = ground (
      arith,
      live-maybe_evict j t le,
      ttl-maybe_evict,
      lookup-insert key j (now + (maybe_evict now s).ttl) (maybe_evict now s).expires_at_by_key,
    )

    pub live-add_self : (t : ℕ) → live (add key now s) key t ≡ ltb t (now + s.ttl)
    unfolding add
    live-add_self t = ground (
      arith,
      ttl-maybe_evict,
      text_beq_iff key key,
      lookup-insert key key (now + (maybe_evict now s).ttl) (maybe_evict now s).expires_at_by_key,
    )

    pub add-IsWellFormed : IsWellFormed (add key now s)
    unfolding add
    add-IsWellFormed =
        insert-NodupKeys key (now + (maybe_evict now s).ttl) _ maybe_evict-IsWellFormed

    pub ttl-add : (add key now s).ttl ≡ s.ttl
    unfolding add
    ttl-add = ttl-maybe_evict

-- A set that was just made is well formed, for the time to live that was asked for.
pub create-IsWellFormed :
    (ttl now : ℕ) → IsWellFormed (create ttl now) × ((create ttl now).ttl ≡ ttl)
unfolding create
create-IsWellFormed ttl now = (tt, refl)
