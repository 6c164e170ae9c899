-- ===== src/Idempotency/Claims.antt =====
-- Claims of delivery ids: a claim succeeds for ids that are not live, and excludes every other
-- claim of the id until its time to live is over, whatever calls are made in between.
use zammad_ticket_archiver.Base.{
  ℕ, ◌+◌, ◌≤◌, ◌<◌, ◌≡◌, refl, ap, ◌∙◌, true, false, not, List, [], ◌∷◌, arith, ltb, ◌==◌, ◌&&◌,
  if◌then◌else◌,
}
use zammad_ticket_archiver.Base.Text.{Text, text_eq, text_beq_iff}
use zammad_ticket_archiver.Idempotency.{TtlSet, evict_expired_at, seen, add, try_claim}
use zammad_ticket_archiver.Idempotency.Live.{
  live, IsWellFormed, live-evict_expired_at, evict_expired_at-IsWellFormed, seen-eq-live, live-seen,
  seen-IsWellFormed, ttl-seen, live-add, add-IsWellFormed, ttl-add,
}

module _ (key : Text) (now now' : ℕ) (s : TtlSet) (w : IsWellFormed s) (order : now ≤ now') where
  -- On a well-formed set, with a clock that does not go back, a claim succeeds exactly if the id
  -- is not live at its first reading of the clock. Afterwards the id that was claimed is live
  -- until the time to live has passed since the second reading, and every other id, or each id
  -- after a refused claim, is live as it was.
  pub try_claim_lem :
      (j : Text) (t : ℕ)
      → now' ≤ t
      → ((try_claim key now now' s).0 ≡ not (live s key now))
        × (live (try_claim key now now' s).1 j t ≡ (
            if (try_claim key now now' s).0 && key == j then ltb t (now' + s.ttl) else live s j t))
  unfolding try_claim
  try_claim_lem j t le = (
    ground (arith, seen-eq-live now s w key),
    ground (
      arith,
      live-seen now s w key j t (omega (arith, order, le)),
      ttl-seen now s w key,
      live-add now' (seen key now s).1 (seen-IsWellFormed now s w key) key j t le,
    ),
  )

  pub try_claim-IsWellFormed : IsWellFormed (try_claim key now now' s).1
  unfolding try_claim
  try_claim-IsWellFormed = ground (
    arith,
    seen-IsWellFormed now s w key,
    add-IsWellFormed now' (seen key now s).1 (seen-IsWellFormed now s w key) key,
  )

  pub ttl-try_claim : (try_claim key now now' s).1.ttl ≡ s.ttl
  unfolding try_claim
  ttl-try_claim = ground (
    arith,
    ttl-seen now s w key,
    ttl-add now' (seen key now s).1 (seen-IsWellFormed now s w key) key,
  )

-- The public calls on a set.
pub data Call : Type 0 where
  seen_call add_call : Text → ℕ → Call
  claim_call : Text → ℕ → ℕ → Call
  evict_call : ℕ → Call

abbrev pub starts : Call → ℕ
starts (seen_call _ now) = now
starts (add_call _ now) = now
starts (claim_call _ now _) = now
starts (evict_call now) = now

abbrev pub ends : Call → ℕ
ends (claim_call _ _ now') = now'
ends (seen_call _ now) = now
ends (add_call _ now) = now
ends (evict_call now) = now

abbrev pub apply : Call → TtlSet → TtlSet
apply (seen_call k now) s = (seen k now s).1
apply (add_call k now) s = add k now s
apply (claim_call k now now') s = (try_claim k now now' s).1
apply (evict_call now) s = evict_expired_at now s

unfoldable pub run : List Call → TtlSet → TtlSet
run [] s = s
run (c ∷ cs) s = run cs (apply c s)

-- The clock readings never go back, from `now` to `last`.
abbrev pub InOrder : ℕ → List Call → ℕ → Type 0
InOrder now [] last = now ≤ last
InOrder now (c ∷ cs) last = (now ≤ starts c) × (starts c ≤ ends c) × InOrder (ends c) cs last

apply-IsWellFormed :
    (c : Call) (s : TtlSet) → IsWellFormed s → starts c ≤ ends c → IsWellFormed (apply c s)
apply-IsWellFormed (seen_call k now) s w order = seen-IsWellFormed now s w k
apply-IsWellFormed (add_call k now) s w order = add-IsWellFormed now s w k
apply-IsWellFormed (claim_call k now now') s w order = try_claim-IsWellFormed k now now' s w order
apply-IsWellFormed (evict_call now) s w order = evict_expired_at-IsWellFormed now s w

ttl-apply : (c : Call) (s : TtlSet) → IsWellFormed s → starts c ≤ ends c → (apply c s).ttl ≡ s.ttl
ttl-apply (seen_call k now) s w order = ttl-seen now s w k
ttl-apply (add_call k now) s w order = ttl-add now s w k
ttl-apply (claim_call k now now') s w order = ttl-try_claim k now now' s w order
ttl-apply (evict_call now) s w order = unfold evict_expired_at in refl

module _ (key : Text) (last : ℕ) where
  -- No call takes a live id away before its time.
  live-apply :
      (c : Call) (s : TtlSet)
      → IsWellFormed s
      → starts c ≤ ends c
      → ends c ≤ last
      → last < starts c + s.ttl
      → live s key last ≡ true
      → live (apply c s) key last ≡ true
  live-apply (seen_call k now) s w order le fresh h = rw (live-seen now s w k key last le) h
  live-apply (add_call k now) s w order le fresh h = ground (arith, live-add now s w k key last le)
  live-apply (claim_call k now now') s w order le fresh h =
      ground (arith, (try_claim_lem k now now' s w order key last le).1)
  live-apply (evict_call now) s w order le fresh h =
      rw (live-evict_expired_at now s w key last le) h

  InOrder-le : (now : ℕ) (cs : List Call) → InOrder now cs last → now ≤ last
  InOrder-le now [] h = h
  InOrder-le now (c ∷ cs) (a, b, h) = omega (arith, InOrder-le (ends c) cs h)

  live-run :
      (cs : List Call) (now : ℕ) (s : TtlSet)
      → IsWellFormed s
      → InOrder now cs last
      → last < now + s.ttl
      → live s key last ≡ true
      → IsWellFormed (run cs s) × (live (run cs s) key last ≡ true)
  unfolding run
  live-run [] now s w order fresh h = (w, h)
  live-run (c ∷ cs) now s w (a, b, order) fresh h =
      live-run cs (ends c) (apply c s) (apply-IsWellFormed c s w b) order
        (omega (arith, ttl-apply c s w b))
        (live-apply c s w b (InOrder-le (ends c) cs order) (omega arith) h)

-- After a claim of an id on a well-formed set has succeeded, through any calls on the set with a
-- clock that does not go back, a claim of that id fails if its first reading of the clock comes
-- less than the time to live after the second reading of the claim that succeeded.
pub try_claim_exclusive :
    (key : Text) (now now' last later : ℕ) (s : TtlSet) (cs : List Call)
    → IsWellFormed s
    → now ≤ now'
    → (try_claim key now now' s).0 ≡ true
    → InOrder now' cs last
    → last ≤ later
    → last < now' + s.ttl
    → (try_claim key last later (run cs (try_claim key now now' s).1)).0 ≡ false
try_claim_exclusive key now now' last later s cs w order claimed calls le fresh =
    let held : live (try_claim key now now' s).1 key last ≡ true = ground (
      arith,
      (try_claim_lem key now now' s w order key last (InOrder-le key last now' cs calls)).1,
      text_beq_iff key key,
    ) in
    let (w', live') =
      live-run key last cs now' (try_claim key now now' s).1
        (try_claim-IsWellFormed key now now' s w order) calls
        (omega (arith, ttl-try_claim key now now' s w order)) held in
    (try_claim_lem key last later _ w' le key later (omega arith)).0 ∙ ap not live'
