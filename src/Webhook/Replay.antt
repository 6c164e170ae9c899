-- ===== src/Webhook/Replay.antt =====
-- The body that the application reads again is the body that was read.
use mathlib.Core.Path.{subst}
use zammad_ticket_archiver.Base.{
  ℕ, zero, suc, ◌+◌, ◌≡◌, ◌≢◌, refl, arith, Bool, true, false, Option, none, some, List, [], ◌∷◌,
  length, drop, All,
}
use zammad_ticket_archiver.Effect.{Action, ok, pure, >>=-eq-ok}
use zammad_ticket_archiver.Storage.{Bytes}
use zammad_ticket_archiver.Webhook.{
  Message, disconnect, other_message, request, add_chunk, prepend, take_message, read_body,
  replay_receive,
}

-- No chunk is empty.
abbrev pub AllFull : List Bytes → Type 0
AllFull = All (λ chunk. chunk ≢ [])

add_chunk-AllFull :
    (body : Bytes) (chunks : List Bytes) → AllFull chunks → AllFull (add_chunk body chunks)
add_chunk-AllFull [] chunks full = full
add_chunk-AllFull (b ∷ body) chunks full = (λ e. cc, full)

module _ {R : Type 0} (receive : Action R Message) where
  -- What `_read_body` returns has no empty chunk.
  read_body-AllFull :
      (n : ℕ) (chunks : List Bytes) (gone : Bool) (x y : R)
      → read_body receive n x ≡ (ok (some (chunks, gone)), y)
      → AllFull chunks
  unfolding read_body
  read_body-AllFull zero chunks gone x y h = absurd cc
  read_body-AllFull (suc n) chunks gone x y h =
      let (message, x1, _, e) =
        >>=-eq-ok receive (take_message receive (read_body receive n)) x y (some (chunks, gone))
          h in
      taken message x1 e (λ chunks' z. read_body-AllFull n chunks' gone z y)
    where
      first_part :
          (body : Bytes) (rest : Option (List Bytes × Bool)) (x1 : R)
          → ((chunks' : List Bytes) → rest ≡ some (chunks', gone) → AllFull chunks')
          → prepend body rest ≡ some (chunks, gone)
          → AllFull chunks
      first_part body none x1 ih e = absurd cc
      first_part body (some (others, g)) x1 ih e =
          let is : add_chunk body others ≡ chunks = cc in
          subst AllFull is (add_chunk-AllFull body others (ih others cc))

      taken :
          (message : Message) (x1 : R)
          → take_message receive (read_body receive n) message x1 ≡ (ok (some (chunks, gone)), y)
          → ((chunks' : List Bytes) (z : R)
              → read_body receive n z ≡ (ok (some (chunks', gone)), y)
              → AllFull chunks')
          → AllFull chunks
      taken disconnect x1 e ih = let is : [] ≡ chunks = cc in subst AllFull is tt
      taken other_message x1 e ih = ih chunks x1 e
      taken (request body true) x1 e ih =
          let (rest, z, e1, e2) =
            >>=-eq-ok (read_body receive n) (λ rest. pure (prepend body rest)) x1 y
              (some (chunks, gone)) e in
          first_part body rest x1 (λ chunks' r. ih chunks' x1 cc) cc
      taken (request body false) x1 e ih =
          let is : add_chunk body [] ≡ chunks = cc in
          subst AllFull is (add_chunk-AllFull body [] tt)

drop-next :
    (idx : ℕ) (chunks rest : List Bytes) (body : Bytes)
    → drop idx chunks ≡ body ∷ rest
    → drop (suc idx) chunks ≡ rest
drop-next zero [] rest body e = absurd cc
drop-next zero (chunk ∷ chunks) rest body e = cc
drop-next (suc idx) [] rest body e = absurd cc
drop-next (suc idx) (chunk ∷ chunks) rest body e = drop-next idx chunks rest body e

-- Reading the replayed chunks again, from the index `idx`.
replay_from :
    (chunks suffix : List Bytes) (idx : ℕ)
    → AllFull suffix
    → drop idx chunks ≡ suffix
    → length chunks ≡ idx + length suffix
    → (read_body (replay_receive chunks) (suc (length suffix)) idx).0 ≡ ok (some (suffix, false))
unfolding read_body replay_receive
replay_from chunks [] idx full here size = ground (arith, here)
replay_from chunks ([] ∷ rest) idx full here size = absurd (full.0 refl)
replay_from chunks ((b ∷ body) ∷ []) idx full here size = ground (arith, here, size)
replay_from chunks ((b ∷ body) ∷ next ∷ rest) idx full here size =
    let then_next =
      replay_from chunks (next ∷ rest) (idx + 1) full.1
        (subst (λ k. drop k chunks ≡ next ∷ rest) {x = suc idx} (omega arith)
          (drop-next idx chunks (next ∷ rest) (b ∷ body) here))
        (omega (arith, size)) in
    ground (arith, here, size, then_next)

-- Chunks without an empty one are read again from `_replay_receive` as they are, and to their end.
read_body-replay_receive :
    (chunks : List Bytes)
    → AllFull chunks
    → (read_body (replay_receive chunks) (length chunks + 1) 0).0 ≡ ok (some (chunks, false))
read_body-replay_receive chunks full =
    subst (λ n. (read_body (replay_receive chunks) n 0).0 ≡ ok (some (chunks, false)))
      {x = suc (length chunks)} (omega arith) (replay_from chunks chunks 0 full refl (omega arith))

-- What `_read_body` has read of a request, the application reads from `_replay_receive` once more.
pub replay-read_body :
    {R : Type 0} (receive : Action R Message) (n : ℕ) (chunks : List Bytes) (x y : R)
    → read_body receive n x ≡ (ok (some (chunks, false)), y)
    → (read_body (replay_receive chunks) (length chunks + 1) 0).0 ≡ ok (some (chunks, false))
replay-read_body receive n chunks x y h =
    read_body-replay_receive chunks (read_body-AllFull receive n chunks false x y h)
