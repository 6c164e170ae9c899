-- ===== src/Effect/Replies.antt =====
-- Computations that return or raise, without a world.
use zammad_ticket_archiver.Base.{◌≡◌, refl}
use zammad_ticket_archiver.Effect.{Reply, Action, ok, err, cancelled}

infixl 5 ◌>>=◌ ◌>>◌
abbrev pub ◌>>=◌ : {A B : Type 0} → Reply A → (A → Reply B) → Reply B
ok a >>= k = k a
err e >>= k = err e
cancelled >>= k = cancelled

abbrev pub ◌>>◌ : {A B : Type 0} → Reply A → Reply B → Reply B
m >> k = m >>= λ _. k

-- The computation as an action, which leaves the world alone.
abbrev pub lift : {W A : Type 0} → Reply A → Action W A
lift r w = (r, w)

-- A sequence that returned has run both parts to their ends.
pub >>=-eq-ok :
    {A B : Type 0} (m : Reply A) (k : A → Reply B) (b : B)
    → (m >>= k) ≡ ok b
    → (a : A) × (m ≡ ok a) × (k a ≡ ok b)
>>=-eq-ok (ok a) k b h = (a, refl, h)
>>=-eq-ok (err e) k b h = cc
>>=-eq-ok cancelled k b h = cc
