-- ===== src/Effect.antt =====
-- Awaited calls as actions on a world. A reply is a value, an exception that `except Exception`
-- catches, or `asyncio.CancelledError`, which it does not catch; what was done before it stays done.
pub mod Keeps
pub mod Replies
use zammad_ticket_archiver.Base.{◌≡◌, refl, ◌∙◌, arith}
use zammad_ticket_archiver.Errors.{Exc}

pub data Reply (A : Type 0) : Type 0 where
  ok : A → Reply A
  err : Exc → Reply A
  cancelled : Reply A

abbrev pub Action : Type 0 → Type 0 → Type 0
Action W A = W → Reply A × W

abbrev pub Done : Type 0
Done = Unit {0}

module _ {W : Type 0} where
  abbrev pub pure : {A : Type 0} → A → Action W A
  pure a w = (ok a, w)

  abbrev pub raise : {A : Type 0} → Exc → Action W A
  raise e w = (err e, w)

  abbrev pub cancel : {A : Type 0} → Action W A
  cancel w = (cancelled, w)

  infixl 5 ◌>>=◌ ◌>>◌
  abbrev pub ◌>>=◌ : {A B : Type 0} → Action W A → (A → Action W B) → Action W B
  ◌>>=◌ m k w =
      let (r, w') = m w in
      elim r [ ok a ↦ k a w' | err e ↦ (err e, w') | cancelled ↦ (cancelled, w') ]

  abbrev pub ◌>>◌ : {A B : Type 0} → Action W A → Action W B → Action W B
  m >> k = m >>= λ _. k

  -- try: m / except Exception as e: k e
  abbrev pub except : {A : Type 0} → Action W A → (Exc → Action W A) → Action W A
  except m k w =
      let (r, w') = m w in
      elim r [ ok a ↦ (ok a, w') | err e ↦ k e w' | cancelled ↦ (cancelled, w') ]

  -- try: m / finally: k (what `k` raises replaces the reply)
  abbrev pub finally : {A B : Type 0} → Action W A → Action W B → Action W A
  finally m k w =
      let (r, w') = m w in
      let (s, w2) = k w' in
      elim s [ ok _ ↦ (r, w2) | err e ↦ (err e, w2) | cancelled ↦ (cancelled, w2) ]

  -- A sequence that returned has run its first part to its end.
  pub >>=-eq-ok :
      {A B : Type 0} (m : Action W A) (k : A → Action W B) (w w' : W) (b : B)
      → (m >>= k) w ≡ (ok b, w')
      → (a : A) × (w1 : W) × (m w ≡ (ok a, w1)) × (k a w1 ≡ (ok b, w'))
  >>=-eq-ok {A} {B} m k w w' b h = invert (m w).0 (m w).1 refl h
    where
      invert :
          (r : Reply A) (w1 : W)
          → m w ≡ (r, w1)
          → Path
              (Reply B × W)
              (elim r [ ok a ↦ k a w1 | err e ↦ (err e, w1) | cancelled ↦ (cancelled, w1) ])
              (ok b, w')
          → (a : A) × (w2 : W) × (m w ≡ (ok a, w2)) × (k a w2 ≡ (ok b, w'))
      invert (ok a) w1 e h = (a, w1, e, h)
      invert (err x) w1 e h = cc
      invert cancelled w1 e h = cc

  pub >>-eq-ok :
      {A B : Type 0} (m : Action W A) (k : Action W B) (w w' : W) (b : B)
      → (m >> k) w ≡ (ok b, w')
      → (a : A) × (w1 : W) × (m w ≡ (ok a, w1)) × (k w1 ≡ (ok b, w'))
  >>-eq-ok m k w w' b h = >>=-eq-ok m (λ _. k) w w' b h

  -- What holds of each end of a sequence, by the end of its first part.
  pub >>=-cases :
      {A B : Type 0} (P : Reply B × W → Type 0) (m : Action W A) (k : A → Action W B) (w : W)
      → ((a : A) (w1 : W) → m w ≡ (ok a, w1) → P (k a w1))
      → ((e : Exc) (w1 : W) → m w ≡ (err e, w1) → P (err e, w1))
      → ((w1 : W) → m w ≡ (cancelled, w1) → P (cancelled, w1))
      → P ((m >>= k) w)
  >>=-cases {A} {B} P m k w returns raises stops = cases (m w).0 (m w).1 refl
    where
      cases :
          (r : Reply A) (w1 : W)
          → m w ≡ (r, w1)
          → P (elim r [ ok a ↦ k a w1 | err e ↦ (err e, w1) | cancelled ↦ (cancelled, w1) ])
      cases (ok a) w1 e = returns a w1 e
      cases (err x) w1 e = raises x w1 e
      cases cancelled w1 e = stops w1 e

  -- A `finally` that returned has run both parts to their ends.
  pub finally-eq-ok :
      {A B : Type 0} (m : Action W A) (k : Action W B) (w w' : W) (a : A)
      → finally m k w ≡ (ok a, w')
      → (w1 : W) × (b : B) × (m w ≡ (ok a, w1)) × (k w1 ≡ (ok b, w'))
  finally-eq-ok {A} {B} m k w w' a h = cases (m w).0 (m w).1 refl (k (m w).1).0 (k (m w).1).1 refl h
    where
      cases :
          (r : Reply A) (w1 : W)
          → m w ≡ (r, w1)
          → (s : Reply B) (w2 : W) → k w1 ≡ (s, w2)
          → Path
              (Reply A × W)
              (elim s [ ok _ ↦ (r, w2) | err e ↦ (err e, w2) | cancelled ↦ (cancelled, w2) ])
              (ok a, w')
          → (w1 : W) × (b : B) × (m w ≡ (ok a, w1)) × (k w1 ≡ (ok b, w'))
      cases r w1 e1 (ok b) w2 e2 h = (w1, b, e1 ∙ (λ i. ((h i).0, w1)), e2 ∙ (λ i. (ok b, (h i).1)))
      cases r w1 e1 (err e) w2 e2 h = cc
      cases r w1 e1 cancelled w2 e2 h = cc

  -- A `finally` ends in the world that its second part leaves.
  pub finally_world :
      {A B : Type 0} (m : Action W A) (k : Action W B) (w : W) → (finally m k w).1 ≡ (k (m w).1).1
  finally_world m k w = ground arith

  -- Giving another value changes no world.
  pub >>-pure_world :
      {A B : Type 0} (m : Action W A) (b : B) (w : W) → ((m >> pure b) w).1 ≡ (m w).1
  >>-pure_world m b w = ground arith

  -- `m` returns, wherever it starts.
  pub record Returns (m : Action W Done) : Type 0 where
    pub at : (w : W) → (m w).0 ≡ ok tt

  pub Returns-seq : (m k : Action W Done) → Returns m → Returns k → Returns (m >> k)
  Returns-seq m k rm rk = record { at = λ w. ground (arith, rm.at w, rk.at (m w).1) }
