-- ===== src/Effect/Keeps.antt =====
-- What an action leaves as it was, however it ends: an observation of the world.
use zammad_ticket_archiver.Base.{◌≡◌, refl, ap, sym, ◌∙◌, Bool, true, false, if◌then◌else◌}
use zammad_ticket_archiver.Errors.{Exc}
use zammad_ticket_archiver.Effect.{
  Reply, Action, ok, err, cancelled, pure, raise, cancel, ◌>>=◌, ◌>>◌, except, finally, >>=-cases,
}

module _ {W T : Type 0} (obs : W → T) where
  pub record Keeps {A : Type 0} (m : Action W A) : Type 0 where
    pub at : (w : W) → obs (m w).1 ≡ obs w

  pub Keeps-pure : {A : Type 0} (a : A) → Keeps (pure a)
  Keeps-pure a = record { at = λ w. refl }

  pub Keeps-raise : {A : Type 0} (e : Exc) → Keeps {A = A} (raise e)
  Keeps-raise e = record { at = λ w. refl }

  pub Keeps-cancel : {A : Type 0} → Keeps {A = A} cancel
  Keeps-cancel = record { at = λ w. refl }

  pub Keeps-if :
      {A : Type 0} (b : Bool) (m n : Action W A) → Keeps m → Keeps n → Keeps (if b then m else n)
  Keeps-if true m n km kn = km
  Keeps-if false m n km kn = kn

  -- the world in which an action ended
  ended :
      {A : Type 0} (m : Action W A) (r : Reply A) (w w1 : W)
      → Keeps m
      → m w ≡ (r, w1)
      → obs w1 ≡ obs w
  ended m r w w1 km e = sym (ap (λ p. obs p.1) e) ∙ km.at w

  pub Keeps-bind :
      {A B : Type 0} (m : Action W A) (k : A → Action W B)
      → Keeps m
      → ((a : A) → Keeps (k a))
      → Keeps (m >>= k)
  Keeps-bind m k km kk = record {
    at = λ w.
        >>=-cases (λ p. obs p.1 ≡ obs w) m k w (λ a w1 e. (kk a).at w1 ∙ ended m (ok a) w w1 km e)
          (λ e w1 h. ended m (err e) w w1 km h) (λ w1 h. ended m cancelled w w1 km h);
  }

  pub Keeps-seq :
      {A B : Type 0} (m : Action W A) (k : Action W B) → Keeps m → Keeps k → Keeps (m >> k)
  Keeps-seq m k km kk = Keeps-bind m (λ _. k) km (λ _. kk)

  except_reply :
      {A : Type 0} (k : Exc → Action W A)
      → ((e : Exc) → Keeps (k e))
      → (r : Reply A) (w : W)
      → obs
          (let p : Reply A × W = elim r [
            | ok a ↦ (ok a, w)
            | err e ↦ k e w
            | cancelled ↦ (cancelled, w)
          ] in
            p).1
        ≡ obs w
  except_reply k kk (ok a) w = refl
  except_reply k kk (err e) w = (kk e).at w
  except_reply k kk cancelled w = refl

  pub Keeps-except :
      {A : Type 0} (m : Action W A) (k : Exc → Action W A)
      → Keeps m
      → ((e : Exc) → Keeps (k e))
      → Keeps (except m k)
  Keeps-except m k km kk = record { at = λ w. except_reply k kk (m w).0 (m w).1 ∙ km.at w }

  final_reply :
      {A B : Type 0} (r : Reply A) (s : Reply B) (w : W)
      → obs
          (let p : Reply A × W = elim s [
            | ok _ ↦ (r, w)
            | err e ↦ (err e, w)
            | cancelled ↦ (cancelled, w)
          ] in
            p).1
        ≡ obs w
  final_reply r (ok a) w = refl
  final_reply r (err e) w = refl
  final_reply r cancelled w = refl

  pub Keeps-finally :
      {A B : Type 0} (m : Action W A) (k : Action W B) → Keeps m → Keeps k → Keeps (finally m k)
  Keeps-finally m k km kk = record {
    at = λ w. final_reply (m w).0 (k (m w).1).0 (k (m w).1).1 ∙ (kk.at (m w).1 ∙ km.at w);
  }

pub ruleset keeping =
    (Keeps-pure, Keeps-raise, Keeps-cancel, Keeps-if, Keeps-bind, Keeps-except, Keeps-finally)
