-- ===== src/Queue/Delays.antt =====
-- The delays of retries, and the least delay that the worker sleeps for.
use native.Mathlib.Nat.{pow-suc, mul_assoc}
use zammad_ticket_archiver.Base.{
  ℕ, zero, suc, ◌+◌, ◌*◌, ◌^◌, ◌≡◌, refl, sym, Bool, false, ◌||◌, Option, none, some, arith, leb,
}
use zammad_ticket_archiver.Settings.{WorkflowSettings}
use zammad_ticket_archiver.Queue.Worker.{retry_delay, merge_min_delay}

-- A wait of `t` reaches the delay.
abbrev pub reaches : ℕ → Option ℕ → Bool
reaches t none = false
reaches t (some d) = leb d t

-- A delay of 0 asks for no wait.
abbrev pub asked : Option ℕ → Option ℕ
asked none = none
asked (some zero) = none
asked (some (suc d)) = some (suc d)

-- The merged delay is the lesser one of the current delay and a candidate above 0: a wait reaches
-- it exactly if the wait reaches one of the two.
pub merge_min_delay_lem :
    (t : ℕ) (current candidate : Option ℕ)
    → reaches t (merge_min_delay current candidate)
      ≡ (reaches t current || reaches t (asked candidate))
unfolding merge_min_delay
merge_min_delay_lem t none none = refl
merge_min_delay_lem t (some c) none = ground arith
merge_min_delay_lem t none (some zero) = ground arith
merge_min_delay_lem t none (some (suc d)) = ground arith
merge_min_delay_lem t (some c) (some zero) = ground arith
merge_min_delay_lem t (some c) (some (suc d)) = ground arith

-- The delays before the first `n` retries, summed.
abbrev pub waited : WorkflowSettings → ℕ → ℕ
waited settings zero = 0
waited settings (suc n) = waited settings n + retry_delay settings n

-- The delays before the first `n` retries of a job sum to 2 ^ n - 1 times the configured delay.
pub retry_delay-sum :
    (settings : WorkflowSettings) (n : ℕ)
    → waited settings n + settings.queue_retry_backoff ≡ settings.queue_retry_backoff * 2 ^ n
unfolding retry_delay
retry_delay-sum settings zero = omega arith
retry_delay-sum settings (suc n) =
    let B = settings.queue_retry_backoff in
    let P = 2 ^ n in
    rw (pow-suc 2 n) (omega (arith, retry_delay-sum settings n, sym (mul_assoc B P 2)))
