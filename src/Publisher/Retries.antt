-- ===== src/Publisher/Retries.antt =====
-- An event is sent until the host has accepted it, and not once more.
use baijimu_digital_employee.Base.{
  ℕ, zero, suc, ◌+◌, ◌*◌, ◌^◌, ◌≤◌, ◌<◌, min, ◌≡◌, refl, ◌∙◌, ap, subst, String, true, false, none,
  some, List, [], ◌∷◌, arith, length, All,
}
use baijimu_digital_employee.EventStore.{PublishJob}
use baijimu_digital_employee.Publisher.{
  Answer, is_accepted, delay, next_attempt, after_delay, publish_from, publish,
}

-- A wait is at least a tenth of a second and at most 25.6 seconds.
abbrev pub IsWait : ℕ → Type 0
IsWait ms = (100 ≤ ms) × (ms ≤ 25600)

pow-IsWait : (n : ℕ) → n ≤ 8 → IsWait (100 * 2 ^ n)
pow-IsWait zero h = (omega arith, omega arith)
pow-IsWait (suc zero) h = (omega arith, omega arith)
pow-IsWait (suc (suc zero)) h = (omega arith, omega arith)
pow-IsWait (suc (suc (suc zero))) h = (omega arith, omega arith)
pow-IsWait (suc (suc (suc (suc zero)))) h = (omega arith, omega arith)
pow-IsWait (suc (suc (suc (suc (suc zero))))) h = (omega arith, omega arith)
pow-IsWait (suc (suc (suc (suc (suc (suc zero)))))) h = (omega arith, omega arith)
pow-IsWait (suc (suc (suc (suc (suc (suc (suc zero))))))) h = (omega arith, omega arith)
pow-IsWait (suc (suc (suc (suc (suc (suc (suc (suc zero)))))))) h = (omega arith, omega arith)
pow-IsWait (suc (suc (suc (suc (suc (suc (suc (suc (suc n))))))))) h = absurd (omega arith)

delay-IsWait : (attempt : ℕ) → IsWait (delay attempt)
delay-IsWait attempt = pow-IsWait (min attempt 8) (omega arith)

at_start : (k : ℕ) (P : ℕ → Type 0) → P (k + 0) → P k
at_start k P h = subst P {x = k + 0} {y = k} (omega arith) h

module _ (app_id event_id : String) (host : ℕ → Answer) where
  publish_from-waits :
      (n k attempt : ℕ)
      → is_accepted app_id event_id (host (k + n)) ≡ true
      → ((j : ℕ) → j < n → is_accepted app_id event_id (host (k + j)) ≡ false)
      → (ms : List ℕ) × (publish_from app_id event_id host (suc n) k attempt ≡ some ms)
        × (length ms ≡ n)
        × All IsWait ms
  unfolding publish_from
  publish_from-waits zero k attempt a f =
      ([], rw (at_start k (λ j. is_accepted app_id event_id (host j) ≡ true) a) refl, refl, tt)
  publish_from-waits (suc n) k attempt a f =
      let (ms, p, l, w) =
        publish_from-waits n (k + 1) (next_attempt attempt)
          (subst (λ j. is_accepted app_id event_id (host j) ≡ true) {x = k + suc n}
            {y = (k + 1) + n} (omega arith) a)
          (λ j h.
            subst (λ i. is_accepted app_id event_id (host i) ≡ false) {x = k + suc j}
              {y = (k + 1) + j} (omega arith) (f (suc j) (omega arith))) in
      (
        delay attempt ∷ ms,
        rw (at_start k (λ j. is_accepted app_id event_id (host j) ≡ false) (f 0 (omega arith)))
            (ap (after_delay (delay attempt)) p),
        omega (arith, l),
        (delay-IsWait attempt, w),
      )

  publish_from-none :
      (fuel k attempt : ℕ)
      → ((j : ℕ) → j < fuel → is_accepted app_id event_id (host (k + j)) ≡ false)
      → publish_from app_id event_id host fuel k attempt ≡ none
  unfolding publish_from
  publish_from-none zero k attempt f = refl
  publish_from-none (suc fuel) k attempt f =
      rw (at_start k (λ j. is_accepted app_id event_id (host j) ≡ false) (f 0 (omega arith))) (
        ap (after_delay (delay attempt)) (
          publish_from-none fuel (k + 1) (next_attempt attempt) (λ j h.
            subst (λ i. is_accepted app_id event_id (host i) ≡ false) {x = k + suc j}
              {y = (k + 1) + j} (omega arith) (f (suc j) (omega arith)))))

-- If answer `n` of the host is the first that accepts the event, `publish` ends after `n` waits, each of
-- 0.1 to 25.6 seconds.
pub publish-waits :
    (app_id : String) (job : PublishJob) (host : ℕ → Answer) (n : ℕ)
    → is_accepted app_id job.event_id (host n) ≡ true
    → ((j : ℕ) → j < n → is_accepted app_id job.event_id (host j) ≡ false)
    → (ms : List ℕ) × (publish app_id job host (n + 1) ≡ some ms) × (length ms ≡ n) × All IsWait ms
unfolding publish
publish-waits app_id job host n a f =
    let (ms, p, l, w) =
      publish_from-waits app_id job.event_id host n 0 0
        (subst (λ j. is_accepted app_id job.event_id (host j) ≡ true) {y = 0 + n} (omega arith) a)
        (λ j h.
          subst (λ i. is_accepted app_id job.event_id (host i) ≡ false) {y = 0 + j} (omega arith)
            (f j h)) in
    (
      ms,
      ap (λ k. publish_from app_id job.event_id host k 0 0) {x = n + 1} {y = suc n} (omega arith)
          ∙ p,
      l,
      w,
    )
