-- ===== src/Action/Health/Polling.antt =====
-- The health check ends, and what its answer says about the polls.
use intelliops.Base.{
  subst, ℕ, ◌+◌, ◌≤◌, ◌<◌, leb, zero, suc, Bool, true, false, Option, some, ◌≡◌, refl, ◌⊎◌, inl,
  inr, arith, Bool-cases,
}
use intelliops.Action.Effects.{Result, ok, raised}
use intelliops.Action.Health.{
  World, Status, healthy_at, poll_from, check, pod_ready, status_ready, or_zero, both_below,
  some_below,
}

first_or_later : (i j : ℕ) → i ≤ j → (i ≡ j) ⊎ (i + 1 ≤ j)
first_or_later i j le = ground arith

at_most : (i j : ℕ) → i ≤ j → j ≤ i → i ≡ j
at_most i j le ge = omega arith

module _ (w : World) (deadline : ℕ) where
  -- Poll k is the first from poll i on that found the deployment healthy, before the deadline passed.
  abbrev pub Recovered : ℕ → ℕ → Type 0
  Recovered i k =
      (i ≤ k)
      × (healthy_at w deadline k ≡ true)
      × ((j : ℕ) → i ≤ j → j < k → (healthy_at w deadline j ≡ false) × (w.now j < deadline))

  -- Poll k is the first from poll i on at which the deadline has passed, and none was healthy.
  abbrev pub TimedOut : ℕ → ℕ → Type 0
  TimedOut i k =
      (i ≤ k) × (deadline ≤ w.now k) × ((j : ℕ) → i ≤ j → j ≤ k → healthy_at w deadline j ≡ false)

  abbrev pub IsVerdict : ℕ → Option Bool → Type 0
  IsVerdict i answer =
      ((answer ≡ some true) × ((k : ℕ) × Recovered i k))
      ⊎ ((answer ≡ some false) × ((k : ℕ) × TimedOut i k))

  -- Every poll takes some time.
  abbrev pub Advances : ℕ → Type 0
  Advances pause = (i : ℕ) → w.now i + pause ≤ w.now (i + 1)

  -- One more poll that found nothing, in front.
  later-IsVerdict :
      (i : ℕ) (answer : Option Bool)
      → healthy_at w deadline i ≡ false
      → w.now i < deadline
      → IsVerdict (i + 1) answer
      → IsVerdict i answer
  later-IsVerdict i answer sick early (inl (is, (k, (le, well, before)))) =
      inl (is, (k, (omega arith, well, none_before)))
    where
      none_before :
          (j : ℕ) → i ≤ j → j < k → (healthy_at w deadline j ≡ false) × (w.now j < deadline)
      none_before j lo hi = elim (first_or_later i j lo) [
        | inl here ↦ (
          subst (λ j. healthy_at w deadline j ≡ false) here sick,
          subst (λ j. w.now j < deadline) here early,
        )
        | inr after ↦ before j after hi
      ]
  later-IsVerdict i answer sick early (inr (is, (k, (le, over, before)))) =
      inr (is, (k, (omega arith, over, none_until)))
    where
      none_until : (j : ℕ) → i ≤ j → j ≤ k → healthy_at w deadline j ≡ false
      none_until j lo hi = elim (first_or_later i j lo) [
        | inl here ↦ subst (λ j. healthy_at w deadline j ≡ false) here sick
        | inr after ↦ before j after hi
      ]

  only_here :
      (i : ℕ)
      → healthy_at w deadline i ≡ false
      → (j : ℕ) → i ≤ j
      → j ≤ i
      → healthy_at w deadline j ≡ false
  only_here i sick j lo hi = subst (λ j. healthy_at w deadline j ≡ false) (at_most i j lo hi) sick

  poll_from-IsVerdict :
      (pause : ℕ)
      → 0 < pause
      → Advances pause
      → (fuel i : ℕ) → 0 < fuel
      → deadline < w.now i + fuel
      → IsVerdict i (poll_from w deadline fuel i)
  unfolding poll_from
  poll_from-IsVerdict pause p adv zero i some_fuel enough = absurd (omega arith)
  poll_from-IsVerdict pause p adv (suc fuel) i some_fuel enough =
      let later = adv i in
      elim (Bool-cases (healthy_at w deadline i)) [
        | inl well ↦
            rw (well, poll_from)
              (inl (refl, (i, (omega arith, well, λ j lo hi. absurd (omega arith)))))
        | inr sick ↦ elim (Bool-cases (leb deadline (w.now i))) [
          | inl over ↦
              rw (sick, poll_from, over)
                (inr (refl, (i, (omega arith, ground arith, only_here i sick))))
          | inr early ↦
              let before : w.now i < deadline = ground arith in
              rw (sick, poll_from, early)
                (later-IsVerdict i _ sick before
                  (poll_from-IsVerdict pause p adv fuel (i + 1) (omega arith) (omega arith)))
        ]
      ]

-- A deployment counts as ready only when its status describes the present generation, its replicas
-- are all updated, there are some, and all of them are ready.
pub pod_ready_complete :
    (r : Result Status)
    → pod_ready r ≡ true
    → (st : Status) × (r ≡ ok st)
      × (0 < or_zero st.replicas)
      × (or_zero st.ready_replicas ≡ or_zero st.replicas)
      × (both_below st.observed_generation st.generation ≡ false)
      × (some_below st.updated_replicas (or_zero st.replicas) ≡ false)
unfolding pod_ready status_ready
pod_ready_complete raised h = ground arith
pod_ready_complete (ok st) h = (st, refl, ground arith, ground arith, ground arith, ground arith)

-- The check ends, if every poll takes some time, and answers whether the deployment recovered: true
-- at the first poll that finds its pods ready and its metrics healthy, if no poll before found the
-- deadline passed; false at the first poll that finds the deadline passed, when neither it nor any
-- before found the deployment healthy. A call that fails at a poll counts as not healthy then.
pub check-IsVerdict :
    (w : World) (started timeout pause : ℕ)
    → 0 < pause
    → Advances w (started + timeout) pause
    → IsVerdict w (started + timeout) 0 (check w started timeout)
unfolding check
check-IsVerdict w started timeout pause p adv =
    poll_from-IsVerdict w (started + timeout) pause p adv _ 0 (omega arith) (omega arith)
