-- ===== src/Action/Health.antt =====
-- services/action/adapters/k8s_health.py: the wait for a deployment that is ready and for metrics
-- that have recovered. The status that the API answers with, the metrics and the clock are
-- parameters, each a function of the poll that asks.
pub mod Polling
use intelliops.Base.{
  ℕ, ◌+◌, ltb, leb, zero, suc, Bool, true, false, ◌&&◌, Option, none, some, if◌then◌else◌, ◌-◌,
}
use intelliops.Action.Effects.{Result, ok, raised}

-- The parts of a deployment's status that are read; an attribute that is missing is None.
pub record Status : Type 0 where
  pub generation : Option ℕ
  pub observed_generation : Option ℕ
  pub ready_replicas : Option ℕ
  pub replicas : Option ℕ
  pub updated_replicas : Option ℕ

abbrev pub or_zero : Option ℕ → ℕ
or_zero none = 0
or_zero (some n) = n

-- `a is not None and b is not None and a < b`
abbrev pub both_below : Option ℕ → Option ℕ → Bool
both_below (some a) (some b) = ltb a b
both_below _ _ = false

abbrev pub some_below : Option ℕ → ℕ → Bool
some_below none n = false
some_below (some a) n = ltb a n

abbrev pub equal : ℕ → ℕ → Bool
equal a b = leb a b && leb b a

unfoldable pub status_ready : Status → Bool
status_ready st =
    if both_below st.observed_generation st.generation
    then false
    else if some_below st.updated_replicas (or_zero st.replicas)
    then false
    else ltb 0 (or_zero st.replicas) && equal (or_zero st.ready_replicas) (or_zero st.replicas)

-- `_pod_ready`: whatever goes wrong in asking, the pods are not ready.
unfoldable pub pod_ready : Result Status → Bool
pod_ready raised = false
pod_ready (ok st) = status_ready st

-- `_safe_metric`
unfoldable pub safe_metric : Result Bool → Bool
safe_metric raised = false
safe_metric (ok b) = b

-- What each poll is answered, and the clock: `now i` at the end of poll i, before the sleep.
pub record World : Type 0 where
  pub status : ℕ → Result Status
  pub metric_healthy : ℕ → Result Bool
  pub now : ℕ → ℕ

module _ (w : World) (deadline : ℕ) where
  -- `_pod_ready(target) and _safe_metric(metric_healthy)`, at one poll
  abbrev pub healthy_at : ℕ → Bool
  healthy_at i = pod_ready (w.status i) && safe_metric (w.metric_healthy i)

  -- The loop from poll i on, with fuel: `none` when the fuel is gone.
  unfoldable pub poll_from : (fuel i : ℕ) → Option Bool
  poll_from zero i = none
  poll_from (suc fuel) i =
      let later = poll_from fuel (i + 1) in
      if healthy_at i then some true else if leb deadline (w.now i) then some false else later

-- `check`, with more fuel than the time that is left
unfoldable pub check : World → (started timeout : ℕ) → Option Bool
check w started timeout = poll_from w (started + timeout) (suc (started + timeout - w.now 0)) 0
