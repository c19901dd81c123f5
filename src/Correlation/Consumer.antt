-- ===== src/Correlation/Consumer.antt =====
-- services/correlation/consumer.py: an event is fed to the engine, and what comes out is published.
-- The bus is a parameter: whether it takes a situation, after all that was published before it; an
-- event whose handling raises is Envelope's to deliver again. The baselines are saved elsewhere.
pub mod Drained
use intelliops.Base.{
  ℕ, zero, suc, Bool, true, false, Option, none, some, List, [], ◌∷◌, length, Floats, if◌then◌else◌,
}
use intelliops.Contracts.{TelemetryEvent, Situation}
use intelliops.Envelope.{Handled, returned, raised}
use intelliops.Correlation.Engine.{Correlator, Config, E, add, flush_all, pop_suppressed}

-- A situation on the topic situations.detected, or situations.suppressed.
pub data Sent (F : Type 0) : Type 0 where
  as_detected as_suppressed : Situation F → Sent F

module _ (fl : Floats) (k : Correlator fl) (c : Config)
    (takes : List (Sent fl.F) → Sent fl.F → Bool) where
  open fl use {F}

  -- The engine, and what was published, the latest first.
  pub record State : Type 0 where
    pub engine : E fl k c
    pub sent : List (Sent F)

  abbrev pub Step : Type 0
  Step = State → Handled State

  -- `publish_model`
  unfoldable pub send : Sent F → Step
  send x s = if takes s.sent x then returned (record s { sent = x ∷ s.sent }) else raised s

  abbrev pub and_then : Handled State → Step → Handled State
  and_then (returned s) rest = rest s
  and_then (raised s) rest = raised s

  -- The loop of `_drain_suppressed`, with fuel.
  unfoldable pub drain : ℕ → Step
  drain zero s = returned s
  drain (suc n) s =
      let (out, e) = pop_suppressed fl k c s.engine in
      elim out [
        | none ↦ returned (record s { engine = e })
        | some sit ↦ and_then (send (as_suppressed sit) (record s { engine = e })) (drain n)
      ]

  -- `_drain_suppressed`, with as much fuel as there is in the queue
  unfoldable pub drain_suppressed : Step
  drain_suppressed s = drain (suc (length s.engine.suppressed)) s

  unfoldable pub publish_all : List (Situation F) → Step
  publish_all [] s = returned s
  publish_all (sit ∷ sits) s = and_then (send (as_detected sit) s) (publish_all sits)

  abbrev pub listed : Option (Situation F) → List (Situation F)
  listed none = []
  listed (some sit) = sit ∷ []

  -- The body of the loop of `run_consumer`.
  unfoldable pub handle : TelemetryEvent F → Step
  handle event s =
      let (out, e) = add fl k c event s.engine in
      and_then (publish_all (listed out) (record s { engine = e })) drain_suppressed

  -- What follows the loop: the buckets that are still open.
  unfoldable pub finish : Step
  finish s =
      let (outs, e) = flush_all fl k c s.engine in
      and_then (publish_all outs (record s { engine = e })) drain_suppressed
