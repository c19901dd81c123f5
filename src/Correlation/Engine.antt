-- ===== src/Correlation/Engine.antt =====
-- services/correlation/engine.py: anomalous events are buffered by key, and a window collapses into
-- one situation. Windows and spans are in microseconds. The lock makes each method one step.
pub mod Grouping
pub mod Windows
use intelliops.Base.{
  ℕ, ltb, ℤ, pos, sub_ℕ, ltb_ℤ, Bool, false, String, ◌==◌, Option, some, none, List, [], ◌∷◌, ◌++◌,
  map, length, any, filter, Floats, if◌then◌else◌,
}
use intelliops.Base.Dict.{Dict, lookup_or, insert, erase}
use intelliops.Contracts.{TelemetryEvent, Situation, Baseline, TrainingRecord}
use intelliops.Correlation.Correlator.{correlate}

-- What the engine asks of its correlator, over the correlator's state.
pub record Correlator (fl : Floats) : Type 1 where
  pub S : Type 0
  pub detect : TelemetryEvent fl.F → S → fl.F × S
  pub is_anomaly_scored : TelemetryEvent fl.F → fl.F → S → Bool
  pub severity_band : fl.F → String
  -- the digest behind its signatures
  pub digest : String → String
  -- `none` where it has no `baseline_snapshot`
  pub baseline_snapshot : S → Option (Dict (Option (Baseline fl.F)))
  pub should_suppress : String → S → Bool
  pub retrain : List TrainingRecord → S → S
  -- a row of its stored baselines
  pub Row : Type 0
  pub snapshot : S → List Row
  pub load : List Row → S → S
  -- `_correlator_factory`, the reliability map carried across
  pub renew : S → S

pub record Config : Type 0 where
  pub window : ℤ
  -- `group_by == "service"`
  pub by_service : Bool
  -- `max(1, int(min_events))`
  pub min_events : ℕ
  -- `suppress_mode == "quiet"`
  pub quiet : Bool

pub record Engine (F S : Type 0) : Type 0 where
  pub correlator : S
  pub buffers : Dict (List (TelemetryEvent F))
  pub max_scores : Dict F
  pub suppressed : List (Situation F)

module _ {F : Type 0} where
  -- `_key`
  unfoldable pub key_of : Config → TelemetryEvent F → String
  key_of c event =
      if c.by_service
      then (if lookup_or "service" event.labels "" == ""
          then "unknown"
          else lookup_or "service" event.labels "")
      else ""

  abbrev pub last_ts : ℕ → List (TelemetryEvent F) → ℕ
  last_ts t [] = t
  last_ts t (e ∷ es) = last_ts e.ts es

  -- `(buf[-1].ts - buf[0].ts)`
  abbrev pub span_of : TelemetryEvent F → List (TelemetryEvent F) → ℤ
  span_of e es = sub_ℕ (last_ts e.ts es) e.ts

  -- The entries of a baseline that the members report on.
  unfoldable pub restrict :
      List (TelemetryEvent F) → Dict (Option (Baseline F)) → Dict (Option (Baseline F))
  restrict buf = filter (λ entry. any (λ (e : TelemetryEvent F). e.name == entry.0) buf)

-- What becomes of a buffer.
pub data Fate (F : Type 0) : Type 0 where
  kept dropped : Fate F
  -- drop mode: only queued; quiet mode: emitted and queued
  silenced quieted : Situation F → Fate F
  emitted : Situation F → Fate F

module _ (fl : Floats) (k : Correlator fl) (c : Config) where
  open fl use {F, lt, lit}

  abbrev pub E : Type 0
  E = Engine F k.S

  abbrev pub zero_score : F
  zero_score = lit (pos 0) 0

  -- The situation of a buffer that is ripe.
  unfoldable pub situation_of : E → String → List (TelemetryEvent F) → Option (Situation F)
  situation_of e key buf =
      let peak = lookup_or key e.max_scores zero_score in
      elim (correlate k.digest buf (k.severity_band peak)) [
        | none ↦ none
        | some sit ↦ some (record sit {
          peak_score = some peak;
          baseline = elim (k.baseline_snapshot e.correlator) [
            | none ↦ none
            | some b ↦ some (restrict buf b)
          ];
        })
      ]

  -- The closed loop.
  unfoldable pub suppress : E → Situation F → Fate F
  suppress e sit =
      if k.should_suppress sit.signature e.correlator
      then if c.quiet then quieted (record sit { handling = "quiet" }) else silenced sit
      else emitted sit

  -- The branches of `_correlate_buffer`.
  unfoldable pub fate : E → String → List (TelemetryEvent F) → Fate F
  fate e key [] = kept
  fate e key (x ∷ xs) =
      if ltb (length (x ∷ xs)) c.min_events
      then if ltb_ℤ (span_of x xs) c.window then kept else dropped
      else (elim (situation_of e key (x ∷ xs)) [ none ↦ kept | some sit ↦ suppress e sit ])

  abbrev pub clear : String → E → E
  clear key e = record e { buffers = erase key e.buffers; max_scores = erase key e.max_scores }

  abbrev pub queue : Situation F → E → E
  queue sit e = record e { suppressed = e.suppressed ++ (sit ∷ []) }

  -- What the fate does to the engine, and the situation that goes out.
  unfoldable pub settle : String → E → Fate F → Option (Situation F) × E
  settle key e kept = (none, e)
  settle key e dropped = (none, clear key e)
  settle key e (silenced sit) = (none, queue sit (clear key e))
  settle key e (quieted sit) = (some sit, queue sit (clear key e))
  settle key e (emitted sit) = (some sit, clear key e)

  -- `_correlate_buffer`
  unfoldable pub correlate_buffer : String → E → Option (Situation F) × E
  correlate_buffer key e = settle key e (fate e key (lookup_or key e.buffers []))

  -- Whether the event lies beyond the window that its bucket has open.
  unfoldable pub overflows : TelemetryEvent F → List (TelemetryEvent F) → Bool
  overflows event [] = false
  overflows event (x ∷ xs) = ltb_ℤ c.window (sub_ℕ event.ts x.ts)

  -- `max(a, b)`
  abbrev pub max_score : F → F → F
  max_score a b = if lt a b then b else a

  unfoldable pub buffer_event : String → TelemetryEvent F → F → E → E
  buffer_event key event score e = record e {
    buffers = insert key (lookup_or key e.buffers [] ++ (event ∷ [])) e.buffers;
    max_scores = insert key (max_score (lookup_or key e.max_scores zero_score) score) e.max_scores;
  }

  -- An anomalous event: close the window that it overflows, then buffer it.
  unfoldable pub take_anomaly : TelemetryEvent F → F → E → Option (Situation F) × E
  take_anomaly event score e =
      let key = key_of c event in
      let (out, e') =
        if overflows event (lookup_or key e.buffers [])
        then correlate_buffer key e
        else (none, e) in
      (out, buffer_event key event score e')

  unfoldable pub add : TelemetryEvent F → E → Option (Situation F) × E
  add event e =
      let (score, s) = k.detect event e.correlator in
      let e' : E = record e { correlator = s } in
      if k.is_anomaly_scored event score s then take_anomaly event score e' else (none, e')

  -- The loop of `flush_all`, over a copy of the keys.
  unfoldable pub flush_keys : List String → E → List (Situation F) × E
  flush_keys [] e = ([], e)
  flush_keys (key ∷ keys) e =
      let (out, e') = correlate_buffer key e in
      let (outs, e'') = flush_keys keys e' in
      ((elim out [ none ↦ outs | some sit ↦ sit ∷ outs ]), e'')

  unfoldable pub flush_all : E → List (Situation F) × E
  flush_all e = flush_keys (map (λ entry. entry.0) e.buffers) e

  unfoldable pub flush : E → Option (Situation F) × E
  flush e = let (outs, e') = flush_all e in ((elim outs [ [] ↦ none | s ∷ _ ↦ some s ]), e')

  unfoldable pub retrain : List TrainingRecord → E → E
  retrain data_rows e = record e { correlator = k.retrain data_rows e.correlator }

  unfoldable pub snapshot : E → List k.Row
  snapshot e = k.snapshot e.correlator

  unfoldable pub load : List k.Row → E → E
  load rows e = record e { correlator = k.load rows e.correlator }

  unfoldable pub pop_suppressed : E → Option (Situation F) × E
  pop_suppressed e = elim (e.suppressed) [
    | [] ↦ (none, e)
    | s ∷ rest ↦ (some s, record e { suppressed = rest })
  ]

  unfoldable pub reset : E → E
  reset e = record {
    correlator = k.renew e.correlator;
    buffers = [];
    max_scores = [];
    suppressed = [];
  }
