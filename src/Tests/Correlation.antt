-- ===== src/Tests/Correlation.antt =====
-- The engine at concrete inputs: a correlator that scores every event 9 and knows one signature.
use intelliops.Base.{
  All, Bool, ℕ, ltb, leb, pos, true, false, String, ◌==◌, none, List, [], ◌∷◌, refl, if◌then◌else◌,
}
use intelliops.Base.Dict.{lookup, lookup_or}
use intelliops.Contracts.{RemediationResult, TrainingRecord}
use intelliops.Tests.{floats}
use intelliops.Tests.Data.{sit, event_at, run_of}
use intelliops.Correlation.Policy.{DetectionPolicy}
use intelliops.Correlation.Engine.{Correlator, Config, E, key_of, add, correlate_buffer, flush_all}
use intelliops.Correlation.Consumer.{State, Sent, listed, finish}
use intelliops.Correlation.Consumer.Drained.{Published, handle-Published}
use intelliops.Correlation.Engine.Grouping.{Valid, OfOneKey, GoesOut, add-IsGrouped}
use intelliops.Correlation.Engine.Windows.{Closed, correlate_buffer-Closed}

abbrev policy : DetectionPolicy ℕ
policy = record {
  enabled = true;
  ratio_limit = 20;
  saturation_ratio = 950;
  saturation_percent = 95000;
  latency_ceiling_ms = 500000;
}

abbrev same : String → String
same s = s

abbrev rows : List TrainingRecord
rows = run_of RemediationResult.success true ∷ run_of RemediationResult.failure false ∷ []

abbrev correlator : Correlator floats
correlator = record {
  S = Unit {0};
  detect = λ _ s. (9000, s);
  is_anomaly_scored = λ _ score _. ltb 5000 score;
  severity_band = λ score. if leb 8000 score then "high" else "low";
  digest = λ s. s;
  baseline_snapshot = λ _. none;
  should_suppress = λ s _. s == "f1";
  retrain = λ _ s. s;
  Row = ℕ;
  snapshot = λ _. [];
  load = λ _ s. s;
  renew = λ s. s;
}

abbrev config : Config
config = record { window = pos 60; by_service = true; min_events = 2; quiet = true }

abbrev engine : E floats correlator config
engine = record {
  correlator = tt;
  buffers = ("checkout", event_at 10 ∷ event_at 20 ∷ []) ∷ ("search", event_at 15 ∷ []) ∷ [];
  max_scores = ("checkout", 9000) ∷ [];
  suppressed = [];
}

abbrev one_bucket : E floats correlator config
one_bucket = record engine { buffers = ("checkout", event_at 10 ∷ event_at 20 ∷ []) ∷ [] }

one_bucket-Valid : Valid floats correlator config one_bucket
unfolding key_of lookup_or lookup
one_bucket-Valid = (((refl, (refl, tt)), tt), tt)

add-IsGrouped_example :
    let (out, e) = add floats correlator config (event_at 90) one_bucket in
    let (outs, e') = flush_all floats correlator config one_bucket in
    Valid floats correlator config e
    × GoesOut floats correlator config (key_of config (event_at 90)) out
    × Valid floats correlator config e'
    × All (OfOneKey floats correlator config) outs
add-IsGrouped_example =
    add-IsGrouped floats correlator config (event_at 90) one_bucket one_bucket-Valid

correlate_buffer-Closed_example :
    Closed floats correlator config "checkout" engine
      (correlate_buffer floats correlator config "checkout" engine)
correlate_buffer-Closed_example = correlate_buffer-Closed floats correlator config "checkout" engine

-- A consumer whose engine has two open buckets and one situation in its queue.
abbrev consumer : State floats correlator config (λ l x. true)
consumer = record { engine = record engine { suppressed = sit ∷ [] }; sent = [] }

handle-Published_example :
    let up : List (Sent ℕ) → Sent ℕ → Bool = λ l x. true in
    let e = consumer.engine in
    let (out, e') = add floats correlator config (event_at 90) e in
    let (outs, e'') = flush_all floats correlator config e in
    Published floats correlator config up
      (λ l x. refl)
      (listed floats correlator config up out)
      e'
      consumer
      (intelliops.Correlation.Consumer.handle floats correlator config up (event_at 90) consumer)
    × Published floats correlator config up
        (λ l x. refl)
        outs
        e''
        consumer
        (finish floats correlator config up consumer)
handle-Published_example =
    handle-Published floats correlator config (λ l x. true) (λ l x. refl) (event_at 90) consumer
