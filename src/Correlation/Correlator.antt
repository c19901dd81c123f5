-- ===== src/Correlation/Correlator.antt =====
-- services/correlation/adapters/base_correlator.py: what every correlator shares, and the
-- `correlate` that river_correlator.py and robust_correlator.py have in common.
pub mod Retraining
use intelliops.Base.{
  ℕ, ◌+◌, ltb, pos, Bool, false, String, ◌<>◌, Option, some, none, List, [], ◌∷◌, Floats,
  if◌then◌else◌,
}
use intelliops.Base.Dict.{Dict, lookup, lookup_or, insert}
use intelliops.Contracts.{TelemetryEvent, Situation, TrainingRecord, detected}
use Prim.Native.Nat.{Ordering, min, max}
use Prim.Native.String.{compare}

-- A sorted set of texts: `sorted({…})`, built one by one.
unfoldable pub insert_sorted : String → List String → List String
insert_sorted x [] = x ∷ []
insert_sorted x (y ∷ ys) = elim (compare x y) [
  | Ordering.lt ↦ x ∷ y ∷ ys
  | Ordering.eq ↦ y ∷ ys
  | Ordering.gt ↦ y ∷ insert_sorted x ys
]

unfoldable pub sorted_set : List String → List String
sorted_set [] = []
sorted_set (x ∷ xs) = insert_sorted x (sorted_set xs)

-- `"|".join(parts)`
unfoldable pub join : List String → String
join [] = ""
join (x ∷ []) = x
join (x ∷ y ∷ ys) = x <> "|" <> join (y ∷ ys)

module _ {F : Type 0} where
  unfoldable pub fingerprints : List (TelemetryEvent F) → List String
  fingerprints [] = []
  fingerprints (e ∷ es) = e.fingerprint ∷ fingerprints es

  -- `_signature`, over the hex digest of a text, cut to 16 characters
  unfoldable pub signature : (String → String) → List (TelemetryEvent F) → String
  signature digest events = digest (join (sorted_set (fingerprints events)))

  -- `min(e.ts for e in events)` and `max(…)`, of a first event and the others
  unfoldable pub first_seen_of : ℕ → List (TelemetryEvent F) → ℕ
  first_seen_of t [] = t
  first_seen_of t (e ∷ es) = first_seen_of (min t e.ts) es

  unfoldable pub last_seen_of : ℕ → List (TelemetryEvent F) → ℕ
  last_seen_of t [] = t
  last_seen_of t (e ∷ es) = last_seen_of (max t e.ts) es

  -- `correlate`; `none` is its ValueError on no events.
  unfoldable pub correlate :
      (String → String) → List (TelemetryEvent F) → String → Option (Situation F)
  correlate digest [] severity = none
  correlate digest (e ∷ es) severity =
      let sig = signature digest (e ∷ es) in
      some (record {
        id = "sit-" <> sig;
        status = detected;
        member_events = e ∷ es;
        severity = severity;
        first_seen = first_seen_of e.ts es;
        last_seen = last_seen_of e.ts es;
        signature = sig;
        peak_score = none;
        baseline = none;
        handling = "normal";
      })

-- `_reliability` as the counts that it is made of, with `_samples`.
pub record Reliability : Type 0 where
  pub worked : Dict ℕ
  pub total : Dict ℕ

unfoldable pub retrain_from : Reliability → List TrainingRecord → Reliability
retrain_from m [] = m
retrain_from m (r ∷ rs) =
    let sig = r.signature in
    retrain_from
      (record {
        worked = if r.worked then insert sig (lookup_or sig m.worked 0 + 1) m.worked else m.worked;
        total = insert sig (lookup_or sig m.total 0 + 1) m.total;
      })
      rs

-- `retrain`: recomputed from nothing each time
unfoldable pub retrain : List TrainingRecord → Reliability
retrain records = retrain_from (record { worked = []; total = [] }) records

module _ (fl : Floats) where
  open fl use {F, lit, div, le}

  -- `reliability`
  unfoldable pub reliability : Reliability → String → F
  reliability m sig = elim (lookup sig m.total) [
    | none ↦ lit (pos 0) 0
    | some n ↦ div (lit (pos (lookup_or sig m.worked 0)) 0) (lit (pos n) 0)
  ]

  unfoldable pub should_suppress : Reliability → String → F → ℕ → Bool
  should_suppress m sig threshold min_samples =
      if ltb (lookup_or sig m.total 0) min_samples then false else le threshold (reliability m sig)

  -- `_severity_band`
  unfoldable pub severity_band : F → String
  severity_band score =
      if le (lit (pos 8) 0) score
      then "high"
      else if le (lit (pos 5) 0) score
      then "medium"
      else "low"
