-- ===== src/Feedback/Metrics.antt =====
-- services/feedback/metrics.py
use intelliops.Base.{
  ℕ, ◌+◌, ◌-◌, pos, nat_eq, Bool, ◌&&◌, String, ◌==◌, ==_iff, List, [], ◌∷◌, length, ◌≡◌, refl,
  arith, count, if◌then◌else◌, Floats,
}
use intelliops.Base.Dict.{Dict, lookup, insert, lookup_or, lookup-insert}
use intelliops.Contracts.{
  TrainingRecord, RemediationResult, success, failure, rolled_back, escalated,
}

pub record ByResult : Type 0 where
  pub successes : ℕ
  pub failures : ℕ
  pub rollbacks : ℕ
  pub escalations : ℕ

pub record Worked : Type 0 where
  pub worked : ℕ
  pub total : ℕ

unfoldable pub add_result : RemediationResult → ByResult → ByResult
add_result success b = record b { successes = b.successes + 1 }
add_result failure b = record b { failures = b.failures + 1 }
add_result rolled_back b = record b { rollbacks = b.rollbacks + 1 }
add_result escalated b = record b { escalations = b.escalations + 1 }

abbrev pub no_runs : Worked
no_runs = record { worked = 0; total = 0 }

unfoldable pub add_run : Bool → Worked → Worked
add_run worked w = record { worked = w.worked + (if worked then 1 else 0); total = w.total + 1 }

-- The loop of `compute_metrics`, from the counters so far.
unfoldable pub count_from : ByResult → Dict Worked → List TrainingRecord → ByResult × Dict Worked
count_from b d [] = (b, d)
count_from b d (r ∷ rs) =
    count_from (add_result r.result b)
      (insert r.signature (add_run r.worked (lookup_or r.signature d no_runs)) d) rs

pub record Metrics (F : Type 0) : Type 0 where
  pub total_outcomes : ℕ
  pub success_rate : F
  pub rollback_rate : F
  pub failure_rate : F
  pub by_result : ByResult
  pub by_signature : Dict Worked

module _ (fl : Floats) where
  open fl use {F, lit, div}

  -- `rate`, over the attempts
  unfoldable pub rate : ℕ → ℕ → F
  rate attempted n =
      if nat_eq attempted 0 then lit (pos 0) 0 else div (lit (pos n) 0) (lit (pos attempted) 0)

  unfoldable pub compute_metrics : List TrainingRecord → Metrics F
  compute_metrics records =
      let (b, d) =
        count_from (record { successes = 0; failures = 0; rollbacks = 0; escalations = 0 }) []
          records in
      let attempted = length records - b.escalations in
      record {
        total_outcomes = length records;
        success_rate = rate attempted b.successes;
        rollback_rate = rate attempted b.rollbacks;
        failure_rate = rate attempted b.failures;
        by_result = b;
        by_signature = d;
      }

abbrev total_of : ByResult → ℕ
total_of b = b.successes + b.failures + b.rollbacks + b.escalations

count_from-total :
    (b : ByResult) (d : Dict Worked) (rs : List TrainingRecord)
    → total_of (count_from b d rs).0 ≡ total_of b + length rs
unfolding count_from add_result
count_from-total b d [] = omega arith
count_from-total b d (r ∷ rs) = ground (
  arith,
  count_from-total (add_result r.result b)
      (insert r.signature (add_run r.worked (lookup_or r.signature d no_runs)) d) rs,
)

-- The runs on a signature, in what follows.
abbrev runs_on : String → TrainingRecord → Bool
runs_on s r = r.signature == s

lookup_or-insert :
    (k j : String) (v w : Worked) (d : Dict Worked)
    → lookup_or j (insert k v d) w ≡ (if k == j then v else lookup_or j d w)
unfolding lookup_or
lookup_or-insert k j v w d = ground (arith, lookup-insert k j v d)

count_from-signature :
    (s : String) (b : ByResult) (d : Dict Worked) (rs : List TrainingRecord)
    → lookup_or s (count_from b d rs).1 no_runs ≡ record {
      worked = (lookup_or s d no_runs).worked + count (λ r. runs_on s r && r.worked) rs;
      total = (lookup_or s d no_runs).total + count (runs_on s) rs;
    }
unfolding count_from add_run
count_from-signature s b d [] = ground arith
count_from-signature s b d (r ∷ rs) =
    let v = add_run r.worked (lookup_or r.signature d no_runs) in
    ground (
      arith,
      ==_iff r.signature s,
      lookup_or-insert r.signature s v no_runs d,
      count_from-signature s (add_result r.result b) (insert r.signature v d) rs,
    )

-- The numbers reconcile: successes, rollbacks and failures add up to the attempts that the rates
-- are over (all outcomes but the escalations), and each signature's entry counts its runs and
-- those that worked.
pub compute_metrics_reconcile :
    (fl : Floats) (rs : List TrainingRecord) (s : String)
    → let m = compute_metrics fl rs in
      (m.by_result.successes + m.by_result.rollbacks + m.by_result.failures
        ≡ m.total_outcomes - m.by_result.escalations)
      × (m.total_outcomes ≡ length rs)
      × (lookup_or s m.by_signature no_runs ≡ record {
        worked = count (λ r. runs_on s r && r.worked) rs;
        total = count (runs_on s) rs;
      })
unfolding compute_metrics lookup_or lookup
compute_metrics_reconcile fl rs s =
    let b : ByResult = record { successes = 0; failures = 0; rollbacks = 0; escalations = 0 } in
    (omega (arith, count_from-total b [] rs), refl, ground (arith, count_from-signature s b [] rs))
