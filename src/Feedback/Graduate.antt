-- ===== src/Feedback/Graduate.antt =====
-- services/feedback/graduate.py
use intelliops.Base.{
  ℕ, ◌+◌, ℤ, pos, leb_ℤ, ◌≤ℤ◌, nat_eq, Bool, true, false, not, ◌&&◌, String, ◌==◌, Option, some,
  none, List, [], ◌∷◌, ◌≡◌, ◌↔◌, arith, count, if◌then◌else◌,
}
use intelliops.Contracts.{
  TrainingRecord, RemediationResult, success, failure, rolled_back, escalated,
}

pub record Stats : Type 0 where
  pub successes : ℕ
  pub failures : ℕ
  pub rollbacks : ℕ

-- `mode in _SIMULATED_MODES`
unfoldable pub is_simulated : Option String → Bool
is_simulated none = false
is_simulated (some mode) = mode == "dry_run"

-- What one record of the playbook adds.
unfoldable pub tally : Bool → RemediationResult → Option String → Stats → Stats
tally count_simulated success mode s =
    if is_simulated mode && not count_simulated then s else record s { successes = s.successes + 1 }
tally count_simulated failure mode s = record s { failures = s.failures + 1 }
tally count_simulated rolled_back mode s = record s { rollbacks = s.rollbacks + 1 }
tally count_simulated escalated mode s = s

unfoldable pub stats_from : String → Bool → Stats → List TrainingRecord → Stats
stats_from playbook_id count_simulated s [] = s
stats_from playbook_id count_simulated s (r ∷ rs) =
    stats_from playbook_id count_simulated
      (if r.playbook_id == playbook_id then tally count_simulated r.result r.mode s else s) rs

unfoldable pub playbook_stats : List TrainingRecord → String → Bool → Stats
playbook_stats records playbook_id count_simulated =
    stats_from playbook_id count_simulated (record { successes = 0; failures = 0; rollbacks = 0 })
      records

unfoldable pub should_graduate : Stats → ℤ → Bool
should_graduate s min_successes =
    leb_ℤ min_successes (pos s.successes) && nat_eq s.failures 0 && nat_eq s.rollbacks 0

-- The records that speak for a playbook, and those that speak against it.
abbrev pub speaks_for : String → Bool → TrainingRecord → Bool
speaks_for id simulated r =
    r.playbook_id == id
    && (elim (r.result) [ success ↦ not (is_simulated r.mode && not simulated) | _ ↦ false ])

abbrev pub speaks_against : String → TrainingRecord → Bool
speaks_against id r =
    r.playbook_id == id && (elim (r.result) [ failure ↦ true | rolled_back ↦ true | _ ↦ false ])

tally-count :
    (id : String) (sim : Bool) (s : Stats) (r : TrainingRecord)
    → let s' : Stats = if r.playbook_id == id then tally sim r.result r.mode s else s in
      (s'.successes ≡ s.successes + (if speaks_for id sim r then 1 else 0))
      × (s'.failures + s'.rollbacks
          ≡ s.failures + s.rollbacks + (if speaks_against id r then 1 else 0))
unfolding tally
tally-count id sim s r = ground arith

stats_from-count :
    (id : String) (sim : Bool) (s : Stats) (rs : List TrainingRecord)
    → ((stats_from id sim s rs).successes ≡ s.successes + count (speaks_for id sim) rs)
      × ((stats_from id sim s rs).failures + (stats_from id sim s rs).rollbacks
          ≡ s.failures + s.rollbacks + count (speaks_against id) rs)
unfolding stats_from
stats_from-count id sim s [] = omega arith
stats_from-count id sim s (r ∷ rs) =
    let s' : Stats = if r.playbook_id == id then tally sim r.result r.mode s else s in
    omega (arith, tally-count id sim s r, stats_from-count id sim s' rs)

-- A playbook graduates exactly when at least `min_successes` records speak for it (successes, and
-- not simulated ones unless those count) and none of its records is a failure or a rollback;
-- escalations are no evidence either way.
pub should_graduate_iff :
    (rs : List TrainingRecord) (id : String) (sim : Bool) (min_successes : ℤ)
    → (should_graduate (playbook_stats rs id sim) min_successes ≡ true)
      ↔ ((min_successes ≤ℤ pos (count (speaks_for id sim) rs)) × (count (speaks_against id) rs ≡ 0))
unfolding should_graduate playbook_stats
should_graduate_iff rs id sim n =
    let e = stats_from-count id sim (record { successes = 0; failures = 0; rollbacks = 0 }) rs in
    (λ h. ground (arith, e), λ h. ground (arith, e))
