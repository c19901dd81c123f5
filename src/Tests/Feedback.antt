-- ===== src/Tests/Feedback.antt =====
-- The learning loop at concrete inputs: two runs that worked, one that failed.
use intelliops.Base.{pos, true, false, List, [], ◌∷◌, ◌++◌, ◌≡◌, arith}
use intelliops.Contracts.{TrainingRecord, RemediationResult}
use intelliops.Tests.Data.{run_of, outcome_of}
use intelliops.Feedback.Label.{label_outcome}
use intelliops.Feedback.Consumer.{State, Config, handle, run}
use intelliops.Feedback.Consumer.Once.{Balanced, run-Balanced, handle_calls, NoEvidence, Asks}

abbrev runs : List TrainingRecord
runs =
    run_of RemediationResult.success true
    ∷ run_of RemediationResult.success true
    ∷ run_of RemediationResult.failure false
    ∷ []

abbrev config : Config
config = record { min_successes = pos 1; count_simulated = false; has_demoter = true }

abbrev nothing : State
nothing = record { store = []; graduated = []; calls = [] }

run-Balanced_example : Balanced "pb-1" (
    run config
      (outcome_of RemediationResult.success ∷ outcome_of RemediationResult.failure ∷ [])
      nothing)
run-Balanced_example =
    run-Balanced "pb-1" config
      (outcome_of RemediationResult.success ∷ outcome_of RemediationResult.failure ∷ []) nothing
      (omega arith)

handle_calls_example :
    let o = outcome_of RemediationResult.success in
    let s' = handle config o nothing in
    (NoEvidence o → s' ≡ nothing)
    × (¬ NoEvidence o → (s'.store ≡ [] ++ (label_outcome o ∷ [])) × Asks config o nothing s')
handle_calls_example = handle_calls config (outcome_of RemediationResult.success) nothing
