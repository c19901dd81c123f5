-- ===== src/Feedback/Consumer.antt =====
-- services/feedback/consumer.py: label each outcome, graduate a playbook on a clean record, and
-- demote one that failed unattended.
pub mod Once
use intelliops.Base.{
  ℤ, Bool, true, false, not, ◌&&◌, ◌||◌, String, ◌==◌, starts_with, List, [], ◌∷◌, ◌++◌, any,
  filter, if◌then◌else◌,
}
use intelliops.Contracts.{
  RemediationOutcome, TrainingRecord, RemediationResult, failure, rolled_back, is_escalated,
  is_auto,
}
use intelliops.Feedback.Label.{label_outcome}
use intelliops.Feedback.Graduate.{playbook_stats, should_graduate}

-- What the consumer asks governance to do.
pub data Call : Type 0 where
  graduate demote : String → Call

-- The training store, the set `graduated`, and the calls made, the latest first.
pub record State : Type 0 where
  pub store : List TrainingRecord
  pub graduated : List String
  pub calls : List Call

pub record Config : Type 0 where
  pub min_successes : ℤ
  pub count_simulated : Bool
  -- whether a `demoter` was given
  pub has_demoter : Bool

-- `pid in graduated`, `graduated.discard(pid)`, `graduated.add(pid)`
abbrev pub member : String → List String → Bool
member pid = any (λ x. x == pid)

abbrev pub discard : String → List String → List String
discard pid = filter (λ x. not (x == pid))

abbrev pub add : String → List String → List String
add pid set = if member pid set then set else pid ∷ set

abbrev pub did_fail : RemediationResult → Bool
did_fail failure = true
did_fail rolled_back = true
did_fail _ = false

unfoldable pub is_ignored : RemediationOutcome → Bool
is_ignored o = is_escalated o.result || starts_with "interrupted:" o.health_after

unfoldable pub append_record : RemediationOutcome → State → State
append_record o s = record s { store = s.store ++ (label_outcome o ∷ []) }

unfoldable pub demotes : Config → RemediationOutcome → Bool
demotes config o =
    not (o.playbook_id == "") && config.has_demoter && is_auto o.hitl_mode && did_fail o.result

unfoldable pub demote_failed : String → State → State
demote_failed pid s = record s {
  graduated = discard pid s.graduated;
  calls = Call.demote pid ∷ s.calls;
}

unfoldable pub graduate_clean : Config → String → State → State
graduate_clean config pid s =
    if not (pid == "")
      && not (member pid s.graduated)
      && should_graduate (playbook_stats s.store pid config.count_simulated) config.min_successes
    then record s { graduated = add pid s.graduated; calls = Call.graduate pid ∷ s.calls }
    else s

-- The body of `run_consumer`'s loop.
unfoldable pub handle : Config → RemediationOutcome → State → State
handle config o s =
    if is_ignored o
    then s
    else let s' = append_record o s in
      if demotes config o
      then demote_failed o.playbook_id s'
      else graduate_clean config o.playbook_id s'

unfoldable pub run : Config → List RemediationOutcome → State → State
run config [] s = s
run config (o ∷ os) s = run config os (handle config o s)
