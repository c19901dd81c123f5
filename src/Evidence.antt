-- ===== src/Evidence.antt =====
-- common/evidence.py: the real runs of a fix, and whether they let it run without a human.
pub mod Counting
use intelliops.Base.{
  ℕ, ◌+◌, ℤ, pos, pos_part, leb, nat_eq, Bool, false, not, ◌&&◌, ◌||◌, String, ◌<>◌, ◌==◌, show_ℤ,
  Option, none, some, List, [], ◌∷◌, Floats, filter, if◌then◌else◌,
}
use intelliops.Contracts.{TrainingRecord}

-- `mode not in {None, "dry_run", "none"}`
unfoldable pub is_real_mode : Option String → Bool
is_real_mode none = false
is_real_mode (some mode) = not (mode == "dry_run" || mode == "none")

abbrev pub is_real : TrainingRecord → Bool
is_real r = is_real_mode r.mode

unfoldable pub real_records : List TrainingRecord → List TrainingRecord
real_records = filter is_real

pub record TrackRecord : Type 0 where
  pub worked : ℕ
  pub total : ℕ

-- `TrackRecord.__str__`
unfoldable pub show_record : TrackRecord → String
show_record t = show_ℤ (pos t.worked) <> "/" <> show_ℤ (pos t.total) <> " real runs worked"

-- `playbook_id is not None and record.playbook_id != playbook_id`
abbrev pub is_other : Option String → TrainingRecord → Bool
is_other none r = false
is_other (some id) r = not (r.playbook_id == id)

-- Whether the loop passes the record over.
abbrev pub passes_over : String → Option String → TrainingRecord → Bool
passes_over signature playbook_id r =
    not (is_real r) || not (r.signature == signature) || is_other playbook_id r

-- The loop of `track_record`, from the counts so far.
unfoldable pub track_from : String → Option String → TrackRecord → List TrainingRecord → TrackRecord
track_from signature playbook_id t [] = t
track_from signature playbook_id t (r ∷ rs) =
    track_from signature playbook_id
      (if passes_over signature playbook_id r
        then t
        else record { worked = t.worked + (if r.worked then 1 else 0); total = t.total + 1 })
      rs

unfoldable pub track_record : List TrainingRecord → String → Option String → TrackRecord
track_record records signature playbook_id =
    track_from signature playbook_id (record { worked = 0; total = 0 }) records

-- `max(1, n)`
abbrev pub at_least_one : ℤ → ℕ
at_least_one n = if leb 1 (pos_part n) then pos_part n else 1

module _ (fl : Floats) where
  open fl use {F, lit, div, le}

  unfoldable pub ratio : TrackRecord → F
  ratio t =
      if nat_eq t.total 0 then lit (pos 0) 0 else div (lit (pos t.worked) 0) (lit (pos t.total) 0)

  unfoldable pub quiet_eligible : List TrainingRecord → String → String → F → ℤ → Bool × TrackRecord
  quiet_eligible records signature playbook_id threshold min_samples =
      let t = track_record records signature (some playbook_id) in
      (leb (at_least_one min_samples) t.total && le threshold (ratio t), t)
