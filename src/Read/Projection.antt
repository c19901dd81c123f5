-- ===== src/Read/Projection.antt =====
-- services/read/projection.py: the cards and the outcome history. The lock makes each method one
-- step; the subscribers that are told of a change are not modelled.
pub mod Bounds
pub mod History
use intelliops.Base.{
  ℕ, ◌+◌, ◌-◌, ltb, leb, pos, Bool, true, false, not, ◌&&◌, ◌<>◌, ◌==◌, Option, none, some, List,
  [], ◌∷◌, length, take, Floats, if◌then◌else◌,
}
use intelliops.Base.Dict.{lookup, insert}
use intelliops.Read.Card.{
  epoch_ms, status_text, result_text, mode_text, result_status, is_evictable, severity_of, Card,
  Entry, ReadModel, service_of, project_events, set_default,
}
use intelliops.Contracts.{Situation, DiagnosedSituation, RemediationOutcome, is_success}

module _ (fl : Floats) where
  open fl use {F, lit}

  -- The card of a situation that is not held, or whose held card is finished.
  unfoldable pub new_card : Situation F → Card F
  new_card s = record {
    id = s.id;
    signature = s.signature;
    service = service_of s.member_events;
    title = s.signature;
    status = status_text s.status;
    severity = severity_of s.severity;
    member_count = length s.member_events;
    member_events = project_events s.member_events;
    peak_score = s.peak_score;
    baseline = s.baseline;
    first_seen = epoch_ms s.first_seen;
    last_seen = epoch_ms s.last_seen;
    hypotheses = [];
    suggested_runbook_id = none;
    hitl_mode = "hitl";
    reversible = true;
    reliability = lit (pos 0) 0;
    suppressed = false;
    handling = s.handling;
    last_activity = epoch_ms s.first_seen;
    stages = ("detected", epoch_ms s.first_seen) ∷ [];
    outcome = none;
  }

  -- The card of a situation over the one that is held.
  unfoldable pub renewed : Situation F → Card F → Card F
  renewed s c = record c {
    id = s.id;
    signature = s.signature;
    service = service_of s.member_events;
    title = s.signature;
    status =
        if leb c.first_seen (epoch_ms s.first_seen)
          && leb (epoch_ms s.first_seen) c.first_seen
          && not (c.status == "detected")
        then c.status
        else status_text s.status;
    severity = severity_of s.severity;
    member_count = length s.member_events;
    member_events = project_events s.member_events;
    peak_score = s.peak_score;
    baseline = s.baseline;
    first_seen = epoch_ms s.first_seen;
    last_seen = epoch_ms s.last_seen;
    suppressed = false;
    handling = s.handling;
    stages = set_default "detected" (epoch_ms s.first_seen) c.stages;
  }

  abbrev pub put : Card F → ReadModel F → ReadModel F
  put c m = record m { sits = insert c.id c m.sits }

  -- What a detection makes of the held card; `none` where it is stale.
  unfoldable pub folded : Situation F → Option (Card F) → Option (Card F)
  folded s none = some (new_card s)
  folded s (some c) =
      if ltb (epoch_ms s.first_seen) c.first_seen
      then none
      else if ltb c.first_seen (epoch_ms s.first_seen) && is_evictable c.status
      then some (new_card s)
      else some (renewed s c)

  -- `_apply_detected`
  unfoldable pub apply_detected : Situation F → ReadModel F → Bool × ReadModel F
  apply_detected s m = elim (folded s (lookup s.id m.sits)) [
    | none ↦ (false, m)
    | some c ↦ (true, put c m)
  ]

  -- What a diagnosis adds to the card.
  unfoldable pub explained : DiagnosedSituation F → Card F → Card F
  explained d c = record c {
    hypotheses = d.hypotheses;
    suggested_runbook_id = d.suggested_runbook_id;
    title = elim (d.hypotheses) [
      | [] ↦ d.situation.signature
      | h ∷ _ ↦ h.description <> " · " <> c.service
    ];
    stages = insert "diagnosed" (epoch_ms d.situation.last_seen) c.stages;
    status = if c.status == "detected" then "diagnosed" else c.status;
  }

  -- `_apply_diagnosed`
  unfoldable pub apply_diagnosed : DiagnosedSituation F → ReadModel F → Bool × ReadModel F
  apply_diagnosed d m = elim (folded d.situation (lookup d.situation.id m.sits)) [
    | none ↦ (false, m)
    | some c ↦ (true, put (explained d c) m)
  ]

  -- What an outcome makes of the card that is held.
  unfoldable pub finished : RemediationOutcome → Card F → Card F
  finished o c = record c {
    status = result_status o.result;
    last_activity = epoch_ms o.ts;
    stages = insert (result_status o.result) (epoch_ms o.ts) c.stages;
    outcome = some (record {
      result = result_text o.result;
      health_after = o.health_after;
      mode = o.mode;
      steps = o.steps;
      preflight = o.preflight;
      handling = o.handling;
    });
  }

  -- The time to repair: of a success of a held situation, if it is not negative.
  unfoldable pub mttr_of : RemediationOutcome → Option (Card F) → Option ℕ
  mttr_of o none = none
  mttr_of o (some c) =
      if is_success o.result && leb c.first_seen (epoch_ms o.ts)
      then some (epoch_ms o.ts - c.first_seen)
      else none

  unfoldable pub entry_of : RemediationOutcome → Option (Card F) → Entry
  entry_of o held = record {
    situation_id = o.situation_id;
    playbook_id = o.playbook_id;
    result = result_text o.result;
    reason = o.health_after;
    ts = epoch_ms o.ts;
    service = elim held [ none ↦ "unknown" | some c ↦ c.service ];
    hitl_mode = mode_text o.hitl_mode;
    mode = o.mode;
    handling = o.handling;
    mttr_ms = mttr_of o held;
  }

  -- `_apply_outcome`
  unfoldable pub apply_outcome : RemediationOutcome → ReadModel F → ReadModel F
  apply_outcome o m =
      let held = lookup o.situation_id m.sits in
      record m {
        sits = elim held [ none ↦ m.sits | some c ↦ insert o.situation_id (finished o c) m.sits ];
        outcomes = take m.max_outcomes (entry_of o held ∷ m.outcomes);
      }

  unfoldable pub apply_suppressed : Situation F → ReadModel F → ReadModel F
  apply_suppressed s m = record m { suppressed_count = m.suppressed_count + 1 }

  unfoldable pub reset : ReadModel F → ReadModel F
  reset m = record m { sits = []; outcomes = []; suppressed_count = 0 }

-- What arrives on the four topics.
pub data Event (F : Type 0) : Type 0 where
  detection : Situation F → Event F
  diagnosis : DiagnosedSituation F → Event F
  outcome : RemediationOutcome → Event F
  suppression : Situation F → Event F

module _ (fl : Floats) where
  unfoldable pub apply : Event fl.F → ReadModel fl.F → ReadModel fl.F
  apply (detection s) m = (apply_detected fl s m).1
  apply (diagnosis d) m = (apply_diagnosed fl d m).1
  apply (outcome o) m = apply_outcome fl o m
  apply (suppression s) m = apply_suppressed fl s m

  -- A stream of events, in the order in which they were applied.
  unfoldable pub replay : List (Event fl.F) → ReadModel fl.F → ReadModel fl.F
  replay [] m = m
  replay (e ∷ es) m = replay es (apply e m)
