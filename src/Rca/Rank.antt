-- ===== src/Rca/Rank.antt =====
-- services/rca/rank.py: the hypotheses that the rules propose, their scores and their order, and the
-- choice of a runbook. str.lower is a parameter; a deploy is a dict of texts.
pub mod Order
pub mod Proposals
use intelliops.Base.{
  pos, Bool, true, false, ◌||◌, String, ◌<>◌, ◌==◌, contains, joined, Option, none, some, List, [],
  ◌∷◌, ◌++◌, map, any, Floats, feq, fmin, fmax, if◌then◌else◌,
}
use intelliops.Base.Dict.{Dict, lookup}
use intelliops.Contracts.{TelemetryEvent, TelemetryKind, Situation, RootCauseHypothesis, Playbook}
use intelliops.Action.Effects.{Result, ok, raised}

-- `EnrichmentContext`; the topology and the changes are kept as their texts.
pub record EnrichmentContext : Type 0 where
  pub recent_deploys : List (Dict String)
  pub topology : String
  pub config_changes : List String

-- `PlaybookStore.get`, at one of its calls.
abbrev pub Find : Type 0
Find = String → Result (Option Playbook)

pub record Selector (F : Type 0) : Type 0 where
  pub score : Situation F → RootCauseHypothesis F → Playbook → Result (Option F)
  pub select : Situation F → RootCauseHypothesis F → Result (Option (String × F))

abbrev is_log : TelemetryKind → Bool
is_log TelemetryKind.log = true
is_log _ = false

-- `f"{d.get(key)}"`
abbrev shown : Option String → String
shown none = "None"
shown (some s) = s

-- `d.get("service") in services`
abbrev is_among : List String → Option String → Bool
is_among services none = false
is_among services (some s) = any (λ t. t == s) services

-- `next((d for d in deploys if d.get("service") in services), None)`
unfoldable pub first_deploy : List String → List (Dict String) → Option (Dict String)
first_deploy services [] = none
first_deploy services (d ∷ ds) =
    let rest = first_deploy services ds in
    if is_among services (lookup "service" d) then some d else rest

module _ (fl : Floats) where
  open fl use {F, lit, add, mul, lt}

  -- `_service_labels`
  unfoldable pub service_labels : List (TelemetryEvent F) → List String
  service_labels [] = []
  service_labels (e ∷ es) = elim (lookup "service" e.labels) [
    | none ↦ service_labels es
    | some s ↦ if s == "" then service_labels es else s ∷ service_labels es
  ]

  -- A hypothesis about the situation, with what the rules leave out.
  abbrev pub hypothesis :
      Situation F → String → F → List String → Option String → RootCauseHypothesis F
  hypothesis s description confidence evidence runbook = record {
    situation_id = s.id;
    description = description;
    confidence = confidence;
    evidence = evidence;
    suggested_runbook_id = runbook;
    explanation = none;
    explanation_source = none;
    confidence_source = none;
  }

  -- What is appended, of the hypotheses that stand under a test each.
  abbrev pub chosen : List (Bool × RootCauseHypothesis F) → List (RootCauseHypothesis F)
  chosen [] = []
  chosen ((b, h) ∷ rules) = if b then h ∷ chosen rules else chosen rules

  unfoldable pub deploy_found : Situation F → Option (Dict String) → List (RootCauseHypothesis F)
  deploy_found s none = []
  deploy_found s (some d) =
      hypothesis s
        ("recent deployment of "
          <> shown (lookup "service" d)
          <> " ("
          <> shown (lookup "version" d)
          <> ") preceded the incident")
        (lit (pos 8) 1)
        (("deploy " <> shown (lookup "service" d) <> "@" <> shown (lookup "version" d)) ∷ [])
        (some "rollback-deploy")
      ∷ []

  -- A recent deploy that touches one of the situation's services.
  unfoldable pub deploy_rule : Situation F → EnrichmentContext → List (RootCauseHypothesis F)
  deploy_rule s context =
      deploy_found s (first_deploy (service_labels s.member_events) context.recent_deploys)

  -- The rules on the names of the metrics and on errors, in the order in which they are tried.
  unfoldable pub rules :
      (String → String) → Situation F → String → List (Bool × RootCauseHypothesis F)
  rules lower s names =
      let evidence = ("metrics: " <> names) ∷ [] in
      (
        contains "service_up" names,
        hypothesis s "service is down — the process stopped serving" (lit (pos 7) 1) evidence
            (some "restart-pod"),
      )
      ∷ (
        contains "memory" names,
        hypothesis s "memory pressure / leak — recycle the process" (lit (pos 65) 2) evidence
            (some "restart-pod"),
      )
      ∷ (
        any (λ token. contains token names) ("cpu" ∷ "disk" ∷ "saturation" ∷ []),
        hypothesis s "resource saturation across the affected service" (lit (pos 6) 1) evidence
            (some "scale-service"),
      )
      ∷ (
        any (λ token. contains token names)
            ("latency" ∷ "duration" ∷ "queue_depth" ∷ "request_rate" ∷ []),
        hypothesis s "latency/queueing under load — capacity contention" (lit (pos 55) 2) evidence
            (some "scale-service"),
      )
      ∷ (
        contains "db_pool" names,
        hypothesis s "database connection-pool exhaustion — recycle connections" (lit (pos 62) 2)
            evidence (some "restart-pod"),
      )
      ∷ (
        any (λ (e : TelemetryEvent F). is_log e.kind || contains "error" (lower e.name))
            s.member_events,
        hypothesis s "error spike in service logs" (lit (pos 58) 2)
            ("log/error events present" ∷ []) (some "restart-pod"),
      )
      ∷ []

  unfoldable pub fallback : Situation F → RootCauseHypothesis F
  fallback s = hypothesis s "root cause undetermined from available signals" (lit (pos 2) 1) [] none

  -- The names of the events, in lower case.
  abbrev pub names_of : (String → String) → Situation F → String
  names_of lower s = joined " " (map (λ (e : TelemetryEvent F). lower e.name) s.member_events)

  unfoldable pub fired :
      (String → String) → Situation F → EnrichmentContext → List (RootCauseHypothesis F)
  fired lower s context = deploy_rule s context ++ chosen (rules lower s (names_of lower s))

  abbrev pub or_fallback : Situation F → List (RootCauseHypothesis F) → List (RootCauseHypothesis F)
  or_fallback s [] = fallback s ∷ []
  or_fallback s (h ∷ hs) = h ∷ hs

  unfoldable pub proposals :
      (String → String) → Situation F → EnrichmentContext → List (RootCauseHypothesis F)
  proposals lower s context = or_fallback s (fired lower s context)

  -- `min(1.0, max(0.0, x))` and `max(0.0, min(1.0, x))`
  abbrev pub clamped : F → F
  clamped x = fmin fl (lit (pos 1) 0) (fmax fl (lit (pos 0) 0) x)

  abbrev pub clamped_down_first : F → F
  clamped_down_first x = fmax fl (lit (pos 0) 0) (fmin fl (lit (pos 1) 0) x)

  -- The fit of a proposed runbook; none where it cannot be had, which an exception counts as.
  unfoldable pub fit : Find → Selector F → Situation F → RootCauseHypothesis F → String → Option F
  fit find selector s h id = elim (find id) [
    | raised ↦ none
    | ok found ↦ elim found [
      | none ↦ none
      | some playbook ↦ elim (selector.score s h playbook) [ raised ↦ none | ok f ↦ f ]
    ]
  ]

  abbrev pub stamped : RootCauseHypothesis F → Option F → RootCauseHypothesis F
  stamped h none = record h { confidence_source = some "rule" }
  stamped h (some f) = record h { confidence = clamped f; confidence_source = some "embedding" }

  -- The pass over one hypothesis: the fallback, which has no runbook, is left as it is. `scoring` is
  -- the store and the selector, where both are given.
  unfoldable pub rescored :
      Option (Find × Selector F) → Situation F → RootCauseHypothesis F → RootCauseHypothesis F
  rescored scoring s h = elim (h.suggested_runbook_id) [
    | none ↦ h
    | some id ↦ elim scoring [
      | none ↦ stamped h none
      | some (find, selector) ↦ stamped h (fit find selector s h id)
    ]
  ]

  -- `_reliability`
  unfoldable pub reliability : (String → String → F) → Situation F → RootCauseHypothesis F → F
  reliability provider s h = elim (h.suggested_runbook_id) [
    | none ↦ lit (pos 0) 0
    | some id ↦
        if s.signature == "" then lit (pos 0) 0 else clamped_down_first (provider s.signature id)
  ]

  -- `_score`, and the order of its pairs
  unfoldable pub score_of : (String → String → F) → Situation F → RootCauseHypothesis F → F × F
  score_of provider s h = (
    fmin fl (lit (pos 1) 0) (add h.confidence (mul (lit (pos 15) 2) (reliability provider s h))),
    h.confidence,
  )

  abbrev pub pair_lt : F × F → F × F → Bool
  pair_lt (a, b) (c, d) = if feq fl a c then lt b d else lt a c

-- `xs.sort(key=…, reverse=True)`: descending, and stable. `below x y` tells whether the key of x is
-- below the key of y.
module _ {A : Type 0} (below : A → A → Bool) where
  unfoldable pub insert_descending : A → List A → List A
  insert_descending x [] = x ∷ []
  insert_descending x (y ∷ ys) = if below x y then y ∷ insert_descending x ys else x ∷ y ∷ ys

  unfoldable pub sorted_descending : List A → List A
  sorted_descending [] = []
  sorted_descending (x ∷ xs) = insert_descending x (sorted_descending xs)

module _ (fl : Floats) where
  open fl use {F, lt}

  -- What the ranking goes by: the confidence alone, or the score that the track record boosts.
  unfoldable pub ranks_below :
      Option (String → String → F)
      → Situation F
      → RootCauseHypothesis F
      → RootCauseHypothesis F
      → Bool
  ranks_below none s h k = lt h.confidence k.confidence
  ranks_below (some provider) s h k =
      pair_lt fl (score_of fl provider s h) (score_of fl provider s k)

  unfoldable pub rank_hypotheses :
      (String → String)
      → Option (String → String → F)
      → Option (Find × Selector F)
      → Situation F
      → EnrichmentContext
      → List (RootCauseHypothesis F)
  rank_hypotheses lower provider scoring s context =
      sorted_descending (ranks_below provider s)
        (map (rescored fl scoring s) (proposals fl lower s context))

  unfoldable pub surface_runbook : List (RootCauseHypothesis F) → Find → Result (Option Playbook)
  surface_runbook [] find = ok none
  surface_runbook (h ∷ hs) find = elim (h.suggested_runbook_id) [
    | none ↦ ok none
    | some id ↦ find id
  ]

  -- `(playbook, score, source)`
  pub data Choice : Type 0 where
    by_rule : Playbook → Choice
    semantic : Playbook → F → Choice
    no_choice : Choice

  -- Only a registered playbook is honoured.
  unfoldable pub fetch_selected : Find → Option (String × F) → Result Choice
  fetch_selected find none = ok no_choice
  fetch_selected find (some (id, f)) = elim (find id) [
    | raised ↦ raised
    | ok found ↦ elim found [ none ↦ ok no_choice | some playbook ↦ ok (semantic playbook f) ]
  ]

  abbrev select_top : List (RootCauseHypothesis F) → Situation F → Find → Selector F → Result Choice
  select_top [] s find selector = ok no_choice
  select_top (h ∷ hs) s find selector = elim (selector.select s h) [
    | raised ↦ raised
    | ok hit ↦ fetch_selected find hit
  ]

  -- `find` is the store when the rules' runbook is read, `find_again` when the selected one is.
  unfoldable pub select_runbook :
      List (RootCauseHypothesis F)
      → Situation F
      → (find find_again : Find) → Selector F
      → Result Choice
  select_runbook hs s find find_again selector = elim (surface_runbook hs find) [
    | raised ↦ raised
    | ok found ↦ elim found [
      | some playbook ↦ ok (by_rule playbook)
      | none ↦ select_top hs s find_again selector
    ]
  ]
