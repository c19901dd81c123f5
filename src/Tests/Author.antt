-- ===== src/Tests/Author.antt =====
-- The drafting agent against an endpoint that asks for a tool, then submits: the first request is
-- refused for its rate.
use intelliops.Base.{
  ◌≡◌, if◌then◌else◌, ◌∷◌, ◌==◌, ℕ, zero, suc, String, refl, true, none, some, [],
}
use intelliops.Base.Json.{Json, Items, null, text, arr, obj, nil, cons, end, field, member}
use intelliops.Contracts.{HitlMode}
use intelliops.Action.Effects.{ok}
use intelliops.Governance.Author.{
  Author, Response, draft_runbook, rounds, turn_taken, call_model, classified, parse_retry_after,
  answer_calls, handle_tool_call, handled_as, submission, parse_submit_arguments,
  inject_placeholder_id, rate_limit_delay,
}
use intelliops.Governance.Author.Protocol.{Within}
use intelliops.Governance.Author.Rounds.{draft_runbook-Within}
use intelliops.Governance.Author.Submitted.{IsSubmitted, draft_runbook-IsSubmitted}
use intelliops.Tests.{floats}
use intelliops.Tests.Data.{playbook}
use intelliops.Tests.Rca.{floats-asymmetric}

abbrev call : (id name arguments : String) → Json ℕ
call id name arguments = obj (
    field "id" (text id) (
      field "function" (obj (field "name" (text name) (field "arguments" (text arguments) end)))
        end))

abbrev turn : Items ℕ → Json ℕ
turn calls = obj (
    field "choices"
      (arr (cons (obj (field "message" (obj (field "tool_calls" (arr calls) end)) end)) nil)) end)

abbrev reply : ℕ → Response ℕ
reply zero = record { status_code = 429; retry_after = some "20"; body = none }
reply (suc zero) = record {
  status_code = 200;
  retry_after = none;
  body = some (turn (cons (call "c1" "get_system_context" "{}") nil));
}
reply (suc (suc n)) = record {
  status_code = 200;
  retry_after = none;
  body = some (turn (cons (call "c2" "submit_runbook" "draft") nil));
}

abbrev submitted_json : Json ℕ
submitted_json = obj (
    field "playbook" (obj (field "name" (text "restart it") end))
      (field "rationale" (text "it hangs") (field "cited_facts" (arr nil) end)))

abbrev author : Author floats
author = record {
  post = λ n messages. some (reply n);
  loads = λ s. if s == "draft" then some submitted_json else some (obj end);
  dumps = λ x. "{}";
  validate = λ x. some (playbook HitlMode.hitl);
  dispatch = λ n name arguments. ok null;
  advised = λ s. none;
  max_attempts = 3;
  max_rounds = 9;
  has_toolbox = true;
}

draft_runbook-Within_example : Within floats author 27 (draft_runbook floats author "p" "r").1
draft_runbook-Within_example = draft_runbook-Within floats author floats-asymmetric "p" "r"

draft_runbook-IsSubmitted_example : IsSubmitted floats author (draft_runbook floats author "p" "r")
draft_runbook-IsSubmitted_example = draft_runbook-IsSubmitted floats author "p" "r"

-- The run of the example ends with a draft, after three requests and one delay of 15 seconds.
draft_runbook_run : draft_runbook floats author "p" "r" ≡ (
  some (playbook HitlMode.hitl, text "it hangs", nil),
  record (draft_runbook floats author "p" "r").1 { slept = 15000 ∷ []; dispatched = 1 },
)
unfolding draft_runbook rounds turn_taken call_model classified parse_retry_after answer_calls
    handle_tool_call handled_as submission parse_submit_arguments inject_placeholder_id
    rate_limit_delay member
draft_runbook_run = refl
