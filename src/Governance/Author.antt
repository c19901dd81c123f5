-- ===== src/Governance/Author.antt =====
-- services/governance/adapters/runbook_author.py: the calls of the chat endpoint, with their retries,
-- and the agent that drafts a runbook by calling tools. The endpoint, json.loads, json.dumps, the
-- validation of a playbook, the toolbox and the search for an advised delay are parameters. Log
-- messages and the trace, which changes nothing else, are left out.
pub mod Protocol
pub mod Rounds
pub mod Submitted
pub mod SingleShot
use intelliops.Base.{
  if◌then◌else◌, ◌∷◌, ◌+◌, ◌==◌, ℕ, zero, suc, String, Bool, true, false, Option, none, some, List,
  [], length, nat_eq, Floats, pos, feq, fmin,
}
use intelliops.Base.Json.{
  Json, Items, Fields, null, text, arr, obj, nil, cons, end, field, member, member_or, at_key,
  first_item, truthy,
}
use intelliops.Contracts.{Playbook}
use intelliops.Action.Effects.{Result, ok, raised}

-- What the server answers.
pub record Response (F : Type 0) : Type 0 where
  pub status_code : ℕ
  -- the header, if there is one, and the body, if it is JSON
  pub retry_after : Option String
  pub body : Option (Json F)

-- A message of the conversation. A turn of the model with tool calls is sent back as it came.
pub data Message (F : Type 0) : Type 0 where
  system : String → Message F
  user : String → Message F
  assistant : (content : Option (Json F)) → Message F
  assistant_calls : (content : Option (Json F)) → Items F → Message F
  tool : (call_id : Option (Json F)) → (content : String) → Message F

-- The conversation, the latest message first.
abbrev pub Conversation : Type 0 → Type 0
Conversation F = List (Message F)

abbrev pub Draft : Type 0 → Type 0
Draft F = Playbook × Json F × Items F

pub record Author (fl : Floats) : Type 1 where
  -- the answer to the nth request; `none` is an httpx.HTTPError
  pub post : ℕ → Conversation fl.F → Option (Response fl.F)
  pub loads : String → Option (Json fl.F)
  pub dumps : Json fl.F → String
  -- `Playbook.model_validate`
  pub validate : Json fl.F → Option Playbook
  -- the nth call of `toolbox.dispatch`
  pub dispatch : ℕ → Json fl.F → Fields fl.F → Result (Json fl.F)
  -- the minutes and the seconds of "try again in …", as the texts that match
  pub advised : String → Option (Option String × String)
  pub max_attempts : ℕ
  pub max_rounds : ℕ
  -- whether a toolbox can be made for the situation
  pub has_toolbox : Bool

-- `max(1, n)`
abbrev pub at_least_one : ℕ → ℕ
at_least_one zero = 1
at_least_one (suc n) = suc n

module _ (fl : Floats) where
  open fl use {F, lit, add, mul, parse, le}

  -- `_inject_placeholder_id`
  unfoldable pub inject_placeholder_id : Json F → Json F
  inject_placeholder_id (obj d) = elim (member "id" d) [
    | none ↦ obj (field "id" (text "ai-draft-pending") d)
    | some _ ↦ obj d
  ]
  inject_placeholder_id x = x

  abbrev or_default : Option F → F
  or_default none = lit (pos 5) 0
  or_default (some s) = if feq fl s (lit (pos 0) 0) then lit (pos 5) 0 else s

  -- `_rate_limit_delay`: a delay of 0.0 counts as none.
  unfoldable pub rate_limit_delay : Option F → F
  rate_limit_delay advised = fmin fl (or_default advised) (lit (pos 15) 0)

  -- Whether `time.sleep` takes the delay: it raises on one that is negative or not a number.
  abbrev pub can_sleep : F → Bool
  can_sleep delay = le (lit (pos 0) 0) delay

  module _ (a : Author fl) where
    abbrev pub total_seconds : Option String → String → Option F
    total_seconds minutes seconds = elim (parse seconds) [
      | none ↦ none
      | some s ↦ elim minutes [
        | none ↦ some (add (mul (lit (pos 0) 0) (lit (pos 60) 0)) s)
        | some m ↦ elim (parse m) [ none ↦ none | some m' ↦ some (add (mul m' (lit (pos 60) 0)) s) ]
      ]
    ]

    abbrev delay_in : Json F → Option F
    delay_in (text message) = elim (a.advised message) [
      | none ↦ none
      | some (minutes, seconds) ↦ total_seconds minutes seconds
    ]
    delay_in _ = none

    -- `body.get("error", {}).get("message", "")`
    abbrev error_message : Json F → Option (Json F)
    error_message (obj d) = elim (member_or "error" d (obj end)) [
      | obj e ↦ some (member_or "message" e (text ""))
      | _ ↦ none
    ]
    error_message _ = some (text "")

    abbrev advised_in_body : Option (Json F) → Option F
    advised_in_body none = none
    advised_in_body (some body) = elim (error_message body) [ none ↦ none | some m ↦ delay_in m ]

    -- `_parse_retry_after`: the header, or what the body says.
    unfoldable pub parse_retry_after : Response F → Option F
    parse_retry_after r = elim (r.retry_after) [
      | none ↦ advised_in_body r.body
      | some h ↦
          if h == ""
          then advised_in_body r.body
          else elim (parse h) [ none ↦ advised_in_body r.body | some s ↦ some s ]
    ]

    pub data Posted : Type 0 where
      answered : Response F → Posted
      rate_limited : Option F → Posted
      terminal : Posted

    -- `_post_chat_completion`
    unfoldable pub classified : Option (Response F) → Posted
    classified none = terminal
    classified (some r) =
        if nat_eq r.status_code 429
        then rate_limited (parse_retry_after r)
        else if nat_eq r.status_code 200
        then answered r
        else terminal

    -- `body["choices"][0]["message"]`, if it is an object
    abbrev pub message_of : Option (Json F) → Option (Fields F)
    message_of none = none
    message_of (some body) = elim (at_key "choices" body) [
      | none ↦ none
      | some choices ↦ elim (first_item choices) [
        | none ↦ none
        | some choice ↦ elim (at_key "message" choice) [
          | none ↦ none
          | some m ↦ elim m [ obj d ↦ some d | _ ↦ none ]
        ]
      ]
    ]

    -- What a run has done: the conversations sent, the delays slept and the calls of the toolbox.
    pub record Work : Type 0 where
      pub sent : List (Conversation F)
      pub slept : List F
      pub dispatched : ℕ

    -- `_call_model`, with so many attempts left. A delay that cannot be slept raises, which is no
    -- draft of the run as well.
    unfoldable pub call_model : ℕ → Conversation F → Work → Option (Fields F) × Work
    call_model zero messages w = (none, w)
    call_model (suc attempts) messages w =
        let w' = record w { sent = messages ∷ w.sent } in
        elim (classified (a.post (length w.sent) messages)) [
          | answered r ↦ (message_of r.body, w')
          | terminal ↦ (none, w')
          | rate_limited advised ↦
              if nat_eq attempts 0
              then (none, w')
              else if can_sleep (rate_limit_delay advised)
              then call_model attempts messages
                  (record w' { slept = rate_limit_delay advised ∷ w.slept })
              else (none, w')
        ]

    -- `json.loads` of any value: a TypeError of what is no text
    abbrev pub loads_any : Json F → Option (Json F)
    loads_any (text s) = a.loads s
    loads_any _ = none

    -- `_parse_submit_arguments`
    unfoldable pub parse_submit_arguments : Json F → Option (Fields F × Json F × Items F)
    parse_submit_arguments raw = elim (loads_any raw) [
      | none ↦ none
      | some parsed ↦ elim parsed [
        | obj d ↦ elim (member "playbook" d) [
          | none ↦ none
          | some playbook ↦ elim playbook [
            | obj p ↦ elim (member_or "cited_facts" d (arr nil)) [
              | arr facts ↦ some (p, member_or "rationale" d (text ""), facts)
              | _ ↦ none
            ]
            | _ ↦ none
          ]
        ]
        | _ ↦ none
      ]
    ]

    -- A submission: the draft, if it validates.
    unfoldable pub submission : Json F → Option (Draft F)
    submission raw = elim (parse_submit_arguments raw) [
      | none ↦ none
      | some (p, rationale, facts) ↦ elim (a.validate (inject_placeholder_id (obj p))) [
        | none ↦ none
        | some playbook ↦ some (playbook, rationale, facts)
      ]
    ]

    abbrev tool_arguments : Json F → Fields F
    tool_arguments raw = elim (loads_any raw) [
      | none ↦ end
      | some x ↦ elim x [ obj d ↦ d | _ ↦ end ]
    ]

    pub data Handled : Type 0 where
      submitted : Draft F → Handled
      content : Json F → Handled
      -- an exception that leaves `_handle_tool_call`
      broken : Handled

    abbrev error_of : String → Json F
    error_of why = obj (field "error" (text why) end)

    -- A tool that raised is answered by the name of its exception, which is not told apart here.
    abbrev dispatched_content : Result (Json F) → Json F
    dispatched_content (ok x) = x
    dispatched_content raised = error_of "exception"

    abbrev pub is_submit : Json F → Bool
    is_submit (text s) = s == "submit_runbook"
    is_submit _ = false

    -- `call.get("function", {}) or {}`; `none` is an AttributeError.
    abbrev pub function_of : Json F → Option (Fields F)
    function_of (obj d) =
        let f = member_or "function" d (obj end) in
        if truthy fl f then elim f [ obj e ↦ some e | _ ↦ none ] else some end
    function_of _ = none

    abbrev pub raw_arguments : Fields F → Json F
    raw_arguments f =
        let raw = member_or "arguments" f null in if truthy fl raw then raw else text "{}"

    unfoldable pub handled_as : Fields F → Work → Handled × Work
    handled_as f w =
        let name = member_or "name" f (text "") in
        let raw = raw_arguments f in
        if is_submit name
        then elim (submission raw) [
          | some draft ↦ (submitted draft, w)
          | none ↦ (content (error_of "invalid; fix and resubmit"), w)
        ]
        else (
          content (dispatched_content (a.dispatch w.dispatched name (tool_arguments raw))),
          record w { dispatched = w.dispatched + 1 },
        )

    -- `_handle_tool_call`
    unfoldable pub handle_tool_call : Json F → Work → Handled × Work
    handle_tool_call call w = elim (function_of call) [
      | none ↦ (broken, w)
      | some f ↦ handled_as f w
    ]

    abbrev pub call_id : Json F → Option (Json F)
    call_id call = at_key "id" call

    -- How the tool calls of a turn end.
    pub data Answered : Type 0 where
      draft : Draft F → Answered
      go_on : Conversation F → Answered
      failed : Answered

    unfoldable pub answer_calls : Items F → Conversation F → Work → Answered × Work
    answer_calls nil messages w = (go_on messages, w)
    answer_calls (cons call calls) messages w =
        let (h, w') = handle_tool_call call w in
        elim h [
          | submitted d ↦ (draft d, w')
          | content x ↦ answer_calls calls (tool (call_id call) (a.dumps x) ∷ messages) w'
          | broken ↦ (failed, w')
        ]

    -- A turn of the model: the calls that it makes; none of them, if it makes none. A value that is
    -- truthy and no list cannot be gone through.
    abbrev pub calls_of : Fields F → Result (Items F)
    calls_of turn =
        let calls = member_or "tool_calls" turn null in
        if truthy fl calls then elim calls [ arr xs ↦ ok xs | _ ↦ raised ] else ok nil

    abbrev pub nudge : Message F
    nudge = user "Call submit_runbook to finish."

    -- What the rest of the run does with the messages, whether the model was nudged, and the work.
    abbrev pub Rest : Type 0
    Rest = Conversation F → Bool → Work → Option (Draft F) × Work

    abbrev pub after_calls : Rest → Answered × Work → Option (Draft F) × Work
    after_calls rest (draft d, w) = (some d, w)
    after_calls rest (go_on messages, w) = rest messages false w
    after_calls rest (failed, w) = (none, w)

    unfoldable pub turn_taken :
        Rest → Fields F → Conversation F → Bool → Work → Option (Draft F) × Work
    turn_taken rest turn messages nudged w = elim (calls_of turn) [
      | raised ↦ (none, w)
      | ok calls ↦ elim calls [
        | nil ↦
            let said = assistant (member "content" turn) ∷ messages in
            if nudged then rest said true w else rest (nudge ∷ said) true w
        | cons call more ↦ after_calls rest (
            answer_calls (cons call more)
              (assistant_calls (member "content" turn) (cons call more) ∷ messages) w)
      ]
    ]

    -- The rounds that are left.
    unfoldable pub rounds : ℕ → Rest
    rounds zero messages nudged w = (none, w)
    rounds (suc n) messages nudged w =
        let (turn, w') = call_model (at_least_one a.max_attempts) messages w in
        elim turn [ none ↦ (none, w') | some t ↦ turn_taken (rounds n) t messages nudged w' ]

    abbrev pub idle : Work
    idle = record { sent = []; slept = []; dispatched = 0 }

    -- `draft`: what the rounds make of the two first messages; an exception is no draft.
    unfoldable pub draft_runbook : (prompt request : String) → Option (Draft F) × Work
    draft_runbook prompt request =
        if a.has_toolbox
        then rounds (at_least_one a.max_rounds) (user request ∷ system prompt ∷ []) false idle
        else (none, idle)
