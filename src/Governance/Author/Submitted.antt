-- ===== src/Governance/Author/Submitted.antt =====
-- services/governance/adapters/runbook_author.py: where a draft of the agent comes from.
use intelliops.Base.{
  List, length, ◌⊎◌, ◌∙◌, nat_eq, ◌≡◌, if◌then◌else◌, ◌∷◌, ℕ, zero, suc, String, refl, inl, inr,
  Bool, true, false, Option, none, some, [], arith, if_rule, Option-cases, Floats,
}
use intelliops.Base.Json.{Json, Items, Fields, nil, cons, member, member_or}
use intelliops.Action.Effects.{Result, ok, raised}
use intelliops.Governance.Author.{
  Response, message_of, classified, answered, rate_limited, terminal, can_sleep, rate_limit_delay,
  system, user, assistant, assistant_calls, tool, Conversation, Author, Work, call_model, Handled,
  submitted, content, broken, handle_tool_call, handled_as, function_of, Answered, draft, go_on,
  failed, answer_calls, call_id, calls_of, Rest, after_calls, turn_taken, rounds, idle,
  draft_runbook, at_least_one, nudge, Draft, submission, is_submit, raw_arguments,
}
use intelliops.Governance.Author.Protocol.{handle_same}

module _ (fl : Floats) (a : Author fl) where
  open fl use {F}

  -- A call of `submit_runbook` whose arguments make this draft.
  abbrev pub Submits : Draft F → Json F → Type 0
  Submits d call =
      (f : Fields F) × (function_of fl a call ≡ some f)
      × (is_submit fl a (member_or "name" f (Json.text "")) ≡ true)
      × (submission fl a (raw_arguments fl a f) ≡ some d)

  -- The last request of the run was answered with 200 and this turn of the model.
  abbrev pub LastTurn : Fields F → Work fl a → Type 0
  LastTurn turn w =
      (messages : Conversation F) × (earlier : List (Conversation F)) × (r : Response F) × (w.sent
        ≡ messages ∷ earlier)
      × (a.post (length earlier) messages ≡ some r)
      × (r.status_code ≡ 200)
      × (message_of fl a r.body ≡ some turn)

  abbrev pub Among : Json F → Items F → Type 0
  Among call nil = ⊥
  Among call (cons c cs) = (c ≡ call) ⊎ Among call cs

  -- How a run ends: without a draft, or with one that the model's last turn submitted.
  abbrev pub IsSubmitted : Option (Draft F) × Work fl a → Type 0
  IsSubmitted (none, w) = Unit
  IsSubmitted (some d, w) =
      (turn : Fields F) × (calls : Items F) × (call : Json F) × LastTurn turn w
      × (calls_of fl a turn ≡ ok calls)
      × Among call calls
      × Submits d call

  handled_Submits :
      (call : Json F) (f : Fields F) (w : Work fl a) (d : Draft F)
      → function_of fl a call ≡ some f
      → (handled_as fl a f w).0 ≡ submitted d
      → Submits d call
  unfolding handled_as
  handled_Submits call f w d e h = (f, e, ground arith, ground arith)

  handle_Submits :
      (call : Json F) (w : Work fl a) (d : Draft F)
      → (handle_tool_call fl a call w).0 ≡ submitted d
      → Submits d call
  unfolding handle_tool_call
  handle_Submits call w d h = elim (Option-cases (function_of fl a call)) [
    | inl e ↦ absurd (ground arith)
    | inr (f, e) ↦ handled_Submits call f w d e (ground arith)
  ]

  -- A draft is submitted by one of the calls, and no request was made meanwhile.
  abbrev DraftOf : Items F → Work fl a → Answered fl a × Work fl a → Type 0
  DraftOf calls w (draft d, w') =
      (call : Json F) × Among call calls × Submits d call × (w'.sent ≡ w.sent)
  DraftOf calls w (go_on messages, w') = Unit
  DraftOf calls w (failed, w') = Unit

  later :
      (call : Json F) (calls : Items F) (w w' : Work fl a) (x : Answered fl a × Work fl a)
      → w'.sent ≡ w.sent
      → DraftOf calls w' x
      → DraftOf (cons call calls) w x
  later call calls w w' (draft d, v) same (c, there, submits, kept) =
      (c, inr there, submits, kept ∙ same)
  later call calls w w' (go_on messages, v) same of = tt
  later call calls w w' (failed, v) same of = tt

  answer_calls-DraftOf :
      (calls : Items F) (messages : Conversation F) (w : Work fl a)
      → DraftOf calls w (answer_calls fl a calls messages w)
  unfolding answer_calls
  answer_calls-DraftOf nil messages w = tt
  answer_calls-DraftOf (cons call calls) messages w =
      go (handle_tool_call fl a call w) (handle_Submits call w) (handle_same fl a call w).0
        (λ x w'. answer_calls-DraftOf calls (tool (call_id fl a call) (a.dumps x) ∷ messages) w')
    where
      go :
          (x : Handled fl a × Work fl a)
          → ((d : Draft F) → x.0 ≡ submitted d → Submits d call)
          → x.1.sent ≡ w.sent
          → ((y : Json F) (w' : Work fl a)
              → DraftOf calls w'
                  (answer_calls fl a calls (tool (call_id fl a call) (a.dumps y) ∷ messages) w'))
          → DraftOf (cons call calls) w (
              let out : Answered fl a × Work fl a = elim (x.0) [
                | submitted d ↦ (draft d, x.1)
                | content y ↦
                    answer_calls fl a calls (tool (call_id fl a call) (a.dumps y) ∷ messages) x.1
                | broken ↦ (failed, x.1)
              ] in
              out)
      go (submitted d, w') of same next = (call, inl refl, of d refl, same)
      go (content y, w') of same next = later call calls w w' _ same (next y w')
      go (broken, w') of same next = tt

  turn-IsSubmitted :
      (rest : Rest fl a) (turn : Fields F) (messages : Conversation F) (nudged : Bool)
      (w : Work fl a)
      → LastTurn turn w
      → ((messages : Conversation F) (nudged : Bool) (w : Work fl a)
          → IsSubmitted (rest messages nudged w))
      → IsSubmitted (turn_taken fl a rest turn messages nudged w)
  unfolding turn_taken
  turn-IsSubmitted rest turn messages nudged w last next = go (calls_of fl a turn) refl
    where
      moved : (w' : Work fl a) → w'.sent ≡ w.sent → LastTurn turn w'
      moved w' same =
          let (asked, earlier, r, sent, posted, fine, told) = last in
          (asked, earlier, r, same ∙ sent, posted, fine, told)

      after :
          (calls : Items F) (x : Answered fl a × Work fl a)
          → calls_of fl a turn ≡ ok calls
          → DraftOf calls w x
          → IsSubmitted (after_calls fl a rest x)
      after calls (draft d, w') e (call, there, submits, same) =
          (turn, calls, call, moved w' same, e, there, submits)
      after calls (go_on messages', w') e of = next messages' false w'
      after calls (failed, w') e of = tt

      said : Option (Json F)
      said = member "content" turn

      go :
          (r : Result (Items F))
          → calls_of fl a turn ≡ r
          → IsSubmitted (
              let out : Option (Draft F) × Work fl a = elim r [
                | raised ↦ (none, w)
                | ok calls ↦ elim calls [
                  | nil ↦
                      if nudged
                      then rest (assistant said ∷ messages) true w
                      else rest (nudge fl a ∷ assistant said ∷ messages) true w
                  | cons call more ↦ after_calls fl a rest (
                      answer_calls fl a
                        (cons call more)
                        (assistant_calls said (cons call more) ∷ messages)
                        w)
                ]
              ] in
              out)
      go raised e = tt
      go (ok nil) e =
          if_rule IsSubmitted nudged _ _ (λ _. next (assistant said ∷ messages) true w)
            (λ _. next (nudge fl a ∷ assistant said ∷ messages) true w)
      go (ok (cons call more)) e =
          after (cons call more) _ e (answer_calls-DraftOf (cons call more) _ w)

  -- What a call of the model answers is the turn of its last request.
  abbrev Told : Option (Fields F) × Work fl a → Type 0
  Told x = (turn : Fields F) → x.0 ≡ some turn → LastTurn turn x.1

  no_turn : (w : Work fl a) → Told (none, w)
  no_turn w turn e = absurd (ground arith)

  classified_ok :
      (o : Option (Response F)) (r : Response F)
      → classified fl a o ≡ answered r
      → (o ≡ some r) × (r.status_code ≡ 200)
  unfolding classified
  classified_ok none r e = absurd (ground arith)
  classified_ok (some x) r e = ground arith

  call_model-Told :
      (n : ℕ) (messages : Conversation F) (w : Work fl a) → Told (call_model fl a n messages w)
  unfolding call_model
  call_model-Told zero messages w = no_turn w
  call_model-Told (suc n) messages w =
      let w' = record w { sent = messages ∷ w.sent } in
      elim (classified fl a (a.post (length w.sent) messages))
          as (λ p.
            classified fl a (a.post (length w.sent) messages) ≡ p
            → Told (
                let x : Option (Fields F) × Work fl a = elim p [
                  | answered r ↦ (message_of fl a r.body, w')
                  | terminal ↦ (none, w')
                  | rate_limited advised ↦
                      if nat_eq n 0
                      then (none, w')
                      else if can_sleep fl (rate_limit_delay fl advised)
                      then call_model fl a n messages
                          (record w' { slept = rate_limit_delay fl advised ∷ w'.slept })
                      else (none, w')
                ] in
                x)) [
                  | answered r ↦ λ e turn told.
                      let (posted, fine) = classified_ok _ r e in
                      (messages, w.sent, r, refl, posted, fine, told)
                  | terminal ↦ λ e. no_turn w'
                  | rate_limited advised ↦ λ e.
                      if_rule Told (nat_eq n 0) _ _ (λ _. no_turn w')
                        (λ _.
                          if_rule Told (can_sleep fl (rate_limit_delay fl advised)) _ _
                            (λ _. call_model-Told n messages _) (λ _. no_turn w'))
                ]
        refl

  rounds-IsSubmitted :
      (k : ℕ) (messages : Conversation F) (nudged : Bool) (w : Work fl a)
      → IsSubmitted (rounds fl a k messages nudged w)
  unfolding rounds
  rounds-IsSubmitted zero messages nudged w = tt
  rounds-IsSubmitted (suc k) messages nudged w =
      go (call_model fl a (at_least_one a.max_attempts) messages w)
        (call_model-Told (at_least_one a.max_attempts) messages w) (rounds-IsSubmitted k)
    where
      go :
          (x : Option (Fields F) × Work fl a)
          → Told x
          → ((messages : Conversation F) (nudged : Bool) (w : Work fl a)
              → IsSubmitted (rounds fl a k messages nudged w))
          → IsSubmitted (
              let out : Option (Draft F) × Work fl a = elim (x.0) [
                | none ↦ (none, x.1)
                | some t ↦ turn_taken fl a (rounds fl a k) t messages nudged x.1
              ] in
              out)
      go (none, w') told next = tt
      go (some t, w') told next =
          turn-IsSubmitted (rounds fl a k) t messages nudged w' (told t refl) next

  -- A draft is what the model submitted: the last request of the run was answered with 200, and
  -- among the tool calls of the turn in that answer there is a call of `submit_runbook` whose
  -- arguments parse and validate to just this playbook, rationale and list of facts.
  pub draft_runbook-IsSubmitted :
      (prompt request : String) → IsSubmitted (draft_runbook fl a prompt request)
  unfolding draft_runbook
  draft_runbook-IsSubmitted prompt request =
      if_rule IsSubmitted a.has_toolbox _ _
        (λ _.
          rounds-IsSubmitted (at_least_one a.max_rounds) (user request ∷ system prompt ∷ []) false
            (idle fl a))
        (λ _. tt)
