-- ===== src/Governance/Author/Protocol.antt =====
-- What the endpoint is sent: conversations in which every tool call is answered.
use intelliops.Base.{
  Asymmetric, ◌≡◌, if◌then◌else◌, ◌∷◌, ◌+◌, ◌≤◌, ℕ, zero, suc, sym, refl, subst, Bool, true, false,
  Option, none, some, List, [], arith, length, all, All, if_rule, nat_eq, Floats, pos,
}
use intelliops.Base.Json.{Json, Items, Fields, nil, cons, member}
use intelliops.Action.Effects.{Result, ok, raised}
use intelliops.Governance.Author.{
  can_sleep, assistant, assistant_calls, tool, Conversation, Author, answered, rate_limited,
  terminal, Work, call_model, classified, message_of, Handled, submitted, content, broken,
  handle_tool_call, handled_as, function_of, Answered, draft, go_on, failed, answer_calls, call_id,
  calls_of, Rest, after_calls, turn_taken, nudge, rate_limit_delay, Draft,
}

module _ (fl : Floats) (a : Author fl) where
  open fl use {F}

  abbrev pub ids_of : Items F → List (Option (Json F))
  ids_of nil = []
  ids_of (cons call calls) = call_id fl a call ∷ ids_of calls

  -- The conversation, the latest message first, would be complete with replies of these ids after it:
  -- every turn with tool calls is followed by one reply for each of them, in their order, and no reply
  -- stands elsewhere.
  abbrev pub Answers : List (Option (Json F)) → Conversation F → Type 0
  Answers ids [] = ids ≡ []
  Answers ids (tool id s ∷ c) = Answers (id ∷ ids) c
  Answers ids (assistant_calls said calls ∷ c) = (ids ≡ ids_of calls) × Answers [] c
  Answers ids (m ∷ c) = (ids ≡ []) × Answers [] c

  abbrev pub IsAnswered : Conversation F → Type 0
  IsAnswered = Answers []

  -- A run that has made at most n requests, each with an answered conversation, and has slept at
  -- most as often, never for more than 15 seconds.
  abbrev pub Within : ℕ → Work fl a → Type 0
  Within n w =
      (length w.sent ≤ n)
      × All IsAnswered w.sent
      × (length w.slept ≤ length w.sent)
      × All (λ s. fl.lt (fl.lit (pos 15) 0) s ≡ false) w.slept

  pub more-Within : (m n : ℕ) (w : Work fl a) → m ≤ n → Within m w → Within n w
  more-Within m n w le (p, q, r, s) = (omega arith, q, r, s)

  -- Handling a call sends nothing, and does not sleep.
  handled_same :
      (f : Fields F) (w : Work fl a)
      → ((handled_as fl a f w).1.sent ≡ w.sent) × ((handled_as fl a f w).1.slept ≡ w.slept)
  unfolding handled_as
  handled_same f w = ground arith

  pub handle_same :
      (call : Json F) (w : Work fl a)
      → ((handle_tool_call fl a call w).1.sent ≡ w.sent)
        × ((handle_tool_call fl a call w).1.slept ≡ w.slept)
  unfolding handle_tool_call
  handle_same call w =
      elim (function_of fl a call)
        as (λ o.
          let x : Handled fl a × Work fl a = elim o [
            | none ↦ (broken, w)
            | some f ↦ handled_as fl a f w
          ] in
          (x.1.sent ≡ w.sent) × (x.1.slept ≡ w.slept)) [
            | none ↦ (refl, refl)
            | some f ↦ handled_same f w
          ]

  handle-Within :
      (n : ℕ) (call : Json F) (w : Work fl a)
      → Within n w
      → Within n (handle_tool_call fl a call w).1
  handle-Within n call w h =
      let (p, q) = handle_same call w in
      (
        subst (λ l. length l ≤ n) (sym p) h.0,
        subst (All IsAnswered) (sym p) h.1,
        subst (λ l. length (handle_tool_call fl a call w).1.slept ≤ length l) (sym p)
            (subst (λ l. length l ≤ length w.sent) (sym q) h.2),
        subst (All (λ s. fl.lt (fl.lit (pos 15) 0) s ≡ false)) (sym q) h.3,
      )

  pub delay_short :
      Asymmetric fl
      → (advised : Option F) → fl.lt (fl.lit (pos 15) 0) (rate_limit_delay fl advised) ≡ false
  unfolding rate_limit_delay
  delay_short asym advised = ground (arith, asym (fl.lit (pos 15) 0) (fl.lit (pos 15) 0))

  module _ (asym : Asymmetric fl) where
    pub call_model-Within :
        (n m : ℕ) (messages : Conversation F) (w : Work fl a)
        → IsAnswered messages
        → Within m w
        → Within (m + n) (call_model fl a n messages w).1
    unfolding call_model
    call_model-Within zero m messages w h all = more-Within m (m + zero) w (omega arith) all
    call_model-Within (suc n) m messages w h (p, q, r, s) =
        let w' = record w { sent = messages ∷ w.sent } in
        let here : Within (suc m) w' = (omega arith, (h, q), omega arith, s) in
        let enough : Within (m + suc n) w' =
          more-Within (suc m) (m + suc n) w' (omega arith) here in
        elim (classified fl a (a.post (length w.sent) messages))
          as (λ p.
            Within (m + suc n)
              (let x : Option (Fields F) × Work fl a = elim p [
                | answered r ↦ (message_of fl a r.body, w')
                | terminal ↦ (none, w')
                | rate_limited advised ↦
                    if nat_eq n 0
                    then (none, w')
                    else if can_sleep fl (rate_limit_delay fl advised)
                    then call_model fl a n messages
                        (record w' { slept = rate_limit_delay fl advised ∷ w'.slept })
                    else (none, w')
              ] in
                x).1) [
                  | answered r ↦ enough
                  | terminal ↦ enough
                  | rate_limited advised ↦
                      let w'' = record w' { slept = rate_limit_delay fl advised ∷ w'.slept } in
                      let Good : Option (Fields F) × Work fl a → Type 0 =
                        λ x. Within (m + suc n) x.1 in
                      if_rule Good (nat_eq n 0) _ _ (λ _. enough)
                        (λ _.
                          if_rule Good (can_sleep fl (rate_limit_delay fl advised))
                            (call_model fl a n messages w'') (none, w')
                            (λ _.
                              more-Within (suc m + n) (m + suc n) (call_model fl a n messages w'').1
                                (omega arith)
                                (call_model-Within n (suc m) messages w'' h (
                                  omega arith,
                                  (h, q),
                                  omega arith,
                                  (delay_short asym advised, s),
                                )))
                            (λ _. enough))
                ]

  -- The replies of a turn complete the conversation.
  abbrev AnswersOf : Answered fl a → Type 0
  AnswersOf (draft d) = Unit
  AnswersOf (go_on messages) = IsAnswered messages
  AnswersOf failed = Unit

  answer_calls-Within :
      (calls : Items F) (n : ℕ) (messages : Conversation F) (w : Work fl a)
      → Answers (ids_of calls) messages
      → Within n w
      → AnswersOf (answer_calls fl a calls messages w).0
        × Within n (answer_calls fl a calls messages w).1
  unfolding answer_calls
  answer_calls-Within nil n messages w h all = (h, all)
  answer_calls-Within (cons call calls) n messages w h all =
      go (handle_tool_call fl a call w) (handle-Within n call w all)
        (λ x w'. answer_calls-Within calls n (tool (call_id fl a call) (a.dumps x) ∷ messages) w' h)
    where
      go :
          (x : Handled fl a × Work fl a)
          → Within n x.1
          → ((y : Json F) (w' : Work fl a)
              → Within n w'
              → AnswersOf
                  (answer_calls fl a calls (tool (call_id fl a call) (a.dumps y) ∷ messages) w').0
                × Within n
                    (answer_calls fl a calls
                      (tool (call_id fl a call) (a.dumps y) ∷ messages)
                      w').1)
          → let out : Answered fl a × Work fl a = elim (x.0) [
            | submitted d ↦ (draft d, x.1)
            | content y ↦
                answer_calls fl a calls (tool (call_id fl a call) (a.dumps y) ∷ messages) x.1
            | broken ↦ (failed, x.1)
          ] in
            AnswersOf out.0 × Within n out.1
      go (submitted d, w') k next = (tt, k)
      go (content y, w') k next = next y w' k
      go (broken, w') k next = (tt, k)

  module _ (n : ℕ) where
    -- What the rest of a run does with an answered conversation.
    abbrev pub Continues : ℕ → Rest fl a → Type 0
    Continues k rest =
        (messages : Conversation F) (nudged : Bool) (w : Work fl a)
        → IsAnswered messages
        → Within n w
        → Within (n + k) (rest messages nudged w).1

    pub turn-Within :
        (k : ℕ) (rest : Rest fl a) (turn : Fields F) (messages : Conversation F) (nudged : Bool)
        (w : Work fl a)
        → Continues k rest
        → IsAnswered messages
        → Within n w
        → Within (n + k) (turn_taken fl a rest turn messages nudged w).1
    unfolding turn_taken
    turn-Within k rest turn messages nudged w next h all = go (calls_of fl a turn)
      where
        after :
            (x : Answered fl a × Work fl a)
            → AnswersOf x.0 × Within n x.1
            → Within (n + k) (after_calls fl a rest x).1
        after (draft d, w') (p, q) = more-Within n (n + k) w' (omega arith) q
        after (go_on messages', w') (p, q) = next messages' false w' p q
        after (failed, w') (p, q) = more-Within n (n + k) w' (omega arith) q

        said : Option (Json F)
        said = member "content" turn

        go :
            (r : Result (Items F))
            → Within
                (n + k)
                (let out : Option (Draft F) × Work fl a = elim r [
                  | raised ↦ (none, w)
                  | ok calls ↦ elim calls [
                    | nil ↦
                        if nudged
                        then rest (assistant said ∷ messages) true w
                        else rest (nudge fl a ∷ assistant said ∷ messages) true w
                    | cons call more ↦ after_calls fl a rest (
                        answer_calls fl a
                          (cons call more)
                          (assistant_calls said (cons call more) ∷ messages)
                          w)
                  ]
                ] in
                  out).1
        go raised = more-Within n (n + k) w (omega arith) all
        go (ok nil) =
            if_rule (λ (x : Option (Draft F) × Work fl a). Within (n + k) x.1) nudged _ _
              (λ _. next (assistant said ∷ messages) true w (refl, h) all)
              (λ _. next (nudge fl a ∷ assistant said ∷ messages) true w (refl, (refl, h)) all)
        go (ok (cons call more)) = after _ (
            answer_calls-Within (cons call more) n
              (assistant_calls said (cons call more) ∷ messages) w (refl, h) all)
