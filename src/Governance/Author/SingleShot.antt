-- ===== src/Governance/Author/SingleShot.antt =====
-- services/governance/adapters/runbook_author.py, OpenAICompatibleRunbookAuthor: one request for a whole
-- draft, repeated while that may help.
use intelliops.Base.{
  ◌≡◌, if◌then◌else◌, ◌∷◌, ◌+◌, ◌≤◌, ℕ, zero, suc, sym, ap, refl, subst, Bool, false, Option, none,
  some, arith, length, All, if_rule, nat_eq, Floats, pos, Asymmetric,
}
use intelliops.Base.Json.{Json, at_key, first_item, truthy}
use intelliops.Contracts.{Playbook}
use intelliops.Governance.Author.Protocol.{delay_short}
use intelliops.Action.Effects.{Result, ok, raised}
use intelliops.Governance.Author.{
  can_sleep, Author, Conversation, Posted, answered, rate_limited, terminal, classified, Work,
  loads_any, inject_placeholder_id, rate_limit_delay, at_least_one, idle,
}

module _ (fl : Floats) (a : Author fl) where
  open fl use {F}

  -- A playbook and its rationale, if one was given.
  abbrev pub Drafted : Type 0
  Drafted = Playbook × Option (Json F)

  pub data Attempt : Type 0 where
    drafted : Drafted → Attempt
    invalid : Attempt
    limited : Option F → Attempt
    hopeless : Attempt

  -- `body["choices"][0]["message"]["content"]`
  abbrev pub content_of : Option (Json F) → Option (Json F)
  content_of none = none
  content_of (some body) = elim (at_key "choices" body) [
    | none ↦ none
    | some choices ↦ elim (first_item choices) [
      | none ↦ none
      | some choice ↦ elim (at_key "message" choice) [
        | none ↦ none
        | some message ↦ at_key "content" message
      ]
    ]
  ]

  -- What the parsed content comes to.
  unfoldable pub validated : Option (Json F) → Attempt
  validated none = invalid
  validated (some parsed) = elim (at_key "playbook" parsed) [
    | none ↦ invalid
    | some draft ↦ elim (a.validate (inject_placeholder_id fl draft)) [
      | none ↦ invalid
      | some playbook ↦ drafted (playbook, at_key "rationale" parsed)
    ]
  ]

  unfoldable pub read_content : Option (Json F) → Attempt
  read_content none = invalid
  read_content (some content) =
      if truthy fl content then validated (loads_any fl a content) else invalid

  -- `_attempt_draft`, of what the request came to
  unfoldable pub attempted : Posted fl a → Attempt
  attempted (answered r) = read_content (content_of r.body)
  attempted (rate_limited advised) = limited advised
  attempted terminal = hopeless

  -- What follows an attempt: `rest` is the loop from here on, `last` whether the budget is spent. A
  -- delay that cannot be slept raises, and leaves `draft`.
  unfoldable pub after_attempt :
      (last : Bool)
      → (Work fl a → Result (Option Drafted) × Work fl a)
      → Work fl a
      → Attempt
      → Result (Option Drafted) × Work fl a
  after_attempt last rest w (drafted d) = (ok (some d), w)
  after_attempt last rest w hopeless = (ok none, w)
  after_attempt last rest w invalid = if last then (ok none, w) else rest w
  after_attempt last rest w (limited advised) =
      if last
      then (ok none, w)
      else if can_sleep fl (rate_limit_delay fl advised)
      then rest (record w { slept = rate_limit_delay fl advised ∷ w.slept })
      else (raised, w)

  -- The loop of `draft`, with so many attempts left.
  unfoldable pub draft_from : ℕ → Conversation F → Work fl a → Result (Option Drafted) × Work fl a
  draft_from zero messages w = (ok none, w)
  draft_from (suc attempts) messages w =
      after_attempt (nat_eq attempts 0) (draft_from attempts messages)
        (record w { sent = messages ∷ w.sent })
        (attempted (classified fl a (a.post (length w.sent) messages)))

  -- `draft`
  unfoldable pub draft_single : Conversation F → Result (Option Drafted) × Work fl a
  draft_single messages = draft_from (at_least_one a.max_attempts) messages (idle fl a)

  -- From the work w on, at most n requests were made and no more delays than requests, none of them
  -- longer than 15 seconds.
  abbrev pub Spends : ℕ → Work fl a → Work fl a → Type 0
  Spends n w w' =
      (length w'.sent ≤ length w.sent + n)
      × (length w'.slept + length w.sent ≤ length w.slept + length w'.sent)
      × (All (λ s. fl.lt (fl.lit (pos 15) 0) s ≡ false) w.slept
          → All (λ s. fl.lt (fl.lit (pos 15) 0) s ≡ false) w'.slept)

  after_attempt-Spends :
      Asymmetric fl
      → (n : ℕ) (last : Bool) (rest : Work fl a → Result (Option Drafted) × Work fl a)
        (w w' : Work fl a) (x : Attempt)
      → w'.slept ≡ w.slept
      → length w'.sent ≡ length w.sent + 1
      → ((v : Work fl a) → Spends n v (rest v).1)
      → Spends (suc n) w (after_attempt last rest w' x).1
  unfolding after_attempt
  after_attempt-Spends asym n last rest w w' (drafted d) same one more =
      (omega (arith, one), omega (arith, one, ap length same), λ h. subst (All _) (sym same) h)
  after_attempt-Spends asym n last rest w w' hopeless same one more =
      (omega (arith, one), omega (arith, one, ap length same), λ h. subst (All _) (sym same) h)
  after_attempt-Spends asym n last rest w w' invalid same one more =
      if_rule (λ (x : Result (Option Drafted) × Work fl a). Spends (suc n) w x.1) last _ _
        (λ _.
          (omega (arith, one), omega (arith, one, ap length same), λ h. subst (All _) (sym same) h))
        (λ _.
          let (few, delays, short) = more w' in
          (
            omega (arith, one, few),
            omega (arith, one, ap length same, delays),
            λ h. short (subst (All _) (sym same) h),
          ))
  after_attempt-Spends asym n last rest w w' (limited advised) same one more =
      let Good : Result (Option Drafted) × Work fl a → Type 0 = λ x. Spends (suc n) w x.1 in
      let stopped : Spends (suc n) w w' =
        (omega (arith, one), omega (arith, one, ap length same), λ h. subst (All _) (sym same) h) in
      if_rule Good last _ _ (λ _. stopped)
        (λ _.
          if_rule Good (can_sleep fl (rate_limit_delay fl advised)) _ _
            (λ _.
              let (few, delays, short) =
                more (record w' { slept = rate_limit_delay fl advised ∷ w'.slept }) in
              (
                omega (arith, one, few),
                omega (arith, one, ap length same, delays),
                λ h. short (delay_short fl a asym advised, subst (All _) (sym same) h),
              ))
            (λ _. stopped))

  draft_from-Spends :
      Asymmetric fl
      → (n : ℕ) (messages : Conversation F) (w : Work fl a) → Spends n w (draft_from n messages w).1
  unfolding draft_from
  draft_from-Spends asym zero messages w = (omega arith, omega arith, λ h. h)
  draft_from-Spends asym (suc n) messages w =
      after_attempt-Spends asym n _ (draft_from n messages) w _ _ refl (omega arith)
        (draft_from-Spends asym n messages)

  -- A draft costs at most `max_attempts` requests (one, if that is zero), and no more delays than
  -- requests, none of them longer than 15 seconds.
  pub draft_single-Spends :
      Asymmetric fl
      → (messages : Conversation F)
      → Spends (at_least_one a.max_attempts) (idle fl a) (draft_single messages).1
  unfolding draft_single
  draft_single-Spends asym messages =
      draft_from-Spends asym (at_least_one a.max_attempts) messages (idle fl a)
