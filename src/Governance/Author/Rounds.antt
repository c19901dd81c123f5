-- ===== src/Governance/Author/Rounds.antt =====
-- A whole run of the agent: what it may ask for.
use intelliops.Base.{
  ◌*◌, ◌∷◌, ◌+◌, ℕ, zero, suc, String, refl, Bool, false, Option, none, some, [], arith, if_rule,
  Floats, Asymmetric,
}
use intelliops.Base.Json.{Fields}
use intelliops.Governance.Author.{
  system, user, Conversation, Author, Work, call_model, turn_taken, rounds, idle, draft_runbook,
  at_least_one, Draft,
}
use intelliops.Governance.Author.Protocol.{
  Within, IsAnswered, call_model-Within, turn-Within, more-Within,
}

module _ (fl : Floats) (a : Author fl) where
  open fl use {F}

  rounds-Within :
      Asymmetric fl
      → (k n : ℕ) (messages : Conversation F) (nudged : Bool) (w : Work fl a)
      → IsAnswered fl a messages
      → Within fl a n w
      → Within fl a (n + k * at_least_one a.max_attempts) (rounds fl a k messages nudged w).1
  unfolding rounds
  rounds-Within asym zero n messages nudged w h sound =
      more-Within fl a n (n + zero * at_least_one a.max_attempts) w (omega arith) sound
  rounds-Within asym (suc k) n messages nudged w h sound =
      let att = at_least_one a.max_attempts in
      go (call_model fl a att messages w) (call_model-Within fl a asym att n messages w h sound)
        (rounds-Within asym k (n + att))
    where
      att : ℕ
      att = at_least_one a.max_attempts

      go :
          (x : Option (Fields F) × Work fl a)
          → Within fl a (n + att) x.1
          → ((messages : Conversation F) (nudged : Bool) (w : Work fl a)
              → IsAnswered fl a messages
              → Within fl a (n + att) w
              → Within fl a (n + att + k * att) (rounds fl a k messages nudged w).1)
          → Within fl a
              (n + suc k * att)
              (let out : Option (Draft F) × Work fl a = elim (x.0) [
                | none ↦ (none, x.1)
                | some t ↦ turn_taken fl a (rounds fl a k) t messages nudged x.1
              ] in
                out).1
      go (none, w') r next = more-Within fl a (n + att) (n + suc k * att) w' (omega arith) r
      go (some t, w') r next =
          more-Within fl a (n + att + k * att) (n + suc k * att)
            (turn_taken fl a (rounds fl a k) t messages nudged w').1 (omega arith)
            (turn-Within fl a (n + att) (k * att) (rounds fl a k) t messages nudged w' next h r)

  -- Where of two floats at most one is below the other: a run of the agent makes at most one request
  -- for each of its rounds and attempts, and each of them carries a conversation in which every tool
  -- call of the model is answered by one reply under its id, in the order of the calls. It sleeps at
  -- most once for each request, never for more than 15 seconds.
  pub draft_runbook-Within :
      Asymmetric fl
      → (prompt request : String)
      → Within fl a
          (at_least_one a.max_rounds * at_least_one a.max_attempts)
          (draft_runbook fl a prompt request).1
  unfolding draft_runbook
  draft_runbook-Within asym prompt request =
      if_rule
        (λ (x : Option (Draft F) × Work fl a).
          Within fl a (at_least_one a.max_rounds * at_least_one a.max_attempts) x.1)
        a.has_toolbox
        (rounds fl a (at_least_one a.max_rounds) (user request ∷ system prompt ∷ []) false
          (idle fl a))
        (none, idle fl a)
        (λ _.
          more-Within fl a (0 + at_least_one a.max_rounds * at_least_one a.max_attempts)
            (at_least_one a.max_rounds * at_least_one a.max_attempts)
            (rounds fl a (at_least_one a.max_rounds) (user request ∷ system prompt ∷ []) false
              (idle fl a)).1
            (omega arith)
            (rounds-Within asym (at_least_one a.max_rounds) 0 (user request ∷ system prompt ∷ [])
              false (idle fl a) (refl, (refl, refl)) (omega arith, tt, omega arith, tt)))
        (λ _. (omega arith, tt, omega arith, tt))
