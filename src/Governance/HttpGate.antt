-- ===== src/Governance/HttpGate.antt =====
-- services/action/adapters/governance_gate.py, the wait of the gate that talks over HTTP.
use intelliops.Base.{
  subst, sym, ltb, ℕ, zero, suc, ◌+◌, ◌-◌, ◌≤◌, ◌<◌, leb, Bool, false, not, String, ◌==◌, Option,
  none, some, ◌≡◌, refl, arith, if◌then◌else◌, Option-cases, Bool-cases, inl, inr, ◌⊎◌,
}
use intelliops.Contracts.{ApprovalRequest}

-- The request that stands for "nothing known yet".
abbrev pub unknown : String → ApprovalRequest
unknown approval_id = record {
  id = approval_id;
  situation_id = "";
  playbook_id = "";
  requested_by = "";
  status = "pending";
  decided_by = none;
  preflight = none;
}

nat_cases : (j i : ℕ) → j < i + 1 → (j < i) ⊎ (j ≡ i)
nat_cases j i below = elim (Bool-cases (ltb j i)) [
  | inl before ↦ inl (ground arith)
  | inr late ↦ inr (ground arith)
]

-- `answer i` is what the ith poll parsed, `none` where anything raised, and `clock i` the time when
-- that poll is over.
module _ (answer : ℕ → Option ApprovalRequest) (clock : ℕ → ℕ) (deadline : ℕ) where
  -- The ith round of the loop and those after it; `none` where the fuel is spent.
  unfoldable pub poll_from : ℕ → ℕ → ApprovalRequest → Option ApprovalRequest
  poll_from zero i last_known = none
  poll_from (suc fuel) i last_known =
      let known : ApprovalRequest = elim (answer i) [ none ↦ last_known | some req ↦ req ] in
      let decided : Bool = elim (answer i) [
        | none ↦ false
        | some req ↦ not (req.status == "pending")
      ] in
      let later = poll_from fuel (i + 1) known in
      if decided then some known else if leb deadline (clock i) then some known else later

  -- What is known before the ith poll: the last request that a poll parsed.
  abbrev pub known_at : String → ℕ → ApprovalRequest
  known_at approval_id zero = unknown approval_id
  known_at approval_id (suc i) = elim (answer i) [ none ↦ known_at approval_id i | some req ↦ req ]

  -- The ith poll parsed a request that is decided.
  abbrev pub Decides : ℕ → Type 0
  Decides i = (req : ApprovalRequest) × (answer i ≡ some req) × (req.status == "pending" ≡ false)

  -- The answer of the wait: what is known after its last poll. No poll before it read a decision,
  -- and none of them was over after the deadline; it read one itself, or it was.
  abbrev pub IsFinal : String → Option ApprovalRequest → Type 0
  IsFinal approval_id none = ⊥
  IsFinal approval_id (some req) =
      (i : ℕ) × (req ≡ known_at approval_id (i + 1))
      × ((j : ℕ) → j < i → ¬ Decides j × (clock j < deadline))
      × (Decides i ⊎ ¬ Decides i × (deadline ≤ clock i))

  abbrev pub Advances : ℕ → Type 0
  Advances step = (i : ℕ) → clock i + step ≤ clock (i + 1)

  -- The polls before the ith: nothing decided, and in time.
  abbrev Waited : ℕ → Type 0
  Waited i = (j : ℕ) → j < i → ¬ Decides j × (clock j < deadline)

  one_more : (i : ℕ) → Waited i → ¬ Decides i → clock i < deadline → Waited (i + 1)
  one_more i waited waits early j below = elim (nat_cases j i below) [
    | inl before ↦ waited j before
    | inr now ↦ subst (λ n. ¬ Decides n × (clock n < deadline)) (sym now) (waits, early)
  ]

  unparsed : (i : ℕ) → answer i ≡ none → ¬ Decides i
  unparsed i e (req, parsed, _) = grind (arith, e, parsed)

  pending_still :
      (i : ℕ) (req : ApprovalRequest)
      → answer i ≡ some req
      → not (req.status == "pending") ≡ false
      → ¬ Decides i
  pending_still i req e waiting (other, parsed, decided) =
      grind (arith, e, parsed, waiting, decided)

  suc_is : (i : ℕ) → suc i ≡ i + 1
  suc_is i = omega arith

  known_next :
      (id : String) (i : ℕ) (last : ApprovalRequest)
      → answer i ≡ none
      → last ≡ known_at id i
      → last ≡ known_at id (i + 1)
  known_next id i last e s = subst (λ n. last ≡ known_at id n) (suc_is i) (rw (e, known_at) s)

  known_read :
      (id : String) (i : ℕ) (req : ApprovalRequest)
      → answer i ≡ some req
      → req ≡ known_at id (i + 1)
  known_read id i req e = subst (λ n. req ≡ known_at id n) (suc_is i) (rw (e, known_at) refl)

  poll_from-IsFinal :
      (id : String) (step : ℕ)
      → 0 < step
      → Advances step
      → (fuel i : ℕ) (last : ApprovalRequest) → deadline < clock i + fuel
      → 0 < fuel
      → last ≡ known_at id i
      → Waited i
      → IsFinal id (poll_from fuel i last)
  unfolding poll_from
  poll_from-IsFinal id step p adv zero i last enough pos_fuel s waited = absurd (omega arith)
  poll_from-IsFinal id step p adv (suc fuel) i last enough pos_fuel s waited =
      let next = adv i in
      elim (Option-cases (answer i)) [
        | inl e ↦
            let known : last ≡ known_at id (i + 1) = known_next id i last e s in
            let waits = unparsed i e in
            elim (Bool-cases (leb deadline (clock i))) [
              | inl over ↦ rw (e, poll_from, over) (i, known, waited, inr (waits, ground arith))
              | inr early ↦
                  let before : clock i < deadline = ground arith in
                  rw (e, poll_from, early)
                    (poll_from-IsFinal id step p adv fuel (i + 1) last (omega arith) (omega arith)
                      known (one_more i waited waits before))
            ]
        | inr (req, e) ↦
            let known : req ≡ known_at id (i + 1) = known_read id i req e in
            elim (Bool-cases (not (req.status == "pending"))) [
              | inl decided ↦
                  rw (e, poll_from, decided) (i, known, waited, inl (req, e, ground arith))
              | inr waiting ↦
                  let waits = pending_still i req e waiting in
                  elim (Bool-cases (leb deadline (clock i))) [
                    | inl over ↦
                        rw (e, poll_from, waiting, over)
                          (i, known, waited, inr (waits, ground arith))
                    | inr early ↦
                        let before : clock i < deadline = ground arith in
                        rw (e, poll_from, waiting, early)
                          (poll_from-IsFinal id step p adv fuel (i + 1) req (omega arith)
                            (omega arith) known (one_more i waited waits before))
                  ]
            ]
      ]

  -- `await_decision`, with more fuel than the time that is left at the first poll
  unfoldable pub await_decision : String → Option ApprovalRequest
  await_decision approval_id = poll_from (suc (deadline - clock 0)) 0 (unknown approval_id)

  -- The wait ends with a request and never raises, whatever the polls run into, if every poll takes
  -- some time. It ends with the first poll that reads a decision or is over at the deadline, not
  -- before, and answers what the last poll that parsed anything read, or a pending request where
  -- none did: so "approved" is answered only if the poll that ended the wait read it.
  pub await_decision-IsFinal :
      (id : String) (step : ℕ) → 0 < step → Advances step → IsFinal id (await_decision id)
  unfolding await_decision
  await_decision-IsFinal id step p adv =
      poll_from-IsFinal id step p adv (suc (deadline - clock 0)) 0 (unknown id) (omega arith)
        (omega arith) refl (λ j below. absurd (omega (arith, below)))
