-- ===== src/Governance/Gate.antt =====
-- services/action/adapters/governance_gate.py, the in-process gate, over the shared approvals.
use intelliops.Base.{
  ℕ, zero, suc, ◌+◌, ◌≤◌, ◌<◌, leb, not, ◌&&◌, String, ◌==◌, ==_iff, none, some, ◌≡◌, arith,
  if◌then◌else◌, Option-cases, Bool-cases, inl, inr, ◌-◌,
}
use intelliops.Base.Dict.{lookup, insert, lookup-insert}
use intelliops.Contracts.{ApprovalRequest}
use intelliops.Governance.Approvals.{Store}

unfoldable pub request_approval : ApprovalRequest → Store → ApprovalRequest × Store
request_approval request d = (request, insert request.id request d)

unfoldable pub expire : (approval_id actor : String) → Store → Store
expire approval_id actor d = elim (lookup approval_id d) [
  | none ↦ d
  | some req ↦
      if req.status == "pending" && req.requested_by == actor
      then insert approval_id (record req { status = "expired"; decided_by = some actor }) d
      else d
]

-- What a wait ends with: a request, a KeyError, or (in the model only) no fuel left.
pub data Waited : Type 0 where
  read : ApprovalRequest → Waited
  key_error out_of_fuel : Waited

-- One wait sees the approvals as others leave them: `seen i` at the ith poll, `clock i` the time
-- when that poll is over.
module _ (seen : ℕ → Store) (clock : ℕ → ℕ) (approval_id : String) (deadline : ℕ) where
  -- The ith round of the loop of `await_decision` and those after it.
  unfoldable pub poll : ℕ → ℕ → Waited
  poll zero i = out_of_fuel
  poll (suc fuel) i =
      let later = poll fuel (i + 1) in
      elim (lookup approval_id (seen i)) [
        | none ↦ key_error
        | some req ↦
            if not (req.status == "pending")
            then read req
            else if leb deadline (clock i)
            then read req
            else later
      ]

  -- What the caller may rely on: the answer is a request as some poll saw it, and it is pending
  -- only if the deadline had passed.
  abbrev pub IsAnswer : Waited → Type 0
  IsAnswer (read req) =
      (i : ℕ) × (lookup approval_id (seen i) ≡ some req)
      × (req.status ≡ "pending" → deadline ≤ clock i)
  IsAnswer key_error = (i : ℕ) × (lookup approval_id (seen i) ≡ none)
  IsAnswer out_of_fuel = ⊥

  -- Every poll is at least `step` later than the one before it.
  abbrev pub Advances : ℕ → Type 0
  Advances step = (i : ℕ) → clock i + step ≤ clock (i + 1)

  poll-IsAnswer :
      (step : ℕ)
      → 0 < step
      → Advances step
      → (fuel i : ℕ) → deadline < clock i + fuel
      → 0 < fuel
      → IsAnswer (poll fuel i)
  unfolding poll
  poll-IsAnswer step p adv zero i enough pos_fuel = absurd (omega arith)
  poll-IsAnswer step p adv (suc fuel) i enough pos_fuel =
      elim (Option-cases (lookup approval_id (seen i))) [
        | inl e ↦ rw (e, poll) (i, e)
        | inr (req, e) ↦ elim (Bool-cases (not (req.status == "pending"))) [
          | inl decided ↦
              rw (e, poll, decided)
                (i, e, λ h. absurd (ground (arith, ==_iff req.status "pending")))
          | inr waiting ↦ elim (Bool-cases (leb deadline (clock i))) [
            | inl over ↦ rw (e, poll, waiting, over) (i, e, λ h. ground arith)
            | inr early ↦
                let before : clock i < deadline = ground arith in
                let next = adv i in
                rw (e, poll, waiting, early)
                  (poll-IsAnswer step p adv fuel (i + 1) (omega arith) (omega arith))
          ]
        ]
      ]

  -- `await_decision`, with more fuel than the time that is left at the first poll
  unfoldable pub await_decision : Waited
  await_decision = poll (suc (deadline - clock 0)) 0

  -- The wait ends, if every poll takes some time: with the request as one of the polls saw it,
  -- which is still pending only if the deadline had passed, or with a KeyError if a poll did not
  -- find the request.
  pub await_decision-IsAnswer : (step : ℕ) → 0 < step → Advances step → IsAnswer await_decision
  unfolding await_decision
  await_decision-IsAnswer step p adv =
      poll-IsAnswer step p adv (suc (deadline - clock 0)) 0 (omega arith) (omega arith)

-- What a caller's expiry makes of a request under the same id.
abbrev pub expired_by : (id actor j : String) → ApprovalRequest → ApprovalRequest
expired_by id actor j req =
    if id == j && (req.status == "pending" && req.requested_by == actor)
    then record req { status = "expired"; decided_by = some actor }
    else req

-- Expiring marks only the request of that id, only if the caller made it and while it is pending;
-- every other request and every decided one stays as it is, and none appears or goes away.
pub lookup-expire :
    (id actor j : String) (d : Store)
    → lookup j (expire id actor d)
      ≡ (elim (lookup j d) [ none ↦ none | some req ↦ some (expired_by id actor j req) ])
unfolding expire
lookup-expire id actor j d = elim (Bool-cases (id == j)) [
  | inl e ↦ elim (Option-cases (lookup id d)) [
    | inl absent ↦ ground (arith, ==_iff id j)
    | inr (req, found) ↦
        let v : ApprovalRequest = record req { status = "expired"; decided_by = some actor } in
        ground (arith, ==_iff id j, lookup-insert id j v d)
  ]
  | inr e ↦ elim (Option-cases (lookup id d)) [
    | inl absent ↦ ground (arith)
    | inr (req, found) ↦
        let v : ApprovalRequest = record req { status = "expired"; decided_by = some actor } in
        ground (arith, lookup-insert id j v d)
  ]
]
