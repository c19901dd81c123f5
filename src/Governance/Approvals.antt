-- ===== src/Governance/Approvals.antt =====
-- services/governance/adapters/approval_store.py, the in-memory store.
use intelliops.Base.{
  ℕ, ◌+◌, length, String, ◌==◌, Option, none, some, List, [], ◌∷◌, filter, ◌≡◌, Bool, if◌then◌else◌,
  arith,
}
use intelliops.Base.Dict.{Dict, lookup, insert, lookup-insert}
use intelliops.Contracts.{ApprovalRequest}

abbrev pub Store : Type 0
Store = Dict ApprovalRequest

unfoldable pub create : ApprovalRequest → Store → ApprovalRequest × Store
create request d = (request, insert request.id request d)

unfoldable pub get : String → Store → Option ApprovalRequest
get approval_id d = lookup approval_id d

unfoldable pub decide :
    (approval_id status decided_by : String) → Store → Option ApprovalRequest × Store
decide approval_id status decided_by d = elim (lookup approval_id d) [
  | none ↦ (none, d)
  | some req ↦
      let updated = record req { status = status; decided_by = some decided_by } in
      (some updated, insert approval_id updated d)
]

abbrev pub values : Store → List ApprovalRequest
values [] = []
values ((k, v) ∷ d) = v ∷ values d

unfoldable pub list_pending : Store → List ApprovalRequest
list_pending d = filter (λ a. a.status == "pending") (values d)

abbrev pub one_if : Bool → ℕ
one_if b = if b then 1 else 0

pending_insert :
    (k : String) (v w : ApprovalRequest) (d : Store)
    → lookup k d ≡ some v
    → length (filter (λ (a : ApprovalRequest). a.status == "pending") (values (insert k w d)))
        + one_if (v.status == "pending")
      ≡ length (filter (λ (a : ApprovalRequest). a.status == "pending") (values d))
        + one_if (w.status == "pending")
unfolding lookup insert
pending_insert k v w [] h = absurd (ground arith)
pending_insert k v w ((j, x) ∷ d) h = ground (arith, pending_insert k v w d)

-- A decision on a request that is there is what the caller and every later reader get, it changes
-- no other request, and it takes a pending request off the pending ones (unless it decides
-- "pending" again).
pub decide_lem :
    (id status by j : String) (d : Store) (req : ApprovalRequest)
    → get id d ≡ some req
    → let (answer, d') = decide id status by d in
      (answer ≡ some (record req { status = status; decided_by = some by }))
      × (get j d' ≡ (if id == j then answer else get j d))
      × (length (list_pending d') + one_if (req.status == "pending")
          ≡ length (list_pending d) + one_if (status == "pending"))
unfolding decide get list_pending
decide_lem id status by j d req h =
    let w : ApprovalRequest = record req { status = status; decided_by = some by } in
    let looked = lookup-insert id j w d in
    let counted = pending_insert id req w d h in
    (ground arith, ground (arith, looked), ground (arith, counted))
