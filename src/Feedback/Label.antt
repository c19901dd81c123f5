-- ===== src/Feedback/Label.antt =====
-- services/feedback/label.py
use intelliops.Base.{
  true, String, ◌<>◌, remove_prefix, after_prefix, some, ◌≡◌, ◌↔◌, arith, ap, ◌∙◌,
}
use intelliops.Contracts.{RemediationOutcome, TrainingRecord, is_success, success}
use Prim.Native.String.append

unfoldable pub signature_from_situation_id : String → String
signature_from_situation_id situation_id = remove_prefix "sit-" situation_id

unfoldable pub label_outcome : RemediationOutcome → TrainingRecord
label_outcome o = record {
  situation_id = o.situation_id;
  signature = signature_from_situation_id o.situation_id;
  playbook_id = o.playbook_id;
  result = o.result;
  worked = is_success o.result;
  ts = o.ts;
  mode = some o.mode;
}

after_prefix-append : (p s : String) → after_prefix p (p <> s) ≡ some s
unfolding after_prefix
after_prefix-append String.[] s = rw (append.nil s)
after_prefix-append (String.◌∷◌ c p) s =
    rw (append.cons c p s) (ground (arith, after_prefix-append p s))

remove_prefix-append : (p s : String) → remove_prefix p (p <> s) ≡ s
remove_prefix-append p s = rw (after_prefix-append p s, remove_prefix)

-- The signature of a situation, which its id holds behind "sit-", comes back in the training record,
-- and the record says "worked" exactly for a success.
pub label_outcome-signature :
    (o : RemediationOutcome) (signature : String)
    → o.situation_id ≡ "sit-" <> signature
    → ((label_outcome o).signature ≡ signature)
      × ((label_outcome o).worked ≡ true ↔ o.result ≡ success)
unfolding label_outcome signature_from_situation_id
label_outcome-signature o signature e = (
  ap (remove_prefix "sit-") e ∙ remove_prefix-append "sit-" signature,
  (λ h. ground arith, λ h. ground arith),
)
