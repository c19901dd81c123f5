-- ===== src/Correlation/Correlator/Retraining.antt =====
-- The reliability map against the training data.
use intelliops.Base.{
  ℕ, ◌+◌, ◌≤◌, Bool, true, ◌&&◌, String, ◌==◌, ==_iff, List, [], ◌∷◌, Floats, ◌≡◌, arith, count,
  if◌then◌else◌,
}
use intelliops.Base.Dict.{Dict, lookup, lookup_or, insert, lookup-insert}
use intelliops.Contracts.{TrainingRecord}
use intelliops.Correlation.Correlator.{Reliability, retrain_from, retrain, should_suppress}

abbrev pub on : String → TrainingRecord → Bool
on s r = r.signature == s

lookup_or-insert :
    (k j : String) (v w : ℕ) (d : Dict ℕ)
    → lookup_or j (insert k v d) w ≡ (if k == j then v else lookup_or j d w)
unfolding lookup_or
lookup_or-insert k j v w d = ground (arith, lookup-insert k j v d)

retrain_from-count :
    (s : String) (m : Reliability) (rs : List TrainingRecord)
    → (lookup_or s (retrain_from m rs).total 0 ≡ lookup_or s m.total 0 + count (on s) rs)
      × (lookup_or s (retrain_from m rs).worked 0
          ≡ lookup_or s m.worked 0 + count (λ r. on s r && r.worked) rs)
unfolding retrain_from
retrain_from-count s m [] = omega arith
retrain_from-count s m (r ∷ rs) =
    let sig = r.signature in
    let w = lookup_or sig m.worked 0 + 1 in
    let n = lookup_or sig m.total 0 + 1 in
    let m' : Reliability = record {
      worked = if r.worked then insert sig w m.worked else m.worked;
      total = insert sig n m.total;
    } in
    ground (
      arith,
      ==_iff sig s,
      lookup_or-insert sig s w 0 m.worked,
      lookup_or-insert sig s n 0 m.total,
      retrain_from-count s m' rs,
    )

-- After a retraining the samples of a signature are the records on it and its successes those that
-- worked, whatever was known before; and nothing is suppressed on fewer records than the minimum.
pub retrain_counts :
    (fl : Floats) (rs : List TrainingRecord) (s : String) (threshold : fl.F) (n : ℕ)
    → (lookup_or s (retrain rs).total 0 ≡ count (on s) rs)
      × (lookup_or s (retrain rs).worked 0 ≡ count (λ r. on s r && r.worked) rs)
      × (should_suppress fl (retrain rs) s threshold n ≡ true → n ≤ count (on s) rs)
unfolding retrain should_suppress lookup_or lookup
retrain_counts fl rs s threshold n =
    let e = retrain_from-count s (record { worked = []; total = [] }) rs in
    (ground (arith, e), ground (arith, e), λ h. ground (arith, e))
