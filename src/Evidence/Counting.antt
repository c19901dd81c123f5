-- ===== src/Evidence/Counting.antt =====
-- What the track record counts.
use intelliops.Base.{
  sym, ap, ◌∙◌, ◌==◌, none, pos, subst, ◌+◌, ◌≤◌, ℤ, Bool, true, false, not, ◌&&◌, String, Option,
  some, List, [], ◌∷◌, ◌≡◌, refl, arith, Floats, count, if◌then◌else◌,
}
use intelliops.Contracts.{TrainingRecord}
use intelliops.Evidence.{
  is_real_mode, ratio, is_real, real_records, TrackRecord, passes_over, track_from, track_record,
  at_least_one, quiet_eligible,
}

-- A run on the cluster itself: its mode is known, and neither simulated nor switched off.
abbrev pub on_cluster : Option String → Bool
on_cluster none = false
on_cluster (some mode) = not (mode == "dry_run") && not (mode == "none")

abbrev pub is_of : Option String → TrainingRecord → Bool
is_of none r = true
is_of (some id) r = r.playbook_id == id

-- A real run of the playbook (any, if none is named) on the signature.
abbrev pub counts : String → Option String → TrainingRecord → Bool
counts signature playbook_id r =
    on_cluster r.mode && r.signature == signature && is_of playbook_id r

is_real-on_cluster : (m : Option String) → is_real_mode m ≡ on_cluster m
unfolding is_real_mode
is_real-on_cluster none = refl
is_real-on_cluster (some m) = ground arith

counts-passes_over :
    (s : String) (p : Option String) (r : TrainingRecord) → counts s p r ≡ not (passes_over s p r)
counts-passes_over s none r = ground (arith, is_real-on_cluster r.mode)
counts-passes_over s (some id) r = ground (arith, is_real-on_cluster r.mode)

-- A record that the loop counts.
abbrev taken : String → Option String → TrainingRecord → Bool
taken signature playbook_id r = not (passes_over signature playbook_id r)

count-cong :
    {A : Type 0} (p q : A → Bool) → ((a : A) → p a ≡ q a) → (xs : List A) → count p xs ≡ count q xs
count-cong p q same [] = refl
count-cong p q same (x ∷ xs) = ground (arith, same x, count-cong p q same xs)

track_from-taken :
    (s : String) (p : Option String) (t : TrackRecord) (rs : List TrainingRecord)
    → track_from s p t rs ≡ record {
      worked = t.worked + count (λ r. taken s p r && r.worked) rs;
      total = t.total + count (taken s p) rs;
    }
unfolding track_from
track_from-taken s p t [] = ground arith
track_from-taken s p t (r ∷ rs) = ground (
  arith,
  track_from-taken s p t rs,
  track_from-taken s p
      (record { worked = t.worked + (if r.worked then 1 else 0); total = t.total + 1 }) rs,
)

track_record-taken :
    (rs : List TrainingRecord) (s : String) (p : Option String)
    → ((track_record rs s p).total ≡ count (taken s p) rs)
      × ((track_record rs s p).worked ≡ count (λ r. taken s p r && r.worked) rs)
unfolding track_record
track_record-taken rs s p =
    let e = track_from-taken s p (record { worked = 0; total = 0 }) rs in ground (arith, e)

-- The track record is the number of real runs on the signature (of the playbook, if one is named),
-- and of those that worked.
track_record-count :
    (rs : List TrainingRecord) (s : String) (p : Option String)
    → ((track_record rs s p).total ≡ count (counts s p) rs)
      × ((track_record rs s p).worked ≡ count (λ r. counts s p r && r.worked) rs)
track_record-count rs s p =
    let (total, worked) = track_record-taken rs s p in
    let same = counts-passes_over s p in
    (
      total ∙ count-cong (taken s p) (counts s p) (λ r. sym (same r)) rs,
      worked
          ∙ count-cong (λ r. taken s p r && r.worked) (λ r. counts s p r && r.worked)
              (λ r. ap (λ b. b && r.worked) (sym (same r))) rs,
    )

count-real_records :
    (p : TrainingRecord → Bool)
    → ((r : TrainingRecord) → is_real r ≡ false → p r ≡ false)
    → (rs : List TrainingRecord) → count p (real_records rs) ≡ count p rs
unfolding real_records
count-real_records p h [] = refl
count-real_records p h (r ∷ rs) = ground (arith, h r, count-real_records p h rs)

track-real_records :
    (rs : List TrainingRecord) (s : String) (p : Option String)
    → track_record (real_records rs) s p ≡ track_record rs s p
track-real_records rs s p =
    let a = track_record-taken rs s p in
    let b = track_record-taken (real_records rs) s p in
    ground (
      arith,
      a,
      b,
      count-real_records (taken s p) (λ r h. ground arith) rs,
      count-real_records (λ r. taken s p r && r.worked) (λ r h. ground arith) rs,
    )

-- A playbook is let through without a human only on at least `max(1, min_samples)` real runs of
-- that playbook on that signature, of which the share that worked is not below the threshold, and
-- simulated or unlabelled runs change neither the verdict nor the track record.
pub quiet_eligible-real :
    (fl : Floats) (rs : List TrainingRecord) (s p : String) (threshold : fl.F) (n : ℤ)
    → let total = count (counts s (some p)) rs in
      let worked = count (λ r. counts s (some p) r && r.worked) rs in
      ((quiet_eligible fl rs s p threshold n).0 ≡ true
        → (at_least_one n ≤ total)
          × (fl.le threshold (fl.div (fl.lit (pos worked) 0) (fl.lit (pos total) 0)) ≡ true))
      × (quiet_eligible fl (real_records rs) s p threshold n ≡ quiet_eligible fl rs s p threshold n)
unfolding quiet_eligible ratio
quiet_eligible-real fl rs s p threshold n =
    let t = track_record-count rs s (some p) in
    (
      λ h. (
        ground (arith, t),
        subst
            (λ m.
              fl.le threshold
                (fl.div (fl.lit (pos m) 0) (fl.lit (pos (count (counts s (some p)) rs)) 0))
              ≡ true)
            t.1
            (subst
              (λ m.
                fl.le threshold
                  (fl.div (fl.lit (pos (track_record rs s (some p)).worked) 0) (fl.lit (pos m) 0))
                ≡ true)
              t.0 (ground arith)),
      ),
      rw (track-real_records rs s (some p)),
    )
