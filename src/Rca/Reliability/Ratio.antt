-- ===== src/Rca/Reliability/Ratio.antt =====
-- The reliability of a runbook is the share of its runs that worked.
use intelliops.Base.{
  ◌≡◌, if◌then◌else◌, ◌∷◌, ◌+◌, ◌&&◌, ◌||◌, ◌<◌, ◌∙◌, ℕ, zero, suc, String, sym, ap, refl, subst,
  inl, inr, Bool, true, false, Option, none, some, List, [], arith, count, Bool-cases, ==_iff,
  ==_refl, ltb, Floats, pos,
}
use native.Mathlib.Nat.{zero-add}
use intelliops.Contracts.{TrainingRecord}
use intelliops.Action.Effects.{Result, ok}
use intelliops.Rca.Reliability.{
  Key, of_runbook, of_signature, same_key, Table, find, find_or, bump, bump_both, runbook_key,
  signature_key, totals, successes, ratios, Provider, maybe_reload, is_fresh, reliability_of,
  key_of,
}
use mathlib.Core.Path.{ap₂, subst}

same_key-eq : (j k : Key) → same_key j k ≡ true → j ≡ k
same_key-eq (of_runbook s r) (of_runbook s' r') e =
    let p : s ≡ s' = ground (arith, ==_iff s s') in
    let q : r ≡ r' = ground (arith, ==_iff r r') in ap₂ of_runbook p q
same_key-eq (of_runbook s r) (of_signature s') e = absurd (ground arith)
same_key-eq (of_signature s) (of_runbook s' r') e = absurd (ground arith)
same_key-eq (of_signature s) (of_signature s') e = ap of_signature ((==_iff s s').0 e)

same_key_refl : (k : Key) → same_key k k ≡ true
same_key_refl (of_runbook s r) = ground (arith, ==_refl s, ==_refl r)
same_key_refl (of_signature s) = ==_refl s

-- A value to which n is added, if n is not zero.
abbrev added : ℕ → Option ℕ → Option ℕ
added zero o = o
added (suc n) none = some (suc n)
added (suc n) (some m) = some (m + suc n)

added-added : (m n : ℕ) (o : Option ℕ) → added n (added m o) ≡ added (m + n) o
added-added zero n o = rw zero-add
added-added (suc m) zero none = ground arith
added-added (suc m) (suc n) none = ground arith
added-added (suc m) zero (some x) = ground arith
added-added (suc m) (suc n) (some x) = ground arith

abbrev one : Bool → ℕ
one b = if b then 1 else 0

-- Two keys that are the same as a third are the same.
same_key-apart : (i j k : Key) → same_key i j ≡ false → same_key i k ≡ true → same_key j k ≡ false
same_key-apart i j k e e' = elim (Bool-cases (same_key j k)) [
  | inl together ↦
      let here : same_key i j ≡ true =
        subst (λ x. same_key i x ≡ true) (sym (same_key-eq j k together)) e' in
      absurd (ground arith)
  | inr apart ↦ apart
]

-- One more under a key.
find-bump : (j k : Key) (t : Table ℕ) → find k (bump j t) ≡ added (one (same_key j k)) (find k t)
unfolding find bump
find-bump j k [] = ground arith
find-bump j k ((i, n) ∷ t) = elim (Bool-cases (same_key i j)) [
  | inl e ↦
      let same : same_key i k ≡ same_key j k = ap (λ x. same_key x k) (same_key-eq i j e) in
      ground arith
  | inr e ↦ elim (Bool-cases (same_key i k)) [
    | inl e' ↦ ground (arith, find-bump j k t, same_key-apart i j k e e')
    | inr e' ↦ ground (arith, find-bump j k t)
  ]
]

-- Whether a record counts under a key.
abbrev pub counts : Key → TrainingRecord → Bool
counts k r = same_key (runbook_key r) k || same_key (signature_key r) k

abbrev pub worked_under : Key → TrainingRecord → Bool
worked_under k r = r.worked && counts k r

one-or :
    (r : TrainingRecord) (k : Key)
    → one (same_key (runbook_key r) k) + one (same_key (signature_key r) k) ≡ one (counts k r)
one-or r (of_runbook s p) = ground arith
one-or r (of_signature s) = ground arith

find-bump_both :
    (r : TrainingRecord) (k : Key) (t : Table ℕ)
    → find k (bump_both r t) ≡ added (one (counts k r)) (find k t)
find-bump_both r k t =
    find-bump (signature_key r) k (bump (runbook_key r) t)
    ∙ ap (added (one (same_key (signature_key r) k))) (find-bump (runbook_key r) k t)
    ∙ added-added (one (same_key (runbook_key r) k)) (one (same_key (signature_key r) k)) (find k t)
    ∙ ap (λ n. added n (find k t)) (one-or r k)

find-totals :
    (k : Key) (rs : List TrainingRecord) (t : Table ℕ)
    → find k (totals rs t) ≡ added (count (counts k) rs) (find k t)
unfolding totals
find-totals k [] t = refl
find-totals k (r ∷ rs) t =
    find-totals k rs (bump_both r t)
    ∙ ap (added (count (counts k) rs)) (find-bump_both r k t)
    ∙ added-added (one (counts k r)) (count (counts k) rs) (find k t)

find-successes :
    (k : Key) (rs : List TrainingRecord) (t : Table ℕ)
    → find k (successes rs t) ≡ added (count (worked_under k) rs) (find k t)
unfolding successes
find-successes k [] t = refl
find-successes k (r ∷ rs) t = elim (Bool-cases r.worked) [
  | inl e ↦
      find-successes k rs (if r.worked then bump_both r t else t)
      ∙ ap (added (count (worked_under k) rs)) (rw e (find-bump_both r k t))
      ∙ added-added (one (counts k r)) (count (worked_under k) rs) (find k t)
      ∙ ap (λ n. added n (find k t)) (ground arith)
  | inr e ↦
      find-successes k rs (if r.worked then bump_both r t else t)
      ∙ ap (added (count (worked_under k) rs)) (rw e refl)
      ∙ ap (λ n. added n (find k t)) (ground arith)
]

module _ (fl : Floats) where
  open fl use {F, lit, div}

  -- The share of n runs that worked, or nothing of no runs.
  abbrev share : ℕ → Option ℕ → Option F
  share w none = none
  share w (some n) = some (div (lit (pos w) 0) (lit (pos n) 0))

  find-ratios :
      (k : Key) (worked t : Table ℕ)
      → find k (ratios fl worked t) ≡ share (find_or k worked 0) (find k t)
  unfolding find ratios
  find-ratios k worked [] = refl
  find-ratios k worked ((j, n) ∷ t) = elim (Bool-cases (same_key j k)) [
    | inl e ↦
        rw (e, find)
          (ap (λ x. some (div (lit (pos (find_or x worked 0)) 0) (lit (pos n) 0)))
            (same_key-eq j k e))
    | inr e ↦ rw (e, find) (find-ratios k worked t)
  ]

  abbrev pub rated : (worked total : ℕ) → F
  rated worked zero = lit (pos 0) 0
  rated worked (suc n) = div (lit (pos worked) 0) (lit (pos (suc n)) 0)

  abbrev or_zero : Option F → F
  or_zero o = elim o [ none ↦ lit (pos 0) 0 | some f ↦ f ]

  share-rated :
      (w c : ℕ)
      → or_zero (share (elim (added w none) [ none ↦ 0 | some v ↦ v ]) (added c none)) ≡ rated w c
  share-rated zero zero = refl
  share-rated zero (suc c) = refl
  share-rated (suc w) zero = refl
  share-rated (suc w) (suc c) = refl

  found-rated :
      (k : Key) (rs : List TrainingRecord)
      → find_or k (ratios fl (successes rs []) (totals rs [])) (lit (pos 0) 0)
        ≡ rated (count (worked_under k) rs) (count (counts k) rs)
  unfolding find
  found-rated k rs =
      ap or_zero (find-ratios k (successes rs []) (totals rs []))
      ∙ ap₂ (λ w t. or_zero (share (elim w [ none ↦ 0 | some v ↦ v ]) t)) (find-successes k rs [])
          (find-totals k rs [])
      ∙ share-rated (count (worked_under k) rs) (count (counts k) rs)

  -- When the table is due and the store can be read, the reliability of a runbook on a signature is
  -- the number of records of that runbook on that signature that worked over the number of all of
  -- them, and 0.0 where there are none; without a runbook, the same over the signature's records.
  -- Until the table is due again, whatever the store would answer, the answers stay the same.
  pub reliability_of-rated :
      (refresh now later : ℕ) (rs : List TrainingRecord) (read : Result (List TrainingRecord))
      (signature : String) (runbook : Option String) (p : Provider fl)
      → is_fresh fl refresh now p.loaded_at ≡ false
      → later < now + refresh
      → let k = key_of fl signature runbook in
        let (answer, p') = reliability_of fl refresh now (ok rs) signature runbook p in
        (answer ≡ rated (count (worked_under k) rs) (count (counts k) rs))
        × ((reliability_of fl refresh later read signature runbook p').0 ≡ answer)
  unfolding reliability_of maybe_reload
  reliability_of-rated refresh now later rs read signature runbook p due soon =
      let fresh : ltb later (now + refresh) ≡ true = ground arith in
      rw due (rw fresh (found-rated (key_of fl signature runbook) rs, refl))
