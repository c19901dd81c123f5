-- ===== src/Rca/Reliability.antt =====
-- services/rca/app.py, ReliabilityProvider: how often a runbook has worked on a signature, from a table
-- that is read anew at most once in a while. A dict with two kinds of keys is a list of its items.
pub mod Ratio
use intelliops.Base.{
  ℕ, ◌+◌, ltb, Bool, false, ◌&&◌, String, ◌==◌, Option, none, some, List, [], ◌∷◌, pos, Floats,
  if◌then◌else◌,
}
use intelliops.Contracts.{TrainingRecord}
use intelliops.Action.Effects.{Result, ok, raised}

-- `(signature, playbook_id)`, or a signature
pub data Key : Type 0 where
  of_runbook : (signature runbook : String) → Key
  of_signature : String → Key

abbrev pub same_key : Key → Key → Bool
same_key (of_runbook s r) (of_runbook s' r') = s == s' && r == r'
same_key (of_signature s) (of_signature s') = s == s'
same_key _ _ = false

-- The items of a dict.
abbrev pub Table : Type 0 → Type 0
Table V = List (Key × V)

module _ {V : Type 0} where
  unfoldable pub find : Key → Table V → Option V
  find k [] = none
  find k ((j, v) ∷ t) = let rest = find k t in if same_key j k then some v else rest

  -- `t.get(k, default)`
  abbrev pub find_or : Key → Table V → V → V
  find_or k t default = elim (find k t) [ none ↦ default | some v ↦ v ]

-- `t[k] = t.get(k, 0) + 1`
unfoldable pub bump : Key → Table ℕ → Table ℕ
bump k [] = (k, 1) ∷ []
bump k ((j, n) ∷ t) = let rest = bump k t in if same_key j k then (k, n + 1) ∷ t else (j, n) ∷ rest

-- The two keys of a record.
abbrev pub runbook_key : TrainingRecord → Key
runbook_key r = of_runbook r.signature r.playbook_id

abbrev pub signature_key : TrainingRecord → Key
signature_key r = of_signature r.signature

abbrev pub bump_both : TrainingRecord → Table ℕ → Table ℕ
bump_both r t = bump (signature_key r) (bump (runbook_key r) t)

-- The loops over the records: `total`, and `worked`.
unfoldable pub totals : List TrainingRecord → Table ℕ → Table ℕ
totals [] t = t
totals (r ∷ rs) t = totals rs (bump_both r t)

unfoldable pub successes : List TrainingRecord → Table ℕ → Table ℕ
successes [] t = t
successes (r ∷ rs) t = successes rs (if r.worked then bump_both r t else t)

module _ (fl : Floats) where
  open fl use {F, lit, div}

  -- `{k: worked.get(k, 0) / n for k, n in total.items()}`
  unfoldable pub ratios : Table ℕ → Table ℕ → Table F
  ratios worked [] = []
  ratios worked ((k, n) ∷ t) =
      (k, div (lit (pos (find_or k worked 0)) 0) (lit (pos n) 0)) ∷ ratios worked t

  -- The two tables of the source are the two kinds of keys of one.
  pub record Provider : Type 0 where
    pub loaded_at : Option ℕ
    pub table : Table F

  abbrev pub is_fresh : (refresh now : ℕ) → Option ℕ → Bool
  is_fresh refresh now none = false
  is_fresh refresh now (some t) = ltb now (t + refresh)

  abbrev pub loaded : Result (List TrainingRecord) → ℕ → Provider → Provider
  loaded raised now p = record p { loaded_at = some now }
  loaded (ok records) now p = record {
    loaded_at = some now;
    table = ratios (successes records []) (totals records []);
  }

  -- `_maybe_reload`; `read` is what the store answers if it is asked.
  unfoldable pub maybe_reload :
      (refresh now : ℕ) → Result (List TrainingRecord) → Provider → Provider
  maybe_reload refresh now read p =
      if is_fresh refresh now p.loaded_at then p else loaded read now p

  abbrev pub key_of : String → Option String → Key
  key_of signature none = of_signature signature
  key_of signature (some runbook) = of_runbook signature runbook

  -- `__call__`
  unfoldable pub reliability_of :
      (refresh now : ℕ)
      → Result (List TrainingRecord)
      → String
      → Option String
      → Provider
      → F × Provider
  reliability_of refresh now read signature runbook p =
      let p' = maybe_reload refresh now read p in
      (find_or (key_of signature runbook) p'.table (lit (pos 0) 0), p')
