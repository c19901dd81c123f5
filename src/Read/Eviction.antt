-- ===== src/Read/Eviction.antt =====
-- services/read/projection.py: ageing, the cap on the cards, and the metrics. The lock makes each
-- method one step; `round` of a float is a parameter.
pub mod Cap
pub mod Open
use intelliops.Base.{
  ℕ, ◌+◌, ◌-◌, ltb, pos, Bool, true, false, not, ◌&&◌, ◌||◌, String, ◌==◌, Option, none, some, List,
  [], ◌∷◌, map, length, take, filter, count, Floats, if◌then◌else◌, fmax,
}
use intelliops.Base.Dict.{Dict, erase}
use intelliops.Read.Card.{Card, ReadModel, Entry, is_evictable}

-- `_TERMINAL` and `_OPEN`
abbrev pub is_terminal : String → Bool
is_terminal s = s == "resolved" || s == "failed"

abbrev pub is_open : String → Bool
is_open s = s == "detected" || s == "diagnosed" || s == "acting" || s == "needs_attention"

module _ {F : Type 0} where
  abbrev pub is_aged : (ttl now : ℕ) → Card F → Bool
  is_aged ttl now c = is_terminal c.status && ltb (c.last_activity + ttl) now

  -- `_age_out`
  unfoldable pub age_out : (ttl now : ℕ) → Dict (Card F) → Dict (Card F)
  age_out ttl now = filter (λ e. not (is_aged ttl now e.1))

  abbrev needs_attention : Card F → Bool
  needs_attention c = c.status == "needs_attention"

  -- Whether the sort key of a card is below another's: pairs, `False` before `True`.
  abbrev pub goes_first : Card F → Card F → Bool
  goes_first a b =
      if needs_attention a
      then needs_attention b && ltb a.last_activity b.last_activity
      else needs_attention b || ltb a.last_activity b.last_activity

  unfoldable pub insert_by_age : Card F → List (Card F) → List (Card F)
  insert_by_age c [] = c ∷ []
  insert_by_age c (d ∷ ds) = if goes_first d c then d ∷ insert_by_age c ds else c ∷ d ∷ ds

  -- The cards that may go, in the order in which they go.
  unfoldable pub evictable : Dict (Card F) → List (Card F)
  evictable [] = []
  evictable ((k, c) ∷ d) =
      if is_evictable c.status then insert_by_age c (evictable d) else evictable d

  -- `del self._sits[s["id"]]`, for each of them
  unfoldable pub drop_all : List (Card F) → Dict (Card F) → Dict (Card F)
  drop_all [] d = d
  drop_all (c ∷ cs) d = drop_all cs (erase c.id d)

  -- `_enforce_cap`
  unfoldable pub enforce_cap : (max_sits : ℕ) → Dict (Card F) → Dict (Card F)
  enforce_cap max_sits d =
      if ltb max_sits (length d) then drop_all (take (length d - max_sits) (evictable d)) d else d

  -- `_prune`
  unfoldable pub prune : (max_sits ttl now : ℕ) → Dict (Card F) → Dict (Card F)
  prune max_sits ttl now d = enforce_cap max_sits (age_out ttl now d)

  abbrev pub pruned : (max_sits ttl : ℕ) → Option ℕ → Dict (Card F) → Dict (Card F)
  pruned max_sits ttl none d = enforce_cap max_sits d
  pruned max_sits ttl (some now) d = prune max_sits ttl now d

  unfoldable pub situations :
      (max_sits ttl : ℕ) → Option ℕ → ReadModel F → List (Card F) × ReadModel F
  situations max_sits ttl now m =
      let d = pruned max_sits ttl now m.sits in (map (λ e. e.1) d, record m { sits = d })

pub record Metrics (F : Type 0) : Type 0 where
  pub alerts_ingested : ℕ
  pub situations_open : ℕ
  pub noise_reduction_pct : F
  pub mttr_minutes : F
  pub auto_remediated_pct : F
  pub suppressed_today : ℕ
  pub approvals_pending : ℕ
  pub success_rate : F
  pub needs_attention : ℕ
  pub quietly_handled : ℕ

abbrev is_attempt : Entry → Bool
is_attempt o = not (o.result == "escalated")

unfoldable pub mttrs : List Entry → List ℕ
mttrs [] = []
mttrs (o ∷ os) = elim (o.mttr_ms) [ none ↦ mttrs os | some n ↦ n ∷ mttrs os ]

abbrev sum : List ℕ → ℕ
sum [] = 0
sum (n ∷ ns) = n + sum ns

module _ (fl : Floats) (round : fl.F → ℕ → fl.F) where
  open fl use {F, lit, sub, mul, div}

  abbrev alerts_of : Dict (Card F) → ℕ
  alerts_of [] = 0
  alerts_of ((k, c) ∷ d) = c.member_count + alerts_of d

  abbrev float : ℕ → F
  float n = lit (pos n) 0

  -- `a / b * scale if b else 0.0`, rounded
  abbrev ratio : (a b : ℕ) → (scale : F) → (digits : ℕ) → F
  ratio a b scale digits =
      if ltb 0 b then round (mul (div (float a) (float b)) scale) digits else lit (pos 0) 0

  abbrev noise : (sits alerts : ℕ) → F
  noise sits alerts =
      if ltb 0 alerts
      then mul (sub (float 1) (div (float sits) (float alerts))) (float 100)
      else lit (pos 0) 0

  abbrev mttr_minutes : List ℕ → F
  mttr_minutes ns =
      if ltb 0 (length ns)
      then round (div (div (float (sum ns)) (float (length ns))) (float 60000)) 2
      else lit (pos 0) 0

  abbrev success_rate : (successes attempts : ℕ) → F
  success_rate successes attempts =
      if ltb 0 attempts then round (div (float successes) (float attempts)) 3 else lit (pos 0) 0

  abbrev is_pending : Card F → Bool
  is_pending c =
      is_open c.status
      && (c.hitl_mode == "hitl" && (c.status == "diagnosed" || c.status == "acting"))

  -- What `_metrics` counts, of the cards that are left and the history.
  unfoldable pub metrics_of : Dict (Card F) → List Entry → (suppressed : ℕ) → Metrics F
  metrics_of d outs suppressed =
      let attempted = filter is_attempt outs in
      let attempts = length attempted in
      record {
        alerts_ingested = alerts_of d;
        situations_open = count (λ e. is_open e.1.status) d;
        noise_reduction_pct = round (fmax fl (lit (pos 0) 0) (noise (length d) (alerts_of d))) 1;
        mttr_minutes = mttr_minutes (mttrs outs);
        auto_remediated_pct =
            ratio (count (λ (o : Entry). o.hitl_mode == "auto") attempted) attempts (float 100) 1;
        suppressed_today = suppressed;
        approvals_pending = count (λ e. is_pending e.1) d;
        success_rate =
            success_rate (count (λ (o : Entry). o.result == "success") attempted) attempts;
        needs_attention = count (λ e. e.1.status == "needs_attention") d;
        quietly_handled = count (λ (o : Entry). o.handling == "quiet") outs;
      }

  -- `metrics`, which enforces the cap first
  unfoldable pub metrics : (max_sits : ℕ) → ReadModel F → Metrics F × ReadModel F
  metrics max_sits m =
      let d = enforce_cap max_sits m.sits in
      (metrics_of d m.outcomes m.suppressed_count, record m { sits = d })
