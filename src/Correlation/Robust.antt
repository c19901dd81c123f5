-- ===== src/Correlation/Robust.antt =====
-- services/correlation/adapters/robust_correlator.py: a bounded window of values for each series and
-- hour, against whose median and median deviation a value is scored. numpy's median and the hour of a
-- time are parameters; a window is its values, the oldest first.

pub mod Windows
use intelliops.Base.{
  ℕ, ◌+◌, ◌-◌, ◌%◌, ltb, leb, nat_eq, pos, Bool, true, false, not, ◌&&◌, ◌||◌, String, ◌==◌, Option,
  none, some, List, [], ◌∷◌, ◌++◌, map, length, drop, Floats, if◌then◌else◌, fmax,
}
use intelliops.Base.Dict.{Dict, lookup_or, insert}
use intelliops.Contracts.{TelemetryEvent, Baseline}

pub record Settings : Type 0 where
  pub warmup_samples : ℕ
  pub seasonal_buckets : ℕ
  pub window_size : ℕ
  -- `key_by == "series"`
  pub by_series : Bool

-- The key of a window; the series is "" where windows are not kept by series.
pub record Key : Type 0 where
  pub metric_name : String
  pub series : String
  pub bucket : ℕ

abbrev pub same_key : Key → Key → Bool
same_key a b = a.metric_name == b.metric_name && (a.series == b.series && nat_eq a.bucket b.bucket)

abbrev pub Windows : Type 0 → Type 0
Windows F = List (Key × List F)

-- `_key`
abbrev pub key_for : Settings → (name series : String) → (bucket : ℕ) → Key
key_for c name series bucket = record {
  metric_name = name;
  series = if c.by_series then series else "";
  bucket = bucket;
}

-- `deque(xs, maxlen=n)`
abbrev pub last_n : {A : Type 0} → ℕ → List A → List A
last_n n xs = drop (length xs - n) xs

module _ {F : Type 0} where
  -- The window of a key; one that is not there is empty.
  unfoldable pub window_of : Key → Windows F → List F
  window_of k [] = []
  window_of k ((j, w) ∷ ws) = let rest = window_of k ws in if same_key j k then w else rest

  unfoldable pub put_window : Key → List F → Windows F → Windows F
  put_window k w [] = (k, w) ∷ []
  put_window k w ((j, v) ∷ ws) =
      let rest = put_window k w ws in if same_key j k then (k, w) ∷ ws else (j, v) ∷ rest

  module _ (c : Settings) where
    -- `_series`
    abbrev pub series_of : TelemetryEvent F → String
    series_of event =
        if not c.by_series
        then ""
        else if not (lookup_or "service" event.labels "" == "")
        then lookup_or "service" event.labels ""
        else lookup_or "job" event.labels ""

    -- Whether the search passes over a window of another hour.
    abbrev pub is_passed_over : Key → Key → List F → Bool
    is_passed_over k j w =
        same_key j k
        || (ltb (length w) c.warmup_samples
            || (not (j.metric_name == k.metric_name) || not (j.series == k.series)))

    -- The longest, of a first window and the others that count.
    unfoldable pub fullest : Key → List F → Windows F → List F
    fullest k best [] = best
    fullest k best ((j, w) ∷ ws) =
        fullest k (if is_passed_over k j w || leb (length w) (length best) then best else w) ws

    -- `_scoring_window`
    unfoldable pub scoring_window : Key → List F → Windows F → List F
    scoring_window k win ws = if leb c.warmup_samples (length win) then win else fullest k win ws

module _ (fl : Floats) (median : List fl.F → fl.F) where
  open fl use {F, lit, sub, mul, div, absolute, lt, le}

  -- The median of the distances from a value.
  abbrev pub spread : F → List F → F
  spread med xs = median (map (λ x. absolute (sub x med)) xs)

  -- The size of a baseline, at least 1.0.
  abbrev pub magnitude : F → F
  magnitude med = fmax fl (absolute med) (lit (pos 1) 0)

  -- The score of a value against a warm window, by its median, its spread and the deviation.
  unfoldable pub scored_by : (med mad deviation : F) → F
  scored_by med mad deviation =
      if lt (lit (pos 0) 0) mad
      then div deviation (mul (lit (pos 14826) 4) mad)
      else if le deviation (mul (lit (pos 5) 1) (magnitude med))
      then lit (pos 0) 0
      else fmax fl (lit (pos 6) 0) (div deviation (magnitude med))

  unfoldable pub score : (warmup_samples : ℕ) → (ref : List F) → F → F
  score warmup_samples ref value =
      let med = median ref in
      if ltb (length ref) warmup_samples
      then lit (pos 0) 0
      else scored_by med (spread med ref) (absolute (sub value med))

  module _ (c : Settings) (hour : ℕ → ℕ) where
    -- `_bucket`, and the key of an event's window
    abbrev pub key_of_event : TelemetryEvent F → Key
    key_of_event event =
        key_for c event.name (series_of c event) (hour event.ts % c.seasonal_buckets)

    -- A value is scored before it is added to its window.
    unfoldable pub detect_value : Key → Option F → Windows F → F × Windows F
    detect_value k none ws = (lit (pos 0) 0, ws)
    detect_value k (some value) ws =
        let win = window_of k ws in
        (
          score c.warmup_samples (scoring_window c k win ws) value,
          put_window k (last_n c.window_size (win ++ (value ∷ []))) ws,
        )

    unfoldable pub detect : TelemetryEvent F → Windows F → F × Windows F
    detect event ws = detect_value (key_of_event event) event.value ws

    -- What the windows are after these events.
    unfoldable pub learned : List (TelemetryEvent F) → Windows F → Windows F
    learned [] ws = ws
    learned (event ∷ events) ws = learned events (detect event ws).1

  -- The samples of each metric, over all its windows.
  unfoldable pub pooled : Windows F → Dict (List F) → Dict (List F)
  pooled [] d = d
  pooled ((k, []) ∷ ws) d = pooled ws d
  pooled ((k, x ∷ xs) ∷ ws) d =
      pooled ws (insert k.metric_name (lookup_or k.metric_name d [] ++ (x ∷ xs)) d)

  abbrev pub baseline_of : List F → Baseline F
  baseline_of xs = record {
    mean = some (median xs);
    std = some (mul (spread (median xs) xs) (lit (pos 14826) 4));
  }

  -- `baseline_snapshot`
  unfoldable pub baseline_snapshot : Windows F → Dict (Baseline F)
  baseline_snapshot ws = map (λ e. (e.0, baseline_of e.1)) (pooled ws [])

-- A row of a snapshot; `series` is there only where windows are kept by series.
pub record Row (F : Type 0) : Type 0 where
  pub metric_name : String
  pub bucket : ℕ
  pub n : ℕ
  pub window : List F
  pub series : Option String

abbrev pub or_nothing : Option String → String
or_nothing none = ""
or_nothing (some s) = s

module _ {F : Type 0} (c : Settings) where
  abbrev pub row_of : Key × List F → Row F
  row_of (k, w) = record {
    metric_name = k.metric_name;
    bucket = k.bucket;
    n = length w;
    window = w;
    series = if c.by_series then some k.series else none;
  }

  unfoldable pub snapshot : Windows F → List (Row F)
  snapshot ws = map row_of ws

  unfoldable pub load : List (Row F) → Windows F → Windows F
  load [] ws = ws
  load (r ∷ rs) ws = load rs (
      put_window (key_for c r.metric_name (or_nothing r.series) r.bucket)
        (last_n c.window_size r.window) ws)
