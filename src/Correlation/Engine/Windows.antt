-- ===== src/Correlation/Engine/Windows.antt =====
-- The closed loop of suppression, and when a window stays open.
use intelliops.Base.{
  ap, sym, subst, ◌∙◌, ltb, ltb_ℤ, Bool, true, false, String, Option, some, none, List, [], ◌∷◌,
  ◌++◌, length, Floats, ◌≡◌, refl, arith, if◌then◌else◌,
}
use intelliops.Base.Dict.{lookup_or, erase}
use intelliops.Contracts.{TelemetryEvent, Situation}
use intelliops.Correlation.Correlator.{correlate}
use intelliops.Correlation.Engine.{
  Correlator, Config, E, situation_of, suppress, fate, settle, correlate_buffer, span_of,
}

module _ (fl : Floats) (k : Correlator fl) (c : Config) where
  abbrev pub known : Situation fl.F → E fl k c → Bool
  known sit e = k.should_suppress sit.signature e.correlator

  -- A bucket with too few events is kept while its span is shorter than the window, and discarded
  -- without a trace in either output when it is not.
  correlate_buffer_thin :
      (key : String) (e : E fl k c) (x : TelemetryEvent fl.F) (xs : List (TelemetryEvent fl.F))
      → lookup_or key e.buffers [] ≡ x ∷ xs
      → ltb (length (x ∷ xs)) c.min_events ≡ true
      → let (out, e') = correlate_buffer fl k c key e in
        (out ≡ none)
        × (e'.suppressed ≡ e.suppressed)
        × (e'.buffers ≡ (if ltb_ℤ (span_of x xs) c.window then e.buffers else erase key e.buffers))
  unfolding correlate_buffer fate settle
  correlate_buffer_thin key e x xs b thin = rw (b, correlate_buffer, thin, fate) (ground arith)

  -- What becomes of the situation of a bucket that is closed: the answer and the queue.
  abbrev pub Settled : E fl k c → Situation fl.F → Option (Situation fl.F) × E fl k c → Type 0
  Settled e sit (out, e') =
      let marked : Situation fl.F = record sit { handling = "quiet" } in
      (known sit e ≡ false → (out ≡ some sit) × (e'.suppressed ≡ e.suppressed))
      × (known sit e ≡ true
          → c.quiet ≡ true
          → (out ≡ some marked) × (e'.suppressed ≡ e.suppressed ++ (marked ∷ [])))
      × (known sit e ≡ true
          → c.quiet ≡ false
          → (out ≡ none) × (e'.suppressed ≡ e.suppressed ++ (sit ∷ [])))

  -- A bucket that is ripe is closed into the situation of its events.
  abbrev pub Ripe : String → E fl k c → Option (Situation fl.F) × E fl k c → Type 0
  Ripe key e (out, e') =
      let bucket = lookup_or key e.buffers [] in
      (sit : Situation fl.F) × (situation_of fl k c e key bucket ≡ some sit)
      × (sit.member_events ≡ bucket)
      × (sit.handling ≡ "normal")
      × (e'.buffers ≡ erase key e.buffers)
      × Settled e sit (out, e')

  -- What closing a bucket does, whatever it holds.
  abbrev pub Closed : String → E fl k c → Option (Situation fl.F) × E fl k c → Type 0
  Closed key e (out, e') =
      let bucket = lookup_or key e.buffers [] in
      (bucket ≡ [] → (out ≡ none) × (e' ≡ e))
      × ((x : TelemetryEvent fl.F) (xs : List (TelemetryEvent fl.F))
          → bucket ≡ x ∷ xs
          → ltb (length bucket) c.min_events ≡ true
          → (out ≡ none)
            × (e'.suppressed ≡ e.suppressed)
            × (e'.buffers
                ≡ (if ltb_ℤ (span_of x xs) c.window then e.buffers else erase key e.buffers)))
      × ((x : TelemetryEvent fl.F) (xs : List (TelemetryEvent fl.F))
          → bucket ≡ x ∷ xs
          → ltb (length bucket) c.min_events ≡ false
          → Ripe key e (out, e'))

  situation_made :
      (e : E fl k c) (key : String) (x : TelemetryEvent fl.F) (xs : List (TelemetryEvent fl.F))
      → (sit : Situation fl.F) × (situation_of fl k c e key (x ∷ xs) ≡ some sit)
        × (sit.member_events ≡ x ∷ xs)
        × (sit.handling ≡ "normal")
  unfolding situation_of correlate
  situation_made e key x xs = (_, refl, refl, refl)

  suppress-Settled :
      (key : String) (e : E fl k c) (sit : Situation fl.F)
      → let r = settle fl k c key e (suppress fl k c e sit) in
        (r.1.buffers ≡ erase key e.buffers) × Settled e sit r
  unfolding suppress settle
  suppress-Settled key e sit =
      (ground arith, (λ h. ground arith, λ h q. ground arith, λ h q. ground arith))

  correlate_buffer-Ripe :
      (key : String) (e : E fl k c) (x : TelemetryEvent fl.F) (xs : List (TelemetryEvent fl.F))
      → lookup_or key e.buffers [] ≡ x ∷ xs
      → ltb (length (lookup_or key e.buffers [])) c.min_events ≡ false
      → Ripe key e (correlate_buffer fl k c key e)
  unfolding correlate_buffer fate
  correlate_buffer-Ripe key e x xs b ripe =
      let (sit, made, members, normal) = situation_made e key x xs in
      let (erased, settled) = suppress-Settled key e sit in
      let closes : correlate_buffer fl k c key e ≡ settle fl k c key e (suppress fl k c e sit) =
        rw (b, correlate_buffer, ripe', fate, made) refl in
      (
        sit,
        rw b made,
        members ∙ sym b,
        normal,
        ap (λ r. r.1.buffers) closes ∙ erased,
        subst (Settled e sit) (sym closes) settled,
      )
    where
      ripe' : ltb (length (x ∷ xs)) c.min_events ≡ false
      ripe' = subst (λ l. ltb (length l) c.min_events ≡ false) b ripe

  correlate_buffer-empty :
      (key : String) (e : E fl k c)
      → lookup_or key e.buffers [] ≡ []
      → correlate_buffer fl k c key e ≡ (none, e)
  unfolding correlate_buffer fate settle
  correlate_buffer-empty key e b = rw (b, correlate_buffer) refl

  -- A bucket that is empty changes nothing. One with too few events gives out nothing and queues
  -- nothing, and is kept while its span is shorter than the window and dropped when it is not. Any
  -- other is taken out of the buckets and becomes one situation, of all its events. Where its
  -- signature is not known as reliably fixed, the situation goes out as "normal" and is not queued;
  -- where it is, in quiet mode it goes out marked "quiet" and is queued like that too, and in drop
  -- mode it does not go out and is queued. So no situation is lost.
  pub correlate_buffer-Closed :
      (key : String) (e : E fl k c) → Closed key e (correlate_buffer fl k c key e)
  correlate_buffer-Closed key e = (
    λ b. let same = correlate_buffer-empty key e b in (ap (λ r. r.0) same, ap (λ r. r.1) same),
    λ x xs b thin.
        correlate_buffer_thin key e x xs b (subst (λ l. ltb (length l) c.min_events ≡ true) b thin),
    λ x xs b ripe. correlate_buffer-Ripe key e x xs b ripe,
  )
