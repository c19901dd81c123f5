-- ===== src/Correlation/Engine/Grouping.antt =====
-- A situation holds events of one bucket, and enough of them.
use intelliops.Base.{
  map, ◌≤◌, String, ◌==◌, ==_iff, Option, some, none, List, [], ◌∷◌, ◌++◌, length, All, All-append,
  Floats, ◌≡◌, refl, arith, inl, inr, if_rule, Bool-cases, subst, sym,
}
use intelliops.Base.Dict.{Dict, lookup, lookup_or, insert, erase}
use intelliops.Contracts.{TelemetryEvent, Situation}
use intelliops.Correlation.Correlator.{correlate}
use intelliops.Correlation.Engine.{
  Correlator, Config, E, key_of, Fate, kept, dropped, silenced, quieted, emitted, situation_of,
  suppress, fate, settle, correlate_buffer, buffer_event, overflows, take_anomaly, add, flush_keys,
  flush_all,
}

module _ (fl : Floats) (k : Correlator fl) (c : Config) where
  abbrev Ev : Type 0
  Ev = TelemetryEvent fl.F

  abbrev pub OfKey : String → List Ev → Type 0
  OfKey key = All (λ e. key_of c e ≡ key)

  -- Every bucket holds events of its own key.
  abbrev pub IsGrouped : Dict (List Ev) → Type 0
  IsGrouped = All (λ entry. OfKey entry.0 entry.1)

  lookup-OfKey : (key : String) (d : Dict (List Ev)) → IsGrouped d → OfKey key (lookup_or key d [])
  unfolding lookup_or lookup
  lookup-OfKey key [] h = tt
  lookup-OfKey key ((j, b) ∷ d) h = elim (Bool-cases (j == key)) [
    | inl e ↦ rw (e, lookup_or) (subst (λ q. OfKey q b) ((==_iff j key).0 e) h.0)
    | inr e ↦ rw (e, lookup_or) (lookup-OfKey key d h.1)
  ]

  insert-IsGrouped :
      (key : String) (b : List Ev) (d : Dict (List Ev))
      → OfKey key b
      → IsGrouped d
      → IsGrouped (insert key b d)
  unfolding insert
  insert-IsGrouped key b [] hb h = (hb, tt)
  insert-IsGrouped key b ((j, x) ∷ d) hb h =
      if_rule IsGrouped (j == key) _ _ (λ _. (hb, h.1))
        (λ _. (h.0, insert-IsGrouped key b d hb h.1))

  erase-IsGrouped : (key : String) (d : Dict (List Ev)) → IsGrouped d → IsGrouped (erase key d)
  unfolding erase
  erase-IsGrouped key [] h = tt
  erase-IsGrouped key ((j, x) ∷ d) h =
      if_rule IsGrouped (j == key) _ _ (λ _. h.1) (λ _. (h.0, erase-IsGrouped key d h.1))

  -- What a buffer's situation says of its members.
  abbrev pub Holds : List Ev → Situation fl.F → Type 0
  Holds buf sit = (sit.member_events ≡ buf) × (c.min_events ≤ length sit.member_events)

  abbrev pub FateHolds : List Ev → Fate fl.F → Type 0
  FateHolds buf (silenced sit) = Holds buf sit
  FateHolds buf (quieted sit) = Holds buf sit × (sit.handling ≡ "quiet")
  FateHolds buf (emitted sit) = Holds buf sit × (sit.handling ≡ "normal")
  FateHolds buf _ = Unit

  fate_lem : (e : E fl k c) (key : String) (buf : List Ev) → FateHolds buf (fate fl k c e key buf)
  unfolding fate suppress situation_of correlate
  fate_lem e key [] = tt
  fate_lem e key (x ∷ xs) = ground arith

  -- The situation that a closed bucket gives out.
  abbrev pub GoesOut : String → Option (Situation fl.F) → Type 0
  GoesOut key none = Unit
  GoesOut key (some sit) = OfKey key sit.member_events × (c.min_events ≤ length sit.member_events)

  -- A situation with events of one key only, and enough of them.
  abbrev pub OfOneKey : Situation fl.F → Type 0
  OfOneKey sit =
      (key : String) × OfKey key sit.member_events × (c.min_events ≤ length sit.member_events)

  -- The buckets of an engine, and the situations that wait in its queue.
  abbrev pub Valid : E fl k c → Type 0
  Valid e = IsGrouped e.buffers × All OfOneKey e.suppressed

  one_key :
      (key : String) (buf : List Ev) (sit : Situation fl.F)
      → OfKey key buf
      → Holds buf sit
      → OfOneKey sit
  one_key key buf sit b h = (key, subst (OfKey key) (sym h.0) b, h.1)

  queued :
      (e : E fl k c) (sit : Situation fl.F)
      → All OfOneKey e.suppressed
      → OfOneKey sit
      → All OfOneKey (e.suppressed ++ (sit ∷ []))
  queued e sit q one = All-append OfOneKey e.suppressed (sit ∷ []) q (one, tt)

  settle_lem :
      (key : String) (e : E fl k c) (f : Fate fl.F) (buf : List Ev)
      → Valid e
      → OfKey key buf
      → FateHolds buf f
      → Valid (settle fl k c key e f).1 × GoesOut key (settle fl k c key e f).0
  unfolding settle
  settle_lem key e kept buf (g, q) b h = ((g, q), tt)
  settle_lem key e dropped buf (g, q) b h = ((erase-IsGrouped key e.buffers g, q), tt)
  settle_lem key e (silenced sit) buf (g, q) b h =
      ((erase-IsGrouped key e.buffers g, queued e sit q (one_key key buf sit b h)), tt)
  settle_lem key e (quieted sit) buf (g, q) b h = (
    (erase-IsGrouped key e.buffers g, queued e sit q (one_key key buf sit b h.0)),
    (subst (OfKey key) (sym h.0.0) b, h.0.1),
  )
  settle_lem key e (emitted sit) buf (g, q) b h =
      ((erase-IsGrouped key e.buffers g, q), (subst (OfKey key) (sym h.0.0) b, h.0.1))

  correlate_buffer_lem :
      (key : String) (e : E fl k c)
      → Valid e
      → Valid (correlate_buffer fl k c key e).1 × GoesOut key (correlate_buffer fl k c key e).0
  unfolding correlate_buffer
  correlate_buffer_lem key e v =
      let buf = lookup_or key e.buffers [] in
      settle_lem key e (fate fl k c e key buf) buf v (lookup-OfKey key e.buffers v.0)
        (fate_lem e key buf)

  buffer_event-Valid :
      (event : Ev) (score : fl.F) (e : E fl k c)
      → Valid e
      → Valid (buffer_event fl k c (key_of c event) event score e)
  unfolding buffer_event
  buffer_event-Valid event score e (g, q) =
      let key = key_of c event in
      (
        insert-IsGrouped key (lookup_or key e.buffers [] ++ (event ∷ [])) e.buffers
            (All-append (λ (x : Ev). key_of c x ≡ key) (lookup_or key e.buffers []) (event ∷ [])
              (lookup-OfKey key e.buffers g) (refl, tt))
            g,
        q,
      )

  take_anomaly_lem :
      (event : Ev) (score : fl.F) (e : E fl k c)
      → Valid e
      → Valid (take_anomaly fl k c event score e).1
        × GoesOut (key_of c event) (take_anomaly fl k c event score e).0
  unfolding take_anomaly
  take_anomaly_lem event score e v =
      let key = key_of c event in
      elim (Bool-cases (overflows fl k c event (lookup_or key e.buffers []))) [
        | inl over ↦
            let (v', out) = correlate_buffer_lem key e v in
            rw over (buffer_event-Valid event score (correlate_buffer fl k c key e).1 v', out)
        | inr within ↦ rw within (buffer_event-Valid event score e v, tt)
      ]

  add-Valid :
      (event : Ev) (e : E fl k c)
      → Valid e
      → Valid (add fl k c event e).1 × GoesOut (key_of c event) (add fl k c event e).0
  unfolding add
  add-Valid event e v =
      let (score, s) = k.detect event e.correlator in
      let e' : E fl k c = record e { correlator = s } in
      elim (Bool-cases (k.is_anomaly_scored event score s)) [
        | inl yes_it_is ↦ rw yes_it_is (take_anomaly_lem event score e' v)
        | inr normal ↦ rw normal (v, tt)
      ]

  collected :
      (key : String) (out : Option (Situation fl.F)) (outs : List (Situation fl.F))
      → GoesOut key out
      → All OfOneKey outs
      → All OfOneKey (elim out [ none ↦ outs | some sit ↦ sit ∷ outs ])
  collected key none outs h hs = hs
  collected key (some sit) outs h hs = ((key, h.0, h.1), hs)

  flush_keys-Valid :
      (keys : List String) (e : E fl k c)
      → Valid e
      → Valid (flush_keys fl k c keys e).1 × All OfOneKey (flush_keys fl k c keys e).0
  unfolding flush_keys
  flush_keys-Valid [] e v = (v, tt)
  flush_keys-Valid (key ∷ keys) e v =
      let (v', out) = correlate_buffer_lem key e v in
      let (v'', outs) = flush_keys-Valid keys (correlate_buffer fl k c key e).1 v' in
      (v'', collected key _ _ out outs)

  -- If every bucket holds events of its own key, and every situation in the queue has events of one
  -- key only, at least `min_events` of them, then both still hold after an event is taken in and
  -- after all buckets are flushed. The situation that an event sets off has only events of that
  -- event's key among its members, and each situation that the flush returns has events of one key
  -- only, at least `min_events` of them. So with grouping by service no situation mixes two.
  pub add-IsGrouped :
      (event : Ev) (e : E fl k c)
      → Valid e
      → Valid (add fl k c event e).1
        × GoesOut (key_of c event) (add fl k c event e).0
        × Valid (flush_all fl k c e).1
        × All OfOneKey (flush_all fl k c e).0
  unfolding flush_all
  add-IsGrouped event e v =
      let (taken, out) = add-Valid event e v in
      let (flushed, outs) = flush_keys-Valid (map (λ entry. entry.0) e.buffers) e v in
      (taken, out, flushed, outs)
