-- ===== src/Correlation/Consumer/Drained.antt =====
-- Every situation is published, on the topic that it belongs to.
use intelliops.Base.{◌≡◌, ◌∷◌, ◌∙◌, suc, ap, refl, Bool, true, List, [], length, Floats}
use intelliops.Contracts.{TelemetryEvent, Situation}
use intelliops.Envelope.{Handled, returned}
use intelliops.Correlation.Engine.{Correlator, Config, E, add, flush_all, pop_suppressed}
use intelliops.Correlation.Consumer.{
  Sent, as_detected, as_suppressed, State, send, and_then, drain, drain_suppressed, publish_all,
  listed, handle, finish,
}

-- A log with these situations published after it, the first of them first.
abbrev pub followed_by :
    {F : Type 0} → (Situation F → Sent F) → List (Situation F) → List (Sent F) → List (Sent F)
followed_by topic [] l = l
followed_by topic (sit ∷ sits) l = followed_by topic sits (topic sit ∷ l)

module _ (fl : Floats) (k : Correlator fl) (c : Config)
    (takes : List (Sent fl.F) → Sent fl.F → Bool)
    (up : (l : List (Sent fl.F)) (x : Sent fl.F) → takes l x ≡ true) where
  open fl use {F}

  abbrev S : Type 0
  S = State fl k c takes

  send-up : (x : Sent F) (s : S) → send fl k c takes x s ≡ returned (record s { sent = x ∷ s.sent })
  unfolding send
  send-up x s = rw (up s.sent x) refl

  publish_all-up :
      (sits : List (Situation F)) (s : S)
      → publish_all fl k c takes sits s
        ≡ returned (record s { sent = followed_by as_detected sits s.sent })
  unfolding publish_all
  publish_all-up [] s = refl
  publish_all-up (sit ∷ sits) s =
      ap (λ h. and_then fl k c takes h (publish_all fl k c takes sits))
        (send-up (as_detected sit) s)
      ∙ publish_all-up sits (record s { sent = as_detected sit ∷ s.sent })

  -- The engine whose queue was emptied.
  abbrev pub emptied : E fl k c → E fl k c
  emptied e = record e { suppressed = [] }

  -- The engine with this queue.
  abbrev queued : E fl k c → List (Situation F) → E fl k c
  queued e sits = record e { suppressed = sits }

  drain-up :
      (sits : List (Situation F)) (e : E fl k c) (l : List (Sent F))
      → drain fl k c takes (suc (length sits)) (record { engine = queued e sits; sent = l })
        ≡ returned (record { engine = emptied e; sent = followed_by as_suppressed sits l })
  unfolding drain pop_suppressed
  drain-up [] e l = refl
  drain-up (sit ∷ sits) e l =
      ap (λ h. and_then fl k c takes h (drain fl k c takes (suc (length sits))))
        (send-up (as_suppressed sit) (record { engine = queued e sits; sent = l }))
      ∙ drain-up sits e (as_suppressed sit ∷ l)

  -- What the handling comes to: `outs` is what the engine gave out, `e` the engine it left.
  abbrev pub Published : List (Situation F) → E fl k c → S → Handled S → Type 0
  Published outs e s h =
      h
      ≡ returned (record {
        engine = emptied e;
        sent = followed_by as_suppressed e.suppressed (followed_by as_detected outs s.sent);
      })

  published :
      (outs : List (Situation F)) (e : E fl k c) (s : S)
      → Published outs e s (
          and_then fl k c takes
            (publish_all fl k c takes outs (record s { engine = e }))
            (drain_suppressed fl k c takes))
  unfolding drain_suppressed
  published outs e s =
      ap (λ h. and_then fl k c takes h (drain_suppressed fl k c takes))
        (publish_all-up outs (record s { engine = e }))
      ∙ drain-up e.suppressed e (followed_by as_detected outs s.sent)

  -- While the bus takes what is published, an event is handled to its end, and so are the buckets that
  -- are open at the end of the stream: every situation that the engine gives out is published as
  -- detected, in order, then every one in its queue as suppressed, in order, and the queue is empty.
  pub handle-Published :
      (event : TelemetryEvent F) (s : S)
      → Published
          (listed fl k c takes (add fl k c event s.engine).0)
          (add fl k c event s.engine).1
          s
          (handle fl k c takes event s)
        × Published
            (flush_all fl k c s.engine).0
            (flush_all fl k c s.engine).1
            s
            (finish fl k c takes s)
  unfolding handle finish
  handle-Published event s = (published _ _ s, published _ _ s)
