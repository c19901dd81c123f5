-- ===== src/Envelope/Redelivery.antt =====
-- What a second delivery of the same event does.
use intelliops.Base.{
  ℕ, ◌+◌, ◌<◌, ◌≤◌, Bool, true, false, String, ◌<>◌, ==_iff, Option, none, some, ◌≡◌, refl, arith,
  if◌then◌else◌, ◌∙◌, ◌⊎◌, inl, inr,
}
use intelliops.Base.Dict.{Dict, lookup}
use intelliops.Idempotency.{MemoryGuard, memory_guard, touch, live, claim}
use intelliops.Idempotency.Memory.{
  claim_config, live_later, claim_mark, IsValid, operations-IsValid, live-touch_self, claim_held,
  live_held, live_config,
}
use intelliops.Envelope.{
  deliver, decode_model, parsed, Handled, returned, raised, Delivery, handled, skipped, crashed,
  Times, hand_over, unless_done, done, is_done,
}

module _ {T A : Type 0} (group : String) (handler : T → A → Handled A) where
  -- The delivery of a decoded event with an id.
  abbrev pub hand : T → String → Times → MemoryGuard → A → Delivery × MemoryGuard × A
  hand x id t g a = unless_done memory_guard group handler x (some id) t g a

  abbrev key_of : String → String
  key_of id = group <> ":" <> id

  -- The guard from which a finished delivery wrote "done".
  abbrev WroteDone : MemoryGuard → String → ℕ → MemoryGuard → Type 0
  WroteDone g id now s =
      (g' : MemoryGuard) × IsValid g'
      × (g'.ttl ≡ g.ttl)
      × (g'.max_keys ≡ g.max_keys)
      × (s ≡ touch now (key_of id) done g')

  hand_over-WroteDone :
      (x : T) (id : String) (now : ℕ) (a : A) (g g' : MemoryGuard)
      → IsValid g'
      → (g'.ttl ≡ g.ttl)
      → (g'.max_keys ≡ g.max_keys)
      → (hand_over memory_guard group handler x (some (key_of id)) now g' a).0 ≡ handled
      → WroteDone g id now (hand_over memory_guard group handler x (some (key_of id)) now g' a).1
  unfolding hand_over
  hand_over-WroteDone x id now a g g' ok e e' h = go (handler x a) refl
    where
      go :
          (r : Handled A)
          → handler x a ≡ r
          → WroteDone g id now
              (hand_over memory_guard group handler x (some (key_of id)) now g' a).1
      go (returned a') q = (g', ok, e, e', rw (q, hand_over))
      go (raised a') q = absurd (ground arith)

  again :
      (x : T) (id : String) (t : ℕ) (t' : Times) (a : A) (g : MemoryGuard)
      → IsValid g
      → 0 < g.max_keys
      → t'.claim_read < t + g.ttl
      → t'.state_read < t + g.ttl
      → let (what, g', after) = hand x id t' (touch t (key_of id) done g) a in
        (what ≡ skipped) × (after ≡ a)
  unfolding unless_done
  again x id t t' a g valid room early early' =
      let k = key_of id in
      let s = touch t k done g in
      let held : (live t'.claim_read k s).0 ≡ some done =
        ground (arith, live-touch_self g valid t t'.claim_read k done) in
      let held' : (live t'.state_read k s).0 ≡ some done =
        ground (arith, live-touch_self g valid t t'.state_read k done) in
      rw
        (
          claim_held s t'.claim_read t'.claim_write k done held,
          live_held s t'.state_read k done held',
        )
        (refl, refl)

  -- The guard that the handler starts from has the bounds of the one before.
  abbrev Like : MemoryGuard → MemoryGuard → Type 0
  Like g g' = IsValid g' × (g'.ttl ≡ g.ttl) × (g'.max_keys ≡ g.max_keys)

  claim-Like : (g : MemoryGuard) → IsValid g → (r w : ℕ) (k : String) → Like g (claim r w k g).1
  claim-Like g valid r w k =
      let c = claim_config g r w k in ((operations-IsValid g valid r w k "").0, c.0, c.1)

  live-Like : (g : MemoryGuard) → IsValid g → (r : ℕ) (k : String) → Like g (live r k g).1
  live-Like g valid r k =
      let c = live_config g valid r k in ((operations-IsValid g valid r r k "").1, c.0, c.1)

  settle :
      (x : T) (id : String) (now : ℕ) (a : A) (g s s' : MemoryGuard) (first finished : Bool)
      → Like g s
      → Like g s'
      → let run =
          λ (s : MemoryGuard). hand_over memory_guard group handler x (some (key_of id)) now s a in
        let out : Delivery × MemoryGuard × A =
          if first then run s else if finished then (skipped, s', a) else run s' in
        out.0 ≡ handled → WroteDone g id now out.1
  settle x id now a g s s' true finished l l' h = hand_over-WroteDone x id now a g s l.0 l.1 l.2 h
  settle x id now a g s s' false true l l' h = absurd (ground arith)
  settle x id now a g s s' false false l l' h = hand_over-WroteDone x id now a g s' l'.0 l'.1 l'.2 h

  hand-WroteDone :
      (x : T) (id : String) (t : Times) (a : A) (g : MemoryGuard)
      → IsValid g
      → (hand x id t g a).0 ≡ handled
      → WroteDone g id t.done_write (hand x id t g a).1
  unfolding unless_done
  hand-WroteDone x id t a g valid h =
      let k = key_of id in
      let s = (claim t.claim_read t.claim_write k g).1 in
      let l = claim-Like g valid t.claim_read t.claim_write k in
      let l' = live-Like s l.0 t.state_read k in
      settle x id t.done_write a g s (live t.state_read k s).1
        (claim t.claim_read t.claim_write k g).0 (is_done (live t.state_read k s).0) l
        (l'.0, l'.1 ∙ l.1, l'.2 ∙ l.2) h

  hand_again :
      (x : T) (id : String) (t t' : Times) (a a' : A) (g : MemoryGuard)
      → IsValid g
      → 0 < g.max_keys
      → (hand x id t g a).0 ≡ handled
      → t'.claim_read < t.done_write + g.ttl
      → t'.state_read < t.done_write + g.ttl
      → let (what, g', after) = hand x id t' (hand x id t g a).1 a' in
        (what ≡ skipped) × (after ≡ a')
  hand_again x id t t' a a' g valid room h early early' =
      let (g', ok, e, e', w) = hand-WroteDone x id t a g valid h in
      rw w (again x id t.done_write t' a' g' ok (omega arith) (omega arith) (omega arith))

  not_done : (o : Option String) → (o ≡ some "1") ⊎ (o ≡ none) → is_done o ≡ false
  not_done none h = refl
  not_done (some v) h = ground (arith, ==_iff v done, ==_iff "1" done)

  hand_over_crashed :
      (x : T) (id : String) (now : ℕ) (g : MemoryGuard) (a : A)
      → (hand_over memory_guard group handler x (some (key_of id)) now g a).0 ≡ crashed
      → (hand_over memory_guard group handler x (some (key_of id)) now g a).1 ≡ g
  unfolding hand_over
  hand_over_crashed x id now g a h = go (handler x a) refl
    where
      go :
          (r : Handled A)
          → handler x a ≡ r
          → (hand_over memory_guard group handler x (some (key_of id)) now g a).1 ≡ g
      go (returned a') q = absurd (ground arith)
      go (raised a') q = rw (q, hand_over)

  -- Which guard a crash leaves, by what the claim and the status said.
  crash_guard :
      (x : T) (id : String) (now : ℕ) (a : A) (s s' : MemoryGuard) (first finished : Bool)
      → let run =
          λ (s : MemoryGuard). hand_over memory_guard group handler x (some (key_of id)) now s a in
        let out : Delivery × MemoryGuard × A =
          if first then run s else if finished then (skipped, s', a) else run s' in
        out.0 ≡ crashed → ((first ≡ true) × (out.1 ≡ s)) ⊎ ((finished ≡ false) × (out.1 ≡ s'))
  crash_guard x id now a s s' true finished h = inl (refl, hand_over_crashed x id now s a h)
  crash_guard x id now a s s' false true h = absurd (ground arith)
  crash_guard x id now a s s' false false h = inr (refl, hand_over_crashed x id now s' a h)

  hand_crashed :
      (x : T) (id : String) (t : Times) (later : ℕ) (a : A) (g : MemoryGuard)
      → IsValid g
      → 0 < g.max_keys
      → t.state_read ≤ later
      → (hand x id t g a).0 ≡ crashed
      → is_done (live later (key_of id) (hand x id t g a).1).0 ≡ false
  unfolding unless_done
  hand_crashed x id t later a g valid room after h =
      let k = key_of id in
      let c = claim t.claim_read t.claim_write k g in
      let s = c.1 in
      let l = claim-Like g valid t.claim_read t.claim_write k in
      let status = live t.state_read k s in
      elim (crash_guard x id t.done_write a s status.1 c.0 (is_done status.0) h) [
        | inl (won, e) ↦
            rw e (not_done _ (claim_mark g t.claim_read t.claim_write later k valid room won))
        | inr (unfinished, e) ↦ rw e (elim (live_later s t.state_read later k l.0 after) [
          | inl q ↦ rw q unfinished
          | inr q ↦ rw q
        ])
      ]

  module _ (validate : String → Option T) (parks : Dict String → Bool) (fields : Dict String)
      {x : T} {id : String} (decoded : decode_model validate fields ≡ parsed x)
      (identified : lookup "id" fields ≡ some id) where
    deliver-hand :
        (t : Times) (g : MemoryGuard) (a : A)
        → deliver memory_guard group handler validate parks t fields g a ≡ hand x id t g a
    unfolding deliver
    deliver-hand t g a = rw (decoded, identified, deliver)

    module _ (g : MemoryGuard) (valid : IsValid g) (room : 0 < g.max_keys) (t : Times) (a : A) where
      abbrev pub once : Delivery × MemoryGuard × A
      once = deliver memory_guard group handler validate parks t fields g a

      -- From a valid guard that may hold a key: a decodable event with an id whose handler returned
      -- is skipped when it is delivered again while the guard remembers it: the handler does not
      -- run, and the consumer's state stays.
      pub handled_once :
          (t' : Times) (a' : A)
          → once.0 ≡ handled
          → t'.claim_read < t.done_write + g.ttl
          → t'.state_read < t.done_write + g.ttl
          → let (what, g', after) =
              deliver memory_guard group handler validate parks t' fields once.1 a' in
            (what ≡ skipped) × (after ≡ a')
      handled_once t' a' h early early' =
          rw (deliver-hand t' once.1 a', deliver-hand t g a)
            (hand_again x id t t' a a' g valid room (rw (deliver-hand t g a) at h) early early')

      -- From a valid guard that may hold a key: a decodable event with an id whose handler raised is
      -- not lost. At no later time does the guard that is left say that it is done, so that another
      -- delivery hands it over again.
      pub crashed_retry :
          (later : ℕ)
          → t.state_read ≤ later
          → once.0 ≡ crashed
          → is_done (live later (group <> ":" <> id) once.1).0 ≡ false
      crashed_retry later after h =
          rw (deliver-hand t g a)
            (hand_crashed x id t later a g valid room after (rw (deliver-hand t g a) at h))
