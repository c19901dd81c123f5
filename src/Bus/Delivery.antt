-- ===== src/Bus/Delivery.antt =====
-- What the generator has promised when it acknowledges an entry, and when it reads new ones.
use intelliops.Base.{
  All, ◌⊎◌, inl, inr, ◌≡◌, if◌then◌else◌, ◌∷◌, ◌<>◌, ◌≤◌, ◌<◌, ℕ, zero, suc, String, refl, Bool,
  true, false, not, none, some, List, [], arith, if_rule, ltb, ltb→lt,
}
use intelliops.Base.Dict.{Dict, insert}
use intelliops.Base.{Some}
use intelliops.Bus.{
  drain_batch, Mark, Log, Reply, Entry, World, Config, Ended, Run, State, made, answered, stop_here,
  acknowledge, forget, publish, parked_fields, send_to_dlq, hand_over_then_ack, park, attempt,
  serve, go_on, serve_all, served, read_and_serve, ensure_group, tried, settled, started, consume,
  grouped, read_pending, read_new, acked, counted, expiring, forgotten, added, handed, resumed,
  reconnecting, got, lost, failed, finished, disconnected, escaped, abandoned,
}

module _ (w : World) (c : Config) where
  -- A read of the stream answered an entry with this id and these fields.
  abbrev pub Read : String → Dict String → Type 0
  Read id fields =
      (l : Log) × (es : List Entry) × ((w.pending l drain_batch ≡ got es) ⊎ (w.new l 1 ≡ got es))
      × Some (λ (e : Entry). (e.id ≡ id) × (e.fields ≡ fields)) es

  -- The fields of a parked entry: its own, with the reason, the topic and the group.
  abbrev pub Parked : Dict String → Dict String → Type 0
  Parked fields f =
      f
      ≡ insert "_dlq_group" c.group
          (insert "_dlq_topic" c.topic (insert "_dlq_reason" "max-delivery-attempts" fields))

  -- What stands directly below an acknowledgement: the caller came back for the next entry, having
  -- been handed this one, or this entry was parked after more attempts than are allowed.
  abbrev pub Reason : String → Log → Type 0
  Reason id (resumed j ∷ handed k f ∷ l) = (j ≡ id) × (k ≡ id) × Read id f
  Reason id (added t f m ∷ expiring j ∷ counted k n ∷ l) =
      (t ≡ c.topic <> c.dlq_suffix)
      × (j ≡ id)
      × (k ≡ id)
      × (c.max_delivery_attempts < n)
      × (fields : Dict String) × Read id fields
      × Parked fields f
  Reason id l = ⊥

  -- What stands directly below an entry that is handed over, where attempts are counted.
  abbrev pub Counted : String → Log → Type 0
  Counted id (expiring j ∷ counted k n ∷ l) = (j ≡ id) × (k ≡ id) × (n ≤ c.max_delivery_attempts)
  Counted id l = ⊥

  -- Whether a batch of the pending entries was asked for since the connection was last lost.
  abbrev pub drained_in : Log → Bool
  drained_in [] = false
  drained_in (read_pending ∷ l) = true
  drained_in (reconnecting ∷ l) = false
  drained_in (_ ∷ l) = drained_in l

  abbrev pub Allowed : Mark → Log → Type 0
  Allowed (acked id) l = Reason id l
  Allowed (handed id f) l = Read id f × (c.dlq_on ≡ true → Counted id l)
  Allowed read_new l = drained_in l ≡ true
  Allowed _ l = Unit

  abbrev pub IsLawful : Log → Type 0
  IsLawful [] = Unit
  IsLawful (m ∷ l) = Allowed m l × IsLawful l

  -- Lawful, and with a batch of the pending entries asked for.
  abbrev Ready : Log → Type 0
  Ready l = IsLawful l × (drained_in l ≡ true)

  made_rule {ℓ} :
      (P : Ended × Log → Type ℓ) (m : Mark) (ask : Log → Reply (Unit {0})) (rest : Run) (l : Log)
      → P (disconnected, m ∷ l)
      → P (escaped, m ∷ l)
      → P (rest (m ∷ l))
      → P (made w c m ask rest l)
  made_rule P m ask rest l a b k =
      elim (ask l)
        as (λ r. P (elim r [
          | got _ ↦ rest (m ∷ l)
          | lost ↦ (disconnected, m ∷ l)
          | failed ↦ (escaped, m ∷ l)
        ])) [ got _ ↦ k | lost ↦ a | failed ↦ b ]

  answered_rule {ℓ} :
      (P : Ended × Log → Type ℓ) (m : Mark) (ask : Log → Reply (Unit {0})) (rest : Run) (l : Log)
      → P (disconnected, l)
      → P (escaped, l)
      → P (rest (m ∷ l))
      → P (answered w c m ask rest l)
  answered_rule P m ask rest l a b k =
      elim (ask l)
        as (λ r.
          P (elim r [ got _ ↦ rest (m ∷ l) | lost ↦ (disconnected, l) | failed ↦ (escaped, l) ])) [
            | got _ ↦ k
            | lost ↦ a
            | failed ↦ b
          ]

  abbrev KeepsReady : Ended × Log → Type 0
  KeepsReady x = Ready x.1

  forget-Ready : (id : String) (l : Log) → Ready l → Ready (forget w c id l).1
  forget-Ready id l r =
      answered_rule KeepsReady (forgotten id) (λ l. w.delete l id) (stop_here w c) l r r
        ((tt, r.0), r.1)

  acknowledge-Ready :
      (id : String) (rest : Run) (l : Log)
      → Reason id l
      → ((l : Log) → Ready l → Ready (rest l).1)
      → Ready l
      → Ready (acknowledge w c id rest l).1
  acknowledge-Ready id rest l why keep r =
      let here : Ready (acked id ∷ l) = ((why, r.0), r.1) in
      made_rule KeepsReady (acked id) (λ l. w.ack l id) rest l here here (keep _ here)

  hand_over-Ready :
      (e : Entry) (l : Log)
      → Read e.id e.fields
      → (c.dlq_on ≡ true → Counted e.id l)
      → Ready l
      → Ready (hand_over_then_ack w c e l).1
  unfolding hand_over_then_ack
  hand_over-Ready e l was may r =
      let handed_it : Ready (handed e.id e.fields ∷ l) = (((was, may), r.0), r.1) in
      if_rule KeepsReady (w.comes_back (handed e.id e.fields ∷ l)) _ _
        (λ _.
          acknowledge-Ready e.id (if c.dlq_on then forget w c e.id else stop_here w c) _
            (refl, refl, was)
            (λ l r.
              if_rule (λ (k : Run). Ready (k l).1) c.dlq_on (forget w c e.id) (stop_here w c)
                (λ _. forget-Ready e.id l r) (λ _. r))
            ((tt, handed_it.0), handed_it.1))
        (λ _. handed_it)

  park-Ready :
      (e : Entry) (n : ℕ) (l : Log)
      → Read e.id e.fields
      → c.dlq_on ≡ true
      → c.max_delivery_attempts < n
      → Ready (expiring e.id ∷ counted e.id n ∷ l)
      → Ready (park w c e (expiring e.id ∷ counted e.id n ∷ l)).1
  unfolding park send_to_dlq
  park-Ready e n l was on more r =
      let here : Log = expiring e.id ∷ counted e.id n ∷ l in
      let after : Run = acknowledge w c e.id (forget w c e.id) in
      let fields = parked_fields w c e.fields "max-delivery-attempts" in
      let topic = c.topic <> c.dlq_suffix in
      let cap = if ltb 0 c.stream_maxlen then some c.stream_maxlen else none in
      if_rule (λ (k : Run). Ready (k here).1) c.dlq_on (publish w c topic fields after) after
        (λ _.
          answered_rule KeepsReady (added topic fields cap) (λ l. w.add l topic fields) after here r
            r
            (acknowledge-Ready e.id (forget w c e.id) (added topic fields cap ∷ here)
              (refl, refl, refl, more, e.fields, was, refl) (forget-Ready e.id) ((tt, r.0), r.1)))
        (λ off. absurd (ground arith))

  attempt-Ready :
      (e : Entry) (n : ℕ) (l : Log)
      → Read e.id e.fields
      → c.dlq_on ≡ true
      → Ready l
      → Ready (attempt w c e n l).1
  unfolding attempt
  attempt-Ready e n l was on r =
      let counted_it : Ready (counted e.id n ∷ l) = ((tt, r.0), r.1) in
      let expiring_it : Ready (expiring e.id ∷ counted e.id n ∷ l) = ((tt, counted_it.0), r.1) in
      answered_rule KeepsReady (expiring e.id) (λ l. w.expire l e.id)
        (if ltb c.max_delivery_attempts n then park w c e else hand_over_then_ack w c e)
        (counted e.id n ∷ l) counted_it counted_it
        (if_rule (λ (k : Run). Ready (k (expiring e.id ∷ counted e.id n ∷ l)).1)
          (ltb c.max_delivery_attempts n) (park w c e) (hand_over_then_ack w c e)
          (λ more. park-Ready e n l was on (ltb→lt _ _ more) expiring_it)
          (λ few. hand_over-Ready e _ was (λ _. (refl, refl, ground arith)) expiring_it))

  count_rule :
      (e : Entry) (l : Log)
      → ((n : ℕ) → Ready (attempt w c e n l).1)
      → Ready l
      → KeepsReady (elim (w.incr l e.id) [
        | got n ↦ attempt w c e n l
        | lost ↦ (disconnected, l)
        | failed ↦ (escaped, l)
      ])
  count_rule e l keep r =
      elim (w.incr l e.id)
        as (λ (a : Reply ℕ). KeepsReady (elim a [
          | got n ↦ attempt w c e n l
          | lost ↦ (disconnected, l)
          | failed ↦ (escaped, l)
        ])) [ got n ↦ keep n | lost ↦ r | failed ↦ r ]

  serve-Ready :
      (e : Entry) (l : Log)
      → Read e.id e.fields
      → c.at_least_once ≡ true
      → Ready l
      → Ready (serve w c e l).1
  unfolding serve
  serve-Ready e l was once r =
      if_rule KeepsReady (not c.at_least_once) _ _ (λ at_most_once. absurd (ground arith))
        (λ _.
          if_rule KeepsReady c.dlq_on _ _
            (λ on. count_rule e l (λ n. attempt-Ready e n l was on r) r)
            (λ off. hand_over-Ready e l was (λ on. absurd (ground arith)) r))

  go_on-Ready :
      (rest : Run) (x : Ended × Log)
      → ((l : Log) → Ready l → Ready (rest l).1)
      → Ready x.1
      → Ready (go_on w c rest x).1
  go_on-Ready rest (finished, l) keep r = keep l r
  go_on-Ready rest (disconnected, l) keep r = r
  go_on-Ready rest (escaped, l) keep r = r
  go_on-Ready rest (abandoned, l) keep r = r

  module _ (once : c.at_least_once ≡ true) where
    -- The entries come from a read.
    abbrev AllRead : List Entry → Type 0
    AllRead = All (λ e. Read e.id e.fields)

    serve_all-Ready :
        (es : List Entry) (l : Log) → AllRead es → Ready l → Ready (serve_all w c es l).1
    unfolding serve_all
    serve_all-Ready [] l was r = r
    serve_all-Ready (e ∷ es) l was r =
        go_on-Ready (serve_all w c es) (serve w c e l) (λ l. serve_all-Ready es l was.1)
          (serve-Ready e l was.0 once r)

    -- What holds of every member with a place of its own.
    each :
        {P : Entry → Type 0} (es : List Entry)
        → ((e : Entry) → Some (λ x. (x.id ≡ e.id) × (x.fields ≡ e.fields)) es → P e)
        → All P es
    each [] f = tt
    each (e ∷ es) f = (f e (Some.here (refl, refl)), each es (λ x s. f x (Some.there s)))

    -- What a round is given.
    abbrev IsSound : State w c → Type 0
    IsSound s = IsLawful s.log × (s.drained ≡ true → drained_in s.log ≡ true)

    served-Ready :
        (a : Reply (List Entry)) (l : Log)
        → ((es : List Entry) → a ≡ got es → AllRead es)
        → Ready l
        → Ready (served w c a l).1
    served-Ready (got es) l was r = serve_all-Ready es l (was es refl) r
    served-Ready lost l was r = r
    served-Ready failed l was r = r

    read-Ready :
        (drained : Bool) (l : Log)
        → IsLawful l
        → (drained ≡ true → drained_in l ≡ true)
        → Ready (read_and_serve w c drained l).1
    unfolding read_and_serve
    read-Ready false l h d =
        served-Ready (w.pending l drain_batch) (read_pending ∷ l)
          (λ es e. each es (λ x s. (l, es, inl e, s))) ((tt, h), refl)
    read-Ready true l h d =
        served-Ready (w.new l 1) (read_new ∷ l) (λ es e. each es (λ x s. (l, es, inr e, s)))
          ((d refl, h), d refl)

    -- A round leaves a lawful log, and one that it finishes leaves the pending entries read.
    abbrev Leaves : Ended × Log → Type 0
    Leaves x = IsLawful x.1 × (x.0 ≡ finished → drained_in x.1 ≡ true)

    group-Leaves :
        (ready drained : Bool) (l : Log)
        → IsLawful l
        → (drained ≡ true → drained_in l ≡ true)
        → Leaves (ensure_group w c ready (read_and_serve w c drained) l)
    unfolding ensure_group
    group-Leaves true drained l h d = let (a, b) = read-Ready drained l h d in (a, λ _. b)
    group-Leaves false drained l h d =
        answered_rule Leaves grouped w.group_create (read_and_serve w c drained) l
          (h, λ is. absurd (ground arith)) (h, λ is. absurd (ground arith))
          (let (a, b) = read-Ready drained (grouped ∷ l) (tt, h) d in (a, λ _. b))

    -- The next round is given what it needs, if there is one.
    consume-IsLawful_from : (n : ℕ) (s : State w c) → IsSound s → IsLawful (consume w c n s)
    unfolding consume tried
    consume-IsLawful_from zero s h = h.0
    consume-IsLawful_from (suc n) s (h, d) =
        go (tried w c s) (consume-IsLawful_from n) (group-Leaves s.group_ready s.drained s.log h d)
      where
        go :
            (x : Ended × Log)
            → ((s : State w c) → IsSound s → IsLawful (consume w c n s))
            → Leaves x
            → IsLawful (elim (settled w c x) [ none ↦ x.1 | some s' ↦ consume w c n s' ])
        go (finished, l) next (a, b) = next _ (a, λ _. b refl)
        go (disconnected, l) next (a, b) = next _ ((tt, a), λ drained. absurd (ground arith))
        go (escaped, l) next (a, b) = a
        go (abandoned, l) next (a, b) = a

  -- With delivery at least once, however the connection fails and whatever the caller does: an entry
  -- is acknowledged only directly after the caller came back from it, or after its own fields, with
  -- the reason, the topic and the group added, went to the topic of parked entries because it had
  -- been counted more often than the limit. Only what a read answered is handed over, and, where
  -- entries are counted, only directly after a count within the limit. New entries are read only
  -- when a batch of the pending ones, of at most 100, was asked for since the connection was last
  -- lost.
  pub consume-IsLawful : (n : ℕ) → c.at_least_once ≡ true → IsLawful (consume w c n (started w c))
  unfolding started
  consume-IsLawful n once =
      consume-IsLawful_from once n (started w c) (tt, λ drained. absurd (ground arith))
