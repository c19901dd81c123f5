-- ===== src/Envelope.antt =====
-- common/envelope.py: a model travels as its JSON text with an event id; `iter_models` decodes each
-- delivery, parks what cannot be decoded, and skips an event whose handler already finished.
pub mod Redelivery
use intelliops.Base.{ℕ, Bool, false, String, ◌<>◌, ◌==◌, Option, none, some, [], ◌∷◌, if◌then◌else◌}
use intelliops.Base.Dict.{Dict, lookup}
use intelliops.Idempotency.{Guard}

abbrev pub done : String
done = "done"

-- `guard.state(key) == _DONE`
abbrev pub is_done : Option String → Bool
is_done none = false
is_done (some v) = v == done

-- `publish_model`: the fields that go on the bus, with a fresh id.
unfoldable pub envelope : (data_text id : String) → Dict String
envelope data_text id = ("data", data_text) ∷ ("id", id) ∷ []

pub data Decoded (T : Type 0) : Type 0 where
  parsed : T → Decoded T
  -- a ValidationError, and a KeyError where there is no "data"
  invalid missing : Decoded T

-- How the handling of one event ends: it returned, or it raised.
pub data Handled (A : Type 0) : Type 0 where
  returned raised : A → Handled A

-- What became of a delivery. All but `crashed` let the bus go on, which acknowledges it.
pub data Delivery : Type 0 where
  handled skipped parked crashed : Delivery

-- The readings of the guard's clock during one delivery.
pub record Times : Type 0 where
  pub claim_read : ℕ
  pub claim_write : ℕ
  pub state_read : ℕ
  pub done_write : ℕ

module _ {T : Type 0} where
  -- `decode_model`, over the validation of the JSON text.
  unfoldable pub decode_model : (String → Option T) → Dict String → Decoded T
  decode_model validate fields = elim (lookup "data" fields) [
    | none ↦ missing
    | some text ↦ elim (validate text) [ none ↦ invalid | some x ↦ parsed x ]
  ]

module _ {T A : Type 0} where
  module _ (g : Guard) (group : String) (handler : T → A → Handled A) where
    -- `yield parsed`: the consumer's body runs, and only when it returns is the event done.
    unfoldable pub hand_over : T → Option String → ℕ → g.S → A → Delivery × g.S × A
    hand_over x key t s a = elim (handler x a) [
      | raised a' ↦ (crashed, s, a')
      | returned a' ↦ (handled, elim key [ none ↦ s | some k ↦ g.set_state t k done s ], a')
    ]

    -- The two-phase claim.
    unfoldable pub unless_done : T → Option String → Times → g.S → A → Delivery × g.S × A
    unless_done x none t s a = hand_over x none t.done_write s a
    unless_done x (some id) t s a =
        let key = group <> ":" <> id in
        let (first, s') = g.claim t.claim_read t.claim_write key s in
        let (status, s'') = g.state t.state_read key s' in
        if first
        then hand_over x (some key) t.done_write s' a
        else if is_done status
        then (skipped, s'', a)
        else hand_over x (some key) t.done_write s'' a

    -- One round of `iter_models`. `parks` is whether the DLQ is there and takes the message.
    unfoldable pub deliver :
        (String → Option T)
        → (Dict String → Bool)
        → Times
        → Dict String
        → g.S
        → A
        → Delivery × g.S × A
    deliver validate parks t fields s a = elim (decode_model validate fields) [
      | parsed x ↦ unless_done x (lookup "id" fields) t s a
      | invalid ↦ ((if parks fields then parked else crashed), s, a)
      | missing ↦ (crashed, s, a)
    ]
