-- ===== src/Bus.antt =====
-- common/bus.py, RedisBus: the generator behind `consume`, and the parking of entries. The Redis
-- client and the caller of the generator are a parameter: what each call answers, given all that
-- happened before it. The log holds what was done, the latest first.
pub mod Delivery
use intelliops.Base.{
  if◌then◌else◌, ◌∷◌, ◌<>◌, ℕ, zero, suc, String, Bool, true, false, not, Option, none, some, List,
  [], ltb,
}
use intelliops.Base.Dict.{Dict, insert}

pub data Mark : Type 0 where
  -- XGROUP CREATE
  grouped : Mark
  -- XREADGROUP from "0", this consumer's own pending entries, and from ">", the new ones
  read_pending : Mark
  read_new : Mark
  -- XACK, whether its reply arrived or not
  acked : String → Mark
  -- INCR and EXPIRE of the number of attempts, once they were answered, and DEL
  counted : String → ℕ → Mark
  expiring : String → Mark
  forgotten : String → Mark
  -- XADD, with its MAXLEN, once it was answered
  added : (topic : String) → Dict String → (maxlen : Option ℕ) → Mark
  -- `yield fields`, and the caller's next call
  handed : String → Dict String → Mark
  resumed : String → Mark
  -- the sleep after a lost connection
  reconnecting : Mark

abbrev pub Log : Type 0
Log = List Mark

-- `lost` is a ConnectionError or a TimeoutError, `failed` any other exception.
pub data Reply (A : Type 0) : Type 0 where
  got : A → Reply A
  lost : Reply A
  failed : Reply A

pub record Entry : Type 0 where
  pub id : String
  pub fields : Dict String

pub record World : Type 0 where
  -- a group that is there already is an answer too: BUSYGROUP is let pass
  pub group_create : Log → Reply (Unit {0})
  -- the entries that a read of at most so many finds
  pub pending : Log → (count : ℕ) → Reply (List Entry)
  pub new : Log → (count : ℕ) → Reply (List Entry)
  pub ack : Log → String → Reply (Unit {0})
  pub incr : Log → String → Reply ℕ
  pub expire : Log → String → Reply (Unit {0})
  pub delete : Log → String → Reply (Unit {0})
  pub add : Log → String → Dict String → Reply (Unit {0})
  -- whether the caller of the generator comes back
  pub comes_back : Log → Bool

pub record Config : Type 0 where
  pub topic : String
  pub group : String
  pub at_least_once : Bool
  pub dlq_on : Bool
  pub dlq_suffix : String
  pub max_delivery_attempts : ℕ
  pub stream_maxlen : ℕ

-- `_DRAIN_BATCH`
abbrev pub drain_batch : ℕ
drain_batch = 100

-- How a piece of the generator ends; `abandoned` when it is never resumed.
pub data Ended : Type 0 where
  finished : Ended
  disconnected : Ended
  escaped : Ended
  abandoned : Ended

abbrev pub Run : Type 0
Run = Log → Ended × Log

module _ (w : World) (c : Config) where
  -- A call, marked as soon as it is made.
  abbrev pub made : Mark → (Log → Reply (Unit {0})) → Run → Run
  made m ask rest l = elim (ask l) [
    | got _ ↦ rest (m ∷ l)
    | lost ↦ (disconnected, m ∷ l)
    | failed ↦ (escaped, m ∷ l)
  ]

  -- A call, marked once it is answered.
  abbrev pub answered : Mark → (Log → Reply (Unit {0})) → Run → Run
  answered m ask rest l = elim (ask l) [
    | got _ ↦ rest (m ∷ l)
    | lost ↦ (disconnected, l)
    | failed ↦ (escaped, l)
  ]

  abbrev pub stop_here : Run
  stop_here l = (finished, l)

  abbrev pub acknowledge : String → Run → Run
  acknowledge id = made (acked id) (λ l. w.ack l id)

  abbrev pub forget : String → Run
  forget id = answered (forgotten id) (λ l. w.delete l id) stop_here

  -- `publish`
  abbrev pub publish : String → Dict String → Run → Run
  publish topic fields =
      answered (added topic fields (if ltb 0 c.stream_maxlen then some c.stream_maxlen else none))
        (λ l. w.add l topic fields)

  abbrev pub parked_fields : Dict String → String → Dict String
  parked_fields fields reason =
      insert "_dlq_group" c.group (insert "_dlq_topic" c.topic (insert "_dlq_reason" reason fields))

  -- `send_to_dlq`, whose answer is not looked at here
  unfoldable pub send_to_dlq : Dict String → String → Run → Run
  send_to_dlq fields reason rest =
      if c.dlq_on
      then publish (c.topic <> c.dlq_suffix) (parked_fields fields reason) rest
      else rest

  -- `yield fields`, and what follows it if the caller comes back
  abbrev pub hand_over : Entry → Run → Run
  hand_over e rest l =
      if w.comes_back (handed e.id e.fields ∷ l)
      then rest (resumed e.id ∷ handed e.id e.fields ∷ l)
      else (abandoned, handed e.id e.fields ∷ l)

  unfoldable pub hand_over_then_ack : Entry → Run
  hand_over_then_ack e =
      hand_over e (acknowledge e.id (if c.dlq_on then forget e.id else stop_here))

  unfoldable pub park : Entry → Run
  park e = send_to_dlq e.fields "max-delivery-attempts" (acknowledge e.id (forget e.id))

  unfoldable pub attempt : Entry → ℕ → Run
  attempt e n l =
      answered (expiring e.id) (λ l. w.expire l e.id)
        (if ltb c.max_delivery_attempts n then park e else hand_over_then_ack e)
        (counted e.id n ∷ l)

  -- The body of the inner loop.
  unfoldable pub serve : Entry → Run
  serve e l =
      if not c.at_least_once
      then acknowledge e.id (hand_over e stop_here) l
      else if c.dlq_on
      then elim (w.incr l e.id) [
        | got n ↦ attempt e n l
        | lost ↦ (disconnected, l)
        | failed ↦ (escaped, l)
      ]
      else hand_over_then_ack e l

  abbrev pub go_on : (Log → Ended × Log) → Ended × Log → Ended × Log
  go_on rest (finished, l) = rest l
  go_on rest (disconnected, l) = (disconnected, l)
  go_on rest (escaped, l) = (escaped, l)
  go_on rest (abandoned, l) = (abandoned, l)

  unfoldable pub serve_all : List Entry → Run
  serve_all [] l = stop_here l
  serve_all (e ∷ es) l = go_on (serve_all es) (serve e l)

  pub record State : Type 0 where
    pub group_ready : Bool
    pub drained : Bool
    pub log : Log

  abbrev pub served : Reply (List Entry) → Run
  served (got es) l = serve_all es l
  served lost l = (disconnected, l)
  served failed l = (escaped, l)

  -- One read: at most `_DRAIN_BATCH` of the consumer's own pending entries, or one new one.
  unfoldable pub read_and_serve : (drained : Bool) → Run
  read_and_serve false l = served (w.pending l drain_batch) (read_pending ∷ l)
  read_and_serve true l = served (w.new l 1) (read_new ∷ l)

  unfoldable pub ensure_group : (ready : Bool) → Run → Run
  ensure_group true rest = rest
  ensure_group false rest = answered grouped w.group_create rest

  -- One round of `while True`, inside the `try`.
  unfoldable pub tried : State → Ended × Log
  tried s = ensure_group s.group_ready (read_and_serve s.drained) s.log

  -- What the round leaves; `none` where the generator is over.
  abbrev pub settled : Ended × Log → Option State
  settled (finished, l) = some (record { group_ready = true; drained = true; log = l })
  settled (disconnected, l) =
      some (record { group_ready = false; drained = not c.at_least_once; log = reconnecting ∷ l })
  settled (escaped, l) = none
  settled (abandoned, l) = none

  unfoldable pub started : State
  started = record { group_ready = false; drained = not c.at_least_once; log = [] }

  -- The log after so many rounds, or at the end of the generator if that comes first.
  unfoldable pub consume : ℕ → State → Log
  consume zero s = s.log
  consume (suc n) s =
      let (how, l) = tried s in elim (settled (how, l)) [ none ↦ l | some s' ↦ consume n s' ]
