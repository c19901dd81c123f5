-- ===== src/Tests/Redis.antt =====
-- A consumer whose connection fails once: one entry is pending, and has been tried too often.
use intelliops.Base.{String, if◌then◌else◌, ◌∷◌, refl, true, false, [], none, Bool, all, ◌≡◌}
use intelliops.Base.Dict.{Dict, insert}
use intelliops.Bus.{
  Log, read_new, forgotten, acked, added, expiring, counted, read_pending, grouped, reconnecting,
  tried, ensure_group, read_and_serve, serve_all, serve, attempt, park, send_to_dlq, World, Config,
  Entry, got, lost, started, consume,
}
use intelliops.Bus.Delivery.{IsLawful, consume-IsLawful}

abbrev poison : Entry
poison = record { id = "7-0"; fields = ("payload", "{}") ∷ [] }

-- The first read fails, and later ones do not.
abbrev no_connection_lost : Log → Bool
no_connection_lost = all (λ m. elim m [ reconnecting ↦ false | _ ↦ true ])

abbrev world : World
world = record {
  group_create = λ l. got tt;
  pending = λ l n. if no_connection_lost l then lost else got (poison ∷ []);
  new = λ l n. got [];
  ack = λ l id. got tt;
  incr = λ l id. got 6;
  expire = λ l id. got tt;
  delete = λ l id. got tt;
  add = λ l topic fields. got tt;
  comes_back = λ l. true;
}

abbrev config : Config
config = record {
  topic = "situations.detected";
  group = "rca";
  at_least_once = true;
  dlq_on = true;
  dlq_suffix = ".dlq";
  max_delivery_attempts = 5;
  stream_maxlen = 0;
}

-- In three rounds the connection is lost, the entry is parked, and new ones are read.
abbrev parked : Dict String
parked = insert "_dlq_group" "rca" (
    insert "_dlq_topic" "situations.detected"
      (insert "_dlq_reason" "max-delivery-attempts" poison.fields))

three_rounds :
    consume world config 3 (started world config)
    ≡ read_new
      ∷ forgotten "7-0"
      ∷ acked "7-0"
      ∷ added "situations.detected.dlq" parked none
      ∷ expiring "7-0"
      ∷ counted "7-0" 6
      ∷ read_pending
      ∷ grouped
      ∷ reconnecting
      ∷ read_pending
      ∷ grouped
      ∷ []
unfolding consume started tried ensure_group read_and_serve serve_all serve attempt park send_to_dlq
three_rounds = refl

consume-IsLawful_example : IsLawful world config (consume world config 3 (started world config))
consume-IsLawful_example = consume-IsLawful world config 3 refl
