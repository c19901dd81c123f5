-- ===== src/Tests/Bus.antt =====
-- The guard and the envelope at concrete inputs.
use intelliops.Base.{
  ℕ, Bool, true, false, String, ◌<>◌, Option, some, [], ◌∷◌, ◌≡◌, refl, arith, ◌+◌,
}
use intelliops.Base.Dict.{Dict, lookup}
use intelliops.Idempotency.{MemoryGuard, memory_guard, trim, touch, live, claim}
use intelliops.Idempotency.Memory.{IsValid}
use intelliops.Envelope.{
  envelope, deliver, decode_model, parsed, Handled, returned, raised, skipped, Times, hand_over,
  unless_done, is_done,
}
use intelliops.Envelope.Redelivery.{handled_once, crashed_retry}

abbrev held : MemoryGuard
held = record { max_keys = 3; ttl = 100; seen = ("a", ("1", 50)) ∷ ("b", ("done", 90)) ∷ [] }

held-IsValid : IsValid held
unfolding lookup
held-IsValid = (omega arith, (refl, (refl, tt)))

abbrev text_of : String → Option String
text_of s = some s

abbrev parks : Dict String → Bool
parks d = true

abbrev message : Dict String
message = envelope "{}" "e1"

abbrev count_it : String → ℕ → Handled ℕ
count_it x n = returned (n + 1)

abbrev fail_it : String → ℕ → Handled ℕ
fail_it x n = raised n

abbrev first : Times
first = record { claim_read = 10; claim_write = 10; state_read = 10; done_write = 12 }

abbrev second : Times
second = record { claim_read = 20; claim_write = 20; state_read = 21; done_write = 22 }

message-parsed : decode_model text_of message ≡ parsed "{}"
unfolding decode_model envelope lookup
message-parsed = refl

message-id : lookup "id" message ≡ some "e1"
unfolding envelope lookup
message-id = refl

handled_once_example :
    let once = (deliver memory_guard "g" count_it text_of parks first message held 0).1 in
    let (what, g, after) = deliver memory_guard "g" count_it text_of parks second message once 1 in
    (what ≡ skipped) × (after ≡ 1)
unfolding deliver decode_model envelope lookup unless_done hand_over live claim touch trim
handled_once_example =
    handled_once "g" count_it text_of parks message message-parsed message-id held held-IsValid
      (omega arith) first 0 second 1 refl (omega arith) (omega arith)

crashed_retry_example :
    is_done
      (live 30
        ("g" <> ":" <> "e1")
        (deliver memory_guard "g" fail_it text_of parks first message held 0).1).0
    ≡ false
unfolding deliver decode_model envelope lookup unless_done hand_over live claim touch trim
crashed_retry_example =
    crashed_retry "g" fail_it text_of parks message message-parsed message-id held held-IsValid
      (omega arith) first 0 30 (omega arith) refl
