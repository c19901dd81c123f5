-- ===== src/Tests/Read.antt =====
-- The read model at concrete inputs: a resolved incident that is detected once more.
use intelliops.Base.{
  count, ◌⊎◌, length, ℕ, ◌≤◌, ◌<◌, Bool, true, false, String, ◌==◌, ==_iff, Option, none, some,
  List, [], ◌∷◌, ◌≡◌, ◌≢◌, refl, arith,
}
use intelliops.Contracts.{RemediationResult}
use intelliops.Base.Dict.{lookup, erase, IsDict}
use intelliops.Read.Projection.Bounds.{OwnId}
use intelliops.Read.Eviction.{enforce_cap, drop_all, evictable, insert_by_age}
use intelliops.Read.Eviction.Open.{Stays, situations-Stays}
use intelliops.Read.Eviction.Cap.{stays_put, enforce_cap-Within}
use intelliops.Tests.{floats}
use intelliops.Tests.Data.{sit, diagnosed, outcome_of}
use intelliops.Read.Card.{Card, ReadModel}
use intelliops.Read.Projection.{new_card, finished, apply_detected, apply_diagnosed}
use intelliops.Read.Projection.History.{Keeps, apply-Keeps}

abbrev card : Card ℕ
card = finished floats (outcome_of RemediationResult.success) (new_card floats sit)

abbrev model : ReadModel ℕ
model = record {
  sits = ("sit-abc", card) ∷ [];
  outcomes = [];
  max_outcomes = 2;
  suppressed_count = 0;
}

resolved : card.status ≢ "detected"
unfolding finished new_card intelliops.Read.Card.result_status
resolved = ground (arith, ==_iff "resolved" "detected")

apply-Keeps_example :
    Keeps floats "sit-abc" card (apply_detected floats sit model).1
    × Keeps floats "sit-abc" card (apply_diagnosed floats diagnosed model).1
unfolding finished new_card intelliops.Base.Dict.lookup
apply-Keeps_example = apply-Keeps floats diagnosed model card refl resolved (omega arith)

-- One finished incident and one that is new, where only one card may stay.
abbrev new : Card ℕ
new = record (new_card floats sit) { id = "sit-new" }

abbrev busy : ReadModel ℕ
busy = record model { sits = ("sit-abc", card) ∷ ("sit-new", new) ∷ [] }

busy-OwnId : OwnId floats busy.sits
unfolding finished new_card
busy-OwnId = (refl, (refl, tt))

busy-IsDict : IsDict busy.sits
unfolding lookup
busy-IsDict = (refl, (refl, tt))

situations-Stays_example : Stays floats 1 5 (some 99) busy "sit-new" new
unfolding lookup
situations-Stays_example =
    situations-Stays floats 1 5 (some 99) busy "sit-new" new busy-OwnId busy-IsDict refl

enforce_cap-Within_example :
    ((length busy.sits ≤ 1) × (enforce_cap 1 busy.sits ≡ busy.sits))
    ⊎ (1 < length busy.sits)
      × ((length (enforce_cap 1 busy.sits) ≡ 1)
          ⊎ (1 ≤ count (stays_put floats) busy.sits)
            × (length (enforce_cap 1 busy.sits) ≡ count (stays_put floats) busy.sits))
enforce_cap-Within_example = enforce_cap-Within floats 1 busy.sits busy-OwnId busy-IsDict

-- The finished one goes.
one_left : enforce_cap 1 busy.sits ≡ ("sit-new", new) ∷ []
unfolding finished new_card enforce_cap drop_all evictable insert_by_age erase
    intelliops.Read.Card.result_status
one_left = refl
