-- ===== src/Governance/RunHub.antt =====
-- services/governance/agent_run_hub.py: the steps of a run go to the queues of its subscribers. A queue
-- is a number, by which its subscriber is known, its size, and its steps, the oldest first. The locks
-- and the event loop make each operation one step; a loop that is closed delivers nothing.
pub mod Isolation
use intelliops.Base.{
  ℕ, ltb, leb, nat_eq, Bool, true, false, not, ◌&&◌, String, ◌==◌, Option, none, some, List, [],
  ◌∷◌, ◌++◌, map, length, drop, filter, any, if◌then◌else◌,
}
use intelliops.Base.Dict.{Dict, lookup, insert, erase}

pub record Queue (Step : Type 0) : Type 0 where
  pub number : ℕ
  pub maxsize : ℕ
  pub steps : List Step

pub record Hub (Step : Type 0) : Type 0 where
  pub subs : Dict (List (Queue Step))
  pub ended : List String
  -- whether there is a loop
  pub bound : Bool

module _ {Step : Type 0} where
  -- `q.full()`: a queue of size 0 never is.
  abbrev pub is_full : Queue Step → Bool
  is_full q = ltb 0 q.maxsize && leb q.maxsize (length q.steps)

  -- `_deliver`: a full queue loses its oldest step.
  unfoldable pub deliver : Step → Queue Step → Queue Step
  deliver x q =
      if is_full q
      then record q { steps = drop 1 q.steps ++ (x ∷ []) }
      else record q { steps = q.steps ++ (x ∷ []) }

  abbrev pub queues_of : String → Hub Step → List (Queue Step)
  queues_of run hub = elim (lookup run hub.subs) [ none ↦ [] | some qs ↦ qs ]

  unfoldable pub subscribe : String → (number maxsize : ℕ) → Hub Step → Hub Step
  subscribe run number maxsize hub = record hub {
    subs =
        insert run (record { number = number; maxsize = maxsize; steps = [] } ∷ queues_of run hub)
          hub.subs;
  }

  abbrev left_after :
      String → List (Queue Step) → Dict (List (Queue Step)) → Dict (List (Queue Step))
  left_after run [] subs = erase run subs
  left_after run (q ∷ qs) subs = insert run (q ∷ qs) subs

  unfoldable pub unsubscribe : String → (number : ℕ) → Hub Step → Hub Step
  unsubscribe run number hub = elim (lookup run hub.subs) [
    | none ↦ hub
    | some qs ↦ record hub {
      subs = left_after run (filter (λ (q : Queue Step). not (nat_eq q.number number)) qs) hub.subs;
    }
  ]

  abbrev pub reaching : String → Step → Hub Step → Option (List (Queue Step)) → Hub Step
  reaching run x hub none = hub
  reaching run x hub (some qs) =
      if hub.bound then record hub { subs = insert run (map (deliver x) qs) hub.subs } else hub

  -- `publish`, when the loop has delivered it
  unfoldable pub publish : String → Step → Hub Step → Hub Step
  publish run x hub = reaching run x hub (lookup run hub.subs)

  unfoldable pub mark_ended : String → Hub Step → Hub Step
  mark_ended run hub = record hub { ended = run ∷ hub.ended }

  unfoldable pub is_ended : String → Hub Step → Bool
  is_ended run hub = any (λ r. r == run) hub.ended
