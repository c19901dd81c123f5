-- ===== src/Action/Consumer/Returns.antt =====
-- Where nothing that is called raises, every delivery is handled to its end.
use intelliops.Base.{not, ◌&&◌, true, false, ◌∷◌, String, List, ◌≡◌, ◌≢◌, Floats}
use intelliops.Contracts.{DiagnosedSituation, RemediationOutcome}
use intelliops.Idempotency.{Guard}
use intelliops.Action.Effects.{Env, ok, raised}
use intelliops.Action.Remediate.Returns.{IsUp}
use intelliops.Action.Consumer.{Stores, Config, Times, Node, claim_key, publish, handle}
use intelliops.Envelope.{is_done}

module _ (fl : Floats) (env : Env fl.F) (up : IsUp env) (g : Guard) (stores : Stores)
    (finds : (id : String) → stores.find_playbook id ≢ raised)
    (publishes : (sent : List RemediationOutcome) (o : RemediationOutcome)
      → stores.publish sent o ≢ raised)
    (config : Config fl.F) (diagnosed : DiagnosedSituation fl.F) (t : Times) where
  abbrev N : Type 0
  N = Node fl.F g.S

  -- A delivery that is handled to its end, with the one outcome that it leaves behind.
  abbrev pub Handled : Node fl.F g.S → Type 0
  Handled n =
      let key = claim_key fl env g stores config diagnosed t in
      let (won, s) = g.claim t.claim_read t.claim_write key n.guard in
      let finished = is_done (g.state t.state_read key s).0 in
      let (r, n') = handle fl env g stores config diagnosed t n in
      (r ≡ ok tt)
      × (not won && finished ≡ true → (n'.outbox ≡ n.outbox) × (n'.world ≡ n.world))
      × (not won && finished ≡ false
          → (o : RemediationOutcome) × (o.situation_id ≡ diagnosed.situation.id)
            × (n'.outbox ≡ o ∷ n.outbox))
