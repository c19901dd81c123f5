-- ===== src/Lib.antt =====
-- IntelliOps: telemetry is collapsed into situations, diagnosed, remediated behind safety gates, and
-- the outcomes are learned from. The services are Python and talk over an event bus; this library
-- models the decisions that make the platform safe, and leaves the transport to parameters.
--
-- The parts and their files:
--   Contracts      common/contracts.py: the records on the bus, with the same fields.
--   Idempotency    common/idempotency.py: MemoryGuard is its ordered dict (an association list, the
--                  entry written longest ago first); `touch`, `live`, `claim` are _touch, _live, claim.
--                  Every method takes the readings of the clock that it makes.
--   Envelope       common/envelope.py: `deliver` is one round of iter_models around the body of a
--                  consumer, which is a function that returns or raises.
--   Evidence       common/evidence.py: track records of real runs, and quiet_eligible.
--   Action         services/action: Denylist and Remediate are remediate.py and targets.py, Consumer is
--                  consumer.py and select.py, Recovery is verify.py. Effects is what they ask of the
--                  governance gate, the remediator, the health checker and the sandbox: each call is
--                  logged and may raise, and its answer may depend on all calls before it. Kubernetes,
--                  Health and Sandbox are adapters/k8s_remediator.py, k8s_health.py and sandbox.py, over a
--                  Kubernetes API whose calls change an abstract cluster, or answer by the log of calls.
--   Bus            common/bus.py, RedisBus: the generator behind consume is a function that writes a log
--                  of what it asked of Redis and of the events it handed over.
--   Governance     services/governance/rbac.py (Rbac), adapters/approval_store.py (Approvals), and the
--                  two gates of services/action/adapters/governance_gate.py (Gate and HttpGate). Service
--                  is app.py: a request is a constructor, its handler a function on all that governance
--                  holds, and Service/Steps is the relation of what a request may change; requests are
--                  handled one at a time, though the handlers hold no lock. Author is the
--                  agent of adapters/runbook_author.py, with the endpoint and its tools as a parameter,
--                  and Author/SingleShot the author that asks once for a whole draft. RunHub is
--                  agent_run_hub.py.
--   Correlation    services/correlation: Policy is detection_policy.py, Correlator what
--                  adapters/base_correlator.py shares among the correlators, Robust and River are
--                  adapters/robust_correlator.py and river_correlator.py, Engine is engine.py, Consumer
--                  consumer.py.
--   Feedback       services/feedback: Label, Graduate, Metrics and Consumer are the files so named.
--   Rca            services/rca: Rank is rank.py, Selector adapters/runbook_selector.py, Reliability the
--                  provider in app.py, and Diagnose consumer.py and enrich.py.
--   Read           services/read/projection.py: Card is what a card holds, Projection how an event is
--                  folded into the cards and the history, Eviction what the cards lose by age and
--                  by the cap, and the metrics.
--   Supervise      common/supervise.py: the loop, over the list of what happens in its rounds.
--   Base           Python's own types: integers, texts, lists, dicts, and floats as a record of
--                  operations of which nothing is assumed, unless a theorem says that of two floats
--                  at most one is below the other.
--   Tests          concrete inputs at which the theorems are applied.
--
-- How they interact: events come from Bus. What Correlation detects is ranked and given a runbook by
-- Rca.Diagnose, whose ranking reads the track record of Rca.Reliability. The diagnosed situation is
-- delivered by Envelope to Action.Consumer, which claims it through a guard of Idempotency, weighs
-- Evidence, runs Action.Remediate against the gate, the sandbox, the remediator and the health checker,
-- and publishes the outcome; Feedback.Consumer labels the outcome and asks governance to graduate or
-- demote; the labels retrain the reliability map of Correlation.Correlator, which Correlation.Engine
-- reads to suppress. Where no runbook fits, governance lets Author draft one for review.
--
-- Conventions: a handler is a function on an explicit state; an exception is a constructor of a result;
-- times and time spans are microseconds; a lock makes a method one step. The loops without a bound of
-- their own, the two waits for a decision and the poll of a deployment, run on fuel: one more than the
-- time left at the first poll, which is enough when every poll takes some time. The endless loop of the
-- bus is followed for any number of rounds, and the queue of suppressed situations is drained on as much
-- fuel as it is long. Everything else is structural recursion.
--
-- Not modelled: HTTP and SQL, the Redis, Kafka and Kubernetes clients (a parameter where they are called),
-- the Kafka bus, language models and embeddings, the tools of the agent that drafts runbooks, the
-- isolation forest, and the user interface. fnmatch, the SHA-1 digest, numpy's median,
-- the statistics of river, JSON validation, isoformat and str.lower are parameters. Log messages are
-- left out, and of an object that is cloned for a rehearsal only what is read or stripped is told apart:
-- the uid of an owner, for one, is not.
pub mod Action
pub mod Base
pub mod Bus
pub mod Contracts
pub mod Correlation
pub mod Envelope
pub mod Evidence
pub mod Feedback
pub mod Governance
pub mod Idempotency
pub mod Rca
pub mod Read
pub mod Supervise
pub mod Tests
