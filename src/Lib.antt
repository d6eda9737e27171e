-- ===== src/Lib.antt =====
-- Zakros, an orchestrator of coding agents: Minos commissions tasks, keeps them in a store and
-- dispatches a pod for each; Hermes carries messages between tasks and chat surfaces; Cerberus
-- admits webhooks; the brokers (Apollo, Hecate and the others) serve pods that bring a signed token.
--
-- Envelope (pkg/envelope): the payload a pod receives, and its validation.
-- Storage (minos/storage/storage.go): states, tasks and errors; Storage.Edges is the documented
--   transition diagram as a relation; Storage.Memstore (minos/storage/memstore/memstore.go) has one
--   function for each method: `insert_task` for InsertTask, and so on. Its children prove what one
--   transition does (Transition), what every sequence of writes keeps (Lifecycle, Links), the
--   lookups by pull request (Urls) and the listing (Listing).
-- Identity (pkg/identity): roles, capabilities and HasCapability. Registry
--   (minos/identity/memstore/memstore.go): the registry and the pairing requests.
-- Hermes (hermes/core): messages; Hermes.Pull the ring buffer of a pull consumer (pull.go);
--   Hermes.Broker the routing and the fan-out (core.go).
-- Replay: the replay store of the webhooks (cerberus/core/replay/replay.go) and that of the tokens
--   (pkg/brokerauth/memreplay.go).
-- Cerberus (cerberus/verification): `verify` is the GitHub verifier's Verify; Cerberus.Deliveries says
--   which requests it lets in. Cerberus.Slack is the Slack verifier, with its time window.
-- Auth (pkg/jwt, pkg/brokerauth/brokerauth.go): claims, with what a signed token keeps of their
--   instants (bearer.go), and the middleware `Require` as a function of the header, the clocks and the
--   replay store.
-- Dispatch (minos/dispatch): the contract of the cluster, a parameter elsewhere, and in
--   Dispatch.Builder the specification of a pod (builder.go).
-- Brokers (cmd/hecate, cmd/apollo): the credential broker and the inference broker, which check a scope
--   that depends on the request; Brokers.Access says whom they serve.
-- Mnemosyne (mnemosyne): the in-memory store of run records, and the context of a new task;
--   Mnemosyne.Sanitizer is Sanitize with its patterns.
-- Projects (pkg/project, minos/project/memstore): the project registry and its bootstrap.
-- Argus (minos/argus): the watcher of pods. Argus.Tracking has TrackTask, Heartbeat, discover and
--   rehydrate, Argus.Rules the rules engine `evaluate`; Effects and Outcomes hold what one step of
--   it does, and Deletions which pods a pass deletes, for the theorems of Deadlines, Patience,
--   Discovery and Thresholds; Mirror and Restart are about the persisted copies;
--   Argus.Ingest is the routes of the daemon (cmd/argus).
-- Minos (minos/core): Minos.Hibernation is the sweeper of tasks that await a review (hibernate.go),
--   Minos.Recovery the reconciliation at start-up (reconcile.go), Minos.Webhooks the report of a
--   pull request by a pod and the event that ends it (api.go), Minos.Callbacks the gate of the
--   routes that pods call, Minos.Deliveries the GitHub webhook over Cerberus. Minos.Commissioning,
--   Minos.Dispatching, Minos.Respawning and Minos.Minting are commission.go: Commission, dispatch,
--   Respawn and composeCapabilities. Minos.Intake is handleInbound, which parses a chat message
--   (Minos.Intake.Commands, with the reading back of a written command in Rendering) and checks what
--   its sender may do, and Minos.Pairing the commands on identities (pairing.go). Minos.Bootstrap
--   seeds the identity registry (bootstrap.go), Minos.SlackHooks is the Slack webhook
--   (slack_webhook.go), Minos.Narration what pods and Iris post (api.go, iris_hermes.go), and
--   Minos.Memory the report of a run, which is sanitized, and the lookup (api.go, iris_memory.go).
-- Iris (agents/iris/internal/iris): the conversational agent. Iris has the table of conversations and the
--   loop over the model's tool calls, Iris.Tools the tools, and Iris.Handling the handling of a message
--   and the polls. Its calls act on an arbitrary world.
--
-- A Go map is an association list; the order of its entries stands for the order in which a range
-- visits them, so what is proved holds for every order. A clock reading is an argument. An instant
-- is a number of nanoseconds since the zero time, a duration an integer. A method that locks a
-- mutex is one step. `run` applies a sequence of calls in the order in which they take the lock.
-- The parser of commissions runs on fuel, the length of its text, and each option that it reads
-- shortens the text; the loop over the model's tool calls runs on the rounds that are left; every
-- other recursion is on a list or a text. A pass of Argus, a sweep, a reconciliation and a poll of
-- Iris are one step each. Where a length or a slice counts bytes, a character stands for a byte.
--
-- Outside the model: the PostgreSQL stores, whose logic is SQL; the signature check of tokens and
-- the keyed hash of webhooks, which are parameters; a crash in the midst of a call; HTTP, JSON,
-- Kubernetes, Discord, the language model and the GitHub API; process start-up; Start and Stop of
-- the Hermes broker and of Argus, whose loop is one `tick` after another; the texts that are formatted
-- into messages, which are kept as their arguments. Examples runs the theorems on concrete data.
pub mod Base
pub mod Envelope
pub mod Storage
pub mod Identity
pub mod Registry
pub mod Hermes
pub mod Replay
pub mod Auth
pub mod Cerberus
pub mod Dispatch
pub mod Projects
pub mod Argus
pub mod Minos
pub mod Brokers
pub mod Iris
pub mod Mnemosyne
mod Examples
