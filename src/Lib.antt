-- ===== src/Lib.antt =====
-- Scrooge DLP, a data-loss-prevention system: agents watch the clipboard and the files of a
-- machine, find sensitive numbers with classifiers, queue the events and send them to a manager,
-- which keeps the policies and pushes them to the agents.
--
-- The parts, and the files that model them:
--
-- Classifier (crates/scrooge-agent-core/src/modules/classifier): Classifier/Luhn, Pesel, Nip and
-- Iban hold one classifier each (`scan`, its `*_check` and `redact`), Classifier/Weights the
-- weighted sums that pesel.rs and nip.rs share, Classifier/Registry the `ClassifierRegistry` of
-- mod.rs. The matches that the regex crate finds are a parameter of each classifier. A panic is the
-- result `none`.
--
-- Policy (crates/scrooge-policy): Policy/Defs holds the document (lib.rs, rules.rs),
-- Policy/Validate `Policy::validate` and `Rule::validate`, Policy/Compile `from_yaml`, `compile`
-- and `decode` (compile.rs), Policy/Size `parse_size`. YAML, MessagePack, SHA-256 and the
-- compilation of patterns are the fields of `Codecs`. Policy/Size reads a text as its code points,
-- and `u64` products wrap as in a release build.
--
-- Manager (crates/scrooge-manager-api and crates/scrooge-manager-bin): Manager/World holds the
-- tables of migrations/ as lists of rows and the chains of queries, each of which fails where a
-- list of faults says so, with the rules of their proofs in Manager/World/Hoare, Keeps and Answers;
-- Manager/Api the errors (error.rs), the claims (auth.rs) and the state of the handlers (state.rs).
-- Manager/Auth models login, refresh and the bearer token (auth.rs). Manager/Policies holds the
-- handlers of handlers/policies.rs, with the history and rollback in Manager/Policies/Versions, the
-- way back to a created document in Manager/Policies/Restore, and the listing and validation in
-- Manager/Policies/Listing; a handler calls the policy crate through `parse_and_compile`, and
-- Manager/Policies/Stored says what holds of the tables between requests. Manager/Push models
-- load_pending_policies, mark_assigned, mark_acked and the arms of `stream` in grpc.rs for pushes
-- and answers, with the agent's `handle_inbound` (crates/scrooge-agent-bin/src/stream.rs);
-- Manager/Broadcast the bridge that pushes to every connected agent; Manager/Registry the
-- `AgentRegistry`; Manager/Enroll `enroll`, which refuses or admits an agent, and
-- Manager/Enroll/Bound how many agents a token admits; Manager/Details the events with the JSON of
-- their details, Manager/Events `insert_event_batch` with its mappings, and Manager/Events/Listing
-- the pages of handlers/events.rs. Manager/Stream composes these into a session of the stream:
-- every inbound message goes to its handler, and the end of the session leaves the registry.
-- Manager/Agents models handlers/agents.rs with the bridge of grpc.rs that carries the commands,
-- Manager/Agents/Reconnect an agent that connects twice, Manager/Install the tokens and scripts of
-- handlers/install.rs, with the commands for each system in Manager/Install/Targets, and
-- Manager/State the state that the configuration makes, with the preferences of
-- handlers/dashboard.rs. Manager/Startup holds what crates/scrooge-manager-bin/src/main.rs reads
-- and checks before the servers start, and Manager/Startup/Filled its start on the files of
-- `init-ca`.
--
-- Agent (crates/scrooge-agent-core/src/queue.rs, crates/scrooge-agent-bin,
-- crates/scrooge-agent-linux): Agent/Queue holds the table of waiting events and its operations,
-- Agent/Uploader `drain_once` and the loop of the uploader, with the faults that a tick may meet;
-- the encoding of events is a parameter. Agent/Session models the reconnect loop and the loop of a
-- session, Agent/Session/Heartbeats the heartbeats, Agent/Identity the files of the identity,
-- Agent/Enrollment the enrollment, which Agent/Enrollment/Joined composes with the model of the
-- manager, Agent/Collector the collector, the test events and the tasks of the Linux agent,
-- Agent/Sensors the channel of events, with the clipboard task in Agent/Sensors/Clipboard and the
-- file monitor in Agent/Sensors/Filemon.
--
-- Certificates (crates/scrooge-common/src/ca.rs): the root certificate of the manager, its load and
-- its signatures, and the requests of the server and of an agent, over rcgen as a parameter. A
-- signature is made with a seed, the randomness of rcgen's. Certificates/Identity follows a
-- certificate from `enroll` to `stream`, Certificates/Reload a root through its files.
--
-- Cli (crates/scrooge-cli/src/main.rs): Cli holds the commands of `scroogectl` and `main`, Cli/Dir
-- the directory of the certificates with the steps that may fail, Cli/Init `init_ca`, Cli/Admin
-- `bootstrap_admin` and `gen_token`.
--
-- Delivery composes the parts on the way of an event: the queue and the uploader of the agent, the
-- stream, and the table of the manager, as a relation of steps whose effects are the operations of
-- the parts; Delivery/Places holds the invariant.
--
-- Config (crates/scrooge-common/src/config.rs): Config holds the configuration of the agent and its
-- validation, Config/Manager that of the manager, Config/Documents the documents with their
-- defaults and the load.
--
-- The numbers are natural numbers; `i32` columns are integers, and their increment wraps at 2^31.
-- No recursion runs on fuel: each loop follows a list of what it meets, messages, ticks or
-- readings.
--
-- Not modelled: X.509 and the keys, which the crate rcgen makes; the reading of arguments, the
-- signals, and the wiring of tasks beyond what Manager/Startup and Agent/Collector hold; the agents
-- of other platforms and the front end. The routing of axum and the extraction of requests are I/O.
pub mod Common
pub mod Config
pub mod Classifier
pub mod Policy
pub mod Manager
pub mod Agent
pub mod Delivery
pub mod Certificates
pub mod Cli
mod Tests
