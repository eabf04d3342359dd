-- ===== src/Lib.antt =====
-- Sentia Linux: an assistant whose privileged actions, remote disclosures and local services are
-- guarded by small Rust daemons. This library models the logic of those guards.
--
-- The parts and how they work together. The user interface asks the router (crates/sentia-router)
-- to answer a question. The router builds a route: the local model, served through the local broker
-- (crates/sentia-local-broker), or a remote provider, which sees only what the privacy boundary lets
-- through. An action on the system goes another way: the privileged broker
-- (crates/sentia-privileged) prepares a plan that the user sees, and applies it once, after polkit
-- authorized it. The health daemon (crates/sentia-health) samples the machine and raises alerts. The
-- messages between the parts, and their validation, are crates/sentia-protocol.
--
-- Protocol: crates/sentia-protocol/src.
--   Protocol.Errors is errors.rs with the enumerations of provider.rs. From router.rs:
--     Protocol.Status is the life of a request, Protocol.Requests the requests and results,
--     Protocol.Sockets the policies of the sockets with their defaults, and Protocol.Sockets.Checks
--     their validation and that of the configuration, where a slice can panic.
--   Protocol.Tools is tools.rs: Names is `ToolName`, Calls the requests for a tool and their results.
--   Protocol.Transactions and Protocol.Authorizations are transactions.rs.
--
-- Privileged: crates/sentia-privileged/src.
--   Privileged.Operation is lib.rs: `Operation`, `validate`, `action_id`, `parse_request`.
--   Privileged.Broker is broker.rs: `PlanStore` is a record with an association list for the hash
--     map; `prepare` and `consume` return the new store with their result; `revalidate` is pure. The
--     helpers `prepare_valid`, `store_made`, `consume_found` and `check_taken` are parts of them.
--     Its History runs calls in any order; Single, Spent and Lifecycle are about the life of one plan.
--   Privileged.Executor is executor.rs. Paths is `trusted_path`, Files `trusted_file_digest`, Helpers
--     `run_helper`, `run_fixed` and `bounded_read`, Units the reading of a unit's state, Processes `process_state`, Apt
--     `apt_request` and `interpret_apt_response`, Snapshots `service_state`, `snapshot` and `apt_call`
--     without a plan, Execute `execute` and `apt_call` with a plan. Effects makes what the broker does
--     to the system a value: a step returns the list of its effects with its result. A run of
--     `systemctl show` and a run of the worker in plan mode are effects like every other run.
--   Privileged.Callers and Privileged.Service are service.rs: `identify` and `authorize`, and the
--     methods Prepare and Apply.
--     Every question to D-Bus, logind, polkit, the clock or /proc is a field of a record of answers,
--     read in the order of the code, so a theorem holds whatever the system answers.
--   Privileged.Json is the interface of serde_json's values, of which nothing is assumed but that
--     the equality test decides equality.
-- LocalBroker: crates/sentia-local-broker/src/queue.rs. The counters sit behind one lock, so each use
--   is one step of a relation; a semaphore is the number of its free permits.
-- Health: crates/sentia-health/src. Health.Alert is alert.rs (`step` is one call of eval_numeric on one
--   state, `evaluate` a pass over a snapshot), Health.Monitor is monitor.rs. f64 is an interface with
--   no laws, so NaN and rounding are covered.
-- Router: crates/sentia-router/src. Router.Redaction and Router.Privacy are privacy.rs,
--   Router.Breakers the circuit breakers of provider.rs, Router.Requests the data of a request (api.rs).
--   Router.Values is serde_json's `Value` with the readings of it that the router uses.
--   Of tools.rs, Router.Schemas is `validate_schema`, Router.Tools `validate_and_invoke`, and
--     Router.Offers `safe_tool_definitions`.
--   Of router.rs, Router.Route is `build_route`, Router.Messages `build_messages`, Router.Agent
--     `run_agent_loop`, and Router.Attempts, Router.Candidates and Router.Chat are `chat`: the checks and
--     errors, the loop over the candidates, the whole handler. What they do is one list of effects:
--     the events that are sent, the requests to providers and the calls of the tool service, in the
--     order of the code. What a provider does in a round is a `Round`, and what the system answers
--     for a candidate an `Attempt`: both are given as functions of the turn, so a theorem holds
--     for every behaviour. The tasks and channels of tokio appear as the chunks that are received
--     before the end of a round and those that were left in the channel.
--     Router.Control is `status` and `consent_preview`; its Sent joins the preview to `build_route`.
--   Router.Settings is settings.rs, with the file of the settings as a part of the state.
--   Router.Conversation is an automaton over the effects, against which `chat` is proved.
-- Tools: crates/sentia-tools/src. Tools.Validation is validation.rs, where `components` is what the
--   standard library makes of the text of a path.
-- Base: shared helpers. A text is its bytes; in Router it is its code points, with the length in
--   UTF-8 bytes written out.
--
-- Parameters, because their code is not in the repository or is the system's: serde_json's parser and
-- writer, SHA-256 (in `Digests`, `Mint` and `Looks`), gmtime_r behind `utc_timestamp`, the kernel,
-- D-Bus, logind, polkit, the providers, and the tool service behind its socket. The only assumptions
-- on them are hypotheses of a theorem.
--
-- Bounds: machine integers are natural numbers with the wrap-around or the saturation of the code
-- written out (u64 expiry times and answer numbers, usize and u32 counters). Two loops have a bound,
-- the one of the code: the wait for a process to exit has 30 rounds, and `agent_rounds` recurses on
-- the configured `max_agent_rounds`, after which the code answers with an error. All other loops
-- recurse on their list.
--
-- Not modelled: the builder of the router, its server and configuration file, the bounded
-- strings and vectors of the protocol but for the truncation in the consent preview (a length that
-- serde rejects is not rejected here), the metrics of a result, evidence and frames, the model
-- process, the collectors of health data, the remote adapters, retrieval, the tools behind their
-- validation, the user interface, the C++ package worker, and the build.
pub mod Base
pub mod Protocol
pub mod Privileged
pub mod LocalBroker
pub mod Health
pub mod Tools
pub mod Router
