-- ===== src/Lib.antt =====
-- orxhestra is a Python framework for LLM agents. This library models the parts of it that decide what
-- is stored, what is signed, what is let through and in which order things run, and proves what
-- makes them correct.
--
-- The parts and how they interact. An agent (orxhestra/agents) yields events (orxhestra/events, with
-- content from orxhestra/models/part.py); `BaseAgent._emit_event` signs them. The runner
-- (orxhestra/runner.py) appends each event to its session through the session service
-- (orxhestra/sessions) and hands it to the middleware stack (orxhestra/middleware), one layer
-- of which may be the trust middleware, which checks signatures and chains. After a run the log of
-- the session may be compacted. Artifacts (orxhestra/artifacts) and the tasks of the A2A server
-- (orxhestra/a2a) stand in stores of their own. The A2A server runs an agent for each task, without
-- the runner. An LLM agent builds the messages of its model from the log of the session, calls the model in a loop, and
-- runs the tools that the model asks for.
--
-- Which file models what.
--   Prelude: Boolean tests, lists cut by numbers, texts as lists of code points, Python dicts in
--     insertion order, and Python's integers in subscripts and slices.
--   Values: JSON values. Events: events, their content and `is_final_response`. Events/Filters:
--     `should_include_event` and `apply_compaction`.
--   Sessions: `InMemorySessionService`, `BaseSessionService.append_event` and
--     `Runner.get_or_create_session`, over a heap of shared objects; Sessions/Store and Sessions/Reach the
--     invariant, Sessions/Sharing what callers see.
--   Compaction: orxhestra/sessions/compaction.py; its children treat the split (Split), the boundary
--     of the next round (Boundary), when a log is compacted (Pending, Due), a whole round (Round) and what the
--     model sees (View).
--   Crypto: canonical JSON and signatures of orxhestra/security/crypto.py. Signing:
--     `Event.signable_payload` and `BaseAgent._emit_event`; Signing/Coverage what a signature leaves open.
--   Trust: orxhestra/trust/policy.py and `TrustMiddleware`; its children treat what is delivered
--     (Delivered), the chain (Chain) and that honest events pass (Accept).
--   Audit: the audit log of orxhestra/trust/attestation/local.py; Audit/Replay that what was written is
--     accepted.
--   Middleware: `MiddlewareStack`; Middleware/Laws its composition.
--   TaskStore: `InMemoryTaskStore` and its cursors; its children treat paging (Paging), the entries
--     (Entries), the bound (Recency) and the eviction order (Eviction).
--   Artifacts: `InMemoryArtifactService`; Artifacts/Versions and Artifacts/Numbers
--     its version lists.
--   Agents: `find_agent`, `derive`, `SequentialAgent` and `LoopAgent`; its children treat the tree (Tree), the
--     sequence (Streams) and the loop (Loops). Agents/Parallel: `ParallelAgent`, whose runs are lists of moves of its
--     tasks and its loop; Merged, Demultiplexed and Drained treat its stream.
--   Runner: `Runner.astream`, with its loop (Turns) and what stands around it (Whole); its other children treat
--     what is stored (Log, Persist) and with which agent the next run starts (Marked, Resume, Restart).
--   A2a: the wire types and orxhestra/a2a/converters.py; A2a/Messages and A2a/Verified orxhestra/a2a/signing.py,
--     A2a/Notifications and A2a/Configs orxhestra/a2a/notifications.py, A2a/Server, A2a/Handlers and A2a/Dispatch
--     orxhestra/a2a/server.py, with the theorems on tasks (Stored, Tasks), cancelling (Cancel), streams (Frames),
--     guards (Guards, Webhooks) and reachable states (Reached, Keyed).
--   Llm: `truncate_output` and the messages; Llm/History orxhestra/agents/message_builder.py, Llm/Executor
--     orxhestra/agents/tool_executor.py, Llm/Chunks, Llm/Calls and Llm/Loop orxhestra/agents/llm_agent.py with
--     orxhestra/agents/planner_adapter.py; Emitted, Replay, Paired and Budget treat the messages of a log, Answered,
--     Prompts and Executed those of a run.
--   Samples and the Tests modules: runs at concrete inputs.
--
-- How state is modelled. A stateful service is a record or a dict that each operation takes and
-- returns; where Python objects are shared (sessions), they stand on a heap at addresses. A hook
-- of a middleware is a function of a world that may raise. An agent's event stream is a script of
-- the events that it yields and of how it ends; for the runner it is a stream that is resumed with the heap as it then is. A
-- request to the A2A server takes the task store and the push configs and returns them with its reply; an exception that no
-- handler catches is a reply of its own. The LLM agent acts on a world of the caller's, and the prompts of its model are recorded. Clocks, generated ids and `str` of
-- numbers are arguments. A middleware is given an event by value: that the trust middleware writes its note into the
-- metadata of the very event that the session holds is left out. Ed25519, base64, SHA-256, NFC, JSON printing, the key resolver, the
-- summarising model, the chat model, the tools, pydantic's validation and URL parsing are parameters, and what the theorems need of them are the named hypotheses `Genuine`,
-- `IsFaithful` and `IsTokens`.
--
-- Bounds and fuel. The loop that moves the split point and the loop that evicts are structural.
-- `LoopAgent.astream` runs on fuel, one unit for each turn of its `while`; with `max_iterations` m, m + 1 units
-- are enough, which is proved. The client that follows cursors runs on fuel too; as many units
-- as there are matching tasks are enough. The turn loop of the runner runs on fuel, one unit for each agent's turn; since agents may
-- transfer to each other for ever, the code has no bound there, and being out of fuel is an
-- ending of its own. The loop of the LLM agent is structural in `max_iterations`, its retry is unfolded.
--
-- Not modelled: the ReAct and A2A agents, the agent card, the delivery of webhooks and the web application of the
-- A2A server, the claims of the attestation provider, instruction templates, the
-- tools, skills, memory, file-system backends, planners, composer, command line and integrations; the
-- database and file services, which are I/O; conversion from LangChain messages. A time stamp is a
-- natural number of ticks, and an event's flag of type `bool | None` is a Bool, since the code asks only
-- whether it is true. `max_tasks` and `max_iterations` are taken as natural numbers.
pub mod Prelude
pub mod Values
pub mod Events
pub mod Samples
pub mod Sessions
pub mod Compaction
pub mod Crypto
pub mod Signing
pub mod Trust
pub mod Audit
pub mod Middleware
pub mod TaskStore
pub mod Artifacts
pub mod Agents
pub mod Runner
pub mod A2a
pub mod Llm
