-- ===== src/Lib.antt =====
-- srt-whep takes one SRT stream and serves it to WHEP viewers. Each viewer gets a branch of the
-- GStreamer pipeline whose whipsink posts an SDP offer back to the service over loopback HTTP; the
-- signalling coordinator joins the two HTTP requests, the viewer's and the whipsink's, to one
-- connection, and ends connections whose handshake, client, branch or pipeline fails.
--
-- Parts, and the files that model them:
-- Domain: the SDP types of src/domain/session_description.rs (SessionDescription, SdpOffer,
--   SdpAnswer). A text is a list of characters.
-- Stream/Naming, Stream/Bus: the element names of src/stream/naming.rs and the bus policy of
--   src/stream/bus.rs. A GStreamer object is the chain of names from it up to the top of its hierarchy.
-- Stream/Gst: the interface to GStreamer, a parameter of the model: the calls the program makes of it,
--   over a state that only they change, and as IsLawful what the program relies on, of the names that
--   src/stream/naming.rs gives (Stream/Naming/Given) and the pads of a tsdemux.
-- Stream/Branch: src/stream/branch.rs over that interface, one call after the other. Attach, Attached and
--   Detach are about what attach and detach leave in the pipeline.
-- Stream/Egress: the codec table and the chains of src/stream/egress.rs; Chains is about their outcomes.
-- Stream/GstPipeline: when src/stream/gst_pipeline.rs can take a branch. Control below it has its
--   add_branch and remove_branch with the state lock, Callbacks what it connects to the demuxer, and
--   Lifecycle its init, run, end, clean_up and quit. Atomicity, Survival, Linked, Installed and Restarts
--   are about these together; Spares, Fresh and Announced are about the calls that name no element as a
--   viewer's would be. The calls are functions into a result and the next state of GStreamer,
--   chained as `?` does (Prelude/Calls). The lock is an observation of that state, and one call ends
--   before the next begins.
-- Stream/Errors, Stream/Args, Stream/TestPipeline: the errors, the arguments and the fake pipeline of
--   src/stream/errors.rs and src/stream/pipeline.rs.
-- Errors: src/errors.rs, the report of an error with its causes.
-- Signal/Watchdog: src/signal/watchdog.rs. The count is a u32, its addition written out with 2 ^ 32.
-- Signal/Errors, Signal/Messages: src/signal/errors.rs with the HTTP contract, and the commands of
--   src/signal/messages.rs.
-- Signal/Coordinator: src/signal/coordinator.rs. State is the actor's state with the log of what it
--   sent; Connection the methods of ConnectionState, Policy the table of TerminateReason, Terminate the
--   one function that ends connections, Handlers the command handlers, the sweep and the reaper, Loop
--   the select! loop. The other files below it hold proofs: Cases and Legs the case analyses, Accounts, Endings
--   and Replies the bookkeeping of reply channels, Branches with Ends and Runs the map against the
--   pipeline's answers, Changes, Operations, Growth and Lifecycle the state diagram, Sweep, Deletion and Handshake one
--   operation each, Timing and Advancing the clock, and Placements and Deadlines the
--   deadlines of parked requests.
-- Supervisor: src/supervisor.rs. Order and Standing are about the order of its actions, Backoff about its
--   delays, Downtime about the waits between two runs and Shutdown about its end. A Round holds what the outside answers during one turn of the loop, a trace what the supervisor does.
-- Routes: the handlers of src/routes and the handle of src/signal/mod.rs, over any SignalHandle.
--   Mailbox is the handle's remove_connection over the coordinator itself, Idempotence joins the DELETE routes
--   to it; Outcomes is about the other handlers.
-- Startup: src/startup.rs. Routing is about its route table, for any router that does with it what actix
--   documents, and Wiring about what `assemble` makes.
-- Service: the coordinator on the pipeline that the program runs, as spawn_coordinator of
--   src/signal/mod.rs puts them together. Effects is about one call of the pipeline, Tidy about the ways
--   to begin and end a connection and Rounds about the rounds of the coordinator's loop; the pipeline's
--   calls keep within their limits there. System joins the supervisor to them: a state is the supervisor's
--   place in its order of actions, the wrapper of the pipeline and the coordinator, and a step is one
--   action, one round, one callback or a change outside, in any order that the supervisor's allows. Quiet
--   is about the calls that are for no viewer, Cycles about all that can be reached.
-- Tests: runs and the theorems at them, over a pipeline in memory (Tests/Bin) and over TestPipeline.
--   Tests/Unit states what each unit test of the program asserts, on the model.
--
-- How the state corresponds: the HashMap of connections is an association list with distinct keys
-- (Prelude/HashMap); a oneshot reply channel is a number, and each reply, branch operation and restart
-- request is an entry of a log, newest first. The record Runtime is what the coordinator asks of the
-- outside: the clock in milliseconds, whether the request that waits on a channel is still there, and the
-- pipeline's add_branch and remove_branch, of which the answer `none` is the timeout. The
-- definitions take any Runtime; Signal/World is one, built on the fake pipeline. A run takes a list of
-- wake-ups, each with the outside world as it is by then, so that every interleaving of commands, branch
-- failures, sweeps and time is some list. All recursion is structural, on the list of wake-ups or rounds:
-- there is no fuel.
--
-- Not modelled: GStreamer itself, the printing of what its discoverer reports (src/stream/utils.rs), logging
-- (src/telemetry.rs), the binary (src/main.rs), and tokio's scheduler, whose
-- choices are the list of wake-ups.
pub mod Prelude
pub mod Domain
pub mod Errors
pub mod Stream
pub mod Signal
pub mod Supervisor
pub mod Routes
pub mod Startup
pub mod Service
mod Tests
