-- ===== src/Lib.antt =====
-- zanei: a recorder of what happens on a Mac, its daemon and its privacy boundary.
--
-- The program. Collectors (crates/zanei-macos) watch the system and send raw events. The daemon
-- (crates/zanei-cli/src/daemon) runs one worker per collector under supervision; a relay thread
-- forwards each worker's events into one pipeline, which normalizes them, applies the privacy
-- filter (crates/zanei-core/src/privacy) and stores what passes. The core library
-- (crates/zanei-core) holds the schema, the limits, the filter and the capture policy.
--
-- What is modelled, and where.
--   Prelude: Boolean tests, lists, texts (lists of code points), 64-bit saturating addition, maps
--     by text and the slices of texts that the standard library offers.
--   Core.Capability: crates/zanei-core/src/capability.rs (Capability, DaemonCapabilities,
--     ready_for).
--   Core.TextDelta: crates/zanei-core/src/text_delta.rs (text_delta, grapheme_clusters).
--   Core.Schema: crates/zanei-core/src/schema (Event, EventData and its payloads,
--     mark_truncated).
--   Core.Limits: crates/zanei-core/src/normalize/limits.rs (enforce_size_limits).
--   Core.Normalizer: crates/zanei-core/src/normalize.rs (push_at, flush, merge).
--   Core.TimeExpression: crates/zanei-core/src/config/time_expression.rs
--     (parse_duration_expression, parse_time_expression).
--   Core.Timeline: crates/zanei-core/src/timeline (build); in Sessions and Snapshots builder.rs
--     (split_sessions, absorb_bounces, merge_adjacent_same_app, assign_content_snapshots), in
--     Activity activity.rs (summarize, describe), in Assembly builder.rs (build_session), in Render
--     render.rs (serialize, estimate_tokens).
--   Core.Config: the parts of crates/zanei-core/src/config.rs and config/capture_policy.rs that
--     the filter reads.
--   Core.Privacy.Matcher and Core.Privacy.Hosts: crates/zanei-core/src/privacy/matcher.rs.
--   Core.Privacy.Routes and Core.Privacy.CapturePolicy:
--     crates/zanei-core/src/privacy/capture_policy.rs (evaluate_capture_policy).
--   Core.Privacy.Redactor: crates/zanei-core/src/privacy/redactor.rs (redact_event), and in
--     Patterns and Tokens redactor/patterns.rs (ranges, replace_ranges).
--   Core.Privacy.Filter: crates/zanei-core/src/privacy/mod.rs (PrivacyFilter::reprocess).
--   Daemon.Restart: crates/zanei-cli/src/daemon/supervisor/health.rs (RestartState).
--   Daemon.Relay and Daemon.Handle: crates/zanei-cli/src/daemon/collectors/relay.rs (forward, and
--     the handle Relay).
--   Daemon.Managed and Daemon.Supervision: crates/zanei-cli/src/daemon/supervisor.rs
--     (start_collector, stop_collector, supervise_collector).
--   Daemon.CollectorSet: the same file (start, start_eventtap, stop, suspend) and
--     crates/zanei-cli/src/daemon/collectors.rs (CollectorSet, ProducerFailures).
--   Macos.EventTap: crates/zanei-macos/src/eventtap/state.rs (Lifecycle, Driver).
--   Macos.ContentSnapshot: crates/zanei-macos/src/content_snapshot; in Scheduler and Due scheduler.rs
--     (SnapshotScheduler), in State state.rs (SnapshotState), in Trigger the messages of trigger.rs.
--   Macos.CapturePolicy, Macos.Routing, Macos.Quarantine: capture_policy.rs, text_capture/routing.rs
--     and text_capture/quarantine.rs of crates/zanei-macos/src (CapturePolicy, route_text_body,
--     TextQuarantine); the tracker of chrome/eligibility.rs is a record of its two questions.
--   Examples: the theorems at concrete inputs, and runs of the definitions.
--
-- How state corresponds. A method that takes `&mut self` takes the record and gives the new one;
-- what it returns comes beside it. A text is the list of its code points, and its length in bytes
-- is the sum of their UTF-8 lengths; where the source has already checked that a text is ASCII a
-- byte is a code point, and so it is for the redactor's ranges, whose ends stand at ASCII characters
-- or at the ends of the text. Instants are numbers of nanoseconds. What a thread, a worker or a
-- channel answers is an argument, so that every answer is covered.
--
-- Bounds and fuel. The loops over texts and lists are structural recursion over what they read, and
-- the relay's loop and the daemon's periodic check are steps of a relation. Fuel is used three
-- times: for the digits of a number n, with n + 1 rounds; for the recovery of the event tap, with two
-- rounds, which are enough; and for the worker's loop over due snapshots at one time, with as many
-- rounds as there are queued windows and three more, which are enough. 64-bit counters add by
-- saturating or checked addition, as the source does. The size limits, the bounds on pending events
-- and the restart delays are the source's constants.
--
-- Not modelled. The JSON encoding (serde), the TOML configuration files, the SQL store, the
-- operating system's interfaces and the command line. The Unicode case mapping and the IPv6 parser
-- of the standard library, its f64 addition, the JSON sizes of events and of a snapshot's lines, the
-- stamps of the wall clock and the parser of the url crate are parameters.
pub mod Prelude
pub mod Core
pub mod Daemon
pub mod Macos
pub mod Examples
