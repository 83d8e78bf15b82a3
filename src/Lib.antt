-- ===== src/Lib.antt =====
-- Verification of LunaRoute, a proxy that routes requests for language models to providers.
--
-- The development models the routing core, crates/lunaroute-routing, the types that it shares with
-- the rest and the template engine, crates/lunaroute-core, the translations between the dialects of
-- the APIs in crates/lunaroute-ingress and crates/lunaroute-egress, the redaction of texts,
-- crates/lunaroute-pii, the state store and the rolling files of crates/lunaroute-storage, and of
-- crates/lunaroute-session the tool call mapper, the cleanup and the search, and the statistics of
-- sessions in crates/lunaroute-server. Each part is a module of its own; its children hold the
-- proofs, and its child Examples the tests and the theorems at concrete inputs.
--
-- - Prelude: shared names. Words has the machine integers, Int the signed ones, Maps the maps with
--   text keys, IndexMaps those with u32 keys, Texts the search and replacement in texts.
-- - Normalized: crates/lunaroute-core/src/normalized.rs and error.rs. The structs and enums of
--   requests, responses, stream events and errors, field by field.
-- - CircuitBreaker: crates/lunaroute-routing/src/circuit_breaker.rs. The record has the fields of
--   the struct, with the atomics as plain fields. Every method is a function on the record that
--   returns the new one, with the time as an argument. Race has each atomic write as a step.
-- - Strategy: crates/lunaroute-routing/src/strategy.rs. StrategyState has the two counters and the
--   map of rate limits; select_provider and record_rate_limit return the new state.
-- - RouteTable: crates/lunaroute-routing/src/router.rs. A table is its sorted list of rules. The
--   regex crate is the parameter `compile`, which gives the test that a pattern compiles to.
-- - Notification: crates/lunaroute-routing/src/notification.rs, with inject_notification_if_needed
--   of provider_router.rs, which returns the request instead of changing it.
-- - Health: crates/lunaroute-routing/src/health.rs. Floating-point numbers are a parameter, the
--   record Floats, with the operations that the code calls.
-- - Router: crates/lunaroute-routing/src/provider_router.rs. The record holds the parts above: the
--   route table decides, a strategy selects, the breaker of the selected provider admits, and the
--   outcome goes to the breaker, the health monitor and the strategy. Sending has send, Streaming
--   has stream. A provider, which is a trait object in the code, is how it answers a request, given
--   the requests that the router has sent so far; the router keeps those in a log, which the code
--   does not. The clock is a function of that log, and the debug text of a list is a parameter.
-- - Ingress: crates/lunaroute-ingress/src/openai.rs and anthropic.rs. OpenAi and Anthropic have the
--   types of the wire; their children Requests (validate_request, to_normalized) and Responses
--   (from_normalized) the conversions. OpenAi.Chunks has stream_event_to_openai_chunk,
--   Anthropic.ToolIds to_anthropic_tool_id, Anthropic.Blocks StreamBlockState with
--   stream_event_to_anthropic_events, where a panic of unwrap is a result, and Anthropic.Messages
--   the stream of the handler messages, which is none if its task panics. StreamingMetrics is
--   streaming_metrics.rs, and Marker is marker.rs, the marker in a request that names a provider.
-- - Template: crates/lunaroute-core/src/template.rs. The context is passed along, with its cache of
--   the environment; what the regular expressions match is a parameter.
-- - ToolMapper: crates/lunaroute-session/src/tool_mapper.rs, with the time as an argument.
-- - Pii: crates/lunaroute-pii/src. The parent merges the detections and cuts the text, which is its
--   UTF-8 bytes; Replacement has what a detection becomes, and its child Modes what a mode lets it
--   show. A panic of a slice is none. Detector is the detector, with the matches of its regular
--   expressions as a parameter.
-- - Egress: crates/lunaroute-egress/src/openai.rs and anthropic.rs, with children of the same
--   names. OpenAi.Chunks has create_openai_stream, Anthropic.Events create_anthropic_stream with
--   the state of its scan: each is a function from what the event stream yields to the normalized
--   events. OpenAi.Bodies has deep_merge and the changes that the configuration makes to bodies.
-- - Dialects: how the two sides fit together. Protocol has the grammar of the events that an
--   Anthropic client reads, as an automaton, which is the specification of the stream of messages;
--   the other children follow requests, responses and streams from one side to the other.
-- - Storage: crates/lunaroute-storage/src. State is the FileStateStore of state.rs as the map that
--   it keeps in memory, with each call as a function on it. RollingWriter is rolling_writer.rs over
--   a disk, which gives for each index the bytes of the file with that suffix, with the test for
--   UTF-8 of the standard library as a parameter; Lines, Disk and Log have what its proofs need of
--   lines, of the disk and of the files as one log.
-- - Session: crates/lunaroute-session/src. Search is search.rs, the filter of a search and the
--   pages of its results. SqliteWriter is the search of sqlite_writer.rs: the condition, the values
--   bound to it and the two queries, with the answers of the database as parameters. Cleanup is
--   cleanup.rs over the files of the date directories, with the three steps in Steps: Dates is
--   about the names of those, Usage about the list of files, Ages and Sizes about what is deleted.
-- - Server: crates/lunaroute-server/src. SessionStats is session_stats.rs.
--
-- Fuel. The loop over the alternatives of a strategy takes one more unit of fuel than the strategy
-- has providers: each round that goes on adds a provider of the strategy to those tried, and the
-- loop stops at one that has been tried. The rotation of a rolling writer goes from file to file
-- and stops at the first that is not full, or is new; read_all stops at the first index without a
-- file. One more unit than there are files on the disk is enough for both.
--
-- Conventions. A call reads the clock once; instants and durations are nanoseconds as unbounded
-- numbers, so that the panic of an Instant sum past the clock's range is left out. Counters keep
-- their width: u32, u64 and usize (64 bits) with the source's saturation, wrap-around or checked
-- sum written out. Maps are association lists with one entry for each key, and texts are native
-- strings.
--
-- An f32 is the number of its bits. What the conversions ask of libraries is a parameter: the tests
-- on an f32 and to_lowercase (the record Library), serde_json's from_str and to_string, the hash
-- and the uuids of tool ids, the matches of the regular expressions of templates and of the
-- detector, the environment, the HMAC of a redaction with its key, the order of f32 confidences,
-- chrono's text of a time, zstd's compression, the first key of a HashMap, the answers of the
-- database, the test of bytes for UTF-8, and the clock.
--
-- Not modelled. The router serves one request at a time, so requests that interleave inside it are
-- left out; CircuitBreaker.Race is about threads. Metrics and logging only observe and are left
-- out, as are the accessors that return a field. Of the ingress and the egress, the HTTP handlers
-- and calls, serde's readers and writers of the wire types, the passthrough paths and the responses
-- API are left out. Of the storage and the session store, errors of the disk, the schema of the
-- database with its migrations, the writing of events and the statistics are left out. The rest of
-- the server and the user interface are outside: most of them is network, file and database access.
pub mod Prelude
pub mod Normalized
pub mod CircuitBreaker
pub mod Strategy
pub mod RouteTable
pub mod Notification
pub mod Health
pub mod Router
pub mod Ingress
pub mod Template
pub mod Egress
pub mod Dialects
pub mod ToolMapper
pub mod Pii
pub mod Storage
pub mod Session
pub mod Server
