-- ===== src/Lib.antt =====
-- Verification of the Rust parts of burble: the compose tool, tools/selur-compose/crates, and the client,
-- client/rust.
--
-- The tool reads a compose document, expands its `${VAR}` templates, plans the operations that start
-- its services, and has podman carry them out. The parts, and the modules that model them:
--
-- Schema: selur-compose-schema/src, the types of the document. A `BTreeMap` is the list of its
-- entries in key order; where a theorem needs distinct keys it says so (`Distinct`).
-- Interp: selur-compose-interp/src. Interp.Lexer is lexer.rs (`lex`, `parse_expansion`), on the
-- bytes of the text; the loop recurses on a proved bound of the bytes left. Interp.Expander is
-- expander.rs (`expand`), Interp.Env and Interp.EnvFile are env.rs (`EnvMap` with its index, and
-- the `.env` parser with `lines` and `trim` of std), Interp.Error is error.rs. Interp.Visit is visit.rs
-- (`visit_compose` and the visits of the parts of a document); Visit.Expanded says what an expanded
-- document is, field by field, with no use of the visits.
-- The planner is selur-compose-plan/src. Module Plan.Profiles is profiles.rs (`filter_services`).
-- Module Plan.Dag is dag.rs: `build_graph` and, in Plan.Dag.Waves, `topological_waves`, whose loop
-- has one round of fuel for each service, which is enough since every round places one.
-- Modules Plan.References and Plan.Planner are `validate_references` and `plan` of lib.rs, Plan.Render is
-- the `RunSpec` that `plan` makes, and Plan.Ops and Plan.Error are the types of lib.rs,
-- and Plan.Hash is hash.rs. Function
-- `plan` calls filter_services, validate_references, build_graph and topological_waves in turn, and
-- emits the operations wave by wave. A panic of the source and a lack of fuel are the result `none`.
-- Driver: selur-compose-driver/src. Driver.Argv is argv.rs, the argument lists for podman;
-- Driver.Argv.Reading reads one back, flag by flag. Driver.Healthcheck is `wait_healthy` of healthcheck.rs, with one round
-- of fuel for each nanosecond of its timeout: a round sleeps for longer than that; Healthcheck.Gate is its
-- `HealthGate`. Driver.Types and Driver.Interface have the states, the errors and the trait of lib.rs.
-- Driver.Executor is executor.rs: `execute` walks over the operations of a plan on any driver, and stops
-- at the first error. Two drivers implement the trait: Driver.Mock is mock.rs, whose state is the world,
-- and Driver.Podman is podman.rs, which runs the argument lists by Driver.Process, which is exec.rs.
-- Cli: selur-compose/src. Cli.Load is load.rs, which finds the document and puts the parts together: the
-- environment of Interp.Env, `parse_str` (Schema.Parse, lib.rs of the schema), the interpolation and the
-- planner. Cli.Commands has what the commands down, build and pull of cmd do on a driver.
-- Client: client/rust/src, the client of the server's channels. Client.Frame and Client.Phoenix are
-- phoenix.rs (Phoenix.State the state and one frame, Phoenix.Await `await_reply`, `join` and `push`,
-- Phoenix itself `next_broadcast` and `leave`), with one round of fuel for each nanosecond of a timeout:
-- a receipt takes one or more. Client.Game is game.rs, Client.Error is error.rs, Client.Interface is the
-- trait of transport.rs. The counter of references wraps around at 2 ^ 64, as in a release build; a
-- debug build panics there.
-- Base: what these share: strings as bytes, lists and counts, maps as association lists, results.
--
-- Time is a number of nanoseconds with no bound: that `Instant::now()` and a timeout can overflow an `Instant`,
-- which panics, is left out; the command line's timeout for a health check is 125 s.
--
-- Parameters: the file system and the variables of the process, serde_json, TOML, JSON canonicalisation and
-- SHA-256, the Levenshtein distance, the clock, the sleep, the timeouts, the start of a process, the reading
-- of bytes as UTF-8, URLs, and the socket; the planner takes the hash of a service as one. Not modelled:
-- the log stream and `execute_wave_concurrent`, which nothing calls, the arguments of the command line and
-- what it prints, the commands ps, logs, config and version, and the texts of the errors.
pub mod Base
pub mod Interp
pub mod Schema
pub mod Plan
pub mod Driver
pub mod Client
pub mod Cli
