-- ===== src/Lib.antt =====
-- The log pipeline of opslog: the SDK's agent, the wire framing, and the server from its inputs to
-- its outputs, its query store and its live stream.
--
-- A program that logs calls a logger of the SDK (Sdk.Agent.Logger), whose agent queues the signal
-- (Sdk.Agent.Queue) and sends it from a worker (Sdk.Agent, Sdk.Policy), over a transport that may
-- frame it (Framer). An input of the server decodes it and dispatches it. The dispatcher
-- (Dispatcher) passes it through the pipeline (Pipeline, Processor) into a bounded queue, from
-- which a loop writes batches to every output (Dispatcher.Loop). The live hub (Live) gives what is
-- published to its subscribers.
--
-- An agent is built from options (Sdk.Agent.Options), started and closed (Sdk.Agent.Lifecycle); a
-- program may keep one for the whole process (Sdk.Integration), whose hook adds what is known of the
-- process to each event (Sdk.Enricher), and which reports panics (Sdk.Panic). The server is built
-- from its file (Config.Load, Cfg, Registry) by App.Build.
--
-- Files and the code that they are about:
--   Prelude         notation and lemmas; strings.ToLower, Contains, HasPrefix, TrimSpace; Go's maps
--   Framer          pkg/framer/length.go
--   Signal          pkg/signal/*.go
--   Pipeline        server/internal/pipeline/pipeline.go
--   Processor       server/internal/processor/normalize.go
--   Dispatcher      server/internal/dispatcher/dispatcher.go
--   Live            server/internal/live/hub.go, and Filter of pkg/query/query.go
--   Codec           pkg/codec/json.go, server/internal/decoder/json.go
--   Tcp             pkg/transport/tcp/tcp.go
--   Transport       pkg/transport/httpx, ws, udp and grpctx, pkg/transport/type.go, and
--                   sdk/transport/helpers.go
--   Cfg             pkg/cfgutil/cfgutil.go
--   Registry        server/internal/registry/registry.go, server/internal/bootstrap/register.go
--   Input           server/internal/input/*.go, publishingDispatcher of server/internal/app/app.go
--   Store           server/internal/output/filesystem/filesystem.go, pkg/query/*.go
--   Sql             server/internal/output/mysql/mysql.go, clickhouse/clickhouse.go
--   Api             server/internal/api/api.go
--   App             server/internal/app/app.go
--   Config          server/internal/config/config.go, server/internal/web/basicauth.go
--   Sdk             sdk/policy/level.go; Agent: sdk/agent/*.go; Enricher: sdk/enricher/env.go,
--                   diag.go, etc_env_unix.go, the cache of sysinfo.go; Collectors:
--                   sdk/collectors/probe.go, config.go, host.go; Panic: sdk/middleware;
--                   Integration: sdk/integration/*.go
--   Tests           runs at concrete values
--
-- How the code is modelled. A text is the list of its code points, and a byte a number below 256.
-- A time is a number of nanoseconds from year 1, so the zero time is 0; what time.Now returns is
-- an argument. Unicode's case tables belong to Go's standard library: they are a parameter,
-- CaseMap, that agrees with ASCII's and whose mappings are idempotent. A Go map is an association
-- list that is read by lookup. A pointer to an event is an address of a heap where a function
-- changes what it points to, and transports are compared by identity. Goroutines and channels are
-- states with one step for each thing that may happen next, and the theorems are about every
-- sequence of steps; the choice that Go's select makes between two cases that are ready is an
-- argument. Fields of these states that the code does not have (accepted, batches, taken, handed)
-- record what happened and decide nothing. Outputs, transports and hooks are parameters with a
-- state of their own; an output does not keep the slice that it is given. Loops are structural
-- recursion on the list that they range over, and need no fuel; the loop over a connection's
-- frames has the number of its bytes and one as fuel, and a frame takes four at least; a drain
-- runs for one round for each signal in the queue and one more, which the theorem about it shows
-- to be enough. What encoding/json, gzip, path joining and time parsing and printing yield, and
-- whether files are written and removed, are parameters. Log lines of the program about itself
-- are left out. What package os says of the process, what package net and the HTTP, WebSocket and
-- gRPC libraries answer, and how fmt prints a value are parameters too, and a deferred function
-- that recovers is given whether it calls recover itself.
--
-- Not modelled: sockets, HTTP, gRPC and WebSocket connections, SQL and ClickHouse servers, the file
-- system's own behaviour, JSON and YAML libraries, gzip, the web console, the program's start and
-- flags, generated protocol code, examples, and the readings of the host that the SDK attaches.
pub mod Prelude
pub mod Api
pub mod App
pub mod Cfg
pub mod Codec
pub mod Config
pub mod Dispatcher
pub mod Framer
pub mod Input
pub mod Live
pub mod Pipeline
pub mod Processor
pub mod Registry
pub mod Sdk
pub mod Signal
pub mod Sql
pub mod Store
pub mod Tcp
pub mod Transport
pub mod Tests
