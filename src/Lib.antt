-- ===== src/Lib.antt =====
-- Mini Envoy: a layer-7 gateway for the MENV protocol. Reactors read frames from clients into ring
-- buffers, pick an upstream endpoint by the frame's route, forward the frame, and send the answer
-- back. A prober and the operator decide which endpoints may be picked. The development follows the
-- Go packages.
--
-- The parts, and where they are modelled:
--   Base: what all share: Boolean tests and lists over the native numbers (Base/Tests, Base/Lists),
--     Go's int and int64 (Base/Int), bit masks (Base/Words).
--   Buffer: internal/buffer. Buffer/Slab is slab.go, Buffer/Ring is ring.go and iovec.go,
--     Buffer/NextPow2 its nextPow2. A ring holds its bytes; the slab gives and takes back the chunks
--     that they lie in. A slice is a range of indices (`Span`).
--   Protocol: internal/protocol. Protocol/Header is header.go, Protocol/Opcode opcode.go,
--     Protocol/Errors errors.go, Protocol/Frame codec.go and EncodeError, Protocol/Parser parser.go.
--     The parser takes frames from a ring of Buffer.
--   Upstream: internal/upstream. Upstream/Endpoint is state.go, Upstream/Registry pool.go. A pointer
--     to an endpoint is an index into the store of all endpoints.
--   Routing: internal/routing. Routing/RoundRobin is rr.go, Routing/Swrr swrr.go, Routing/Table
--     table.go. Picking reads the endpoints' states.
--   Config: internal/config. Config/File and Config/Defaults are config.go, Config/Validate is
--     validate.go with Load and MustRemoteToken, Config/Resolve its ResolveIPv4.
--   Probe: internal/probe. A probe encodes and decodes headers, and counts on the endpoint.
--   Metrics: internal/metrics.
--   Reactor: internal/reactor, internal/proxy, and internal/platform/event.go. Reactor/Conn is conn.go,
--     fdtable.go and backpressure.go; Reactor/Write (write, close), Reactor/Payload and
--     Reactor/Dispatch (frames, upstreams), Reactor/Read (readLoop) and Reactor/Loop (events, sweep,
--     shutdown, Run) are reactor.go, on the state and the actions of Reactor/Exec. Reactor/Platform
--     is the interface of the operating system. A reactor uses rings, parsers, frames, the routes, the
--     endpoints and a shard of the metrics.
--   Socket: of internal/platform/socket.go ParseIPv4. Socket/Calls is ListenTCP4, ConnectTCP4 and
--     Accept (socket_unix.go, socket_linux.go, socket_darwin.go) on a kernel that is a parameter.
--   Poller: internal/platform/epoll_linux.go and kqueue_darwin.go, the two implementations of the
--     interface in Reactor/Platform, as far as they compute.
--   Runtime: of internal/app/runtime.go the operator's Eject and Restore, on the registry, the endpoints
--     and the routes that the reactors use; Runtime/Build is Build, Runtime/Views and Runtime/Topology
--     are what the administrator's pages show, of the types of internal/metrics/types.go.
--   Admin: internal/admin/auth.go, and of handlers.go the guard and the handlers that call Runtime;
--     Admin/Api is all routes of handlers.go, with the bodies of json.go and sse.go.
--   Commands: cmd/mockupstream is Commands/Mockup, cmd/menvctl Commands/Menvctl. They meet on the
--     two streams of a connection, which the network cuts into reads at will. Commands/Minienvoy is
--     cmd/minienvoy: it loads and builds a gateway.
--   Tests: concrete values; Tests/Network is an operating system from a script.
--
-- How Go is read: a method that changes its receiver returns the new value. A run of a method
-- under its mutex, or on the reactor that owns the object, is one step; Upstream/Endpoint/Race
-- splits RecordSuccess, which runs under none. An int is 64 bits wide, and wrap-around is written
-- out where a value can reach it.
-- Every loop outside Reactor is structural recursion on a list or a count, but for the
-- handler of Commands/Mockup, whose fuel is shown to be enough. Network, files, the
-- YAML parser, floating-point numbers and the splitting of addresses are parameters.
--
-- The reactor: its methods are actions on its state and the outside world, which return, panic (a
-- nil pointer, a slice out of range) or run out of fuel. A connection is an object in a store that
-- only grows, and pointers are indices into it. `readLoop` and the accept loop take fuel, since
-- nothing in the code bounds what one readiness brings; `closeConn` takes two levels of it.
-- One reactor runs alone: other reactors, the prober and the operator, who share its endpoints and
-- slab, do not step in between, and what is posted to it is any action.
--
-- Not modelled: the system calls (internal/platform), the channels by which a reactor is posted to
-- and stopped, how internal/app starts and stops the parts, the HTTP server
-- and its JSON (internal/admin), logging and the clock, the flags of the commands
-- (cmd) and the console (web). Of internal/config the signal handler is left out.
pub mod Base
pub mod Buffer
pub mod Protocol
pub mod Upstream
pub mod Routing
pub mod Config
pub mod Metrics
pub mod Probe
pub mod Reactor
pub mod Socket
pub mod Poller
pub mod Runtime
pub mod Commands
pub mod Admin
pub mod Tests
