-- ===== src/Lib.antt =====
-- A verification library for roxey, which gives services on a developer's machine public addresses
-- through a relay.
--
-- The relay (backend) keeps a routing table. A CLI connects by websocket with an API key and asks
-- for a service: `handleWSUpgrade` checks the key in the store, derives a host, registers the
-- tunnel and takes it down again when the session ends. A visitor's request is routed by host and
-- path to a tunnel; a protected tunnel stands behind a gate, which takes a password, a signed
-- cookie or a token and spends attempts from a rate limiter. The CLI writes the names of local
-- services to /etc/hosts through a privileged helper, which also keeps the local relay running, and
-- records the tunnels and services that `up` starts and `down` stops.
--
-- Which file models what:
-- Relay is backend/relay/relay.go. `Registry` with `check`, `register`, `unregister`, `resolve` and
--   `list_active` (`Check`, `Register`, `Unregister`, `Resolve`, `ListActive`). A pointer to an entry
--   is the entry with its address; the map of host tables is an association list.
--   Relay/Stream is `OpenStream` on a pending entry, Relay/Service is `ValidateService`.
--   Relay/Sorted, Invariant, Admission, Resolve, Teardown, Reordered, Restored and Listing hold
--   proofs. `sort.Slice` leaves prefixes of equal length in any order; `register` leaves them in
--   that of registration, and Relay/Reordered is about the other orders.
-- Auth is backend/internal/auth. Auth/Limiter is the sliding window (`Allow`), Auth/ClientIp is
--   `ClientIP`, Auth/Sessions the signed tokens (`Issue`, `Verify` and their gate and group
--   variants). Proofs are in Auth/Limiter/Window and Bound and in
--   Auth/Sessions/Tokens and Confusion.
-- Store is backend/internal/store/store.go. Tables are lists of rows under the unique constraints
--   of the schema. Proofs are in Store/Users, Keys and Events.
-- Server is backend/main.go. Server/Query is `removeQueryParam` with what net/url reads,
--   Server/Cookies is `stripGateCookies` with what net/http reads, Server/Gate is
--   `handleTunnelRequest` with `visitorCredential` and `serveGate`, Server/Handshake is
--   `handleWSUpgrade`. Proofs are in Server/Gate/Access and Unlock and Server/Handshake/Laws.
--   Server/Front is the front handler of `main`. Server/Accounts is the handlers of `buildMux`
--   behind /api/, with proofs in Server/Accounts/Login and Ownership.
-- Manifest is cli/manifest/manifest.go: `Validate`, and in Manifest/Ports what a placeholder stands
--   for. Proofs are in Manifest/Validated.
-- Preview is `ApplyMode` and `AssignPorts` of cli/preview/preview.go, the latter up to its last
--   loop, with proofs in Preview/Distinct; Preview/Slug is `Slugify`, with proofs in
--   Preview/Slug/Label.
-- Projects is cli/internal/projects/projects.go without its file, with `Register` in
--   Projects/Register (proofs in Projects/Register/Named).
-- Hosts is `RenderBlock` and `mergeHostsBlock` of cli/internal/localrelay/hosts.go, and
--   cli/internal/helper/validate.go, with proofs in Hosts/Block and Hosts/Allowed.
-- Config is the servers of cli/internal/config/config.go, and `RelayEnv` of
--   cli/internal/localrelay/ensure.go, with proofs in Config/Credentials.
-- Helper is the root daemon of cli/internal/helper. Helper/Supervisor is relay.go: the supervisor
--   with its goroutines and processes, and `run` over a list of events (proofs in Owned and
--   Stopped). Helper/Dispatch is `handleConn`, `handle` and their operations of server.go and
--   `reconcile` of daemon.go (proofs in Authority).
-- Ledger is the records of tunnels and services of cli/internal/config/config.go and the commands of
--   cli/main.go over them: `cmdStop` and `teardownManifest`; in Ledger/Start `startOne` and
--   `cmdRun`, in Ledger/Up `cmdUp` from the restart on, in Ledger/Down `cmdDown`. Proofs are in
--   Ledger/Spec, Ledger/Up/Covered, Served and Signals, and Ledger/Down/Removed.
-- Cli is the loops of cli/main.go over the arguments: `parseUpOptions`, and those of `cmdDown`,
--   `cmdStart` and `cmdDaemon`, in Cli/Options (proofs in Cli/Render).
-- Runner is cli/runner/runner.go: `splitCommand`, and the loops that ask until a deadline
--   (`waitPortOrExit`, `KillGroup`, `ReclaimPort`, and `waitHelper` and `waitRelay` of cli/main.go).
--   Proofs are in Runner/Quoted and Runner/Wait.
-- Tunnel is cli/tunnel: the loop of `Hold`, and `Read` of wsnet.go, which backend/relay/wsnet.go
--   repeats. Proofs are in Tunnel/Backoff and Tunnel/Bytestream.
-- Std is the parts of Go's base64, hex, strconv, strings, regexp and path/filepath that these use.
--   Base: lists, bytes and maps. Tests: concrete inputs.
--
-- A string is the list of its bytes. Numbers are natural numbers; an expiry is read as the signed
-- 64-bit number that `ParseInt` gives, and the theorems on tokens ask that the time of issue fits.
-- Loops follow a list, except two. The loops that ask until a deadline get fuel for one question in
-- each period of the time and two more, and the search for a project's name for one round for each
-- project and one more; theorems show that neither runs out. The clock, random identifiers and what
-- a connection or the database does are arguments. SHA-256 and HMAC are the parameter `Crypto`,
-- of which only the form of the digests is assumed. A mutex makes each of the operations of the
-- registry, the limiter and the store one step; `handle_ws_upgrade` takes the registry of its
-- check and that of its registration separately, since other connections may come between.
-- `strings.ToLower` is a parameter where its text may hold any letter of Unicode.
-- A process that the supervisor kills runs on until it ends.
-- The supervisor of the helper has two threads and more: its steps come in the order of a list of
-- events, and the theorems hold for every list. Whether a process is alive is a parameter of the
-- commands, and what a spawn gives is an argument; the files of the records can always be read.
--
-- Not modelled: the pages, TLS, the reverse proxy, yamux and websockets, bcrypt (the parameter
-- `Passwords`), SQLite beyond its constraints, YAML, files and processes, and the parts of the CLI
-- that are not named above.
pub mod Base
pub mod Std
pub mod Relay
pub mod Auth
pub mod Store
pub mod Server
pub mod Hosts
pub mod Helper
pub mod Manifest
pub mod Preview
pub mod Projects
pub mod Tests
pub mod Ledger
pub mod Runner
pub mod Tunnel
pub mod Cli
pub mod Config
