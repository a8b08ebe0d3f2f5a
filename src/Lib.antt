-- ===== src/Lib.antt =====
-- MolePort keeps SSH connections and port forwards in a daemon that a command line and a terminal
-- interface talk to. This development models its core.
--
-- * Core is internal/core: enumerations, hosts, rules and sessions (types_enums.go, types_models.go),
--   the structured errors (errors.go) and the events with their bounded channels (types_events.go,
--   event_emitter.go). Core/SshPort.antt holds what the forward manager asks of the SSH manager.
-- * Forward is internal/core/forward, the manager of rules and sessions. Forward/State.antt has
--   `forwardManager` with its map of active forwards; since the code shares `activeForward` by pointer,
--   the model keeps them on a heap under addresses. Rules, Sessions, Lifecycle and Reconnect hold the
--   operations under the names of the code, with the locked sections of StartForward and of
--   restoreSingleForward as definitions of their own (start_reserve, start_commit, restore_commit).
--   Invariant and Operations are about the whole operations, Requests runs any of them,
--   Interleaving steps through the locked sections, and Outcomes, RoundTrip and Races state what a
--   caller sees.
-- * Ssh is internal/core/ssh, the manager of hosts and connections. State, Hosts, Lifecycle, Backoff
--   and Reconnect follow manager.go, hosts.go, lifecycle.go and reconnect.go. View says what it means
--   that the state of a host agrees with the connections; Agreement, Looping and Requests are about
--   that, Outcomes and Bounds are about the reconnect loop, Races about what may
--   happen while it dials, Reloading about hosts that leave the configuration.
-- * Protocol is internal/ipc/protocol: the texts and records of the wire (Wire, Infos) and the codes of
--   errors (Codes).
-- * Broker is internal/ipc/broker.go: subscriptions (State) and the delivery of events (Events), with
--   Listed and Targets for the proofs.
-- * Socks5 is internal/core/socks5: a connection as the bytes to come (Conn), and the handshake
--   (Handshake) with Reading and Replies about it.
-- * Daemon is internal/daemon: the routing of SSH events to the forward manager and to the broker (Routing)
--   and the forwards that are started with the daemon (Startup), both of daemon_state.go, pidfile.go
--   (PidFile), and daemon.go (Process), with Starting, Resuming, Loading, Loads, Restart
--   and Names for the proofs.
-- * Config is internal/core/config.go with internal/ipc/handler/config: Memory holds the maps and overrides
--   that copies of a configuration share, Manager follows the configuration manager, Params,
--   Validation, Applying and Handler follow the handler, and Fields, Hosts, Updates and Durations
--   are about it.
-- * Update is internal/core/update: Checker is checker.go, and Http, Downloads, Checksums, Archives,
--   Replacing and Updater follow updater.go on texts as code points (Texts) and a map of files. Versions,
--   Compared, Checklists, Listings, Installs, Placed and Verified are about them.
-- * Server is internal/ipc/server.go: the messages (Messages), the loop of one client (Reading), and the
--   table of clients (Clients), with Replies and Table for the proofs.
-- * Handlers is internal/ipc/handler: Forwards and Connections on top of Forward and Ssh, with Hosts,
--   Subscriptions, Versions and Dispatch; Saving and Differences are about forward.add, forward.delete and
--   host.reload.
-- * Credentials joins handler_ssh.go and server.go: the table of credential requests (Pending) and the
--   clients' loops around it as a step relation (Waiting), with Senders and Alone about it.
-- * Client is internal/ipc/client: the operations on the pending calls (Calls) and the order in which
--   goroutines do them as a step relation (Running), with Matching and Lost about it; Answers is
--   client_credential.go.
-- * Base has the lists, maps, integers and texts that the others share.
--
-- A failed start or connect comes back as a value of `Error`, which Protocol turns into the code of a
-- response.
--
-- Go's `int` and `time.Duration` are ℤ and counters are ℕ, without wrap-around: ports and durations
-- stay far below 2^63, and the float arithmetic of the back-off is exact below 2^52. A map is a
-- function of its key, and a `range` over a map takes the order of its visits as an argument. Time,
-- random numbers, `%q`, JSON and the answers of the network are arguments. The reconnect loop recurs
-- on the number of attempts left, which is `MaxRetries` at its start, so no fuel is needed beyond it.
-- A mutex is modelled by making each locked section one step; what other goroutines do between the
-- sections is a sequence of steps, or a function in `Schedule`.
--
-- The network, the store of YAML files, SHA-256, gzip, tar, `semver` and the decoders are parameters. Go
-- gives each answer of the network once for a call, so `Http` is a function of the request during one
-- operation, and may be another for the next. Reading a file of bounded size is `take` of the bound.
-- The loops of the server recur on the lines that arrive, and those over an archive on its entries.
--
-- Not modelled: the copying of bytes over the tunnels, SSH itself, the sockets and processes of the
-- daemon, the YAML files, the command line, the terminal interface and its messages.
pub mod Base
pub mod Core
pub mod Forward
pub mod Ssh
pub mod Protocol
pub mod Broker
pub mod Socks5
pub mod Daemon
pub mod Config
pub mod Update
pub mod Server
pub mod Credentials
pub mod Client
pub mod Handlers
