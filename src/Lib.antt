-- ===== src/Lib.antt =====
-- Gost-webui, a panel for the gost and sing-box proxies: what it keeps, counts and enforces.
--
-- The panel keeps its nodes, hourly traffic, sessions and devices in one bbolt database
-- (internal/store). A sampler (internal/controller/sampler.go) asks gost and sing-box for their
-- counters in rounds, adds what has grown to the totals of the nodes and to the traffic of the hour,
-- and stops sing-box nodes that are over their quota. The HTTP server (internal/server) slows down
-- guessing of passwords by a guard in memory, keeps sessions in memory and in the store, and asks for a
-- second factor. Its handlers check a request for a node, store the node and have the controller bring it
-- to gost, whose configuration is built from the nodes (internal/gostmgr), or to the pool of sing-box
-- processes (internal/singbox).
--
-- Files, and the code that they model:
--   Prelude          shared tests, lists, maps as lists of pairs, integers over native numbers
--   Model            internal/model/model.go: Node, Live, Point and the names of gost's resources;
--                    Model/Text is what Go's package strings does to ASCII
--   Bolt             the interface of go.etcd.io/bbolt with the laws that the store relies on;
--                    Bolt/Lists is an instance, for concrete runs
--   Store            internal/store/store.go: Open, settings, nodes, sortNodes
--   Store/Bytes      encoding/binary's big-endian numbers and the order of a cursor
--   Store/Hours      AddTraffic, RangeTraffic, PruneTraffic
--   Store/Logins     sessions and trusted devices
--   Controller/Sampler   internal/controller/sampler.go: sampleOnce, delta, and in the child Reality
--                    sampleReality
--   Controller/Traffic   internal/controller/controller.go: ResetNodeTraffic, WindowUsed,
--                    restoreQuotaUsage
--   Controller/Engine    internal/controller/controller.go: ApplyNode, RemoveNode, SyncConfigFile,
--                    LoadNodes, syncReality, over the client of gost and the pool of sing-box
--   Singbox          internal/singbox/singbox.go: the pool of processes, Apply and Remove; in the
--                    child Supervisor supervise and stopProcess
--   Server/Nodes     internal/server/handlers_nodes.go: the request for a node, ports and host names;
--                    in Common newNodeBase and applyCommon, in Gost buildGostNode, in Build
--                    buildNode for the other kinds (with handlers_reality.go), and in Handlers the
--                    handlers that create, change, delete and switch a node
--   Server/Guard     internal/server/security.go: loginGuard
--   Server/Sessions  internal/server/server.go: sessionStore, auth, revokeOtherSessions
--   Server/TwoFactor internal/server/twofa.go: codes, recovery codes, challenges, trusted devices
--   Server/Login     handleLogin, handleLogin2FA, checkPassword, with the three parts above
--   Server/Account   internal/server/twofa.go, handlers_misc.go: the handlers that set up, enable and
--                    disable the second factor, renew recovery codes and change the password
--   Server/Settings  internal/server/handlers_misc.go: the change of the settings
--   Auth             internal/auth/totp.go: Verify and the recovery codes
--   Gostmgr          internal/gostmgr: Client is client.go over an interface to gost with the laws
--                    that are relied on (Client/Registry is an instance), Schema is the data of config.go,
--                    Protocol is protocol.go (ValidateGostNode), Config is BuildConfig with quota.go's QuotaWindow
--   Notify           internal/notify/notify.go: Send with its cooldown
--   Alerts           internal/alerts/alerts.go: ObserveNodes
-- Modules below these hold their theorems, and the modules called Tests hold concrete runs.
--
-- State is passed explicitly, and an operation that holds a mutex or is one transaction is one step.
-- A transaction commits or fails as a list of outcomes says, which is an argument of the run. Clocks,
-- random tokens, bcrypt, HMAC, SHA-256 and base32, and what gost and sing-box answer, are arguments
-- too. A text that is a key stands for its bytes, and a value that is kept as JSON is the value or is
-- unreadable. Counters of 64 bits wrap around. Times are natural numbers: seconds since 1970 in the store
-- and the sampler, nanoseconds in the guard; but the keys of hours are read back as signed numbers.
-- The loop of a supervisor is a step relation, and every other loop structural recursion; nothing runs on fuel but the printing of a number, which has as
-- much as the number. A free port is drawn for at most fifty times, as in the program.
--
-- Shares of a quota are compared exactly where the program uses floating-point numbers.
--
-- What gost does with a request is an interface with laws, and so is bbolt. The parsing of a landing
-- link, the address of a gost node, net.ParseIP and the test whether a port is free are functions that a
-- request for a node brings along. Requests are handled one at a time.
--
-- Not modelled: what a child process does, several supervisors of one instance at once, HTTP, files and
-- certificates, the formats of subscriptions, time zones, and the handlers around the parts named above.
pub mod Alerts
pub mod Auth
pub mod Bolt
pub mod Controller
pub mod Gostmgr
pub mod Model
pub mod Notify
pub mod Prelude
pub mod Server
pub mod Singbox
pub mod Store
