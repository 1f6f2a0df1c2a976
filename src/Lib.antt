-- ===== src/Lib.antt =====
-- A model of the parts of s-ui-next (a panel around the sing-box proxy core) that keep its own
-- state: who may log in, what traffic counts for whom, and what a client may still use.
--
-- How the parts interact. The core's trackers see every routed connection: StatsTracker
-- (core/tracker_stats.go) counts its bytes, ConnTracker (core/tracker_conn.go) keeps it so that it
-- can be closed with its inbound. The statistics job (service/stats.go) collects the counters,
-- credits the clients of the database and remembers who is online; the quota job
-- (service/client.go) then starts periods, resets quotas and disables clients. The API keeps a
-- count of failed logins (api/login_rate_limit.go). The log keeps a ring in memory
-- (logger/logger.go), from which the analytics read the connections (service/connections.go).
--
-- The files:
--   Prelude       shared names, Boolean tests, lists over native numbers, results, Go's `==`
--   GoMap         Go's maps as association lists with one entry for a key
--   RateLimit     api/login_rate_limit.go: LoginAttempts is loginAttempts, login_allowed,
--                 record_login_failure, clear_login_failures and cleanup_login_attempts_locked are
--                 the functions of these names; time is in nanoseconds and an argument
--   StatsTracker  core/tracker_stats.go: counters of inbounds, outbounds and users; a byte counter
--                 keeps the wrap-around of int64, and a connection adds to the counters it got
--   ConnTracker   core/tracker_conn.go: the table of connections and the wrappers that leave it
--   Arrays        util/common/array.go: union and difference of slices of ids
--   Clients       service/client.go: Clients.Quota is DepleteClients and ResetClients, Clients.Links
--                 the work of the link updates on one client, Clients.Save is Save with
--                 findInboundsChanges and newClientSubId, Clients.Updates the link updates over the
--                 table, Clients.Subscriptions GetEnabledBySubscriptionKey; Clients.Database is
--                 gorm as an interface of operations that may fail, with the laws of SQL
--   StatsService  service/stats.go: SaveStats and downsampleStats
--   Logger        logger/logger.go: the ring of log entries, GetLogs and QueryLogs
--   Connections   service/connections.go: Connections attaches sources and filters, Connections.Query
--                 is QueryConnections after parsing, Connections.Summaries is summarizeConnections, what
--                 it counts is in Connections.Counts (its calls of add) and Connections.Seen
--   EgressTags    service/egress_tags.go: the tags that endpoints and outbounds share
--   AutoHttps     network/auto_https_conn.go: the redirect of plain HTTP to HTTPS
--   PasskeyNames  service/passkey_name.go: the names of passkeys
--   WireGuard     service/wireguard.go. normalizeAndValidateWireGuard is WireGuard.Server over
--                 WireGuard.Roles, Peer, Routes and Client, which are the parts of its loop, Sets is
--                 sameStringSet, Secrets redactWireGuardSecrets and mergeWireGuardSecrets, Export
--                 ExportWireGuardPeer (its texts in ExportText), ManagedRoutes syncWireGuardManagedRoute. The loop passes on
--                 what it has seen (Seen) where the Go code appends to its slices and maps
--   Accounts      service/user.go: passwords, second factors with recovery codes
--                 (Accounts.SecondFactor), and API tokens (Accounts.Tokens); each call takes which of
--                 its database calls fail
--   PendingAuth   service/auth.go: the tables of logins under way, one model for the two of them
--                 (storeOIDCPending and storePasskeyPending are store_pending), OIDC from its settings
--                 to the user (Oidc), passkey ceremonies and the table of passkeys (Passkeys)
--   ConfigService service/config.go and core/main.go: saveConfigWithApply and saveEndpointWithApply
--                 with the restart of the core and its undoing, and redactChangeData (Redact)
--   JsonValue     decoded JSON values, and the readers at the top of service/wireguard.go; an object
--                 that the Go code changes in place is given back changed
--   NetIp         addresses and prefixes of net/netip: containment, overlap and masking
--   Paging        how Logger and Connections cut a page out of a list
--   GoText        Go's strings package, over the letter tables of unicode as an argument
--
-- State is passed explicitly and every operation returns the new state; the locks of the Go code
-- make each of them one step, so that interleavings are lists of operations (RateLimit.Invariant,
-- StatsTracker.Conservation, ConnTracker.Lifecycle quantify over them). A fallible operation
-- returns a Result whose error leaves the caller with the state it had, as the rollback of the
-- transaction does. All recursion is on lists or numbers, so that no fuel is needed, but for the
-- decimals of a number, where one step more than the number is more than its digits.
--
-- Parameters, for code that is not in the repository or is left out: the database (Clients.Database,
-- filled by a list of rows in Clients.Tests), the link generator of util/genLink.go, the levels of
-- the go-logging library, the letter tables of unicode, the reading and printing of prefixes in
-- net/netip, the keys of wgctrl, bcrypt, SHA-256 and TOTP, how each step of sing-box ends, the OIDC
-- provider and the WebAuthn library, what net and net/url make of an address, and which bytes
-- net/http takes for a request.
--
-- Sums of traffic in the database and in the charts (StatsService) are numbers without a bound, as
-- SQLite and Go agree with them below 2 ^ 63; the counters of the core and the quota job keep the
-- wrap-around of int64.
--
-- Not modelled: the HTTP handlers, the sing-box wiring, the command line, migrations and backups
-- (I/O around libraries), how the origin of a request is found for WebAuthn, and the text of share links.
pub mod Prelude
pub mod GoMap
pub mod GoText
pub mod JsonValue
pub mod NetIp
pub mod Paging
pub mod RateLimit
pub mod Accounts
pub mod PendingAuth
pub mod ConfigService
pub mod StatsTracker
pub mod ConnTracker
pub mod Arrays
pub mod Clients
pub mod StatsService
pub mod Logger
pub mod Connections
pub mod EgressTags
pub mod AutoHttps
pub mod PasskeyNames
pub mod WireGuard
