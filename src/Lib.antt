-- ===== src/Lib.antt =====
-- healthd, a daemon that probes hosts, sites and the line, keeps the health of each unit, sends an alert
-- when it changes, and answers requests for a summary (Go, packages under internal/).
--
-- The parts and how they interact. Each monitoring role (internal/roles) runs a check at an interval.
-- The check's result goes to the unit's state machine (internal/monitor/statemachine.go), which keeps a
-- rolling window of results (window.go) and returns an event. The machine's status and the sample go to
-- the registry (registry.go), which keeps a bounded history of each unit (history.go). An event becomes
-- an alert, which the dispatcher (internal/notify/dispatcher.go) delivers to each channel of the unit,
-- with retries. The configuration (internal/config/config.go) names the channels, the roles and their
-- parameters. A TCP listener answers each request line (internal/protocol, internal/roles) with a pong,
-- an error or the registry's summary.
--
-- The files, with the code that each models:
--   Common        names and lemmas that the others share. Common/Int has Go's 64-bit `int` with its
--                 wrap-around, Common/Assoc a Go map as an association list
--   Circular      the fixed buffer that window.go and history.go both use
--   Platform      `float64` and `time.Time`, a parameter of the model, with the few laws that the code
--                 relies on; Platform/Exact is an instance with fractions, Platform/Whole one with whole
--                 numbers
--   Monitor       internal/monitor: Window (window.go: Add, Full, Len, Availability), StateMachine
--                 (statemachine.go: Observe and its two transitions), History (history.go: add, slice),
--                 Registry (registry.go: Register, set, recordCheck, recordSpeed, Snapshot and the
--                 handles), Registry/Summary (Summary, LogSnapshot, LogSummary)
--   Notify        internal/notify: Dispatcher (dispatcher.go: Dispatch, deliver, backoff, safeNotify),
--                 Email (email.go: Notify, buildMessage, and sendImplicitTLS as the commands that it gives
--                 to a server), Http (webhook.go and smsgate.go) and Console (console.go)
--   Config        internal/config/config.go: the data; Resolve (profiles), Defaults (applyDefaults),
--                 Validate, Load, and Error with a constructor for each message
--   Protocol      internal/protocol/protocol.go: messages and the decoding of a request; the decoding of
--                 a response is in Roles/PingProbe
--   Roles         internal/roles: MessageHandler, MessageDispatcher and TcpListener for the requests,
--                 Check (runCheck of ping_monitor.go, url_monitor.go and speed_check.go, httpProbe of
--                 http_probe.go, dispatchEvent of roles.go), InternetCheck (internet_check.go), PingProbe
--                 (probe of ping_monitor.go), SummaryReporter (summary_reporter.go), Units: the units that
--                 the roles' constructors make and register, Loops: the loops of all units, by the
--                 ticks and the cancellations that their selects take, a check being one step, and
--                 Calls: the same loops with each call of a runCheck as a step of its own, so that the
--                 checks of different units interleave call by call
--   Daemon        cmd/healthd/main.go: buildChannels, monitorConfig, buildRoles, and run up to the start
--                 of the roles; Daemon/Supervisor is the rest of run: the goroutine of each role, the first
--                 fatal error, the cancellation and the wait, one event for each step of a goroutine; and
--                 Daemon/Channels is an alert on its way through the dispatcher and a configured channel
--   Tests         concrete inputs
-- A file in the folder of a module states or proves something of it.
--
-- How the code is read. A method that changes its receiver returns the new one. A pointer that may be
-- nil is an Option. A mutex makes each method of the registry one step. A panic is `none`, or an
-- outcome of its own for a channel that panics. time.Now is an argument. The network, the speedtest, JSON,
-- url.Parse and the clock give arguments of the functions that use them. A map is visited in the order
-- of its list; an error that depends on the order of a map is not compared.
--
-- Bounds and fuel. Every loop is structural recursion; the retry loop takes its attempts, and slice its
-- rounds, as a number. The count of consecutive failures and the cycle of the sites are `int`s that wrap
-- after 2^63 - 1; the theorems that need the count say so. The indices of the two buffers are natural
-- numbers, bounded by the capacity. Delays are int64 nanoseconds, wrapped.
--
-- Not modelled: the periods of the tickers, sockets and deadlines, the construction of HTTP clients, the
-- log's handler, main's flags, and the JSON of encoding/json. They are I/O of the standard library; what
-- the code does with their answers is modelled, the answers being arguments. The sender by STARTTLS is
-- smtp.SendMail, an argument.
pub mod Circular
pub mod Common
pub mod Config
pub mod Daemon
pub mod Monitor
pub mod Notify
pub mod Platform
pub mod Protocol
pub mod Roles
pub mod Tests
