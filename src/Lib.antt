-- ===== src/Lib.antt =====
-- The Go server of the Xray web manager: a development that models its own logic and proves what
-- makes it correct. Each file opens with the source file that it is about.
--
-- A request goes through the wrappers of package middleware to the routes of package server, whose
-- handlers ask Xray over gRPC and keep short caches. Streams of statistics are fed by one polling
-- goroutine, the broadcaster. Two more goroutines clean the limiters, and one watches the connection
-- to Xray.
--
-- Common: names of the libraries, and what the components share. A string is a list of bytes
-- (`Text`), a map is an association list with at most one entry for a key, a point in time is a
-- number of nanoseconds, a 64-bit signed integer that is only compared is an integer without bound.
--
-- Main: main.go. `final_handler` is finalHandler: Recovery, Logger, SecurityHeaders, BasicAuth and
-- RateLimit around mainMux, with CheckOrigin before the API's routes. Main/Connection: waitForReady
-- and the attempts to connect, `start_up`. Server/Connectivity: the history of states of a gRPC
-- connection, which stands for the connection itself. The recursions are on that history and on the
-- number of attempts. Main/Process: the function main, from its flags to its exit.
--
-- Server/Routes: RegisterHandlers of server/server.go and RegisterFrontend of server/frontend.go.
-- Server/Reconnect: waitForReconnect and StartReconnectMonitor. Server/Shutdown: Server.Shutdown as
-- a step relation over the broadcaster, the connection manager and the monitor.
--
-- Middleware/RateLimit: middleware/ratelimit.go. `check_and_record` is checkAndRecord with
-- evictOldest, `cleanup_stale_keys` the periodic cleanup. Weighted counts are compared after a
-- multiplication by the window, so that no float64 is left; its rounding is not modelled.
-- Middleware/Auth: middleware/auth.go. `basic_auth` is the handler for one request over the two
-- limiters of failures; which entry a full map gives up, a random one in Go, is an argument.
-- Middleware/Auth/Racing: the sections of that handler under the limiter's mutex, for requests that
-- overlap.
-- Middleware/Cleanup: startCleanupLoop of middleware/middleware.go, InitRateLimiter, StopCleanup and
-- the goroutines that they start and stop, as a step relation over the package's variables.
-- Middleware/Wrappers: middleware/recovery.go, middleware/security.go and the writer of
-- middleware/logger.go. Middleware/Client: clientIP of middleware/logger.go and the limiter's handler.
-- Middleware/Origin: middleware/cors.go.
--
-- Server/Logs: server/handlerlog.go with journal.go and its stand-ins. `read_log_file` is
-- readLogFile with the ring buffer and whatever the pool holds, `read_journal_log` is
-- readJournalLog, `trim_lines_to_bytes` trimLinesToBytes, `truncate_search` truncateSearch with the
-- functions of unicode/utf8 that it calls, `handle_get_logs` handleGetLogs. Files, the journal and
-- the done channel of the context are arguments. The loops of the UTF-8 functions run on fuel: the
-- length of the text, of which each round takes at least a byte.
--
-- Server/Health: server/handlerhealth.go. Server/Outbounds: the parts of server/handleroutbound.go
-- without state; Server/Caches: its caches, the current outbound and the switch, for a request that
-- no other interrupts; Server/Caches/Flight: the coalesced call of getAllOutboundStatuses beside other
-- requests and switches, as steps. Server/Stats:
-- server/handlerstats.go, with a rate as a number of bytes over a number of nanoseconds in place of
-- a float64; Server/Stats/Frames: the bytes of a stream. Server/Reply: server/handlers.go. What gRPC
-- answers is an argument; elsewhere a singleflight call is the call itself.
--
-- Config: config/config.go, with net.SplitHostPort, url.Parse and the YAML coder as parameters.
-- Config/Files: GetConfigPath, SaveDefaultConfig and LoadConfig with the files that they use.
--
-- Sse/Manager: sse/manager.go, the set of connections. Sse/Broadcaster: sse/broadcaster.go as a
-- step relation. A step is what a goroutine does under the mutex, so the interleavings of
-- Subscribe, Unsubscribe, the idle timer, Stop and the polling goroutine are the sequences of steps.
-- Sse/Broadcaster/Polling: one tick of the polling goroutine. Sse/Broadcaster/Delivery: the
-- goroutine beside the steps of the broadcaster, with each of its sends a step of its own.
-- Server/Streams: the handlers of handleStatsSSE as goroutines, over the steps of Server/Shutdown;
-- Server/Streams/Browser: the payloads of NewServer's broadcaster, from a fetch to a browser.
--
-- Not modelled: the texts that are logged, the generated gRPC code under internal/xray-proto, the
-- frontend's files, and the options that main.go gives to grpc and net/http.
pub mod Common
pub mod Config
pub mod Middleware
pub mod Sse
pub mod Server
pub mod Main
