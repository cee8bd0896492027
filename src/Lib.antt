-- ===== src/Lib.antt =====
-- The DuckBug SDK for Go: how an event comes about, what is cleaned from it, and how it is sent.
--
-- A client (core/duck.go) builds the payload of an error, a log line or a transaction from its scope
-- (core/scope.go), its pond (pond/pond.go) and the call's details, and hands it to every provider. The DuckBug
-- provider (providers/duckbug/provider.go) filters the payload, queues and batches it, and calls a transport
-- (providers/duckbug/http_transport.go), which makes HTTP requests and tries them again. The integrations call the
-- client: those of servers for the panics, the failures and the transactions of the requests that pass through
-- them, those of loggers for the lines that are logged. preset.go makes a client and its provider from options.
--
-- Files, with the code they are about:
--   Base, Base/*         conditionals, lists by native numbers, integers of 64 bits
--   Text, Text/Trim      what the code uses of Go's `strings`
--   Value, Value/*       `any`, `map[string]any`, `[]any` and their operations; Go's maps as association lists
--   Pond, Pond/*         pond/pond.go: New, the request of a context, Collect, SanitizeValue, SanitizeMap,
--                        shouldMaskKey
--   Core/Types, Level    core/types.go: EventType, TransportResult.IsSuccess, NormalizeLevel
--   Core/Util            core/util.go: cloneMapStringAny, normalizeValue, normalizeStringMap
--   Core/Ids             core/util.go: NewEventID, defaultHexID, defaultTraceID and defaultSpanID
--   Core/Scope           core/scope.go: every method of scope
--   Core/Transaction     core/transaction.go: every method of Transaction and Span
--   Core/Duck            core/duck.go: NewDuck, buildBasePayload, captureErrorAt, LogContextAt, dispatch, Flush
--   Core/Duck/Api        core/duck.go: Ping, Quack*, Log*, CaptureTransaction, and the methods that change the scope
--   Provider/Payload     provider.go: preparePayload, applyPrivacy, stripNilValues, cloneMap, ensureEventID
--   Provider/Config      provider.go: Config, the options, New and the defaults of NewWithConfig
--   Provider/State       provider.go: CaptureEvent, enqueue, capturePrepared, flushType, run, Flush
--   Provider/State/Threads, Threads/*
--                        provider.go: the same methods as sequences of tasks between the provider's locks
--   Provider/Transport   http_transport.go: NewHTTPTransport, request, execute, shouldRetry, backoffDelay, joinURL
--   Integrations/Tracker integrations/nethttp/response_writer.go: the hooks of the response writer
--   Integrations/Rules   what the server integrations do alike: ignored names, sampling, maps of headers
--   Integrations/Report  core/duck.go: QuackContextDetails, QuackRecoveredPanicContext and StartTransaction, as the
--                        server integrations call them, and what such calls deliver to the providers
--   Integrations/Middleware, Middleware/*
--                        integrations/nethttp/middleware.go, with internal/sdkrequest: the options, the request's
--                        context, the captures, and the handler function with its deferred recovery (`serve`)
--   Integrations/Grpc, Grpc/*
--                        integrations/grpc/interceptor.go: the options, the captures, the two interceptors
--   Integrations/Slog, Slog/*
--                        integrations/slog/handler.go: addAttr, assignAttr, valueToAny, and the handler
--   Integrations/Zap     integrations/zap/core.go: the core, fieldsToMap, normalizeLevel
--   Integrations/Zerolog, Zerolog/*
--                        integrations/zerolog/writer.go: decodePayload, parseLevel, unixFromNumber, and the writer
--   Preset               preset.go: the options and New
--   Pipeline, Pipeline/* the client and one of its providers together, from a call to what the
--                        transport is given, under which id and masked how
--   Tests, Tests/*       examples
--
-- How state is modelled. The provider is a record: buffers by event type, the queue, the count of what is
-- pending, and the record of what was sent, reported and printed. `Provider/State/Run` has one step for a
-- captured event, one for a turn of the worker and one for a tick, and a history is any sequence of these.
-- Each of these steps is taken whole. `Provider/State/Threads` is the same provider at the grain of its lock:
-- goroutines with what each has still to do, any number of which run at once, and what they hold between the
-- lock and the request. A `*Span` is a position in its transaction. A method that changes a scope or a
-- transaction returns it. A handler of a server is a function of the request (of its context, for gRPC) that
-- yields what it does and how it ends, by returning or by a panic; `serve` and `intercept` run it as the
-- deferred function and the code after the call do. What a server integration reports is a list of calls of
-- the client, in their order, and `deliver` is what the providers are then handed. A logging call that panics
-- is `none`.
--
-- What enters as an argument: the clock, random numbers and bytes, the ids where they are used, `os.Environ`,
-- `fmt.Sprint` and reflection (`Reflection`), the case tables of Unicode outside of ASCII (`Unicode`), addresses
-- (`Network`), JSON and URLs (`Encodings`), the codes of the grpc package (`Codes`), the loggers that are next in
-- a chain (`Next`), the end of waits, the user's hook, transport and handlers. A `float64` is its bits, which
-- Base/Float compares as IEEE 754 does.
--
-- Bounds. Recursion is on the data everywhere. The loop of `request` runs on the rounds that are left, one
-- more than the retries that are configured, which is what the loop's test allows. `itoa` has one round for
-- each unit of the number, more than it has digits. Delays, times and the count of dropped events have 64
-- bits; lengths and counts are natural numbers. The retries that are configured plus one are taken to fit in
-- an `int`.
--
-- Not modelled: duckbug.go, which only passes calls on, the work of the HTTP client, contexts but for their
-- request and their end, what a write to a map does to others that hold the map, and the printing to the log.
pub mod Base
pub mod Text
pub mod Value
pub mod Pond
pub mod Core
pub mod Provider
pub mod Integrations
pub mod Preset
pub mod Pipeline
pub mod Tests
