-- ===== src/Lib.antt =====
-- A verification library for fizzbuzz, an HTTP service that streams the generalized FizzBuzz sequence
-- as a JSON array of strings and counts the requests.
--
-- The program's parts. A request's parameters (`Params`) are checked by `Validate` against the
-- configured `Limits`; the check needs the exact size of the response, which `JSONSize` computes
-- without producing it. `WriteJSON` then writes the array to an `io.Writer` in large chunks, from a
-- plan of the parameters: by a generator with an in-place decimal counter, or, if a divisor is 1 and
-- a period fits the buffer, by copies of one period. A store records each request and reports the most
-- frequent one: a counter in memory (`stats.go`), or counts that several processes share by way of
-- Redis (`redis_store.go`), each of which keeps its own hits until a flush delivers them. The server
-- (`server.go`, `query.go`) reads the parameters from a query, admits a response if the bytes in
-- flight stay within a budget, and replies.
--
-- Which file models which part:
--   Sequence/Params         internal/fizzbuzz/params.go: Limits, Params, FieldError
--   Sequence/Validate       internal/fizzbuzz/params.go: Validate, largestLimit, validateStr
--   Sequence/Divisor        internal/fizzbuzz/size.go: gcd, lcmCapped, multiples
--   Sequence/Element        internal/fizzbuzz/size.go: appendElem
--   Sequence/Size           internal/fizzbuzz/size.go: plan, newPlan, rangeBytes, JSONSize
--   Sequence/Digits         internal/fizzbuzz/write.go: dcounter
--   Sequence/Gen            internal/fizzbuzz/write.go: gen, newGen, maxElem, fill, event
--   Sequence/Write          internal/fizzbuzz/write.go: WriteJSON, writePeriodic
--   Stats                   stats.go: counter, Record, Flush, Top
--   Config                  config.go: config, loadConfig
--   Redis                   the commands of the Redis server, with their documented laws
--   RedisStore              redis_store.go: Record, Flush, Top, the scripts, and replicas that share them
--   Server/Parse            server.go: parseParams
--   Server, Admission       server.go: fizzbuzz, and handlers of several connections
--   Server/Statistics       server.go: flush, flushLoop, top, statistics; stats.go: statsStore
--   Server/ErrorLog         server.go: logStoreErr
--   Server/Stream           server.go: deadlineWriter
--   Server/Query            query.go: query
-- The specification is Sequence/Reference (the strings and the encoded document) with
-- Sequence/Elements, which cuts the document into the elements that the code writes, and, for the
-- counter, the number of hits in a history (Stats/Invariant). GoLib holds what the program uses of
-- Go's standard library: decimal printing, the encoding of a string as JSON, the validity of UTF-8,
-- sort.Search, url.ParseQuery, strconv.ParseInt, and io.Writer as an interface with its documented
-- contract. Tests applies the theorems, those on Redis to a small store.
-- A child module holds the lemmas of its parent; functions keep the names of the source.
--
-- How the state corresponds. An `int`, `int64` or `uint64` is its 64-bit pattern, a natural number
-- below 2 ^ 64; sizes and the indices of the generator wrap around, and the comparisons of `Validate`
-- and of the budgets are signed. The divisors and the plan hold validated numbers, positive and below
-- 2 ^ 63, where the signed operators are those of the natural numbers. A string is the list of its
-- bytes. A buffer is the bytes written so far, with the capacity it has; the buffers of the pool are
-- always written before they are read. The pointer from a generator to its plan is an argument. A
-- method with a pointer receiver returns the new state. An error is `none` or a flag.
--
-- Replicas and handlers are systems of steps. A replica (RedisStore/System) records a request, begins a
-- flush, has its call answered, fails or gets the reply; every call that was ever sent can reach Redis
-- at any later time and more than once. The history has the requests that a replica took: when its own
-- budget is exceeded it takes none until its next flush saturates the store. A handler
-- (Server/Admission) takes one step for each atomic operation: it checks the request, adds its bytes,
-- gives them back if they are too many, records the request, and ends. The writing of a body belongs
-- to one step, which is taken as ending: the write deadlines of `deadlineWriter` (Server/Stream) are what
-- ends a write to a client that does not read. A map is an association list,
-- so a batch lists the requests in one order. The interface `statsStore` is the record StatsStore.
--
-- Loops run on fuel that is enough: gcd has b + 1 rounds, the bands of rangeBytes are 19, fill makes
-- at most one round for each element, WriteJSON at most one round for each element, the loop over the
-- chunks one for each period, sort.Search one for each position. The loop of `inc` goes down the
-- array. The theorems cover the fuel: they say what is returned, never only what holds if it ends.
--
-- Bounds. The generator adds a divisor to a multiple, so the theorems on it ask for a limit below
-- 2 ^ 62; the configuration allows limits up to 2 ^ 32 - 1. The size is computed modulo 2 ^ 64, and
-- the theorems ask for a document of fewer than 2 ^ 63 bytes. The counter's budget is at most what
-- config.go admits, so that the ids of the prefixes fit 32 bits.
--
-- A count in Redis is a double, exact below 2 ^ 53: the theorems ask that no count can reach that. They
-- ask for limits under which every document stays within 63 bits, which the default ones are far from,
-- and that the largest responses of all connections together fit 63 bits.
--
-- Parameters. The Redis server is a record of commands with laws (Redis/IsRedis); a sequence number
-- does not expire in the runs considered (the comment on batchSeqTTLSeconds names the other case).
-- `rand.Text` gives each replica its own text. json.Unmarshal of a member, mime.ParseMediaType, the
-- reading of a body and the clock are parameters. json.Marshal of a request does not fail.
-- url.ParseQuery has no limit on the number of settings.
-- `allocSize` of stats.go is the growth policy of Go's allocator, a parameter with a bound
-- on it. The writer is a parameter with the contract of io.Writer. `getenv` and the parsers of strconv
-- and time are parameters of the configuration, with nothing assumed.
--
-- Not modelled: gin's routes and middleware, metrics, the process's start and shutdown, the web pages,
-- and the contexts with their timeouts: a call that times out is one that fails. A mutex makes each
-- call that holds it one step.
--
-- The conditions of each result stand directly above its theorem.
pub mod Prelude
pub mod GoLib
pub mod Sequence
pub mod Stats
pub mod Config
pub mod Redis
pub mod RedisStore
pub mod Server
pub mod Tests
