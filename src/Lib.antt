-- ===== src/Lib.antt =====
-- The Go services and packages of bzy-personal. A request comes in through the gateway (apps/bzy-interface),
-- which authenticates it and streams events back; the brain (apps/bzy-brain) runs agents,
-- reasoning, plans and workflows over AI providers and tools; the runner (apps/bzy-runner) takes tasks
-- from a queue; the packages under pkg are shared by all of them.
--
-- Which file models which code:
--   Errors, Errors/Chain                pkg/errors/errors.go: the codes, the error chain, `Is` and `As`
--   Client/ApiError, Client/Retry       pkg/client/errors.go and retry.go: what is tried again, and when
--   Client/Http, Client/Http/Account    pkg/client/client.go, options.go and auth.go: requests and tokens
--   Client/Sse                          pkg/client/sse.go: the reader of a stream of events
--   Client/Ws                           pkg/client/ws.go: the connection for pushed messages
--   Client/Api and its children         pkg/client/tasks.go, chat.go, memory.go, documents.go, agents.go and
--                                       workflows.go: the calls of the sub-clients and their waits
--   Brain/Providers, Brain/Tools        apps/bzy-brain/internal/providers and tools: the registries
--   Brain/Agents, Brain/Agents/Run      apps/bzy-brain/internal/agents: spawning and the run loop
--   Brain/Reasoning                     apps/bzy-brain/internal/reasoning: ReAct and chain of thought
--   Brain/Embedding, Brain/Rag          apps/bzy-brain/internal/embedding and rag: the cache, the pipeline
--   Brain/Memory                        apps/bzy-brain/internal/memory/memory.go: the service
--   Brain/Planning                      apps/bzy-brain/internal/planning: `Decompose` and `NextTask`
--   Brain/Workflows, Brain/Workflows/Dag   apps/bzy-brain/internal/workflows: the engine and `executeDAG`
--   Interface/Middleware, Interface/Jwt apps/bzy-interface/internal/middleware and auth/jwt.go
--   Interface/Login, Interface/Routes   apps/bzy-interface/internal/httpserver: login, refresh, the routes;
--                                       Routes/Requests is what the client sends to them
--   Interface/Session                   apps/bzy-interface/internal/session: sessions in Redis
--   Interface/Streaming, Interface/Ws   apps/bzy-interface/internal/streaming and ws: the two hubs; below
--                                       Streaming, Wire is what ServeSSE writes
--   Runner/Queue, Runner/Worker         apps/bzy-runner/internal/queue and worker
--   Runner/Cluster                      apps/bzy-runner/internal/cluster: the nodes and their capacity
--   Runner/Scheduler                    apps/bzy-runner/internal/scheduler: recurring jobs
--   Runner/Locks                        apps/bzy-runner/internal/locks: acquire, wait, release, extend
--   Health, Plugin                      pkg/health/health.go, pkg/plugin/plugin.go
-- Prelude holds the shared lists, maps, integers and tests, Runtime the clock and the fresh identifiers, and
-- Interface/Channels the buffered channels of the Go runtime. Modules named Examples and Samples hold runs
-- at concrete inputs.
--
-- How the code is carried over. A struct is a record and an enumeration a data type. A call that changes
-- something outside (a clock, a provider, a tool, Redis) takes a world `W` of any type and returns it;
-- what such a call does is a parameter. A method that writes to its receiver returns the new state. Go's
-- `error` is the data type `Error`, a pair of a value and an error is `Result`, and a panic, where the
-- code can reach one, is `none`. A map is an association list whose order stands for the order of a
-- `range`. A mutex makes a method one step; goroutines that run side by side are sequences of steps in
-- every order (the passes of a workflow run and its cancels, the checks of a health report). Times and
-- durations are natural numbers of nanoseconds; the one product that can overflow, in `backoff`, wraps
-- around at 2 ^ 64, and so does the capacity of a cluster. Temperatures are hundredths.
--
-- Loops with a bound of their own (the steps of an agent, of a chain of reasoning, the retries) recur on
-- the rounds that are left, so the bound is the fuel. The loop over a stream of events takes one more than
-- the lines of the body, and each event takes a line; a `Wait` of the client has no bound, and its theorem
-- speaks of every fuel; a scan of Redis runs over so many pages as it is given. `TryAcquire` takes a round
-- more than the 50 ms of its timeout and the first. `executeDAG` has no bound: it is played over a
-- schedule of any length, and its end is a theorem about acyclic graphs.
--
-- Parameters of the model: the providers, tools, plugins and task handlers, the JSON decoder of a plan,
-- the JSON codecs of tasks, sessions, nodes and the bodies of requests and responses, the repository of
-- the memories, the vector store, the hash of the embedding cache, the JWT library, the cron library, the
-- Redis client, the query of a user, the HTTP transport and the dialer with the URL library, the random
-- draw and the timers of a retry or of a wait. The router of the gateway is gin's: the model says which
-- entries of the table a request fits.
--
-- Where the model is narrower than Go's types: `Code` is a string type there, and here the named constants,
-- the only ones the code makes; a handler of a workflow node is given the node and the run by pointer, and
-- here reads them only; the engine of the workflows shares a run with its goroutine by pointer, and here the
-- map holds the run as it was stored while the goroutine plays on a value of its own; an engine of
-- reasoning has a provider, where a registry without one would make the source panic. The number of
-- retries is an `int` there and an integer here.
--
-- Not modelled: SQL and vector stores, the sockets and pings under the WebSockets, the OpenAI backend,
-- gRPC connections, processes and log streams of the executor, the sending of heartbeats, the event bus,
-- configuration, logging, telemetry and start-up, whose code is calls of other libraries.
pub mod Prelude
pub mod Errors
pub mod Client
pub mod Runtime
pub mod Runner
pub mod Brain
pub mod Interface
pub mod Health
pub mod Plugin
