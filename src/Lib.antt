-- ===== src/Lib.antt =====
-- A model of pgpilot, a PostgreSQL connection pooler that routes reads to replicas, and the theorems
-- that make its core correct.
--
-- The server accepts a client (internal/proxy), which authenticates by SCRAM (internal/scram) and is
-- given a backend connection from a pool (internal/backend, internal/pool). In session mode it keeps
-- that connection, in transaction mode it holds one for each transaction, and in routing mode each
-- query is classified (internal/classify, internal/detect) and sent to a backend that a routing policy
-- (internal/router) selects from the snapshot of the health registry (internal/registry). Answers are
-- relayed (internal/protocol).
--
-- Base: tests as booleans, lists on native numbers, equality as an instance, Go maps as association lists
-- (Dict), results with errors, byte texts, signed integers, multisets as counts, floats as an
-- interface, bits.
--
-- Pool: internal/pool/pool.go. State has one function for each section under the mutex. System is the
-- step relation of all callers, with the places that hold a connection; Alone is the loop of Acquire.
-- An interleaving is a path of steps. Fuel of Acquire: one round for each idle connection and one more.
--
-- Registry: internal/registry/registry.go. Backoff is the int64 delay of recordFailure, State the
-- record of a backend with Snapshot, Lsn is ParseLSN, Poll one poll, Pollers the goroutines of Start,
-- Reconfigure and Wait as a step relation. Times are natural numbers.
--
-- Router: internal/router. Policy is the interface, and RoundRobin, LeastInFlight and Scored its
-- implementations; InFlight is the map of outstanding reads; Members shows which of them fill Picks.
--
-- Protocol: internal/protocol. Wire is io.ReadFull, io.CopyN and Write on finite streams; Message is
-- Relay, which runs on the length of the input as fuel since each round takes five bytes; TxStatus is
-- the tracker.
--
-- Session: internal/proxy/session.go. Select is replicaEligible and selectReadTarget, Dispatch is
-- dispatchRead, Messages is readMessage, relayResponse and queryString, Frontend is relayFrontend, relayPooled
-- and negotiateStartup with internal/proxy/startup.go, Routing is serveRouting, Transaction is
-- serveTransaction and Serve is serve, each a function on the answers of its environment; Auth is
-- authenticateClient and completeStartup, Position is primaryLSN. Fuel of dispatchRead: one round more than there are known addresses,
-- since a failed replica is excluded.
--
-- Sql: Tree is the parse tree as the accessors of pg_query show it, Classify is
-- internal/classify/classify.go, Detect is internal/detect/detect.go. The parser is a parameter.
--
-- Backend: internal/backend/manager.go, the map of pools, as a client of Pool; Conn is
-- internal/backend/backend.go, a connection to a server as the list of messages that it still sends,
-- of which each call loses those that its Frontend has read ahead.
--
-- Scram: internal/scram/scram.go, Client and Server; Exchange lets one talk to the other. The hashes,
-- base64 and strconv are a record of functions.
--
-- Metrics: internal/metrics/metrics.go, the counters, with recordDecision of internal/proxy/session.go;
-- Collector is what a scrape of internal/metrics/state.go sends, with stateSource of cmd/pgpilot/main.go
-- and StatsByAddr of internal/backend/manager.go.
--
-- Server: internal/proxy/proxy.go, the accept loop and the shutdown as a step relation, resolvePolicy,
-- and backendsFrom of cmd/pgpilot/main.go.
--
-- Config: internal/config/config.go, and New of internal/router/router.go. The decoder is a parameter.
--
-- Tests: concrete runs.
--
-- Not modelled: the interleaving of the two relays in relayPooled, of which the model takes which one
-- ended first; deadlines, which end the messages that a peer still sends;
-- a read of internal/backend that ends inside a message; the codec of
-- internal/protocol, which hands bytes to a third-party library; the latency histogram
-- of internal/metrics; flags, signals and the HTTP endpoint of cmd/pgpilot; internal/bench,
-- internal/faultproxy and the other commands, which measure and test the proxy.
pub mod Base
pub mod Protocol
pub mod Router
pub mod Registry
pub mod Pool
pub mod Scram
pub mod Metrics
pub mod Session
pub mod Sql
pub mod Config
pub mod Backend
pub mod Server
pub mod Tests
