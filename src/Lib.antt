-- ===== src/Lib.antt =====
-- A verification library for ndbx, a service for events: sessions, users, events with reactions and
-- reviews, and recommendations, behind an HTTP API that is generated with ogen.
--
-- The parts, from the outside in. A handler of internal/router/handler.go reads the session id from the
-- cookie, checks the request, asks the session service for the user, calls a service of
-- internal/service, and forms the answer with a new cookie. A service calls the storages of
-- internal/storage: MongoDB for users and events, Cassandra for reactions and reviews, Redis for
-- sessions and for three caches, Neo4j for the graph of likes.
--
-- How code corresponds to definitions.
-- * A Go function `(T, error)` is an action `Exec Err W T`: a function from a world W to a result and the
--   world after it (Exec.antt). `if err != nil { return fmt.Errorf("…: %w", err) }` is `wrapping "…"`,
--   another translation of an error is `map_err`, and a failure that is only logged is `logged`.
--   Errors.antt has the sentinel values, wrapping and errors.Is.
-- * A handler is `Handler W`, and its early returns are failures of an action with answers as errors.
-- * An int64 is its bit pattern, a natural number below 2 ^ 64, and an int8 one below 2 ^ 8
--   (Prelude/Words.antt). A time is a number of nanoseconds with a zone for display (GoTime.antt).
-- * Types and functions keep their names, in lower case with underscores. A request or response struct
--   with one field is passed as that field. Where a function is long, a helper of the same file has one
--   of its branches.
--
-- Which file models which part:
--   Redis/Session, Redis/Reaction, Redis/Review,
--   Redis/Recommendation          internal/storage/redis
--   Mongo, Mongo/Id, Mongo/Filter,
--   Mongo/EventStorage,
--   Mongo/UserStorage             internal/storage/mongodb
--   Cassandra, Cassandra/ReactionStorage,
--   Cassandra/ReviewStorage       internal/storage/cassandra
--   Graph                         internal/storage/neo4j
--   Service                       internal/service/dto
--   Service/Ports                 the interfaces in internal/service
--   Service/Session               internal/service/session.go
--   Service/Account               internal/service/user.go
--   Service/Event, Service/Reaction, Service/Title
--                                 internal/service/event.go
--   Service/Review                internal/service/review.go
--   Service/Recommendation, Service/Dedup, Service/Ranking
--                                 internal/service/recommendation.go
--   Router and its children       internal/router/handler.go, internal/router/errors.go
--   Router/Calls                  the operations of internal/router/ogen/oas_server_gen.go as one type
--   Ogen/Routing, Ogen/Finding    internal/router/ogen/oas_router_gen.go
--   Ogen/Routing/Refusal          internal/router/ogen/oas_cfg_gen.go
--   Ogen/Params                   internal/router/ogen/oas_parameters_gen.go
--   Ogen/Bodies                   internal/router/ogen/oas_json_gen.go, oas_request_decoders_gen.go
--   Ogen/Required                 the required fields in oas_json_gen.go
--   Ogen/Responses                internal/router/ogen/oas_response_encoders_gen.go
--   Ogen/Serving                  internal/router/ogen/oas_handlers_gen.go; its children follow the answer
--                                 of a handler to the encoder of its operation
--   HttpServer                    pkg/httpserver/validator.go, pkg/httpserver/middleware.go
--   Cryptic                       pkg/cryptic/sid.go
--   Exec/Keeps, Exec/Stays, Exec/Yields
--                                 what an action keeps of the world, and what it gives
--   App                           internal/app/app.go, the wiring of sessions, reactions and users
--   App/Machine                   the program as a state machine: requests, and sessions that lapse
--   App/Services                  internal/app/app.go, the services over the storages and the drivers; its
--                                 children: which keys of Redis they leave alone, and the machine of
--                                 the whole program
--   App/Race                      the two commands of SetOrUpdate, with a Delete between them
--   Strconv, GoStrings            Go's decimal texts and functions on strings
--   Examples                      concrete worlds on which the theorems are applied
--
-- Bounds and fuel. Decimal texts are written with fuel 20, for numbers below 2 ^ 64, which have at most
-- 20 digits. The loop over the bits of missed fields runs once for each bit that is set
-- (Ogen/Required). All other loops are by recursion on a list or a text.
--
-- Parameters, for what is not in the repository: the drivers of the four databases, one function for
-- each call or statement that the program sends, bcrypt, MD5, JSON, UUIDs, the clock, the random source,
-- floating-point numbers, and the layouts of time.Parse and Format. Redis has laws, those of its hash
-- commands (RedisLaws), and the other drivers do not change Redis (Elsewhere); a time layout has the law that a formatted time is read back to the second
-- (Rfc3339). Each command of a driver either does its work or fails. Of the generated server the
-- parameters are the packages jx, uri and conv of ogen: a JSON document is the list of members that
-- ObjBytes hands to its callback, and a request is what the decoders of uri read from it.
--
-- Not modelled: logging, contexts and their deadlines, the mutex of the session storage and other
-- concurrency but for App/Race, the client of internal/router/ogen, its JSON of the answers, its
-- validators of answers, its spans and metrics, the connections of pkg/cassandra, pkg/mongodb,
-- pkg/neo4j and pkg/redis, the HTTP server of pkg/httpserver/server.go, its CORS and documentation
-- middleware, config and cmd.
pub mod Prelude
pub mod Errors
pub mod Exec
pub mod GoTime
pub mod Cryptic
pub mod Strconv
pub mod Float64
pub mod Redis
pub mod Mongo
pub mod Cassandra
pub mod Graph
pub mod Service
pub mod GoStrings
pub mod HttpServer
pub mod Ogen
pub mod Router
pub mod App
pub mod Examples
