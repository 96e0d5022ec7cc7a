-- ===== src/Lib.antt =====
-- The certificate rollover impact service (backend/internal), as far as its own logic goes.
--
-- The service keeps trust anchors, certificate chains and the services that depend on them. A
-- scenario freezes them in a snapshot together with a planned change from an old trust anchor to a
-- new one; the simulator then finds, for the instants at which something can change, which services
-- could no longer be reached. Scenarios run through a life cycle with separated duties.
--
-- Parts:
--   * Prelude: shared names. Tests (Boolean tests), Lists, Maps (a Go map with uint keys, as an
--     association list), Text (strings), Sorting (sort.Slice; sortedUnique and uniqueIDs).
--   * Graph: the depth-first search for a cycle, which detectCycle (algorithm/simulator.go) and
--     servicesContainCycle (service/common.go) share.
--   * Simulator: algorithm/simulator.go. Snapshot (the frozen input, NewSnapshot, ValidateSnapshot),
--     Window (criticalTimes, activeAnchors, mapKeys), Direct (evaluateDirect), Resolve
--     (resolveService), Run (Simulate, explain). Run calls the other four; each has child modules
--     for what is proved about it.
--   * Constants: the states and roles of constants/*.go.
--   * RateLimit: the limiter of middleware/auth.go.
--   * Service: the actor, the errors, the database as an interface, and an update or a new row with
--     its audit entry in one transaction (service/common.go, repository/trust_anchor_repository.go,
--     util/http.go).
--   * Scenario: service/rollover_scenario_service.go with repository/rollover_scenario_repository.go.
--     Operations (Simulate, Transition, Replay and Get, and the transition handler of
--     handler/rollover_scenario_handler.go), Create (Create, with buildSnapshot of service/common.go),
--     Frozen and Faithful (what Create freezes), Change (what a request may do to a row), Effect,
--     Opened and Methods (what it does to the database), Runs (sequences of requests), Replayed
--     (Replay), Progress (Simulate).
--   * Certificate: x509util/certificate.go. Bundle (ParseCertificateBundle), Trusted (ValidateTrustAnchor
--     and ValidateChain).
--   * Chain, Anchor, Dependent: Import, Transition and Compare of
--     service/certificate_chain_service.go, Import and Lifecycle of service/trust_anchor_service.go,
--     Create, Update and Deactivate of service/dependent_service_service.go, each with its repository.
--     Dependent has Change (Update and Deactivate), Create, EdgeMap, Depends and Sound (what the check
--     for cycles accepts, of its edge map and of the rows), References (validateReferences), Guarded
--     (Update), Grown (one more service), Keyed (distinct ids), Calls and Serial (calls one after
--     another).
--   * Access: the routes of router/*.go and cmd/server/main.go with middleware/rbac.go, the parameters
--     of util/http.go; Login is the sign-in and the token check of middleware/auth.go.
--   * Redaction: util/redaction.go. Config: config/config.go.
--   * Examples: a sample snapshot (that of algorithm/simulator_test.go), tests and instances.
--
-- Conventions. A uint is a native natural number, since ids are only compared and stored. An instant
-- is the number of nanoseconds since the year -292277022399. An error is a value of a type of the
-- component; its text is left out unless it becomes part of a result. A Go map is an association
-- list; where the code ranges over a map, the order is an argument of the model and every statement
-- holds for each order. sort.Slice is an insertion sort, whose result is the only one on distinct
-- keys.
--
-- Fuel. Three functions recurse on fuel: `visit` of Graph, which starts with one more than the number
-- of keys of the edge map, and `resolve` of Simulator/Resolve, which starts with one more than the
-- number of services that have evidence. In both, each call below the first is on a key that is not
-- yet on the path, so that the fuel cannot run out (Graph/Fuel, Simulator/Resolve/Fuel). The loop
-- `parse_blocks` of Certificate starts with one more than the bytes of the text, of which each turn
-- takes some (Certificate/Bundle). The digits
-- of a printed number have fuel 20, which a 64-bit number does not exceed.
--
-- Interleaving. A method reads before its transaction begins. The states in which it reads are
-- arguments of the model, beside the state in which its transaction begins, and a run may take any
-- earlier state for them; in Dependent/Calls each call reads what the last has left. Create and
-- Update of a service read all services twice, and drop an error of the second read: the two reads
-- are in two states. What GORM, encoding/json, strings and the validator do is an argument
-- (Database, Library, Codec) with the documented behaviour as a hypothesis (IsDatabase, IsPlatform,
-- IsOrdered, IsReadBack, IsLowering). So is what crypto/x509, encoding/pem, jwt and bcrypt do
-- (Crypto with IsShrinking, Tokens with IsJwt).
--
-- Not modelled: JSON, SHA-256, X.509 signatures, bcrypt, JWT, GORM and gin, which are libraries; the
-- queries that list, and the counts that an answer adds; the binding of request bodies, the
-- envelope of answers and the logging middleware, which only pass values on; the demonstration keys
-- and rows that are generated at the first start; the user interface.
pub mod Prelude
pub mod Graph
pub mod Simulator
pub mod Constants
pub mod RateLimit
pub mod Service
pub mod Scenario
pub mod Certificate
pub mod Access
pub mod Redaction
pub mod Config
pub mod Chain
pub mod Anchor
pub mod Dependent
pub mod Examples
