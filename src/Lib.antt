-- ===== src/Lib.antt =====
-- The rules by which ManyRouter judges suppliers, decides on their place in the routing groups, and
-- brings a New API gateway into the state that was decided.
--
-- The program is a Go service. Its rules are functions under internal/domain, which the services under
-- internal/application call between reading from PostgreSQL or New API and writing back. Modelled are
-- the domains that decide whether a supplier is offered, those that make a plan of what a site is to
-- offer, and the service that carries a plan out:
--
--   internal/domain/scoring     raw metrics to dimension scores, windows and a shadow recommendation
--   internal/domain/automation  the recommendations of all models of a supplier to one decision
--   internal/domain/evaluation  fingerprints of a model to a verdict on its authenticity
--   internal/domain/value, site, supplier, credential, routing
--                               suppliers, sites, relations between them, and snapshots of what the
--                               gateway of a site is to offer (route plans)
--   internal/application/reconciliation
--                               the synchronization of New API with a route plan
--
-- The verdict of the evaluation is a hard gate of the scoring, whose advice is what the automation
-- decides on. A snapshot is built from a site, a supplier and a relation, validated when it is encoded
-- and decoded, and read by the synchronization, which compares it with the state of New API.
--
-- Files and code, a Go name `CombineWindowScores` being `combine_window_scores` here:
--   Base and Base/*          results for (T, error), strings as code points, maps, sorting, integers
--                            and time
--   Float/Defs, Float/Fixed  float64 as an interface with laws, and fixed-point numbers that meet it
--   Packages                 decimal.Decimal and net/url as interfaces; Packages/Unary meets the laws
--   Scoring/Types            internal/domain/scoring/types.go
--   Scoring/Gates            internal/domain/scoring/gates.go
--   Scoring/Evidence         internal/domain/scoring/evidence.go
--   Scoring/Windows          internal/domain/scoring/windows.go
--   Scoring/Recommendation   internal/domain/scoring/recommendation.go
--   Scoring/Histogram        internal/domain/scoring/histogram.go
--   Scoring/Dimensions       internal/domain/scoring/dimensions.go
--   Automation               internal/domain/automation/decision.go
--   Evaluation/Types         internal/domain/evaluation/types.go
--   Evaluation/Distance      internal/domain/evaluation/distance.go
--   Evaluation/Fingerprint   internal/domain/evaluation/fingerprint.go
--   Evaluation/Assessment    internal/domain/evaluation/assessment.go
--   Values                   internal/domain/value/validation.go
--   Site                     internal/domain/site/site.go
--   Supplier                 internal/domain/supplier/supplier.go
--   Credential               internal/domain/credential/credential.go
--   Routing/Types            the data of internal/domain/routing
--   Routing/Relation         internal/domain/routing/relation.go
--   Routing/Validation       ValidateSnapshot of internal/domain/routing/snapshot.go
--   Routing/Validation/Site  validateSiteSnapshot of internal/domain/routing/site_snapshot.go
--   Routing/Snapshot         BuildSnapshot, EncodeSnapshot and DecodeSnapshot of snapshot.go
--   Reconciliation/*, for internal/application/reconciliation:
--     Types, Actions         gateway.go and operation.go; Attempts is the flow of errors between steps
--     Diff                   diff.go
--     Steps                  steps.go
--     Single, Service        service.go
--     SiteVerify             site_verify.go, and the checks of site_managed_sync.go
--     Resource               site_resource.go
--     SiteGroups, SiteRun    site_service.go
--     SiteManaged            site_managed_sync.go, and runSite
--     Trace, Endings         the calls that a run adds, and what it read where it goes on
-- The folder of a file holds its theorems, and the Examples files hold runs on concrete inputs.
--
-- Conventions. A Go struct is a record, a string type with constants is a data type with one more
-- constructor for every other string where the code can meet one. `(T, error)` is a Result: a value
-- that the code returns beside an error is dropped, as every caller does. A loop is a recursion over
-- the list it ranges over, with its variables as arguments or as a record, so no fuel is needed. A map
-- is an association list or the list of its keys; where Go leaves the order of a map open and the
-- result could depend on it, the order is a parameter, or the order of the entries, which theorems
-- leave open. uint64 keeps its wrap-around and its overflow tests. time.Time is a number of
-- nanoseconds from the zero time on, and Sub stops at the ends of int64.
--
-- A function of the reconciliation service is an action: from the calls made so far to its result and
-- the calls made then. An environment answers each call, depending on all calls before, so theorems
-- about every environment are about whatever New API, the store and the vault do, and about what other
-- programs change in New API meanwhile.
--
-- float64 is a parameter. Theorems on scores from 0 to 100 assume the laws of Float/Defs, facts of
-- IEEE 754 arithmetic with rounding; the others hold for any interpretation. Strings are taken to be
-- valid UTF-8. decimal.Decimal, net/url, encoding/json, google/uuid and math.Log2, third-party or
-- library code, are parameters; what a theorem assumes of them is a hypothesis.
--
-- Not modelled: messages and causes of failures, the values in step records (Summary of diff.go), and
-- the clearing of secrets in memory; internal/domain/evaluation/normalize.go, the catalog, measurement
-- and operations domains; the other application services; and the adapters, jobs, platform and
-- transport packages, whose behaviour is that of a database, a network or a library.
pub mod Base
pub mod Float
pub mod Scoring
pub mod Automation
pub mod Evaluation
pub mod Packages
pub mod Values
pub mod Site
pub mod Supplier
pub mod Credential
pub mod Reconciliation
pub mod Routing
