-- ===== src/Lib.antt =====
-- A model of parparchik, the artifact router, and the theorems that make it correct. Paths are from
-- the root of the repository.
--
-- The service keeps a catalog of which storage key lies in which bucket, fills it from the
-- configured buckets and answers routes from it:
--   golang/internal/catalog    the registry: Catalog.antt and the modules below it
--   golang/internal/config     the configuration from the environment: Config.antt
--   golang/internal/resolver   routes and reconciliation with the storage: Resolver.antt
--   golang/internal/policy     decisions on artifacts, over the results of golang/internal/scan and
--                              golang/internal/license: Policy.antt
--   golang/internal/replication  copies of what a remote instance lists: Replication.antt
--   golang/internal/cleanup    the plan of what to delete, and its deletion: Cleanup.antt
--   golang/internal/authz      roles and service accounts: Authz.antt
--   golang/internal/httpapi    requests, middlewares and handlers, with the bootstrap and the sync of
--                              golang/cmd/parparchik/main.go: Http.antt
--   golang/internal/metricsapi the gauges: Metrics.antt
--   golang/internal/reporting  the reports over records of artifacts: Reporting.antt
--   golang/internal/snapshot   a catalog as a document, and back: Snapshot.antt
--   golang/internal/webhook    subscribers and deliveries: Webhook.antt
-- The resolver changes the catalog by Register, Set, Remove and LoadManifests and asks the
-- configuration for its buckets in order; the catalog ranks buckets by a PriorityFunc, which the
-- program sets to Config.BucketPriority.
--
-- Catalog.Update has Register, Set, Remove, Clear, Lookup and LookupByRoute (register, set, ...) on
-- a record of the two maps, association lists without repeated keys here; Catalog.Listing has
-- ListAll, ListByBucket, ManifestForBucket and Count; Catalog.Manifests has LoadManifests. Each
-- method holds the lock from start to end, so it is one function. Config.Parse has
-- parseBucketsList, parseProxyRepos and parseVirtualRepos, Config.Load has Load and
-- validateVirtualRepoMembers. Resolver.Actions is the state that a Resolver works on, with the
-- services that it calls; an operation is a function from a state to a result and a state, also
-- where it fails. Resolver.Persist has PersistManifests, SyncRegistry and Bootstrap,
-- Resolver.Missing has ResolveMissingFile and its relatives, Resolver.Route has ResolveRoute and
-- what it calls, Resolver.Relocation has Relocate.
--
-- Policy.Findings has the scan result with MaxSeverity and the scan policy, Policy.Rules has
-- Ruleset.Evaluate, Policy.Waivers has findWaiver, Policy.Audit has Engine.Evaluate and the log; an
-- instant counts from Go's zero time, and a reason is the data that its text prints. Authz.Roles has
-- NewAuthorizer and Allowed, Authz.Accounts has ServiceAccounts. Replication.Puller has Pull, with the
-- remote and the local storage as parameters; Cleanup.Plan has Rule.Plan, Cleanup.Execute has
-- Execute.
--
-- Http.Validation has validateKey; Http.Access has AuthConfig and ipRateLimiter; Http.Answers the
-- documents that the handlers write, as data; Http.Handlers the API and a function per handler, from
-- an API to the response and the API behind it; Http.Server has Routes with the middlewares around
-- it, bootstrap and periodicSync, and a run of the service as a sequence of events (requests, the
-- bootstrap, ticks of the sync and of the limiter's cleanup), each one step. Which pattern of a
-- ServeMux a request matches is part of the request. Metrics.Updating has Update,
-- Reporting.Reports the three reports of reports.go, Snapshot.Document has Capture, Marshal,
-- Unmarshal and Restore. Webhook.Subscribers has the registry, Webhook.Dispatch has attempt, deliver
-- and Fire: the goroutines of Fire see a world each, and the order in which the channel hands their
-- results over is a parameter.
--
-- Parameters: the object storage, the upstream fetcher, the clock, encoding/json, the number and
-- duration parsers and the environment. Each call of a service may answer anything and change the
-- outside world in any way. The loops run over lists, or, in deliver, by the attempts that are
-- left, by structural recursion: there is no fuel. Sizes and durations are integers; sums of
-- sizes in Cleanup.Plan and Reporting.Reports and the doubled delay of deliver wrap at 64 bits,
-- and the difference of two times saturates as time.Sub does. A rank is a natural number, as the
-- indexes that BucketPriority returns. Texts are sequences of code points; Go orders strings by
-- bytes, which is the same order on valid UTF-8.
--
-- Not modelled: logging, contexts and cancellation (but in deliver, which asks the context
-- between attempts), the text of wrapped errors, requests that interleave inside one method of
-- the resolver or one event, the text of JSON documents, and these parts: the search and the
-- export of reporting, sbom, format, the extractors of license and the OSV client of scan. Also
-- objectstore, proxycache, the client of replication and the wiring of cmd, which are input and
-- output.
pub mod Common
pub mod Catalog
pub mod Config
pub mod Resolver
pub mod Metrics
pub mod Http
pub mod Webhook
pub mod Snapshot
pub mod Reporting
pub mod Policy
pub mod Authz
pub mod Cleanup
pub mod Replication
