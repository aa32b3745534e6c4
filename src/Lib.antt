-- ===== src/Lib.antt =====
-- TinyCloud platform: the control plane that builds applications from GitHub repositories and
-- deploys them through a GitOps repository.
--
-- The parts and their files:
--   Base, Text           native numbers, bytes, lists, maps and Go's `strings` and `fmt`, as far as
--                        the sources use them
--   Build/Types          internal/build/types/types.go: jobs, log lines, reports, statuses
--   Build/Time           formatTime of internal/build/coordinator/store.go
--   Build/Tables         the two tables of internal/build/coordinator/store.go, and what its statements
--                        make of rows
--   Build/Store          the same file: one function for each method (GetJobByAppName is
--                        get_job_by_app_name, and so on)
--   Build/Dispatch       internal/build/dispatch/dispatch.go: Dispatch and its request
--   Build/World          what the handlers of internal/build/coordinator read, change and answer
--   Build/Server         internal/build/coordinator/server.go: the handlers (createBuild is
--                        create_build, and so on) and startRebuild
--   Build/Server/Report  the same file: updateRunnerStatus (report_status) and commitGitOps
--   Build/Webhook        internal/build/coordinator/webhook.go: githubWebhook and its helpers
--   Manifests            internal/manifests/generator.go: the onboarding request, its validation, the
--                        templates, and GenerateAppFiles (Manifests/Generate)
--   Git                  internal/git/gitops.go: the steps of its methods over an interface of go-git
--                        (Repository), RecordRollback and RecordRestore (Rollbacks), CommitFiles (Files)
--   Infra/Cache          internal/infra/cache.go: the critical sections as functions (Get is get), and
--                        their interleavings as the step relation of Infra/Cache/Steps
--   Infra/Collect        internal/infra/collect.go: the reads of a snapshot (Collect is collect of
--                        Infra/Assemble), and what they make of metrics
--   Infra/Assemble       the same file: assemble, summariseBackups and summariseUptime
--   Infra/Snapshot       internal/infra/snapshot.go: the snapshot
--   Infra/Types          internal/infra/collect.go: the types that Providers report
--   Provider/Config      internal/provider/config.go and token.go: the configured Providers, and
--                        InfraSources
--   Provider/Contract    internal/provider/provider.go and wire.go: the contract between client and
--                        server, and the interface Json of its encoding
--   Provider/Server      internal/provider/server.go: ServeHTTP is serve
--   Provider/Client      internal/provider/client.go: one function for each method
--   Provider/Conformance internal/conformance/conformance.go: Run is run
--   Api/Response         internal/api/response/response.go: PaginateSlice
--
-- How they interact: the handlers of the server and of the webhook read and write the store, hand
-- a stored job to the dispatcher, and emit events. A handler takes the world (store, events,
-- requests sent, commits) and returns the world after it with the response. The store's Writes,
-- Query, Order, Single, Claim, Logs and Reports, the Sound, Keeps, Steady, Signature and Outcome
-- of the handlers, Manifests/Validate/Laws, Manifests/Generate/Sorted and Paths, Infra/Cache/Keeps and
-- Provider/Config/Reference, Discovery and Choice hold the proofs, as do the children of
-- Infra/Collect, Infra/Assemble, Git/Rollbacks, Provider/Server, Provider/Client and Provider/Conformance. The
-- cache stands in front of the collector, which reads the sources that InfraSources chooses: most
-- of them clients of a Provider, whose requests a transport carries to its server. The conformance
-- suite goes through the same transport.
--
-- What stands outside the sources is an argument: the clock, the uuid, the statements that the
-- database driver fails, the answer of GitHub, the check of a path in the GitOps repository and
-- the commit to it (internal/git/gitops.go), the order in which a Go map is walked, HMAC, the
-- decoding of a JSON body, the file system, `url.Parse`, what a Provider answers when it is asked
-- for its capabilities, what a source yields within the timeout of its call, the transport of a
-- request, the operations of float64 and the seconds of a time.Duration through it, the JSON
-- encoding and what a body is read back as, and the Unicode tables for strings that are not ASCII.
-- A statement that fails leaves the tables as they were. Where ORDER BY leaves rows tied, the
-- smaller rowid comes first, except where the statement orders by rowid itself.
--
-- A string is the list of its bytes, and a Go int is an integer without bound, except where it may
-- come near the limits of 64 bits: the window of a metric and the sizes of backups wrap around. A
-- time of the builds is its seconds from 1970 on and its nanoseconds, any other one its
-- nanoseconds, and a float64 is its bits. `decimal` runs on as much fuel as the number is large,
-- and one more, which is at least the count of its digits; the sort of the environment's keys runs
-- once for each key; `sort.Slice` is that of up to twelve elements, which keeps those that are
-- tied in their order; every other function is by structural recursion.
--
-- Not modelled: the opening and the migration of the database, the registration of the routes,
-- middleware, logging to the console, the JSON encodings, the printed report of the conformance
-- suite, the sources that call OCI and Kubernetes, the replicas of a deployment in the GitOps
-- repository, the app handlers, and the user interface.
pub mod Base
pub mod Text
pub mod Build
pub mod Manifests
pub mod Git
pub mod Infra
pub mod Provider
pub mod Api
