-- ===== src/Lib.antt =====
-- The Kubernetes container service provider: an HTTP service that keeps containers as Deployments and
-- Services of a Kubernetes cluster, registers itself with the DCM control plane and publishes status
-- events.
--
-- Parts, and the files of the repository that they model:
--   Base          texts, lists, numbers, Go results, and calls that change a state (Exec)
--   Encoding      strconv.Atoi and base64.StdEncoding, as far as page tokens use them
--   Api           api/v1alpha1/types.gen.go: the resource records and string enumerations, and in Json the
--                 methods for additional properties; Api/Paths is api/v1alpha1/paths.go
--   Dcm           internal/dcm/labels.go, internal/kubernetes/labels.go
--   Units         internal/units/convert.go
--   Kube          the Kubernetes objects and calls that the program uses, a parameter: Kube/Laws says
--                 what the store relies on, Kube/Memory is a cluster in memory at which the laws hold
--   Kubernetes    internal/kubernetes: Convert, Enrich and Build for convert.go, Store for store.go,
--                 store_create.go, store_get.go and store_delete.go, Paging for store_list.go, Client for
--                 client.go
--   Contract      internal/store/repository.go as a map from instance IDs to what is stored, and the store
--                 of internal/kubernetes as an implementation of it
--   Handlers      internal/handlers/container: Validation, Errors and Handler for the files of these names
--   Monitoring    internal/monitoring: Reconcile for reconcile.go and indexer.go, Debouncer for
--                 debouncer.go, Monitor for the event handlers of monitor.go, Start for its Start, Publish
--                 for its retries and event.go, Nats for publisher.go
--   Config        internal/config/config.go
--   Registration  internal/registration/registration.go; Lifetime for Start and Done
--   Apiserver     internal/apiserver/server.go: Scrub, Recovery (the middleware), Router
--                 (their assembly in New) and Lifecycle (the readiness probe and Run)
--   Server        internal/api/server/server.gen.go: Binding (the parameters), Routes, Strict (the strict
--                 handler) and Responses, with the handlers plugged in by Adapter as main.go does it;
--                 Answers says what is relied on of the router, and Exchanges what the service promises
--   Startup       cmd/k8s-container-service-provider/main.go
--   Examples      the theorems at concrete inputs
--
-- How they interact: a request passes the middleware of Apiserver, is routed and decoded by Server, and
-- reaches a handler, which validates it and calls the repository, an interface that the store implements
-- over the Kubernetes client; the response goes the same way back. The monitor's handlers reconcile an object of an
-- informer into a status and submit it to the debouncer, which publishes it with retries. The server
-- calls back when it is ready, and the registration and the monitor start then.
--
-- State is passed on explicitly. A call that may fail returns a result beside the new state, so that
-- what was written before an error stays. The cluster is any type of states with a client for it; laws
-- of the client speak of the objects in the namespace, while nobody else writes there, and an error
-- stands for a call that changed nothing. The debouncer is a state machine: each locked section is a
-- step, the runtime fires timers and schedules their callbacks, and a schedule is a list of steps. The
-- goroutine of a registrar is a step relation.
--
-- Numbers: an int is an integer of the library Base/Int, cut to 32 bits where the source does so. Page
-- offsets are 64-bit; the theorems on tokens state that bound. The retry loop of the registration and
-- the readiness probe run on fuel, one unit for an attempt, and the theorems that they end and that they
-- succeed state how much is enough; publishing has five attempts and needs none.
--
-- Not modelled: the generated client and the embedded document, log output and the exit code of main.
-- client-go and its informers, the NATS connection, the chi router, the binding of parameters, JSON, the
-- OpenAPI validation, and the parsing of quantities, URLs and the environment are parameters.
pub mod Base
pub mod Encoding
pub mod Api
pub mod Dcm
pub mod Units
pub mod Kube
pub mod Kubernetes
pub mod Handlers
pub mod Monitoring
pub mod Config
pub mod Registration
pub mod Server
pub mod Apiserver
pub mod Contract
pub mod Startup
pub mod Examples
