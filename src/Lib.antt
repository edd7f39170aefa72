-- ===== src/Lib.antt =====
-- XR telepresence on Kubernetes: the controllers of sessions, of the garbage collector and of the
-- network, and the session manager that serves clients over HTTP.
--
-- A session is a Kubernetes resource that lists the clients, and the templates of the pods that
-- serve them. The session manager (session-manager/) creates sessions in one or more clusters and
-- patches their clients. In each cluster the session controller (controllers/session/) places
-- every client on a pod of each template, spawns the pods, reports their paths and readiness in
-- the session's status, and registers idle pods with the collector. The collector
-- (controllers/gc/) offers a registered pod for reuse after a first grace period and deletes it
-- after a second one. The network controller (controllers/network/) gives each pod a service and
-- publishes its ports on the ingress. The parts meet in the Kubernetes API only: in the sessions,
-- the registrations, the pods' names and the ingress' paths.
--
-- Resources models the resource types: Core the parts of pods, services and ingresses that the
-- code reads or writes, Session controllers/session/api/v1alpha1/session_types.go, Registration
-- controllers/gc/api/v1alpha1/gcregistration_types.go.
--
-- Effect is what a Go function that talks to a server does: it returns a value or an error or
-- panics, and leaves the list of its calls. Emits and Ensures have one rule per construct for what
-- is true of the calls and of the result. Cluster is the Kubernetes API of the controllers, as
-- calls and a record of answers. The answers are a parameter, may depend on every earlier call,
-- and are not assumed to be consistent unless a theorem says so. Calls and Answers say what the
-- theorems ask of the calls and of a server.
--
-- Access models the rbac markers above Reconcile of the three controllers, next to what Kubernetes
-- demands for each call.
--
-- Startup models controllers/*/cmd/main.go. The three files are one function of the schemes, the
-- controller and the name of the lease; the flags' values and the answers of controller-runtime
-- are parameters.
--
-- Session models controllers/session/internal/controller: Clients (cleanExpiredClientsFromStatus,
-- handleClientChanges, and the removal of departed clients), Allocation (initAllocationMap,
-- templatePodMapping, buildAllocationMap), Placement (sortAllocationMap, allocateClients and what
-- they call), Readiness (reconcilePods, setClientStatusReadiness,
-- concatIngressExternalIpToPodPaths, and the readiness of utils/pods.go), Registrations
-- (manageGCRegistrations and manageGCRegistrationsForSessionPods), Pods (session_pods.go and
-- SpawnPod), Conditions (utils/conditions.go), Reconciler (session_controller.go,
-- ReconcileClientPods and utils/status.go) and Events (utils/predicates.go, utils/indexing.go and
-- the predicates of SetupWithManager). Soundness is the invariant of a status that the controller
-- can work with.
--
-- Gc/Reconciler models controllers/gc/internal/controller/gc_controller.go. Network models
-- controllers/network/internal/controller: Services and Reconciler network_controller.go,
-- Publishing ingress.go, Wiring the watches of SetupWithManager; Honest is a cluster in which the
-- controller is the only writer. Gc/Reconciler/Fate is the abstract rule of the collector.
--
-- Manager models session-manager: Clusters the calls of k8s-client/methods.go and the replies,
-- Sessions handlers/session.go, Ping handlers/ping.go, Clients handlers/clients.go, Config
-- ConfigHandler and readTemplates of handlers/handler.go, Routes main.go, Routes/Uris what net/url
-- makes of the locations that the handlers build, Rest the REST requests of k8s-client/methods.go.
-- Clients/Members is the abstract view of the clients: a function from names, and a cluster that
-- keeps what it is sent.
--
-- Base holds what the parts share: tests on numbers, lists measured by native numbers, equality as
-- an instance, maps as association lists, byte strings, and panics as Option. Tests applies the
-- theorems to a small deployment.
--
-- A Go map is an association list, and a range over it goes through the list in order. Go leaves
-- that order open: a list in any order stands for the map, but one run of the model uses the same
-- order in each of its loops. A function that changes a map which it ranges over is modelled on
-- the entries that the range has at its start. Strings are lists of bytes.
--
-- An int and a duration are 64-bit patterns, with the wrap-around written out; a time is a number
-- of nanoseconds from the year 1. Loops are structural recursion, so no fuel is used. sort.Slice
-- is the insertion sort that it uses for at most twelve elements; for more pods the order among
-- pods of equal rank may differ.
--
-- Parameters are the answers of the servers, the clock, the UUIDs, the hash of a status, the
-- parsed body of a request, the contents of the files, and client-go, controller-runtime and
-- certwatcher at the start. gin's choice among the routes is one too; what it documents of it is
-- the record Gin. Not modelled are logging, the registration of field indexes, the construction of
-- a REST client (k8s-client/client.go), generated code and the tests.
pub mod Base
pub mod Resources
pub mod Effect
pub mod Cluster
pub mod Access
pub mod Session
pub mod Gc
pub mod Network
pub mod Manager
pub mod Startup
pub mod Tests
