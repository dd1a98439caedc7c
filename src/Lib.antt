-- ===== src/Lib.antt =====
-- Verification of meshach, a set of Kubernetes controllers that turn the services of a Dubbo registry and
-- their configuration into istio resources.
--
-- The adapter follows the registry and the configuration center through zookeeper and writes what it finds
-- into the clusters as ConfiguredServices, ServiceAccessors and ServiceConfigs: a cache of each watched
-- node tells its client which children come, go and change; the client keeps the services, their instances
-- and the applications that use them, and sends events; the adapter's loop hands these to the handlers,
-- which convert them and store the resources. The cluster manager keeps the list of those clusters.
--
-- In a cluster the controllers take over. A ConfiguredService holds the registered instances of a service,
-- a ServiceConfig its routes and policies, and the MeshConfig the subsets of the whole mesh. The
-- ConfiguredService controller writes a ServiceEntry, a WorkloadEntry for each instance and default
-- Sidecars; where no ServiceConfig exists it also writes a VirtualService and a DestinationRule by default.
-- With a ServiceConfig, the ServiceConfig controller writes these two and the weights of the instances,
-- and counts what is there for the status. The ServiceAccessor controller writes the Sidecars of an
-- application's pods, the AppMeshConfig controller counts what is there for an application, and the
-- MeshConfig controller writes its generation into every resource, so that the others reconcile it again.
--
--   Prelude             shared names, Boolean tests, lists, byte strings, maps and machine integers
--   Api                 api/v1alpha1, the resources; pkg/option/controller.go, the options
--   Istio               the fields of the istio messages that the program sets
--   Utils               pkg/utils/utils.go: names, durations, slices, numbers and addresses;
--                       pkg/utils/workpool.go in Utils/WorkPool
--   Client              the interface to the Kubernetes API; actions that return, fail or panic; and in
--                       Client/Sync the steps that all reconcile functions share: list, create or update,
--                       delete the rest (reconcileVirtualService and its siblings)
--   Cluster             the fields of a Reconciler: one Store for each kind of resource
--   Mesh                what both controllers compute alike: subsets (getSubset, mapContains,
--                       onlyMissingCanary), weights (rerouteSubset, dynamicRoute), routes (getTimeout,
--                       getRetries, buildDefaultRoute), rules (getlb), comparisons and the phase (calcPhase)
--   ServiceConfigs      controllers/serviceconfig: Build (utils.go and the builders of virtualservice.go and
--                       destinationrule.go), Status (status.go), Reconcile (controller.go, workloadentry.go
--                       and the reconcile functions)
--   ConfiguredServices  controllers/configuredservice: Build, Sidecars (sidecar.go), Workloads
--                       (workloadentry.go), Reconcile (controller.go and the reconcile functions)
--   Accessors           controllers/serviceaccessor/controller.go: the Sidecars that limit what the pods of an
--                       application reach
--   AppMeshConfigs      controllers/appmeshconfig: the counts of an application's services
--   Generations         controllers/meshconfig/controller.go: the generation that is written into every
--                       resource when the MeshConfig changes
--   Adapter             pkg/adapter: Types (types/types.go), Paths (the calls of path and strings), Zookeeper
--                       (zookeeper/pathcache.go, with the steps of its loop in Zookeeper/Steps), Registry
--                       (registry/zk/client.go, its events in Registry/Events), ConfigCenter
--                       (configcenter/zk/client.go), Convert (convert), Handler (handler), Dispatch
--                       (adapter.go and component/handler.go), Debounce and Accelerate (the packages of
--                       these names, as step relations)
--   Clusters            pkg/k8s/manager/manager.go: the clusters, and in Clusters/Check the check of them;
--                       pkg/k8s/manager/operate.go in Clusters/Operate
--   Health              pkg/healthcheck/handler.go: the checks and their endpoints
--   Samples             an API server in memory, a small mesh, and the theorems listed below applied to them
--
-- A Go string is the list of its bytes, a map an association list, a nil pointer `none`. The schemas of
-- the resources require the pointers that are plain values here. An int32 or int64 wraps where the
-- program computes with it. A panic of a builder is `none`; an action of a reconciler keeps what was
-- written before an error or a panic. The API server is a parameter: a Store gives the results of its
-- calls in any state, and the theorems that need its documented behaviour take records of laws (Lawful,
-- Rejects, Accepts, Stores, Retries, Tracks), which the samples fill. retry.RetryOnConflict,
-- SetControllerReference, DeepEqual, the SHA-1 digest, url.Parse and yaml.Unmarshal are parameters too.
-- A value that a goroutine of its own sends to a channel may be received after those that are sent
-- later: such a channel is a collection, and what its reader does is a step relation over it. Logging
-- and counters are left out. The only fuel is that of the decimal digits of a number, one more than the
-- number, which is enough as reading the digits back shows.
--
-- Not modelled: the nacos client, the handler that only logs, the registration of watches, the
-- connections to clusters, and the HTTP, gRPC and command line code around all this.
pub mod Prelude
pub mod Api
pub mod Istio
pub mod Utils
pub mod Client
pub mod Cluster
pub mod Mesh
pub mod ServiceConfigs
pub mod ConfiguredServices
pub mod Accessors
pub mod AppMeshConfigs
pub mod Generations
pub mod Adapter
pub mod Clusters
pub mod Health
pub mod Samples
