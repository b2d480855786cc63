-- ===== src/Lib.antt =====
-- Open-CAS CSI: a driver that gives Kubernetes volumes a cache on the node, and its operator.
--
-- The program's parts. The controller service (pkg/csi-driver/controller.go) makes a PVC of a backend
-- storage class for each volume, and a Pod that attaches it to a node. The node service
-- (pkg/csi-driver/node.go) puts the attached device on a cache of the node, formats and mounts it.
-- Both use pkg/k8sutils for the cluster, pkg/utils for the node, and pkg/opencas, which runs the tool
-- `casadm` in a Job and parses what it prints. The operator (pkg/csi-operator) keeps the caches of
-- the nodes as their definitions say, and the objects that make up a driver. The webhook
-- (pkg/webhook) forbids the deletion of what the driver protects by a label.
--
-- How it is modelled. Whatever is outside the repository is called through `World`: a `Call` is a
-- request with its arguments, a world answers each call by the calls made before it, so that every
-- behaviour of the cluster and of the node, and any interference of others between two calls, is a
-- world, and a theorem for all worlds holds for all of them. A Go function is a function of
-- Effect.antt: given the world and the calls made so far, the latest first, it returns a value, an
-- error or a panic, with the calls made. `deferring` is `defer`, `locked` a mutex with keys. A request
-- runs in a world of its own, where what others do between its calls shows in the answers only;
-- Requests runs many of them at the same time, their calls interleaved as the mutexes allow. A
-- function and its model have the same name, in snake case.
--
-- Which file models which part:
-- - Prelude: tests, lists, Go's int, texts with `strings` and `strconv`, maps, words of a line, decimals
-- - World, Effect: the world, and functions that call it; World/Pods: the templates of Pods; Keeps: rules by
--   which an invariant of the calls is carried through a function; Success: what a successful
--   sequence says about its parts; Locks: the discipline of a request that locks its key
-- - Interleaving: requests at the same time with their mutexes, and of what they do Turns, Progress;
--   Requests: the requests of the driver and the operator, Requests/Together
-- - K8sUtils (pkg/k8sutils/k8sutils.go): Settings, Specs, Objects, Create, Labelled, and of what they
--   do Unprotect, Await
-- - Utils (pkg/utils/utils.go)
-- - OpenCas (pkg/opencas/api.go, casadm.go): Casadm, Csv, CacheList, JobName, Job, Manager, and of
--   what they do Casadm/Arguments, CacheList/Owners, JobName/Length, JobName/Alphabet, Manager/Results,
--   Manager/Cores, Manager/Listed; Footprint says which calls the manager makes
-- - Csi (pkg/csi-driver): Types, Controller, Publish (controller.go), Node/Stage, Node/Unstage,
--   Node/Publish, Node/Info (node.go), Driver (csi-driver.go, identity.go), Server (server.go, main.go),
--   and of what they do Checks, Locking, Controller/Provision, Controller/Succeeds, Publish/Bound,
--   Node/Publish/Flags, Node/Publish/Again, Node/Uncached, Node/Released, Node/Format,
--   Driver/Start, Server/Endpoint. Controller/Store says what an API server that keeps
--   its PVCs answers, Stays, Present, Refines and Serves compare the handlers with a set of PVCs. Node/Label
--   joins the label that the operator writes with its reader
-- - Operator (pkg/csi-operator): Common, Cache and Trigger (internal/controller/cache_controller.go),
--   Labels (api/v1alpha1/driverinstance_types.go), Workloads and Objects (internal/helpers/helpers.go), Instance
--   (internal/controller/driverinstance_controller.go), Start (main.go), and of what they do Common/Finalizers,
--   Start/Steps, Cache/Jobs, Cache/Release, Cache/Planning, Trigger/Ready, Instance/Release,
--   Instance/Carried with Refreshed, Handled, Applied and Freed, Objects/Mounts, Objects/Rights, Objects/Order.
--   Footprint says which calls the reconcilers make, Locking that they keep the discipline;
--   Cache/Removal, Fitting, Running, Reached, Settled, and Dismissed, Cleared follow a reconciliation
--   that asks for no other one, and Cache/Steady one that finds what it asks for
-- - Webhook (pkg/webhook/main.go)
-- - Tests: worlds, and runs of the functions in them
--
-- Numbers. `int` is an integer of Prelude/Int, which `atoi` keeps to 64 bits; a cache line size is
-- taken modulo 256 where the code converts it to eight bits. A number is printed with fuel that is one more
-- than the number, which is more than its digits; all other loops are structural, and a
-- watch channel is the list of what it delivers before it is closed.
--
-- What is not modelled: logging and the texts of most errors, reading requests and writing
-- responses, the flags of the processes (cmd and the `Main` functions), the webhook's HTTPS
-- server, the gRPC server behind `serve`, the handlers that only answer that they are not
-- implemented, the cache webhook (api/v1alpha1/cache_webhook.go), which allows everything, and
-- generated code. Go's comparison of strings by bytes is one of code points here. The controller
-- manager's own predicates on changes are parameters. An accepted patch leaves in the object what
-- the API server answers, which may be anything; a refused one leaves what was sent. Requests
-- that run at the same time are interleaved call by call, with what each of them is answered
-- given by its own world, so that nothing is said of what one request sees of another. The mutex
-- is k8s.io/utils/keymutex, of which only the locks of the keys are a parameter.
pub mod Prelude
pub mod World
pub mod Effect
pub mod Keeps
pub mod Success
pub mod Locks
pub mod Interleaving
pub mod Requests
pub mod K8sUtils
pub mod Utils
pub mod OpenCas
pub mod Csi
pub mod Operator
pub mod Webhook
pub mod Tests
