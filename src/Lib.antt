-- ===== src/Lib.antt =====
-- kube-valet: the assignment of Kubernetes nodes to groups, the scheduling of pods towards the left, and
-- the rules that change the scheduling of pods.
--
-- The parts, and the modules that model them:
--   * Kube: the objects, label maps and API calls of Kubernetes that the program uses. `Cluster` holds all
--     that the program calls and does not implement, as a parameter; `Cooperates` and
--     `Finalizers.Kept.StoresNags` state what is relied on of it. Writing a node by marshalling, diffing
--     and patching (UpdateNodeAssignment, patchNodeState) is Kube.Sending.
--   * Assignments: pkg/apis/assignments/v1alpha1/types.go and the methods of NodeAssignmentGroup in
--     helpers.go. GetAssignment is `get_assignment`, Assign `assign`, Unassign `unassign`, and so on.
--   * Utils: pkg/utils/utils.go.
--   * NodeAssignments: pkg/controller/nodeassignment. WriterContext holds the state of
--     writer_context.go and its arithmetic, WriterContext.Steps its calls of the API server, as functions
--     from a state to an outcome and a state; Manager is ReconcileNag. Deletion speaks of its branch for
--     a group that is being deleted and Reconciled of the other one, over Sets, what the context finds
--     in the list of nodes that the API server returns. Plan is an abstract description of a
--     reconciliation: a function from the assignments that the nodes have to those that they are to have.
--     Reconcile relates the code to it.
--   * Finalizers: the finalizers that both managers keep on a group.
--   * PackLeft: pkg/controller/scheduling/packleft/manager.go. Balance is balanceNodes, Rebalance the
--     loops over the groups and the nodes, Fullness how full a node is; Rebalanced speaks of RebalanceNag
--     as a whole.
--   * PodAssignments: the rules for pods of helpers.go and pkg/controller/podassignment/manager.go.
--     Performing renders what RFC 6902 says of the JSON patches that they make.
--   * Queues: pkg/queues/retrying_work_queue.go. Retries speaks of the number of retries and
--     Drained of the end of a worker's loop.
--   * Controllers: the event handlers of the three controllers (Nags, PackLeft, Pods) and Watching, the
--     elections of pkg/controller/resource_watcher.go; Startup is its Run, as a list of what is made and
--     started.
--   * Webhook: pkg/webhook/server.go, mutateHandler and mutatePod.
--   * Metrics: pkg/metrics/registry.go, over `Prometheus`.
--   * Process: main.go and controller.go, over `Host`. The state is the watcher and the list of what was
--     started.
--   * CommandLine: bin/valetctl.go. Tool holds the flags and, as a parameter, what the program calls;
--     Groups is groupCreate, Rules assignmentCreate, Reports the two reports and Main main with its clients.
--     Strings renders the functions of the packages strings, strconv and regexp that it uses, on texts
--     of characters, for the separators and patterns that occur.
--   * Prelude and Outcome are shared: lists, maps, integers, and how a Go call ends.
--   * Examples: the theorems at concrete inputs, with API servers that keep labels and groups.
--
-- How the parts interact: a controller's queue calls the manager with a group. The node assignment manager
-- makes a writer context, which lists the nodes and writes those that change, through `Cluster`. The
-- pack-left manager reads the labels that the former writes and adds its own label and taint. Both keep a
-- finalizer on the group.
--
-- How the code is rendered: a Go map is a list of entries in the order in which one `range` visits them, and
-- a nil map is `none`. Where a loop visits a map, the order is a parameter (`visit`) or the theorem speaks of
-- keys only. A call that may fail returns an `Outcome`: a result, an error, a panic, or the end of the process
-- by log.Fatal. An object that is changed in place is returned. Go's int is an integer without bounds: the
-- numbers are counts of nodes and percentages; the sums of requests, which are int64, wrap around. Floating
-- point comes in two forms: a share of the nodes in float32 is the exact quotient, as it is below 2 ^ 24, and
-- the fullness in float64 is a parameter, `Floats`. Loops are structural recursion on the list that they
-- visit; only the loop of a worker, which ends when its queue is shut down, runs on fuel, a number of rounds.
--
-- Not modelled: log messages, the messages with which a program ends, the values of the gauges, the goroutines
-- themselves (starting one is an entry in a list) and those of a queue's workers, the loops of the webhook's
-- and the metrics' servers, the election and the reading of command lines, which libraries do, the tables of
-- the API machinery, and generated clients, informers, listers and deep copies.
mod Prelude
mod Outcome
pub mod Kube
pub mod Assignments
pub mod Utils
pub mod NodeAssignments
pub mod Finalizers
pub mod PodAssignments
pub mod PackLeft
pub mod Queues
pub mod Controllers
pub mod Metrics
pub mod Process
pub mod CommandLine
pub mod Webhook
pub mod Examples
