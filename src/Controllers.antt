-- ===== src/Controllers.antt =====
-- The event handlers of the controllers, and pkg/controller/resource_watcher.go, which passes events on
-- to them. What the handlers read of a store is the list that it returns; the key of an object is
-- computed by k8s.io/client-go and is a parameter.
pub mod Nags
pub mod PackLeft
pub mod Pods
pub mod Queueing
pub mod Quiet
pub mod Watching
pub mod Startup
pub mod Released
use kube_valet.Prelude.{String, List, [], ◌∷◌}
use kube_valet.Kube.Cluster.{Reply}
use kube_valet.Assignments.Types.{NodeAssignmentGroup}
use kube_valet.Queues.{RateLimiting, add_item}

module _ (queues : RateLimiting) (key_of : NodeAssignmentGroup → Reply String) where
  abbrev pub queue_nag : NodeAssignmentGroup → queues.Queue → queues.Queue
  queue_nag nag q = add_item queues (key_of nag) q

  unfoldable pub queue_nags : List NodeAssignmentGroup → queues.Queue → queues.Queue
  queue_nags [] q = q
  queue_nags (nag ∷ rest) q = queue_nags rest (queue_nag nag q)
