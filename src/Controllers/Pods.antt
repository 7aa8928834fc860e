-- ===== src/Controllers/Pods.antt =====
-- The event handlers of pkg/controller/podassignment/controller.go.
use kube_valet.Prelude.{String, not, ◌||◌, ◌==◌, if◌then◌else◌}
use kube_valet.Kube.Pods.{Pod}
use kube_valet.Kube.Cluster.{Reply}
use kube_valet.Queues.{RateLimiting, add_item}

module _ (queues : RateLimiting) (key_of_pod : Pod → Reply String) where
  open queues use {Queue}

  unfoldable pub on_add_pod : Pod → Queue → Queue
  on_add_pod pod q = add_item queues (key_of_pod pod) q

  unfoldable pub on_update_pod : Pod → Pod → Queue → Queue
  on_update_pod old new q =
      if not (old.resource_version == new.resource_version) || not (old.uid == new.uid)
      then add_item queues (key_of_pod new) q
      else q

  unfoldable pub on_delete_pod : Pod → Queue → Queue
  on_delete_pod pod q = add_item queues (key_of_pod pod) q
