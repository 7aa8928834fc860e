-- ===== src/Kube/Sending.antt =====
-- The sequence with which both managers write a node: marshal the old and the new object, diff them,
-- and send the patch unless it is empty.
use kube_valet.Prelude.{String, if◌then◌else◌}
use kube_valet.Outcome.{Outcome, ok, err, Run}
use kube_valet.Kube.Objects.{Node}
use kube_valet.Kube.Cluster.{Cluster, Reply, reply, failed}
use kube_valet.Utils.{is_empty_patch}

abbrev pub from_reply {ℓ} : {A : Type ℓ} → Reply A → Outcome A
from_reply (reply a) = ok a
from_reply (failed e) = err e

infixl 5 ◌>>=◌
abbrev ◌>>=◌ {ℓ κ} : {A : Type ℓ} {B : Type κ} → Reply A → (A → Reply B) → Reply B
reply a >>= f = f a
failed e >>= f = failed e

module _ (cluster : Cluster) where
  open cluster use {World, Patch, bytes, patch_node, marshal_node, create_two_way_merge_patch}

  unfoldable pub diff_node : Node → Node → Reply Patch
  diff_node old new = do x ← marshal_node old; y ← marshal_node new; create_two_way_merge_patch x y

  abbrev pub sent : Reply Node × World → Outcome (Unit {0}) × World
  sent (reply _, w) = (ok tt, w)
  sent (failed e, w) = (err e, w)

  -- The patch is sent unless it is empty; the node that comes back is dropped.
  unfoldable pub send_patch : String → Reply Patch → Run World (Unit {0})
  send_patch name (failed e) w = (err e, w)
  send_patch name (reply p) w =
      if is_empty_patch (bytes p) then (ok tt, w) else sent (patch_node name p w)

  unfoldable pub send_difference : Node → Node → Run World (Unit {0})
  unfolding diff_node send_patch
  send_difference old new w = send_patch old.name (diff_node old new) w
