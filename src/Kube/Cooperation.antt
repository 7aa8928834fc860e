-- ===== src/Kube/Cooperation.antt =====
-- What the program relies on when it writes a node: marshalling, diffing and patching succeed, and
-- a two-way merge patch changes the labels that differ between the two objects, and no others.
use kube_valet.Prelude.{
  String, ◌≡◌, refl, Bool, true, false, not, ◌&&◌, Option, none, some, ◌==◌, arith, if◌then◌else◌,
  Bool-cases, inl, inr,
}
use kube_valet.Outcome.{Outcome, ok}
use kube_valet.Kube.Objects.{Node}
use kube_valet.Kube.Labels.{get_label}
use kube_valet.Kube.Cluster.{Cluster, Reply, reply, failed}
use kube_valet.Kube.Sending.{sent, send_difference}
use kube_valet.Utils.{is_empty_patch}

abbrev pub same_label : Option String → Option String → Bool
same_label none none = true
same_label none (some _) = false
same_label (some _) none = false
same_label (some a) (some b) = a == b

-- Whether two versions of a node differ in the label `key`.
abbrev pub differs : String → Node → Node → Bool
differs key old new = not (same_label (get_label key old.labels) (get_label key new.labels))

-- `label_at w node key` is the label of the node in the API server.
pub record Cooperates (cluster : Cluster) : Type 0 where
  pub label_at : cluster.World → String → String → Option String
  pub marshals : (n : Node) → (x : cluster.Doc) × (cluster.marshal_node n ≡ reply x)
  pub diffs :
      (x y : cluster.Doc) → (p : cluster.Patch) × (cluster.create_two_way_merge_patch x y ≡ reply p)
  pub accepts :
      (name : String) (p : cluster.Patch) (w : cluster.World)
      → (n : Node) × ((cluster.patch_node name p w).0 ≡ reply n)
  pub patched :
      (old new : Node) (x y : cluster.Doc) (p : cluster.Patch) (w : cluster.World)
      → cluster.marshal_node old ≡ reply x
      → cluster.marshal_node new ≡ reply y
      → cluster.create_two_way_merge_patch x y ≡ reply p
      → (node key : String)
      → label_at (cluster.patch_node old.name p w).1 node key ≡ (
          if old.name == node && differs key old new
          then get_label key new.labels
          else label_at w node key)
  pub empty :
      (old new : Node) (x y : cluster.Doc) (p : cluster.Patch)
      → cluster.marshal_node old ≡ reply x
      → cluster.marshal_node new ≡ reply y
      → cluster.create_two_way_merge_patch x y ≡ reply p
      → is_empty_patch (cluster.bytes p) ≡ true
      → (key : String) → differs key old new ≡ false

module _ (cluster : Cluster) (coop : Cooperates cluster) where
  open coop use {label_at}

  abbrev pub Sent : Node → Node → cluster.World → Outcome (Unit {0}) × cluster.World → Type 0
  Sent old new w r =
      (r.0 ≡ ok tt)
      × ((node key : String)
          → label_at r.1 node key ≡ (
              if old.name == node && differs key old new
              then get_label key new.labels
              else label_at w node key))

  sent-Sent :
      (old new : Node) (w : cluster.World) (r : Reply Node × cluster.World) (n : Node)
      → r.0 ≡ reply n
      → ((node key : String)
          → label_at r.1 node key ≡ (
              if old.name == node && differs key old new
              then get_label key new.labels
              else label_at w node key))
      → Sent old new w (sent cluster r)
  sent-Sent old new w (reply _, w') n e h = (refl, h)
  sent-Sent old new w (failed _, w') n e h = absurd (cc e)

  -- With an API server that cooperates, sending a node succeeds, gives the node of that name the new
  -- version's labels where both versions differ, and changes no other label.
  pub send_difference_lem :
      (old new : Node) (w : cluster.World) → Sent old new w (send_difference cluster old new w)
  unfolding send_difference
  send_difference_lem old new w =
      let (x, ex) = coop.marshals old in
      let (y, ey) = coop.marshals new in
      let (p, ep) = coop.diffs x y in
      let (n, en) = coop.accepts old.name p w in
      rw ex (
        rw ey (
          rw ep (elim (Bool-cases (is_empty_patch (cluster.bytes p))) [
            | inl e ↦
                rw e (refl, λ node key. ground (arith, coop.empty old new x y p ex ey ep e key))
            | inr e ↦ rw e (
                sent-Sent old new w (cluster.patch_node old.name p w) n en
                  (coop.patched old new x y p w ex ey ep))
          ])))
