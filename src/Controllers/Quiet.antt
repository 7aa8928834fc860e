-- ===== src/Controllers/Quiet.antt =====
-- The manager's own writes do not queue groups again.
use Prim.Native.String.{◌++◌}
use text.Mathlib.TextLemmas.{append_assoc}
use kube_valet.Prelude.{
  String, ◌≡◌, refl, sym, ap, ◌∙◌, subst, Bool, true, false, ◌==◌, none, some, List, [], ◌∷◌, arith,
  eq_iff, Bool-cases, str-cases, inl, inr, Map, lookup, insert, remove, lookup-insert,
  lookup-remove, find?-middle,
}
use kube_valet.Outcome.{ok}
use kube_valet.Kube.Objects.{LabelMap, Taint, Node}
use kube_valet.Kube.Labels.{get_label, put_label, delete_label, get-put_label}
use kube_valet.Kube.Cluster.{Reply}
use kube_valet.Assignments.Types.{NodeAssignment, NodeAssignmentGroup}
use kube_valet.Assignments.Groups.{assignment_key, pack_left_key, assign, unassign}
use kube_valet.Assignments.Groups.Targeting.{UniqueKeys}
use kube_valet.Assignments.Groups.Unassign.{labels-unassign}
use kube_valet.Assignments.Groups.Assign.{is_known_mode, assigned_taints, assign_inv, unassign_eq}
use kube_valet.Utils.{is_valet_key, entries, node_targeting_has_changed}
use kube_valet.Utils.Targetable.{targetable_labels_are_different_iff}
use kube_valet.Queues.{RateLimiting}
use kube_valet.Controllers.Nags.{on_update_node}

contains-domain :
    (before name : String) → is_valet_key ((before ++ ("kube-valet.io" ++ "/")) ++ name) ≡ true
unfolding is_valet_key
contains-domain before name =
    ap is_valet_key (
      append_assoc before ("kube-valet.io" ++ "/") name
      ∙ ap (λ s. before ++ s) (append_assoc "kube-valet.io" "/" name))
    ∙ find?-middle before "kube-valet.io" ("/" ++ name)

is_valet_key-assignment_key : (nag : NodeAssignmentGroup) → is_valet_key (assignment_key nag) ≡ true
unfolding assignment_key
is_valet_key-assignment_key nag = contains-domain "nag.assignments." nag.name

is_valet_key-pack_left_key : (nag : NodeAssignmentGroup) → is_valet_key (pack_left_key nag) ≡ true
unfolding pack_left_key
is_valet_key-pack_left_key nag = contains-domain "nag.packleft.scheduling." nag.name

UniqueKeys-insert {ℓ} :
    {V : Type ℓ} (k : String) (v : V) (m : Map V) → UniqueKeys m → UniqueKeys (insert k v m)
unfolding insert lookup
UniqueKeys-insert k v [] u = (refl, tt)
UniqueKeys-insert k v ((j, w) ∷ m) u = elim (str-cases j k) [
  | inl (e, p) ↦ rw e (subst (λ i. lookup i m ≡ none) p u.0, u.1)
  | inr (e, _) ↦ rw e (
    ground (arith, lookup-insert k j v m, u.0, eq_iff k j, eq_iff j k),
    UniqueKeys-insert k v m u.1,
  )
]

UniqueKeys-remove {ℓ} :
    {V : Type ℓ} (k : String) (m : Map V) → UniqueKeys m → UniqueKeys (remove k m)
unfolding remove lookup
UniqueKeys-remove k [] u = tt
UniqueKeys-remove k ((j, w) ∷ m) u = elim (Bool-cases (j == k)) [
  | inl e ↦ rw e (UniqueKeys-remove k m u.1)
  | inr e ↦ rw e (ground (arith, lookup-remove k j m, u.0), UniqueKeys-remove k m u.1)
]

-- Two keys of which one is kube-valet's own and the other is not are different.
own_apart : (own k : String) → is_valet_key own ≡ true → is_valet_key k ≡ false → (own == k) ≡ false
own_apart own k h g = elim (str-cases own k) [
  | inl (_, p) ↦ absurd (cc (h, g, ap is_valet_key p))
  | inr (e, _) ↦ e
]

UniqueKeys-put_label :
    (k v : String) (m l : LabelMap)
    → put_label k v m ≡ ok l
    → UniqueKeys (entries m)
    → UniqueKeys (entries l)
unfolding put_label
UniqueKeys-put_label k v none l h u = absurd (cc h)
UniqueKeys-put_label k v (some m) l h u =
    subst (λ o. UniqueKeys (entries o)) (put h) (UniqueKeys-insert k v m u)
  where
    put : ok (some (insert k v m)) ≡ ok l → some (insert k v m) ≡ l
    put q = cc q

UniqueKeys-delete_label :
    (k : String) (m : LabelMap) → UniqueKeys (entries m) → UniqueKeys (entries (delete_label k m))
unfolding delete_label
UniqueKeys-delete_label k none u = tt
UniqueKeys-delete_label k (some m) u = UniqueKeys-remove k m u

module _ (queues : RateLimiting) (key_of : NodeAssignmentGroup → Reply String) where
  quiet :
      (nags : List NodeAssignmentGroup) (old new : Node) (q : queues.Queue)
      → UniqueKeys (entries old.labels)
      → UniqueKeys (entries new.labels)
      → ((k : String) → is_valet_key k ≡ false → get_label k old.labels ≡ get_label k new.labels)
      → on_update_node queues key_of nags old new q ≡ q
  unfolding on_update_node node_targeting_has_changed
  quiet nags old new q u v same =
      rw ((targetable_labels_are_different_iff old.labels new.labels u v).1 same) refl

  -- If the node's labels list no key twice, then the update event of the node that an Assign which
  -- returns, in a known mode, brings about queues no group, in whatever group the node is assigned.
  pub on_update_node-assign :
      (nags : List NodeAssignmentGroup) (nag : NodeAssignmentGroup) (node node' : Node)
      (na na' : NodeAssignment) (q : queues.Queue)
      → is_known_mode na.mode ≡ true
      → UniqueKeys (entries node.labels)
      → assign nag node na ≡ ok (node', na')
      → on_update_node queues key_of nags node node' q ≡ q
  on_update_node-assign nags nag node node' na na' q k u h =
      let (l, e, n, _) = assign_inv nag node node' na na' k h in
      rw n (
        quiet nags node (record node { labels = l; taints = assigned_taints nag node na }) q u
          (UniqueKeys-put_label (assignment_key nag) na.name node.labels l e u)
          (λ j own. sym (
            get-put_label (assignment_key nag) j na.name node.labels l e
            ∙ rw (own_apart (assignment_key nag) j (is_valet_key-assignment_key nag) own) refl)))

  -- If the node's labels list no key twice, then the update event of a node that Unassign changes
  -- queues no group.
  pub on_update_node-unassign :
      (match_taint : Taint → Taint → Bool) (nags : List NodeAssignmentGroup)
      (nag : NodeAssignmentGroup) (node : Node) (q : queues.Queue)
      → UniqueKeys (entries node.labels)
      → on_update_node queues key_of nags node (unassign match_taint nag node) q ≡ q
  on_update_node-unassign match_taint nags nag node q u =
      quiet nags node (unassign match_taint nag node) q u
        (rw (unassign_eq match_taint nag node) (
          UniqueKeys-delete_label (pack_left_key nag)
            (delete_label (assignment_key nag) node.labels)
            (UniqueKeys-delete_label (assignment_key nag) node.labels u)))
        (λ j own. sym (
          labels-unassign match_taint nag node j
          ∙ rw (own_apart (assignment_key nag) j (is_valet_key-assignment_key nag) own)
              (rw (own_apart (pack_left_key nag) j (is_valet_key-pack_left_key nag) own) refl)))
