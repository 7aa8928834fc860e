-- ===== src/PackLeft/Marks.antt =====
-- What marking a node puts on it, and that clearing takes it off.
use kube_valet.Prelude.{
  ◌≤◌, String, ◌≡◌, refl, ◌∙◌, Bool, false, not, none, some, List, [], ◌∷◌, ◌++◌, ◌==◌, arith,
  eq_refl, if◌then◌else◌, filter, filter-append, count, any,
}
use mathlib.Core.List.{append-nil}
use kube_valet.Outcome.{Outcome, ok, err, panic, exit, ◌>>=◌}
use kube_valet.Kube.Objects.{LabelMap, Taint, Node}
use kube_valet.Kube.Labels.{get_label, put_label, get-put_label, get-delete_label}
use kube_valet.Assignments.Types.{NodeAssignmentGroup}
use kube_valet.PackLeft.{
  NodePackLeftState, node_use, node_avoid, node_deny, state_text, state_taint, get_label_key,
  remove_taint, assign_node, unassign_node, node_has_pack_left_attributes,
}

module _ (key : String) where
  abbrev pub has_key : Taint → Bool
  has_key t = t.key == key

  -- The node has at most one taint with the key.
  abbrev pub AtMostOne : List Taint → Type 0
  AtMostOne ts = count has_key ts ≤ 1

  no_keys : (ts : List Taint) → count has_key ts ≡ 0 → filter has_key ts ≡ []
  no_keys [] h = refl
  no_keys (t ∷ ts) h = ground (arith, no_keys ts)

  remove_taint_keys : (ts : List Taint) → AtMostOne ts → filter has_key (remove_taint key ts) ≡ []
  unfolding remove_taint
  remove_taint_keys [] h = refl
  remove_taint_keys (t ∷ ts) h = ground (arith, no_keys ts, remove_taint_keys ts)

  remove_taint_others :
      (ts : List Taint)
      → filter (λ t. not (has_key t)) (remove_taint key ts) ≡ filter (λ t. not (has_key t)) ts
  unfolding remove_taint
  remove_taint_others [] = refl
  remove_taint_others (t ∷ ts) = ground (arith, remove_taint_others ts)

  state_keys : (s : NodePackLeftState) → filter has_key (state_taint key s) ≡ state_taint key s
  state_keys node_use = refl
  state_keys node_avoid = rw (eq_refl key) refl
  state_keys node_deny = rw (eq_refl key) refl

  state_others : (s : NodePackLeftState) → filter (λ t. not (has_key t)) (state_taint key s) ≡ []
  state_others node_use = refl
  state_others node_avoid = rw (eq_refl key) refl
  state_others node_deny = rw (eq_refl key) refl

  -- What a call of `assignNode` that returns has done.
  assign_node_inv :
      (node node' : Node) (s : NodePackLeftState)
      → assign_node node s key ≡ ok node'
      → (l : LabelMap) × (put_label key (state_text s) node.labels ≡ ok l)
        × (node' ≡ record node {
          labels = l;
          taints = remove_taint key node.taints ++ state_taint key s;
        })
  unfolding assign_node
  assign_node_inv node node' s h = go (put_label key (state_text s) node.labels) refl h
    where
      go :
          (o : Outcome LabelMap)
          → put_label key (state_text s) node.labels ≡ o
          → (o >>= λ l. ok (record node {
            labels = l;
            taints = remove_taint key node.taints ++ state_taint key s;
          }))
            ≡ ok node'
          → (l : LabelMap) × (put_label key (state_text s) node.labels ≡ ok l)
            × (node' ≡ record node {
              labels = l;
              taints = remove_taint key node.taints ++ state_taint key s;
            })
      go (ok l) e q = (l, e, cc q)
      go (err x) e q = absurd (cc q)
      go panic e q = absurd (cc q)
      go exit e q = absurd (cc q)

  -- If a node has at most one taint with the key, then after `assignNode` it has the text of the
  -- state as its label, the taint of the state and no other with the key (none for `Use`), and its
  -- other taints as before.
  pub assign_node_lem :
      (node node' : Node) (s : NodePackLeftState)
      → AtMostOne node.taints
      → assign_node node s key ≡ ok node'
      → (get_label key node'.labels ≡ some (state_text s))
        × (filter has_key node'.taints ≡ state_taint key s)
        × (filter (λ t. not (has_key t)) node'.taints ≡ filter (λ t. not (has_key t)) node.taints)
  assign_node_lem node node' s one h =
      let (l, e, n) = assign_node_inv node node' s h in
      rw n (
        get-put_label key key (state_text s) node.labels l e ∙ rw (eq_refl key) refl,
        filter-append has_key (remove_taint key node.taints) (state_taint key s)
            ∙ rw (remove_taint_keys node.taints one) (state_keys s),
        filter-append (λ t. not (has_key t)) (remove_taint key node.taints) (state_taint key s)
            ∙ rw (remove_taint_others node.taints) (rw (state_others s) (append-nil _)),
      )

any_none :
    (key : String) (ts : List Taint)
    → filter (has_key key) ts ≡ []
    → any (λ t. t.key == key) ts ≡ false
any_none key [] h = refl
any_none key (t ∷ ts) h = ground (arith, any_none key ts)

-- If a node has at most one taint with the key of a group, then after `unassignNode` it has no
-- attribute of the group, and it keeps its other labels and taints.
pub unassign_node_lem :
    (nag : NodeAssignmentGroup) (node : Node)
    → AtMostOne (get_label_key nag.name) node.taints
    → (node_has_pack_left_attributes (unassign_node node (get_label_key nag.name)) nag ≡ false)
      × ((j : String)
          → get_label j (unassign_node node (get_label_key nag.name)).labels
            ≡ (if get_label_key nag.name == j then none else get_label j node.labels))
      × (filter
            (λ t. not (has_key (get_label_key nag.name) t))
            (unassign_node node (get_label_key nag.name)).taints
          ≡ filter (λ t. not (has_key (get_label_key nag.name) t)) node.taints)
unfolding unassign_node node_has_pack_left_attributes
unassign_node_lem nag node one =
    let key = get_label_key nag.name in
    (
      ground (
        arith,
        get-delete_label key key node.labels,
        eq_refl key,
        any_none key (remove_taint key node.taints) (remove_taint_keys key node.taints one),
      ),
      λ j. get-delete_label key j node.labels,
      remove_taint_others key node.taints,
    )
