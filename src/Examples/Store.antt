-- ===== src/Examples/Store.antt =====
-- An API server that stores the label map of every node, and merges into it the labels that differ.
use kube_valet.Prelude.{
  String, ◌≡◌, refl, ◌∙◌, subst, Bool, true, false, ◌&&◌, Option, none, some, List, [], ◌∷◌, ◌++◌,
  ◌==◌, arith, eq_iff, eq_refl, eq_sym, str-cases, ◌||◌, if◌then◌else◌, elem, map, Map, lookup,
  insert, remove, lookup-insert, lookup-remove, All, Bool-cases, inl, inr,
}
use kube_valet.Kube.Objects.{LabelMap, Node}
use kube_valet.Kube.Labels.{get_label}
use kube_valet.Kube.Cluster.{Cluster, reply}
use kube_valet.Kube.Cooperation.{Cooperates, differs}
use kube_valet.NodeAssignments.Sets.Cleanup.{ServesNodes, Copies}
use kube_valet.Utils.{is_empty_patch}
use kube_valet.Examples.Fixture.{pool, labelled, in_batch, by_key_and_effect, never_empty}

abbrev pub Stored : Type 0
Stored = String → Map String

abbrev keys_of : LabelMap → List String
keys_of none = []
keys_of (some m) = map (λ e. e.0) m

abbrev write : String → Option String → Map String → Map String
write k none m = remove k m
write k (some v) m = insert k v m

abbrev pub merge : Node → Node → List String → Map String → Map String
merge old new [] m = m
merge old new (k ∷ ks) m =
    let rest = merge old new ks m in
    if differs k old new then write k (get_label k new.labels) rest else rest

lookup-write :
    (k j : String) (v : Option String) (m : Map String)
    → lookup j (write k v m) ≡ (if k == j then v else lookup j m)
lookup-write k j none m = lookup-remove k j m
lookup-write k j (some v) m = lookup-insert k j v m

abbrev merged : Node → Node → List String → Map String → String → Option String
merged old new ks m j =
    if elem j ks && differs j old new then get_label j new.labels else lookup j m

module _ (old new : Node) (ks : List String) (m rest : Map String)
    (ih : (j : String) → lookup j rest ≡ merged old new ks m j) where
  merge_here :
      (j : String) (b : Bool)
      → differs j old new ≡ b
      → lookup j (if b then write j (get_label j new.labels) rest else rest)
        ≡ (if b then get_label j new.labels else lookup j m)
  merge_here j true e = lookup-write j j (get_label j new.labels) rest ∙ rw (eq_refl j) refl
  merge_here j false e = ih j ∙ rw e (ground arith)

  merge_there :
      (k j : String) (b : Bool)
      → (j == k) ≡ false
      → lookup j (if b then write k (get_label k new.labels) rest else rest) ≡ merged old new ks m j
  merge_there k j true e =
      lookup-write k j (get_label k new.labels) rest ∙ rw (eq_sym k j) (rw e (ih j))
  merge_there k j false e = ih j

lookup-merge :
    (old new : Node) (ks : List String) (m : Map String) (j : String)
    → lookup j (merge old new ks m) ≡ merged old new ks m j
lookup-merge old new [] m j = refl
lookup-merge old new (k ∷ ks) m j = elim (str-cases j k) [
  | inl (e, p) ↦
      subst (λ x. lookup j (merge old new (x ∷ ks) m) ≡ merged old new (x ∷ ks) m j) p
        (rw (eq_refl j) (
          merge_here old new ks m (merge old new ks m) (lookup-merge old new ks m) j
            (differs j old new) refl))
  | inr (e, p) ↦ rw e (
      merge_there old new ks m (merge old new ks m) (lookup-merge old new ks m) k j
        (differs k old new) e)
]

missing_key : (j : String) (l : LabelMap) → elem j (keys_of l) ≡ false → get_label j l ≡ none
unfolding get_label lookup
missing_key j none h = refl
missing_key j (some []) h = refl
missing_key j (some ((k, v) ∷ m)) h = ground (arith, missing_key j (some m), eq_iff k j, eq_iff j k)

elem-append : (j : String) (xs ys : List String) → elem j (xs ++ ys) ≡ (elem j xs || elem j ys)
elem-append j [] ys = refl
elem-append j (x ∷ xs) ys = ground (arith, elem-append j xs ys)

abbrev all_keys : Node → Node → List String
all_keys old new = keys_of old.labels ++ keys_of new.labels

-- The keys of both versions are all that can differ.
unlisted_same :
    (old new : Node) (j : String) → elem j (all_keys old new) ≡ false → differs j old new ≡ false
unlisted_same old new j h = ground (
  arith,
  elem-append j (keys_of old.labels) (keys_of new.labels),
  missing_key j old.labels,
  missing_key j new.labels,
)

abbrev pub copy_of : Stored → String → Node
copy_of w name = labelled name (w name)

abbrev pub names_served : List String
names_served = "n1" ∷ "n2" ∷ "n3" ∷ []

abbrev pub apply_patch : String → Node × Node → Stored → Stored
apply_patch name p w node =
    if name == node then merge p.0 p.1 (all_keys p.0 p.1) (w node) else w node

abbrev pub store : Cluster
store = record {
  World = Stored;
  Doc = Node;
  Patch = Node × Node;
  bytes = λ p. 1 ∷ 2 ∷ 3 ∷ [];
  list_nodes = λ w. (reply (map (copy_of w) names_served), w);
  get_node = λ name w. (reply (copy_of w name), w);
  patch_node = λ name p w. (reply p.1, apply_patch name p w);
  get_nag = λ name w. ((record pool { name = name }, none), w);
  update_nag = λ nag w. (none, w);
  retry_on_conflict = λ f. f;
  marshal_node = λ n. reply n;
  create_two_way_merge_patch = λ x y. reply (x, y);
  match_taint = by_key_and_effect;
}

unlisted_last :
    (a b : Bool) (x y : Option String)
    → (a ≡ false → b ≡ false)
    → (if a && b then x else y) ≡ (if b then x else y)
unlisted_last true b x y h = refl
unlisted_last false b x y h = rw (h refl) refl

patched_at :
    (old new : Node) (w : Stored) (node key : String)
    → lookup key (apply_patch old.name (old, new) w node) ≡ (
        if old.name == node && differs key old new
        then get_label key new.labels
        else lookup key (w node))
patched_at old new w node key = elim (Bool-cases (old.name == node)) [
  | inl e ↦ rw e (
      lookup-merge old new (all_keys old new) (w node) key
      ∙ unlisted_last (elem key (all_keys old new)) (differs key old new) _ _
          (unlisted_same old new key))
  | inr e ↦ rw e refl
]

pub store_patched :
    (old new x y : Node) (p : Node × Node) (w : Stored)
    → reply old ≡ reply x
    → reply new ≡ reply y
    → reply (x, y) ≡ reply p
    → (node key : String)
    → lookup key (apply_patch old.name p w node) ≡ (
        if old.name == node && differs key old new
        then get_label key new.labels
        else lookup key (w node))
store_patched old new x y p w ex ey ep node key =
    let pair : (old, new) ≡ p = cc (ex, ey, ep) in
    subst
      (λ q. lookup key (apply_patch old.name q w node) ≡ (
        if old.name == node && differs key old new
        then get_label key new.labels
        else lookup key (w node)))
      pair (patched_at old new w node key)

pub store_never_empty :
    (old new x y : Node) (p : Node × Node)
    → reply old ≡ reply x
    → reply new ≡ reply y
    → reply (x, y) ≡ reply p
    → is_empty_patch (1 ∷ 2 ∷ 3 ∷ []) ≡ true
    → (key : String) → differs key old new ≡ false
store_never_empty old new x y p ex ey ep e = absurd (cc (e, never_empty))

abbrev pub store-Cooperates : Cooperates store
store-Cooperates = record {
  label_at = λ w node key. lookup key (w node);
  marshals = λ n. (n, refl);
  diffs = λ x y. ((x, y), refl);
  accepts = λ name p w. (p.1, refl);
  patched = store_patched;
  empty = store_never_empty;
}

pub stored-Copies :
    (w : Stored) → All (Copies store store-Cooperates w) (map (copy_of w) names_served)
unfolding get_label
stored-Copies w = (λ key. refl, (λ key. refl, (λ key. refl, tt)))

pub stored_copy : (w : Stored) (name : String) → Copies store store-Cooperates w (copy_of w name)
unfolding get_label
stored_copy w name key = refl

abbrev pub store-ServesNodes : ServesNodes store store-Cooperates
store-ServesNodes = record {
  nodes_at = λ w. map (copy_of w) names_served;
  lists = λ w. refl;
  listing = λ w node key. refl;
  copies = stored-Copies;
  named = λ w. (refl, (refl, (refl, tt)));
  gets = λ name w. (refl, stored_copy w name);
  getting = λ name w node key. refl;
}

-- Two nodes are in `batch`, which is one too many, and one has no assignment.
abbrev pub stored_start : Stored
stored_start node = if node == "n2" then ("role", "worker") ∷ [] else in_batch
