-- ===== src/Examples/Fixture.antt =====
-- A group with two assignments and a default, three nodes, and an API server that keeps the labels
-- of its nodes as a function.
use kube_valet.Finalizers.Kept.{StoresNags}
use kube_valet.NodeAssignments.Deletion.Calls.{KeepsGroups}
use kube_valet.Finalizers.Kept.{KeepsLabels}
use kube_valet.Prelude.{
  String, ◌≡◌, refl, Bool, true, false, Option, none, some, List, [], ◌∷◌, ◌==◌, ◌&&◌, subst,
  if◌then◌else◌, ℤ, pos, Map, str-cases, inl, inr,
}
use kube_valet.Kube.Objects.{Taint, Node}
use kube_valet.Kube.Labels.{get_label}
use kube_valet.Kube.Cluster.{Cluster, reply}
use kube_valet.Kube.Cooperation.{Cooperates, differs}
use kube_valet.Assignments.Types.{NodeAssignment, NodeAssignmentGroup}
use kube_valet.Utils.{is_empty_patch}

abbrev pub assignment : String → String → ℤ → ℤ → NodeAssignment
assignment name mode num percent = record {
  name = name;
  mode = mode;
  taint_effect = "";
  num_desired = num;
  percent_desired = percent;
  scheduling_mode = "";
  pack_left = none;
}

abbrev pub web : NodeAssignment
web = assignment "web" "LabelAndTaint" (pos 0) (pos 50)

abbrev pub batch : NodeAssignment
batch = assignment "batch" "" (pos 1) (pos 0)

abbrev pub spare : NodeAssignment
spare = assignment "spare" "LabelOnly" (pos 0) (pos 0)

abbrev pub pool : NodeAssignmentGroup
pool = record {
  name = "pool";
  uid = "1";
  resource_version = "7";
  deleting = false;
  finalizers = [];
  target_labels = ("role", "worker") ∷ [];
  default_assignment = some spare;
  assignments = web ∷ batch ∷ [];
}

abbrev pub labelled : String → List (String × String) → Node
labelled name labels = record {
  name = name;
  labels = some labels;
  taints = [];
  unschedulable = false;
  conditions = [];
  allocatable_memory = pos 1000;
  allocatable_milli_cpu = pos 1000;
}

abbrev pub in_batch : Map String
in_batch = ("role", "worker") ∷ ("nag.assignments.kube-valet.io/pool", "batch") ∷ []

abbrev pub first : Node
first = labelled "n1" in_batch

abbrev pub second : Node
second = labelled "n2" (("role", "worker") ∷ [])

abbrev pub third : Node
third = labelled "n3" in_batch

abbrev pub nodes : List Node
nodes = first ∷ second ∷ third ∷ []

pub record Server : Type 0 where
  pub labels : String → String → Option String
  pub nags : String → NodeAssignmentGroup

abbrev pub by_key_and_effect : Taint → Taint → Bool
by_key_and_effect a b = (a.key == b.key) && (a.effect == b.effect)

abbrev pub patched_labels : String → Node × Node → Server → String → String → Option String
patched_labels name p w node key =
    if name == node && differs key p.0 p.1 then get_label key p.1.labels else w.labels node key

-- A document is the node itself and a patch the pair of both versions, whose text is never short.
abbrev pub server : Cluster
server = record {
  World = Server;
  Doc = Node;
  Patch = Node × Node;
  bytes = λ p. 1 ∷ 2 ∷ 3 ∷ [];
  list_nodes = λ w. (reply nodes, w);
  get_node = λ name w. (reply first, w);
  patch_node = λ name p w. (reply p.1, record w { labels = patched_labels name p w });
  get_nag = λ name w. ((record (w.nags name) { name = name }, none), w);
  update_nag = λ nag w. (none, record w { nags = λ j. if nag.name == j then nag else w.nags j });
  retry_on_conflict = λ f. f;
  marshal_node = λ n. reply n;
  create_two_way_merge_patch = λ x y. reply (x, y);
  match_taint = by_key_and_effect;
}

pub server_patched :
    (old new x y : Node) (p : Node × Node) (w : Server)
    → reply old ≡ reply x
    → reply new ≡ reply y
    → reply (x, y) ≡ reply p
    → (node key : String)
    → patched_labels old.name p w node key ≡ (
        if old.name == node && differs key old new
        then get_label key new.labels
        else w.labels node key)
server_patched old new x y p w ex ey ep node key =
    subst
      (λ q. patched_labels old.name q w node key ≡ patched_labels old.name (old, new) w node key)
      pair refl
  where
    pair : (old, new) ≡ p
    pair = cc (ex, ey, ep)

pub never_empty : is_empty_patch (1 ∷ 2 ∷ 3 ∷ []) ≡ false
unfolding is_empty_patch
never_empty = refl

pub server_never_empty :
    (old new x y : Node) (p : Node × Node)
    → reply old ≡ reply x
    → reply new ≡ reply y
    → reply (x, y) ≡ reply p
    → is_empty_patch (1 ∷ 2 ∷ 3 ∷ []) ≡ true
    → (key : String) → differs key old new ≡ false
server_never_empty old new x y p ex ey ep e = absurd (cc (e, never_empty))

abbrev pub server-Cooperates : Cooperates server
server-Cooperates = record {
  label_at = λ w. w.labels;
  marshals = λ n. (n, refl);
  diffs = λ x y. ((x, y), refl);
  accepts = λ name p w. (p.1, refl);
  patched = server_patched;
  empty = server_never_empty;
}

abbrev pub at_start : Server
at_start = record {
  labels = λ node key.
      if node == "n1"
      then get_label key (some in_batch)
      else if node == "n3"
      then get_label key (some in_batch)
      else if key == "role"
      then some "worker"
      else none;
  nags = λ name. pool;
}

pub stored :
    (nag : NodeAssignmentGroup) (w : Server) (name : String)
    → record (if nag.name == name then nag else w.nags name) { name = name }
      ≡ (if nag.name == name then nag else record (w.nags name) { name = name })
stored nag w name = elim (str-cases nag.name name) [
  | inl (e, p) ↦ rw e (subst (λ n. record nag { name = n } ≡ nag) p refl)
  | inr (e, p) ↦ rw e refl
]

abbrev pub server-StoresNags : StoresNags server
server-StoresNags = record {
  nag_at = λ w name. record (w.nags name) { name = name };
  named = λ w name. refl;
  reads = λ name w. (refl, refl);
  updates = λ nag w. (refl, stored nag w);
  first_success = λ f w h. refl;
}

abbrev pub server-KeepsGroups : KeepsGroups server server-StoresNags
server-KeepsGroups = record {
  lists = λ w. (nodes, refl);
  listing = λ w name. refl;
  patching = λ node p w name. refl;
}

abbrev pub server-KeepsLabels : KeepsLabels server server-Cooperates
server-KeepsLabels = record { updating = λ nag w node key. refl }
