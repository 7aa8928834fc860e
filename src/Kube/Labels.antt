-- ===== src/Kube/Labels.antt =====
-- Reads and writes of a Go label map that may be nil.
use kube_valet.Prelude.{
  String, ◌≡◌, ap, ◌∙◌, eq_refl, Option, none, some, arith, ◌==◌, if◌then◌else◌, Map, lookup,
  insert, remove, lookup-insert, remove-insert, map_laws,
}
use kube_valet.Outcome.{Outcome, ok, panic}
use kube_valet.Kube.Objects.{LabelMap}

-- `m[k]`: a nil map has no keys.
unfoldable pub get_label : String → LabelMap → Option String
get_label k none = none
get_label k (some m) = lookup k m

-- `m[k] = v`: a write to a nil map panics.
unfoldable pub put_label : String → String → LabelMap → Outcome LabelMap
put_label k v none = panic
put_label k v (some m) = ok (some (insert k v m))

-- `delete(m, k)`: nothing happens to a nil map.
unfoldable pub delete_label : String → LabelMap → LabelMap
delete_label k none = none
delete_label k (some m) = some (remove k m)

pub get-put_label :
    (k j v : String) (m l : LabelMap)
    → put_label k v m ≡ ok l
    → get_label j l ≡ (if k == j then some v else get_label j m)
unfolding get_label put_label
get-put_label k j v none l h = ground arith
get-put_label k j v (some m) none h = ground arith
get-put_label k j v (some m) (some l) h = ground (arith, lookup-insert k j v m)

pub get-delete_label :
    (k j : String) (m : LabelMap)
    → get_label j (delete_label k m) ≡ (if k == j then none else get_label j m)
unfolding get_label delete_label
get-delete_label k j none = ground arith
get-delete_label k j (some m) = simp map_laws

pub delete-put_label :
    (k v : String) (m l : LabelMap) → put_label k v m ≡ ok l → delete_label k l ≡ delete_label k m
unfolding put_label delete_label
delete-put_label k v none l h = ground arith
delete-put_label k v (some m) none h = ground arith
delete-put_label k v (some m) (some l) h = ground (arith, remove-insert k v m)

pub get_label-insert : (k v : String) (m : Map String) → get_label k (some (insert k v m)) ≡ some v
unfolding get_label
get_label-insert k v m =
    lookup-insert k k v m ∙ ap (λ b. if b then some v else lookup k m) (eq_refl k)
