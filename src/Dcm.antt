-- ===== src/Dcm.antt =====
-- internal/dcm/labels.go and the wrappers of internal/kubernetes/labels.go: the labels by which the
-- provider marks and finds its objects.

pub mod Laws
use k8s_container_service_pr.Base.{
  Bool, true, false, ◌||◌, String, ◌==◌, Option, none, some, List, [], ◌∷◌, if◌then◌else◌, any, ◌≡◌,
  lookup,
}
use k8s_container_service_pr.Api.{Labels}

abbrev pub label_managed_by : String
label_managed_by = "dcm.project/managed-by"

abbrev pub label_instance_id : String
label_instance_id = "dcm.project/dcm-instance-id"

abbrev pub label_service_type : String
label_service_type = "dcm.project/dcm-service-type"

abbrev pub value_managed_by_dcm : String
value_managed_by_dcm = "dcm"

abbrev pub value_service_type : String
value_service_type = "container"

abbrev pub reserved_label_keys : List String
reserved_label_keys = label_managed_by ∷ label_instance_id ∷ label_service_type ∷ []

unfoldable pub is_reserved : String → Bool
is_reserved k = any (λ r. r == k) reserved_label_keys

unfoldable pub labels : String → Labels
labels instance_id =
    (label_managed_by, value_managed_by_dcm)
    ∷ (label_instance_id, instance_id)
    ∷ (label_service_type, value_service_type)
    ∷ []

-- A label is there with a value.
unfoldable pub has_label : Labels → String × String → Bool
unfolding lookup
has_label m (k, v) = elim (lookup k m) [ none ↦ false | some w ↦ w == v ]

abbrev all_labels : Labels → Labels → Bool
all_labels [] m = true
all_labels (e ∷ sel) m = if has_label m e then all_labels sel m else false

-- The objects that an equality selector selects: those whose labels include its pairs.
unfoldable pub matches : Labels → Labels → Bool
unfolding has_label
matches sel m = all_labels sel m

-- What the program uses of `labels` of k8s.io/apimachinery: the union of two maps, and the selector
-- text of a map.
pub record LabelLib : Type 0 where
  pub merge : Labels → Labels → Labels
  pub set_string : Labels → String

-- As documented: on a conflict the second map wins, and the selector text of a map is read back by
-- the API server as that map.
pub record LabelLaws (lib : LabelLib) : Type 0 where
  pub lookup-merge :
      (k : String) (a b : Labels)
      → lookup k (lib.merge a b) ≡ (elim (lookup k b) [ none ↦ lookup k a | some v ↦ some v ])

-- The maps of InstanceSelector and of Selector.
abbrev pub instance_labels : String → Labels
instance_labels instance_id =
    (label_instance_id, instance_id) ∷ (label_managed_by, value_managed_by_dcm) ∷ []

abbrev pub managed_labels : Labels
managed_labels =
    (label_managed_by, value_managed_by_dcm) ∷ (label_service_type, value_service_type) ∷ []

module _ (lib : LabelLib) where
  unfoldable pub instance_selector : String → String
  instance_selector instance_id = lib.set_string (instance_labels instance_id)

  unfoldable pub selector : String
  selector = lib.set_string managed_labels

  -- mergeLabels of internal/kubernetes/labels.go: the base labels win.
  unfoldable pub merge_labels : Labels → Labels → Labels
  merge_labels base user = lib.merge user base
