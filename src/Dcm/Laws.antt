-- ===== src/Dcm/Laws.antt =====
-- The labels of internal/dcm/labels.go under mergeLabels of internal/kubernetes/labels.go.
use k8s_container_service_pr.Base.{
  String, true, false, Option, none, some, ◌==◌, ◌≡◌, ◌∙◌, arith, lookup, Bool-cases, if◌then◌else◌,
  inl, inr, Option-cases, eq_iff,
}
use k8s_container_service_pr.Api.{Labels}
use k8s_container_service_pr.Dcm.{
  LabelLib, LabelLaws, is_reserved, labels, merge_labels, matches, instance_labels, managed_labels,
  label_instance_id, label_managed_by, label_service_type,
}

or_else : Option String → Option String → Option String
or_else none o = o
or_else (some v) o = some v

lookup-labels_reserved :
    (k id : String) (other : Option String)
    → is_reserved k ≡ true
    → elim (lookup k (labels id)) as (λ _. Option String) [ none ↦ other | some v ↦ some v ]
      ≡ lookup k (labels id)
unfolding is_reserved labels lookup
lookup-labels_reserved k id other h = ground arith

lookup-labels_free : (k id : String) → is_reserved k ≡ false → lookup k (labels id) ≡ none
unfolding is_reserved labels lookup
lookup-labels_free k id h = ground arith

module _ (lib : LabelLib) (laws : LabelLaws lib) where
  -- A reserved key has DCM's value, whatever the user's labels say.
  pub merge_labels-reserved :
      (k id : String) (user : Labels)
      → is_reserved k ≡ true
      → lookup k (merge_labels lib (labels id) user) ≡ lookup k (labels id)
  unfolding merge_labels
  merge_labels-reserved k id user h =
      laws.lookup-merge k user (labels id) ∙ lookup-labels_reserved k id (lookup k user) h

  -- Any other key has the user's.
  merge_labels-free :
      (k id : String) (user : Labels)
      → is_reserved k ≡ false
      → lookup k (merge_labels lib (labels id) user) ≡ lookup k user
  unfolding merge_labels
  merge_labels-free k id user h =
      laws.lookup-merge k user (labels id) ∙ rw (lookup-labels_free k id h)

  -- A reserved key has DCM's value, whatever the labels of the user, and any other key has the user's.
  pub lookup-merge_labels :
      (k id : String) (user : Labels)
      → lookup k (merge_labels lib (labels id) user)
        ≡ (if is_reserved k then lookup k (labels id) else lookup k user)
  lookup-merge_labels k id user = elim (Bool-cases (is_reserved k)) [
    | inl e ↦ rw e (merge_labels-reserved k id user e)
    | inr e ↦ rw e (merge_labels-free k id user e)
  ]

-- A map with DCM's labels of an instance is selected by the selector of that instance only.
pub matches-instance :
    (m : Labels) (id id' : String)
    → lookup label_instance_id m ≡ some id
    → lookup label_managed_by m ≡ some "dcm"
    → matches (instance_labels id') m ≡ (id == id')
unfolding matches
matches-instance m id id' h k = ground (arith, h, k)

-- It is selected by the selector of all containers.
pub matches-managed :
    (m : Labels)
    → lookup label_managed_by m ≡ some "dcm"
    → lookup label_service_type m ≡ some "container"
    → matches managed_labels m ≡ true
unfolding matches
matches-managed m h k = ground (arith, h, k)

-- No map is selected by the selectors of two instances.
pub matches-other :
    (m : Labels) (id i : String)
    → matches (instance_labels id) m ≡ true
    → (id == i) ≡ false
    → matches (instance_labels i) m ≡ false
unfolding matches
matches-other m id i h other = elim (Option-cases (lookup label_instance_id m)) [
  | inl e ↦ ground (arith, e)
  | inr (v, e) ↦ ground (arith, e, h, other, eq_iff v i, eq_iff v id, eq_iff id i)
]
