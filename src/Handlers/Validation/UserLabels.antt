-- ===== src/Handlers/Validation/UserLabels.antt =====
-- The check of the labels that a user gives.
use k8s_container_service_pr.Base.{
  String, none, some, List, [], ◌∷◌, ◌≡◌, ◌↔◌, refl, All, lookup, Option-cases, inl, inr,
}
use k8s_container_service_pr.Api.{Labels}
use k8s_container_service_pr.Dcm
use k8s_container_service_pr.Handlers.Validation.{
  validate_user_labels, reserved_labels_in, sort_strings,
}

abbrev pub IsFree : Labels → String → Type 0
IsFree m k = lookup k m ≡ none

cons≢nil : {A : Type 0} {x : A} {xs : List A} → x ∷ xs ≡ [] → ⊥
cons≢nil h = cc

reserved_labels_in-nil :
    (ks : List String) (m : Labels) → reserved_labels_in ks m ≡ [] → All (IsFree m) ks
unfolding reserved_labels_in
reserved_labels_in-nil [] m h = tt
reserved_labels_in-nil (k ∷ ks) m h = elim (Option-cases (lookup k m)) [
  | inl e ↦ (e, reserved_labels_in-nil ks m (rw e at h))
  | inr (v, e) ↦ absurd (cons≢nil (rw e at h))
]

reserved_labels_in-IsFree :
    (ks : List String) (m : Labels) → All (IsFree m) ks → reserved_labels_in ks m ≡ []
unfolding reserved_labels_in
reserved_labels_in-IsFree [] m h = refl
reserved_labels_in-IsFree (k ∷ ks) m h = rw h.0 (reserved_labels_in-IsFree ks m h.1)

-- The labels of a user are accepted exactly when none of them has a reserved key.
pub validate_user_labels_iff :
    (m : Labels) → (validate_user_labels (some m) ≡ []) ↔ All (IsFree m) Dcm.reserved_label_keys
unfolding validate_user_labels sort_strings
validate_user_labels_iff m = (
  (λ h.
      let found = reserved_labels_in-nil (sort_strings Dcm.reserved_label_keys) m h in
      (found.1.1.0, (found.0, (found.1.0, tt)))),
  (λ h.
      reserved_labels_in-IsFree (sort_strings Dcm.reserved_label_keys) m
        (h.1.0, (h.1.1.0, (h.0, tt)))),
)
