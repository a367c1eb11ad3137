-- ===== src/Kubernetes/Paging/Sorted.antt =====
-- sort.Slice of List in internal/kubernetes/store_list.go: the sort by name.
use k8s_container_service_pr.Base.{List, All}
use mathlib.Core.List.{Permᴰ}
use mathlib.Core.List.Permᴰ
use k8s_container_service_pr.Kube.{Deployment}
use k8s_container_service_pr.Kube.Distinct.{Distinct}

module _ {Q : Type 0} where
  -- What holds of all of the first list holds of all of the second.
  abbrev Covers : List (Deployment Q) → List (Deployment Q) → Type 1
  Covers xs ys = (P : Deployment Q → Type 0) → All P xs → All P ys
