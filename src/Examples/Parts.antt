-- ===== src/Examples/Parts.antt =====
-- Runs of the parts that need no cluster.
use k8s_container_service_pr.Base.{
  ◌↔◌, String, some, [], ◌∷◌, ◌≡◌, refl, ok, arith, lookup, All, List, if◌then◌else◌,
}
use mathlib.Core.List.{Memᴰ}
use k8s_container_service_pr.Dcm
use k8s_container_service_pr.Dcm.Laws.{lookup-merge_labels}
use k8s_container_service_pr.Units.{
  convert_memory, convert_memory_in, memory_quantity_to_api, memory_quantity_to_api_in, UnitMap,
}
use k8s_container_service_pr.Units.Order.{orders-irrelevant}
use k8s_container_service_pr.Units.RoundTrip.{memory_round_trip, mb}
use k8s_container_service_pr.Kube.Memory.Selectors.{memory_labels, memory_label_laws}
use k8s_container_service_pr.Kubernetes.Paging.Pages.{follow, follow_all}
use k8s_container_service_pr.Handlers.Validation.{validate_user_labels, json_pointer_escape}
use k8s_container_service_pr.Handlers.Validation.UserLabels.{IsFree, validate_user_labels_iff}
use k8s_container_service_pr.Kubernetes.Build.{build_container}
use k8s_container_service_pr.Kubernetes.Convert.{resources_from_container}
use k8s_container_service_pr.Kubernetes.Build.RoundTrip.{resources_from_container-build_container}
use Prim.Native.String.{compare}
use k8s_container_service_pr.Units.{QuantityLib}
use k8s_container_service_pr.Base.{◌⊎◌, inl, inr}
use k8s_container_service_pr.Base.Int.{ℤ, pos, itoa_ℤ}
use k8s_container_service_pr.Units.RoundTrip.{gb}
use k8s_container_service_pr.Examples.Fixtures.{web_spec}
use k8s_container_service_pr.Handlers.Validation.Pointers.{
  json_pointer_unescape, json_pointer_round_trip,
}
use k8s_container_service_pr.Examples.Fixtures.{text_quantities}

abbrev user_labels : List (String × String)
user_labels = ("dcm.project/managed-by", "me") ∷ ("tier", "front") ∷ []

lookup-merge_labels_example :
    lookup "dcm.project/managed-by" (Dcm.merge_labels memory_labels (Dcm.labels "c1") user_labels)
    ≡ (if Dcm.is_reserved "dcm.project/managed-by"
        then lookup "dcm.project/managed-by" (Dcm.labels "c1")
        else lookup "dcm.project/managed-by" user_labels)
lookup-merge_labels_example =
    lookup-merge_labels memory_labels memory_label_laws "dcm.project/managed-by" "c1" user_labels

memory_round_trip_example :
    (convert_memory text_quantities "512MB" ≡ ok "512Mi")
    × (memory_quantity_to_api text_quantities "512Mi" ≡ "512MB")
memory_round_trip_example = memory_round_trip text_quantities "512" mb "512Mi" refl refl

abbrev api_reordered : UnitMap
api_reordered = ("TB", "Ti") ∷ ("MB", "Mi") ∷ ("GB", "Gi") ∷ []

abbrev k8s_reordered : UnitMap
k8s_reordered = ("Ti", "TB") ∷ ("Mi", "MB") ∷ ("Gi", "GB") ∷ []

-- A list of three turned by one place has the same members.
turned : {A : Type 0} {x y z : A} → (e : A) → Memᴰ e (z ∷ x ∷ y ∷ []) → Memᴰ e (x ∷ y ∷ z ∷ [])
turned e (Memᴰ.head p) = Memᴰ.tail (Memᴰ.tail (Memᴰ.head p))
turned e (Memᴰ.tail (Memᴰ.head p)) = Memᴰ.head p
turned e (Memᴰ.tail (Memᴰ.tail (Memᴰ.head p))) = Memᴰ.tail (Memᴰ.head p)
turned e (Memᴰ.tail (Memᴰ.tail (Memᴰ.tail h))) = elim h [ ]

turned_back : {A : Type 0} {x y z : A} → (e : A) → Memᴰ e (x ∷ y ∷ z ∷ []) → Memᴰ e (z ∷ x ∷ y ∷ [])
turned_back e (Memᴰ.head p) = Memᴰ.tail (Memᴰ.head p)
turned_back e (Memᴰ.tail (Memᴰ.head p)) = Memᴰ.tail (Memᴰ.tail (Memᴰ.head p))
turned_back e (Memᴰ.tail (Memᴰ.tail (Memᴰ.head p))) = Memᴰ.head p
turned_back e (Memᴰ.tail (Memᴰ.tail (Memᴰ.tail h))) = elim h [ ]

orders-irrelevant_example :
    (convert_memory_in text_quantities api_reordered "2GB" ≡ convert_memory text_quantities "2GB")
    × (memory_quantity_to_api_in text_quantities k8s_reordered "2Gi"
        ≡ memory_quantity_to_api text_quantities "2Gi")
orders-irrelevant_example =
    orders-irrelevant text_quantities api_reordered k8s_reordered "2GB" "2Gi" (turned, turned_back)
      (turned, turned_back)

follow_all_example :
    follow {A = String} 6 2 "" ("a" ∷ "b" ∷ "c" ∷ "d" ∷ "e" ∷ [])
    ≡ some ("a" ∷ "b" ∷ "c" ∷ "d" ∷ "e" ∷ [])
follow_all_example =
    follow_all {A = String} 2 ("a" ∷ "b" ∷ "c" ∷ "d" ∷ "e" ∷ []) (omega arith) (omega arith)

json_pointer_round_trip_example : json_pointer_unescape (json_pointer_escape "app/~v") ≡ "app/~v"
json_pointer_round_trip_example = json_pointer_round_trip "app/~v"

validate_user_labels_iff_example :
    (validate_user_labels (some (("tier", "front") ∷ [])) ≡ [])
    ↔ All (IsFree (("tier", "front") ∷ [])) Dcm.reserved_label_keys
validate_user_labels_iff_example = validate_user_labels_iff (("tier", "front") ∷ [])

abbrev number_of : ℤ ⊎ String → ℤ
number_of (inl n) = n
number_of (inr s) = pos 0

abbrev text_of : ℤ ⊎ String → String
text_of (inl n) = itoa_ℤ n
text_of (inr s) = s

abbrev exact_quantities : QuantityLib (ℤ ⊎ String)
exact_quantities = record {
  zero_quantity = inl (pos 0);
  new_quantity = λ n. inl n;
  value = number_of;
  parse_quantity = λ s. ok (inr s);
  to_string = text_of;
  cmp = λ a b. compare (text_of a) (text_of b);
}

resources_from_container-build_container_example :
    resources_from_container exact_quantities (build_container exact_quantities web_spec)
    ≡ web_spec.resources
resources_from_container-build_container_example =
    resources_from_container-build_container exact_quantities web_spec (λ n. refl)
      ("1", gb, inr "1Gi", refl, refl, refl) ("2", gb, inr "2Gi", refl, refl, refl)
