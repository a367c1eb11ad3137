-- ===== src/Units/RoundTrip.antt =====
-- Memory amounts that go to Kubernetes and come back.
use Prim.Native.String.{count}
use k8s_container_service_pr.Base.{
  String, none, ok, err, ◌≡◌, ◌≢◌, refl, ◌∙◌, inl, inr, arith, ◌<>◌, eq_iff, quote, Option-cases,
}
use k8s_container_service_pr.Base.Texts.Suffix.{
  cut_suffix, cut_suffix-append, cut_suffix_sound, suffix_unique,
}
use k8s_container_service_pr.Units.{
  QuantityLib, api_to_k8s, k8s_to_api, find_unit, convert_memory, memory_quantity_to_api,
}

-- The units of a memory amount.
pub data MemoryUnit : Type 0 where
  mb gb tb : MemoryUnit

abbrev pub api_suffix : MemoryUnit → String
api_suffix mb = "MB"
api_suffix gb = "GB"
api_suffix tb = "TB"

abbrev pub k8s_suffix : MemoryUnit → String
k8s_suffix mb = "Mi"
k8s_suffix gb = "Gi"
k8s_suffix tb = "Ti"

cut_suffix-other : (num s t : String) → count s ≡ count t → (s ≢ t) → cut_suffix (num <> s) t ≡ none
cut_suffix-other num s t n ne = elim (Option-cases (cut_suffix (num <> s) t)) [
  | inl x ↦ x
  | inr (w, x) ↦ absurd (ne (suffix_unique num w s t (cut_suffix_sound (num <> s) t w x) n).1)
]

module _ {A : Type 0} (num : String) (found : String → String → A) (otherwise : A) where
  find_unit-api :
      (u : MemoryUnit)
      → find_unit api_to_k8s (num <> api_suffix u) found otherwise ≡ found num (k8s_suffix u)
  unfolding find_unit
  find_unit-api mb = rw (find_unit, cut_suffix-append num "MB")
  find_unit-api gb = rw (
    find_unit,
    cut_suffix-other num "GB" "MB" refl (λ p. ground (arith, eq_iff "GB" "MB")),
    find_unit,
    cut_suffix-append num "GB",
  )
  find_unit-api tb = rw (
    find_unit,
    cut_suffix-other num "TB" "MB" refl (λ p. ground (arith, eq_iff "TB" "MB")),
    find_unit,
    cut_suffix-other num "TB" "GB" refl (λ p. ground (arith, eq_iff "TB" "GB")),
    find_unit,
    cut_suffix-append num "TB",
  )

  find_unit-k8s :
      (u : MemoryUnit)
      → find_unit k8s_to_api (num <> k8s_suffix u) found otherwise ≡ found num (api_suffix u)
  unfolding find_unit
  find_unit-k8s mb = rw (find_unit, cut_suffix-append num "Mi")
  find_unit-k8s gb = rw (
    find_unit,
    cut_suffix-other num "Gi" "Mi" refl (λ p. ground (arith, eq_iff "Gi" "Mi")),
    find_unit,
    cut_suffix-append num "Gi",
  )
  find_unit-k8s tb = rw (
    find_unit,
    cut_suffix-other num "Ti" "Mi" refl (λ p. ground (arith, eq_iff "Ti" "Mi")),
    find_unit,
    cut_suffix-other num "Ti" "Gi" refl (λ p. ground (arith, eq_iff "Ti" "Gi")),
    find_unit,
    cut_suffix-append num "Ti",
  )

-- ConvertMemory parses the amount with the binary unit in place of the decimal one.
pub convert_memory-unit :
    {Q : Type 0} (lib : QuantityLib Q) (num : String) (u : MemoryUnit)
    → convert_memory lib (num <> api_suffix u) ≡ lib.parse_quantity (num <> k8s_suffix u)
unfolding convert_memory
convert_memory-unit lib num u =
    find_unit-api num (λ n k. lib.parse_quantity (n <> k))
      (err ("unsupported memory unit in " <> quote (num <> api_suffix u))) u

-- Where the quantity of an amount prints in the unit that it was given in, ConvertMemory makes that
-- quantity of the amount and MemoryQuantityToAPI gives the amount back.
pub memory_round_trip :
    {Q : Type 0} (lib : QuantityLib Q) (num : String) (u : MemoryUnit) (q : Q)
    → lib.parse_quantity (num <> k8s_suffix u) ≡ ok q
    → lib.to_string q ≡ num <> k8s_suffix u
    → (convert_memory lib (num <> api_suffix u) ≡ ok q)
      × (memory_quantity_to_api lib q ≡ num <> api_suffix u)
unfolding memory_quantity_to_api
memory_round_trip lib num u q h p =
    (convert_memory-unit lib num u ∙ h, rw p (find_unit-k8s num ◌<>◌ (num <> k8s_suffix u) u))
