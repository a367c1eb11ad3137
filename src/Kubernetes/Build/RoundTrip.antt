-- ===== src/Kubernetes/Build/RoundTrip.antt =====
-- The resources of a specification through the container of a deployment and back.
use k8s_container_service_pr.Base.{String, ◌≡◌, ◌<>◌, refl, sym, ap, ◌∙◌, none, ok, lookup}
use k8s_container_service_pr.Base.Int.{ℤ}
use k8s_container_service_pr.Api.{ContainerSpec, ContainerResources}
use k8s_container_service_pr.Units.{
  QuantityLib, convert_memory, memory_quantity_to_api, convert_cpu,
}
use k8s_container_service_pr.Units.RoundTrip.{MemoryUnit, api_suffix, k8s_suffix, memory_round_trip}
use k8s_container_service_pr.Kubernetes.Convert.{resources_from_container}
use k8s_container_service_pr.Kubernetes.Build.{build_container}

-- Resources without the additional properties, which no deployment keeps.
abbrev pub declared : ContainerResources → ContainerResources
declared r = record {
  cpu = record r.cpu { additional_properties = none };
  memory = record r.memory { additional_properties = none };
  additional_properties = none;
}

module _ {Q : Type 0} (lib : QuantityLib Q) where
  -- An amount of memory in a unit that its quantity prints in.
  abbrev pub IsExact : String → Type 0
  IsExact s =
      (num : String) × (u : MemoryUnit) × (q : Q) × (s ≡ num <> api_suffix u)
      × (lib.parse_quantity (num <> k8s_suffix u) ≡ ok q)
      × (lib.to_string q ≡ num <> k8s_suffix u)

  exact_quantity :
      (s : String)
      → IsExact s
      → (q : Q) × (convert_memory lib s ≡ ok q) × (memory_quantity_to_api lib q ≡ s)
  exact_quantity s (num, u, q, e, parsed, printed) =
      let (there, back) = memory_round_trip lib num u q parsed printed in
      (q, ap (convert_memory lib) e ∙ there, back ∙ sym e)

  -- The resources that are read from the container of a deployment are those of the specification that
  -- it was built from, without additional properties, where the library of quantities gives the number back that a quantity was made
  -- of, and both amounts of memory are in units that their quantities print in.
  pub resources_from_container-build_container :
      (spec : ContainerSpec)
      → ((n : ℤ) → lib.value (lib.new_quantity n) ≡ n)
      → IsExact spec.resources.memory.min
      → IsExact spec.resources.memory.max
      → resources_from_container lib (build_container lib spec) ≡ declared spec.resources
  unfolding resources_from_container build_container convert_cpu lookup
  resources_from_container-build_container spec values min_exact max_exact =
      let (lo, lo_there, lo_back) = exact_quantity spec.resources.memory.min min_exact in
      let (hi, hi_there, hi_back) = exact_quantity spec.resources.memory.max max_exact in
      rw
        (
          lo_there,
          hi_there,
          lo_back,
          hi_back,
          values spec.resources.cpu.min,
          values spec.resources.cpu.max,
        )
        refl
