-- ===== src/Units.antt =====
-- internal/units/convert.go: memory and CPU amounts between the API and Kubernetes.
pub mod Order
pub mod RoundTrip
use k8s_container_service_pr.Base.{
  String, Bool, true, false, Option, none, some, List, [], ◌∷◌, Result, ok, err, ◌<>◌, quote,
  Ordering,
}
use k8s_container_service_pr.Base.Int.{ℤ}
use k8s_container_service_pr.Base.Texts.Suffix.{cut_suffix}
use k8s_container_service_pr.Api.{ContainerCpu}

-- What the program uses of `resource.Quantity` of k8s.io/apimachinery.
pub record QuantityLib (Q : Type 0) : Type 0 where
  -- resource.Quantity{}
  pub zero_quantity : Q
  -- *resource.NewQuantity(n, resource.DecimalSI)
  pub new_quantity : ℤ → Q
  -- q.Value()
  pub value : Q → ℤ
  -- resource.ParseQuantity(s), with the text of its error
  pub parse_quantity : String → Result String Q
  -- q.String()
  pub to_string : Q → String
  -- the sign of a.Cmp(b)
  pub cmp : Q → Q → Ordering

-- A Go map, in the order in which a range over it comes to its entries.
abbrev pub UnitMap : Type 0
UnitMap = List (String × String)

abbrev pub api_to_k8s : UnitMap
api_to_k8s = ("MB", "Mi") ∷ ("GB", "Gi") ∷ ("TB", "Ti") ∷ []

abbrev pub k8s_to_api : UnitMap
k8s_to_api = ("Mi", "MB") ∷ ("Gi", "GB") ∷ ("Ti", "TB") ∷ []

-- The loop of both conversions: the first unit whose suffix the text has.
unfoldable pub find_unit {ℓ} : {A : Type ℓ} → UnitMap → String → (String → String → A) → A → A
find_unit [] s found otherwise = otherwise
find_unit ((suffix, unit) ∷ more) s found otherwise = elim (cut_suffix s suffix) [
  | some num_str ↦ found num_str unit
  | none ↦ find_unit more s found otherwise
]

module _ {Q : Type 0} (lib : QuantityLib Q) where
  open lib use {new_quantity, parse_quantity, to_string}

  unfoldable pub convert_cpu : ContainerCpu → Q × Q
  convert_cpu cpu = (new_quantity cpu.min, new_quantity cpu.max)

  -- ConvertMemory, with the order in which the range over the map goes.
  unfoldable pub convert_memory_in : UnitMap → String → Result String Q
  unfolding find_unit
  convert_memory_in order memory_str =
      find_unit order memory_str (λ num_str k8s_unit. parse_quantity (num_str <> k8s_unit))
        (err ("unsupported memory unit in " <> quote memory_str))

  unfoldable pub convert_memory : String → Result String Q
  unfolding convert_memory_in
  convert_memory memory_str = convert_memory_in api_to_k8s memory_str

  -- MemoryQuantityToAPI, with the order of its range.
  unfoldable pub memory_quantity_to_api_in : UnitMap → Q → String
  unfolding find_unit
  memory_quantity_to_api_in order q =
      find_unit order (to_string q) (λ num_str api_unit. num_str <> api_unit) (to_string q)

  unfoldable pub memory_quantity_to_api : Q → String
  unfolding memory_quantity_to_api_in
  memory_quantity_to_api q = memory_quantity_to_api_in k8s_to_api q
