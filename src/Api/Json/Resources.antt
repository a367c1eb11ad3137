-- ===== src/Api/Json/Resources.antt =====
-- The JSON methods of ContainerCpu, ContainerMemory and ContainerResources.
use k8s_container_service_pr.Base.{String, refl, none, [], Result, ok}
use k8s_container_service_pr.Base.Int.{pos}
use k8s_container_service_pr.Api.{ContainerCpu, ContainerMemory, ContainerResources}
use k8s_container_service_pr.Api.Json.{
  JsonLib, Additional, ◌>>=◌, read_field, read_additional, put, write_additional, by_method,
}

-- Each instance gives its type the methods Get and Set.
instance abbrev pub cpu_additional : Additional ContainerCpu
cpu_additional = record {
  properties = λ a. a.additional_properties;
  with_properties = λ m a. record a { additional_properties = m };
  properties-with_properties = λ m a. refl;
}

instance abbrev pub memory_additional : Additional ContainerMemory
memory_additional = record {
  properties = λ a. a.additional_properties;
  with_properties = λ m a. record a { additional_properties = m };
  properties-with_properties = λ m a. refl;
}

instance abbrev pub resources_additional : Additional ContainerResources
resources_additional = record {
  properties = λ a. a.additional_properties;
  with_properties = λ m a. record a { additional_properties = m };
  properties-with_properties = λ m a. refl;
}

-- The zero values of the types.
abbrev pub zero_cpu : ContainerCpu
zero_cpu = record { max = pos 0; min = pos 0; additional_properties = none }

abbrev pub zero_memory : ContainerMemory
zero_memory = record { max = ""; min = ""; additional_properties = none }

abbrev pub zero_resources : ContainerResources
zero_resources = record { cpu = zero_cpu; memory = zero_memory; additional_properties = none }

module _ (lib : JsonLib) where
  unfoldable pub unmarshal_cpu : ContainerCpu → String → Result String ContainerCpu
  unfolding read_field read_additional
  unmarshal_cpu a b = do
    object ← lib.unmarshal_object b
    (max, without_max) ← read_field "max" (lib.unmarshal_int a.max) a.max object
    (min, rest) ← read_field "min" (lib.unmarshal_int a.min) a.min without_max
    additional ← read_additional lib a.additional_properties rest
    ok (record { max = max; min = min; additional_properties = additional })

  unfoldable pub marshal_cpu : ContainerCpu → Result String String
  unfolding write_additional
  marshal_cpu a = do
    with_max ← put lib "max" (lib.marshal_int a.max) []
    object ← put lib "min" (lib.marshal_int a.min) with_max
    all ← write_additional lib a.additional_properties object
    lib.marshal_object all

  unfoldable pub unmarshal_memory : ContainerMemory → String → Result String ContainerMemory
  unfolding read_field read_additional
  unmarshal_memory a b = do
    object ← lib.unmarshal_object b
    (max, without_max) ← read_field "max" (lib.unmarshal_string a.max) a.max object
    (min, rest) ← read_field "min" (lib.unmarshal_string a.min) a.min without_max
    additional ← read_additional lib a.additional_properties rest
    ok (record { max = max; min = min; additional_properties = additional })

  unfoldable pub marshal_memory : ContainerMemory → Result String String
  unfolding write_additional
  marshal_memory a = do
    with_max ← put lib "max" (lib.marshal_string a.max) []
    object ← put lib "min" (lib.marshal_string a.min) with_max
    all ← write_additional lib a.additional_properties object
    lib.marshal_object all

  unfoldable pub unmarshal_resources :
      ContainerResources → String → Result String ContainerResources
  unfolding read_field read_additional unmarshal_cpu unmarshal_memory
  unmarshal_resources a b = do
    object ← lib.unmarshal_object b
    (cpu, without_cpu) ← read_field "cpu" (unmarshal_cpu a.cpu) a.cpu object
    (memory, rest) ← read_field "memory" (unmarshal_memory a.memory) a.memory without_cpu
    additional ← read_additional lib a.additional_properties rest
    ok (record { cpu = cpu; memory = memory; additional_properties = additional })

  unfoldable pub marshal_resources : ContainerResources → Result String String
  unfolding write_additional marshal_cpu marshal_memory
  marshal_resources a = do
    with_cpu ← put lib "cpu" (by_method lib (marshal_cpu a.cpu)) []
    object ← put lib "memory" (by_method lib (marshal_memory a.memory)) with_cpu
    all ← write_additional lib a.additional_properties object
    lib.marshal_object all
