-- ===== src/Api.antt =====
-- The resource types of the HTTP API (api/v1alpha1/types.gen.go). A Go string type with named values
-- is a text, a pointer is an Option, a map is a list of pairs read by its first match, and a time
-- counts nanoseconds from Go's zero time.
pub mod Enums
pub mod Paths
pub mod Json
use k8s_container_service_pr.Base.{ℕ, String, Bool, Option, List}
use k8s_container_service_pr.Base.Int.{ℤ}
use k8s_container_service_pr.Api.Enums.{
  ContainerPortVisibility, ContainerSpecServiceType, ContainerStatus, ErrorType, ServiceInfoType,
}

abbrev pub Time : Type 0
Time = ℕ

abbrev pub Labels : Type 0
Labels = List (String × String)

-- What encoding/json stores in an `interface{}`; a float64 is its bit pattern.
mutual
  pub data AnyValue : Type 0 where
    nil_value : AnyValue
    bool_value : Bool → AnyValue
    float64_value : ℕ → AnyValue
    string_value : String → AnyValue
    list_value : AnyValues → AnyValue
    map_value : AnyFields → AnyValue

  pub data AnyValues : Type 0 where
    no_values : AnyValues
    value_and : AnyValue → AnyValues → AnyValues

  pub data AnyFields : Type 0 where
    no_fields : AnyFields
    field_and : String → AnyValue → AnyFields → AnyFields

-- map[string]interface{}, `none` where it is nil.
abbrev pub AnyMap : Type 0
AnyMap = Option (List (String × AnyValue))

pub record ContainerCpu : Type 0 where
  pub max : ℤ
  pub min : ℤ
  pub additional_properties : AnyMap

pub record ContainerEnvVar : Type 0 where
  pub name : String
  pub value : String
  pub additional_properties : AnyMap

pub record ContainerImage : Type 0 where
  pub reference : String
  pub additional_properties : AnyMap

pub record ContainerMemory : Type 0 where
  pub max : String
  pub min : String
  pub additional_properties : AnyMap

pub record ContainerMetadata : Type 0 where
  pub labels : Option Labels
  pub name : String
  pub namespace : Option String

pub record ContainerPort : Type 0 where
  pub container_port : ℤ
  pub visibility : ContainerPortVisibility
  pub additional_properties : AnyMap

pub record ContainerNetwork : Type 0 where
  pub ip : Option String
  pub ports : Option (List ContainerPort)
  pub additional_properties : AnyMap

pub record ContainerProcess : Type 0 where
  pub args : Option (List String)
  pub command : Option (List String)
  pub env : Option (List ContainerEnvVar)
  pub additional_properties : AnyMap

pub record ContainerResources : Type 0 where
  pub cpu : ContainerCpu
  pub memory : ContainerMemory
  pub additional_properties : AnyMap

pub record ContainerSpec : Type 0 where
  pub image : ContainerImage
  pub metadata : ContainerMetadata
  pub network : Option ContainerNetwork
  pub process : Option ContainerProcess
  pub provider_hints : AnyMap
  pub resources : ContainerResources
  pub service_type : ContainerSpecServiceType

pub record ServicePort : Type 0 where
  pub port : ℤ
  pub protocol : Option String
  pub target_port : ℤ

pub record ServiceInfo : Type 0 where
  pub cluster_ip : Option String
  pub external_ip : Option String
  pub name : Option String
  pub ports : Option (List ServicePort)
  pub type_ : Option ServiceInfoType

pub record Container : Type 0 where
  pub create_time : Option Time
  pub id : Option String
  pub path : Option String
  pub service : Option ServiceInfo
  pub spec : ContainerSpec
  pub status : Option ContainerStatus
  pub update_time : Option Time

pub record ContainerList : Type 0 where
  pub containers : Option (List Container)
  pub next_page_token : Option String

pub record ErrorDetail : Type 0 where
  pub detail : String
  pub pointer : Option String

-- The RFC 9457 problem body.
pub record Error : Type 0 where
  pub detail : Option String
  pub errors : Option (List ErrorDetail)
  pub instance_ : Option String
  pub pointer : Option String
  pub status : Option ℕ
  pub title : String
  pub type_ : ErrorType

pub record Health : Type 0 where
  pub path : Option String
  pub status : String
  pub type_ : Option String
  pub uptime : Option ℕ
  pub version : Option String
