-- ===== src/Config.antt =====
-- internal/config/config.go: the configuration and its validation. Parsing the environment into the
-- structure is the library env's, a parameter.
use k8s_container_service_pr.Base.{
  String, ◌||◌, Option, none, some, if◌then◌else◌, ◌==◌, ◌<>◌, ◌≡◌, quote, Result, ok, err, ◌⊎◌,
  arith, eq_iff,
}
use k8s_container_service_pr.Base.Int.{ℤ}

-- Durations are in nanoseconds.
pub record ServerConfig : Type 0 where
  pub address : String
  pub shutdown_timeout : ℤ
  pub read_timeout : ℤ
  pub write_timeout : ℤ
  pub idle_timeout : ℤ
  pub request_timeout : ℤ

pub record ProviderConfig : Type 0 where
  pub name : String
  pub display_name : String
  pub endpoint : String
  pub region : String
  pub zone : String

pub record KubernetesConfig : Type 0 where
  pub namespace : String
  pub kubeconfig : String
  pub external_service_type : String

pub record MonitoringConfig : Type 0 where
  pub debounce_ms : ℤ
  pub resync_period : ℤ

pub record Config : Type 0 where
  pub server : ServerConfig
  pub provider : ProviderConfig
  pub registration_url : String  -- DCMConfig
  pub kubernetes : KubernetesConfig
  pub nats_url : String  -- NATSConfig
  pub monitoring : MonitoringConfig

-- validate; `none` is a nil error.
unfoldable pub validate : Config → Option String
validate c =
    if c.kubernetes.external_service_type == "LoadBalancer"
      || c.kubernetes.external_service_type == "NodePort"
    then none
    else some (
        "invalid SP_K8S_EXTERNAL_SVC_TYPE "
        <> (quote c.kubernetes.external_service_type <> ": must be LoadBalancer or NodePort"))

abbrev checked : Config → Option String → Result String Config
checked c none = ok c
checked c (some e) = err ("loading configuration: " <> e)

-- Load, on what env.Parse makes of the environment.
unfoldable pub load : Result String Config → Result String Config
unfolding validate
load (ok c) = checked c (validate c)
load (err e) = err ("loading configuration: " <> e)

-- A loaded configuration is the parsed one, and it exposes containers by one of the two service types.
load-external_service_type :
    (parsed : Result String Config) (c : Config)
    → load parsed ≡ ok c
    → (parsed ≡ ok c)
      × ((c.kubernetes.external_service_type ≡ "LoadBalancer")
          ⊎ (c.kubernetes.external_service_type ≡ "NodePort"))
unfolding load
load-external_service_type (ok p) c h = ground (
  arith,
  eq_iff p.kubernetes.external_service_type "LoadBalancer",
  eq_iff p.kubernetes.external_service_type "NodePort",
)
load-external_service_type (err e) c h = ground arith
