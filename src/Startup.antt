-- ===== src/Startup.antt =====
-- run of cmd/k8s-container-service-provider/main.go: the parts of the provider in the order in which they
-- are started and closed.
pub mod Laws
pub mod Outfit
use k8s_container_service_pr.Base.{
  ℕ, String, Bool, true, false, Option, none, some, List, [], ◌∷◌, ◌++◌, if◌then◌else◌, ◌<>◌, quote,
  Result, ok, err,
}
use k8s_container_service_pr.Config.{Config, load}
use k8s_container_service_pr.Registration.{Url, Backoffs, new_registrar}
use k8s_container_service_pr.Kubernetes.Client.{ClientGo, new_client}
use k8s_container_service_pr.Monitoring.Nats.{new_nats_publisher}
use k8s_container_service_pr.Monitoring.Start.{MonitorConfig}
use k8s_container_service_pr.Kubernetes.Convert.{K8sConfig}
use k8s_container_service_pr.Apiserver.Lifecycle.{Readiness, ServeEnd, run_server}

-- What is closed when run returns.
pub data Resource : Type 0 where
  listener signals publisher : Resource

pub data Action : Type 0 where
  opened closed : Resource → Action
  start_registrar : Backoffs → Action
  start_monitor : MonitorConfig → Action
  serve_store : K8sConfig → Action

-- What the libraries and the server answer: the parsed environment, the errors of net.Listen,
-- of the client of DCM and of nats.Connect, url.Parse, client-go, and the parts of the server's Run.
pub record World (K C : Type 0) : Type 0 where
  pub parsed : Result String Config
  pub listen : String → Option String
  pub bound_address : String  -- ln.Addr()
  pub parse_url : String → Option Url
  pub new_dcm_client : String → Option String
  pub connect : String → Option String
  pub client_go : ClientGo K C
  pub readiness : Readiness
  pub serve_end : ServeEnd
  pub shutdown : Option String

abbrev pub Outcome : Type 0
Outcome = Result String (Unit {0}) × List Action

-- `if err != nil { return fmt.Errorf(…) }`
abbrev pub try : {A : Type 0} → String → Result String A → (A → Outcome) → Outcome
try prefix (ok a) next = next a
try prefix (err e) next = (err (prefix <> e), [])

-- A resource that is closed by a deferred call.
abbrev pub using : Resource → Outcome → Outcome
using r (result, actions) = (result, opened r ∷ actions ++ closed r ∷ [])

abbrev pub of_error : Option String → Result String (Unit {0})
of_error none = ok tt
of_error (some e) = err e

-- NewRegistrar without options.
unfoldable pub registrar : {K C : Type 0} → World K C → Config → Result String Backoffs
unfolding new_registrar
registrar world cfg =
    let url = cfg.registration_url in
    new_registrar url (world.parse_url url) (world.new_dcm_client url) []

abbrev pub monitor_config : Config → MonitorConfig
monitor_config cfg = record {
  namespace = cfg.kubernetes.namespace;
  provider_name = cfg.provider.name;
  debounce_ms = cfg.monitoring.debounce_ms;
  resync_period = cfg.monitoring.resync_period;
}

abbrev pub k8s_config : Config → K8sConfig
k8s_config cfg = record {
  namespace = cfg.kubernetes.namespace;
  external_service_type = cfg.kubernetes.external_service_type;
}

-- The server's Run, with the callback that starts the registrar and the monitor.
unfoldable pub serve : {K C : Type 0} → World K C → Config → Backoffs → Outcome
unfolding run_server
serve world cfg backoffs =
    let server =
      run_server true world.readiness world.bound_address world.serve_end world.shutdown in
    (
      server.result,
      serve_store (k8s_config cfg)
          ∷ (if server.on_ready_called
              then start_registrar backoffs ∷ start_monitor (monitor_config cfg) ∷ []
              else []),
    )

-- run
unfoldable pub run : {K C : Type 0} → World K C → Outcome
unfolding load registrar new_nats_publisher new_client serve
run world = try "initializing: " (load world.parsed) (λ cfg.
    try ("listening on " <> (cfg.server.address <> ": "))
      (of_error (world.listen cfg.server.address))
      (λ _. using listener (
        using signals (
          try "failed to create registrar: " (registrar world cfg) (λ backoffs.
            try "creating NATS publisher: "
              (new_nats_publisher world.connect cfg.nats_url cfg.provider.name)
              (λ p. using publisher (
                try "creating kubernetes client: "
                  (new_client world.client_go cfg.kubernetes.kubeconfig)
                  (λ client. serve world cfg backoffs))))))))
