-- ===== src/Examples/Wiring.antt =====
-- A start of the provider, its monitor and its publisher, and a request that panics.
use k8s_container_service_pr.Base.{
  ◌⊎◌, inl, ℕ, String, ◌==◌, Bool, true, false, none, some, List, [], ◌∷◌, ◌++◌, ◌≡◌, ◌≢◌, refl,
  Result, ok, err,
}
use k8s_container_service_pr.Api.Enums.{running}
use k8s_container_service_pr.Monitoring.Debouncer.{StatusEvent}
use k8s_container_service_pr.Monitoring.Publish.{Trace, publish_with_retry}
use k8s_container_service_pr.Monitoring.Nats.{NatsPublisher, Libraries, new_nats_publisher, publish}
use k8s_container_service_pr.Monitoring.Nats.Once.{ConnLaws, Sent, publish_with_retry-Sent}
use k8s_container_service_pr.Monitoring.Start.{Informers, factory_options, start}
use k8s_container_service_pr.Monitoring.Start.Laws.{Ends, start-Ends}
use k8s_container_service_pr.Apiserver.Recovery.{panics}
use k8s_container_service_pr.Apiserver.Router.{Request, Parts, serve}
use k8s_container_service_pr.Apiserver.Router.Laws.{reply, serve-reply}
use k8s_container_service_pr.Apiserver.Lifecycle.{ready, context_cancelled}
use k8s_container_service_pr.Startup.{World, monitor_config, run}
use k8s_container_service_pr.Kube.Memory.Selectors.{memory_labels}
use k8s_container_service_pr.Examples.Fixtures.{provider_config}

abbrev crashing : Parts ℕ
crashing = record {
  spec_router = ok (record {
    finds_route = λ r. r.path == "/api/v1alpha1/containers";
    validate_request = λ r. none;
  });
  paths = ok (("/api/v1alpha1/containers/health", false) ∷ ("/api/v1alpha1/containers", true) ∷ []);
  routes = λ refuse timeout r w. (record { calls = []; ending = panics "nil pointer" }, w);
}

abbrev listing : Request
listing = record {
  method = "GET";
  path = "/api/v1alpha1/containers";
  uri = "/api/v1alpha1/containers?x=1";
  query = "x=1";
  body = "";
}

serve-reply_example :
    (serve provider_config crashing listing 0 ≡ reply provider_config crashing listing 0)
    × ((p : String) → (serve provider_config crashing listing 0).run.ending ≢ panics p)
serve-reply_example = serve-reply provider_config crashing listing 0

abbrev informers : Informers
informers = record {
  deploy_indexers = none;
  pod_indexers = none;
  deploy_handlers = none;
  pod_handlers = none;
  synced = ("Deployment", true) ∷ ("Pod", false) ∷ [];
  context_done = false;
}

start-Ends_example :
    Ends
      (factory_options memory_labels (monitor_config provider_config))
      informers
      (start memory_labels (monitor_config provider_config) informers)
start-Ends_example = start-Ends memory_labels (monitor_config provider_config) informers

-- A connection that refuses as often as its state says, and then takes the messages.
abbrev Conn : Type 0
Conn = ℕ × List (String × String)

abbrev conn_publish : String → String → Conn → Result String (Unit {0}) × Conn
conn_publish subject body (ℕ.zero, sent) = (ok tt, (0, sent ++ (subject, body) ∷ []))
conn_publish subject body (ℕ.suc n, sent) = (err "disconnected", (n, sent))

abbrev libraries : Libraries Conn
libraries = record {
  new_uuid = λ w. ("uuid", w);
  now = λ w. ("2025-01-01T00:00:00Z", w);
  marshal = λ e. ok e.payload.status;
  conn_publish = conn_publish;
  conn_close = λ w. w;
}

abbrev patient : ℕ → Conn → Bool × Conn
patient ms w = (false, w)

conn_laws : ConnLaws libraries patient
conn_laws = record {
  messages = λ w. w.1;
  sent = sent;
  failed = failed;
  uuid_keeps = λ w. refl;
  now_keeps = λ w. refl;
  wait_keeps = λ ms w. refl;
}
  where
    err≢ok : ◌≡◌ {A = Result String (Unit {0})} (err "disconnected") (ok tt) → ⊥
    err≢ok h = cc

    ok≢err : {e : String} → ◌≡◌ {A = Result String (Unit {0})} (ok tt) (err e) → ⊥
    ok≢err h = cc

    sent :
        (subject body : String) (w : Conn)
        → (conn_publish subject body w).0 ≡ ok tt
        → (conn_publish subject body w).1.1 ≡ w.1 ++ (subject, body) ∷ []
    sent subject body (ℕ.zero, ms) h = refl
    sent subject body (ℕ.suc n, ms) h = absurd (err≢ok h)

    failed :
        (subject body e : String) (w : Conn)
        → (conn_publish subject body w).0 ≡ err e
        → ((conn_publish subject body w).1.1 ≡ w.1)
          ⊎ ((conn_publish subject body w).1.1 ≡ w.1 ++ (subject, body) ∷ [])
    failed subject body e (ℕ.zero, ms) h = absurd (ok≢err h)
    failed subject body e (ℕ.suc n, ms) h = inl refl

abbrev event : StatusEvent
event = record { instance_id = "c1"; status = running; message = "" }

abbrev nats : NatsPublisher
nats = record { provider_name = "k8s"; subject = "dcm.container" }

abbrev sending : Trace × Conn
sending = publish_with_retry (publish libraries nats) patient event (2, [])

publish_with_retry-Sent_example :
    Sent libraries patient conn_laws "k8s" event (2, []) sending.0 sending.1
unfolding new_nats_publisher
publish_with_retry-Sent_example =
    publish_with_retry-Sent libraries patient conn_laws (λ url. none) "nats://nats" "k8s" nats event
      (2, []) refl

abbrev world : World String String
world = record {
  parsed = ok provider_config;
  listen = λ address. none;
  bound_address = "[::]:8080";
  parse_url = λ url. some (record { scheme = "http"; host = "dcm" });
  new_dcm_client = λ url. none;
  connect = λ url. none;
  client_go = record {
    build_config_from_flags = λ path. ok path;
    in_cluster_config = ok "in-cluster";
    new_for_config = λ k. ok k;
  };
  readiness = ready;
  serve_end = context_cancelled;
  shutdown = none;
}
