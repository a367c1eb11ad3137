-- ===== src/Examples/Fixtures.antt =====
-- A library of quantities that are their texts, a request, and clusters with and without faults.
use Prim.Native.String.{compare}
use k8s_container_service_pr.Base.{String, none, some, List, [], ◌∷◌, Bool, ok}
use k8s_container_service_pr.Base.Int.{pos, itoa_ℤ}
use k8s_container_service_pr.Api.{ContainerSpec}
use k8s_container_service_pr.Api.Enums.{visibility_external, service_type_container}
use k8s_container_service_pr.Units.{QuantityLib}
use k8s_container_service_pr.Kube.Memory.{Cluster}
use k8s_container_service_pr.Config.{Config}
use k8s_container_service_pr.Kubernetes.Convert.{K8sConfig}

abbrev pub text_quantities : QuantityLib String
text_quantities = record {
  zero_quantity = "0";
  new_quantity = itoa_ℤ;
  value = λ q. pos 0;
  parse_quantity = λ s. ok s;
  to_string = λ q. q;
  cmp = compare;
}

abbrev pub node_port_config : K8sConfig
node_port_config = record { namespace = "default"; external_service_type = "NodePort" }

abbrev pub web_spec : ContainerSpec
web_spec = record {
  image = record { reference = "nginx"; additional_properties = none };
  metadata = record { labels = some (("tier", "front") ∷ []); name = "web"; namespace = none };
  network = some (record {
    ip = none;
    ports = some (
        record {
          container_port = pos 80;
          visibility = visibility_external;
          additional_properties = none;
        }
        ∷ []);
    additional_properties = none;
  });
  process = none;
  provider_hints = none;
  resources = record {
    cpu = record { max = pos 2; min = pos 1; additional_properties = none };
    memory = record { max = "2GB"; min = "1GB"; additional_properties = none };
    additional_properties = none;
  };
  service_type = service_type_container;
}

abbrev pub empty_cluster : List Bool → Cluster String
empty_cluster faults = record { deployments = []; services = []; pods = []; faults = faults }

abbrev pub provider_config : Config
provider_config = record {
  server = record {
    address = ":8080";
    shutdown_timeout = pos 15000000000;
    read_timeout = pos 15000000000;
    write_timeout = pos 15000000000;
    idle_timeout = pos 60000000000;
    request_timeout = pos 30000000000;
  };
  provider = record {
    name = "k8s";
    display_name = "";
    endpoint = "http://provider";
    region = "";
    zone = "";
  };
  registration_url = "http://dcm";
  kubernetes = record {
    namespace = "default";
    kubeconfig = "";
    external_service_type = "NodePort";
  };
  nats_url = "nats://nats";
  monitoring = record { debounce_ms = pos 500; resync_period = pos 600000000000 };
}
