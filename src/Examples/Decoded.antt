-- ===== src/Examples/Decoded.antt =====
-- Texts that are decoded, and what becomes of them.
use k8s_container_service_pr.Base.{lookup, none, some, [], ◌∷◌, ◌≡◌, refl, ok}
use k8s_container_service_pr.Base.Int.{pos}
use k8s_container_service_pr.Kube.Memory.Selectors.{set_string, parse_set-set_string}
use k8s_container_service_pr.Api.{
  string_value, ContainerResources, ContainerNetwork, ContainerProcess,
}
use k8s_container_service_pr.Api.Json.{Object, read_field, read_raw, read_additional}
use k8s_container_service_pr.Api.Json.Resources.{
  unmarshal_cpu, zero_cpu, marshal_resources, unmarshal_resources, zero_resources,
}
use k8s_container_service_pr.Api.Json.Network.{marshal_network, unmarshal_network, zero_network}
use k8s_container_service_pr.Api.Json.Process.{
  marshal_image, unmarshal_image, zero_image, marshal_process, unmarshal_process, zero_process,
}
use k8s_container_service_pr.Api.Json.Laws.{Comes}
use k8s_container_service_pr.Api.Json.Decoded.Stable.{json_stable}
use k8s_container_service_pr.Examples.Json.{listed, int_marks, text_json, text_json_laws, image}

-- Texts with a property that is not declared, and without some that are.
abbrev image_fields : Object
image_fields = ("reference", "nginx") ∷ ("pull_policy", "Always") ∷ []

abbrev cpu_fields : Object
cpu_fields = ("max", set_string (int_marks (pos 2))) ∷ []

abbrev resources_fields : Object
resources_fields = ("cpu", set_string cpu_fields) ∷ ("gpu", "1") ∷ []

abbrev network_fields : Object
network_fields = ("ip", "10.0.0.1") ∷ []

abbrev process_fields : Object
process_fields = ("command", set_string (listed ("nginx" ∷ []))) ∷ ("workdir", "/srv") ∷ []

abbrev read_resources : ContainerResources
read_resources = record {
  cpu = record { max = pos 2; min = pos 0; additional_properties = none };
  memory = record { max = ""; min = ""; additional_properties = none };
  additional_properties = some (("gpu", string_value "1") ∷ []);
}

abbrev read_network : ContainerNetwork
read_network = record { ip = some "10.0.0.1"; ports = none; additional_properties = none }

abbrev read_process : ContainerProcess
read_process = record {
  args = none;
  command = some ("nginx" ∷ []);
  env = none;
  additional_properties = some (("workdir", string_value "/srv") ∷ []);
}

image-read : unmarshal_image text_json zero_image (set_string image_fields) ≡ ok image
unfolding unmarshal_image read_field read_additional lookup
image-read = rw (parse_set-set_string image_fields) refl

cpu-read :
    unmarshal_cpu text_json zero_cpu (set_string cpu_fields)
    ≡ ok (record { max = pos 2; min = pos 0; additional_properties = none })
unfolding unmarshal_cpu read_field read_additional lookup
cpu-read =
    rw
      (
        parse_set-set_string cpu_fields,
        read_raw,
        parse_set-set_string (int_marks (pos 2)),
        parse_set-set_string cpu_fields,
        parse_set-set_string cpu_fields,
      )
      refl

resources-read :
    unmarshal_resources text_json zero_resources (set_string resources_fields) ≡ ok read_resources
unfolding unmarshal_resources read_field read_additional lookup
resources-read =
    rw
      (
        parse_set-set_string resources_fields,
        read_raw,
        cpu-read,
        parse_set-set_string resources_fields,
        parse_set-set_string resources_fields,
      )
      refl

network-read :
    unmarshal_network text_json zero_network (set_string network_fields) ≡ ok read_network
unfolding unmarshal_network read_field read_additional lookup
network-read = rw (parse_set-set_string network_fields) refl

process-read :
    unmarshal_process text_json zero_process (set_string process_fields) ≡ ok read_process
unfolding unmarshal_process read_field read_additional lookup
process-read =
    rw (parse_set-set_string process_fields, parse_set-set_string (listed ("nginx" ∷ []))) refl

json_stable_example :
    Comes text_json_laws.IsText
      (marshal_image text_json)
      (unmarshal_image text_json zero_image)
      image
      image
    × Comes text_json_laws.IsText
        (marshal_resources text_json)
        (unmarshal_resources text_json zero_resources)
        read_resources
        read_resources
    × Comes text_json_laws.IsText
        (marshal_network text_json)
        (unmarshal_network text_json zero_network)
        read_network
        read_network
    × Comes text_json_laws.IsText
        (marshal_process text_json)
        (unmarshal_process text_json zero_process)
        read_process
        read_process
json_stable_example =
    json_stable text_json text_json_laws (set_string image_fields) (set_string resources_fields)
      (set_string network_fields) (set_string process_fields) image read_resources read_network
      read_process image-read resources-read network-read process-read
