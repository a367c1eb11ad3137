-- ===== src/Api/Json/Network.antt =====
-- The JSON methods of ContainerPort and ContainerNetwork.
use k8s_container_service_pr.Base.{String, refl, none, [], Result, ok}
use k8s_container_service_pr.Base.Int.{pos}
use k8s_container_service_pr.Api.{ContainerPort, ContainerNetwork}
use k8s_container_service_pr.Api.Json.{
  JsonLib, Additional, ◌>>=◌, read_field, read_additional, put, put_some, write_additional,
  unmarshal_list, marshal_list,
}

-- Each instance gives its type the methods Get and Set.
instance abbrev pub port_additional : Additional ContainerPort
port_additional = record {
  properties = λ a. a.additional_properties;
  with_properties = λ m a. record a { additional_properties = m };
  properties-with_properties = λ m a. refl;
}

instance abbrev pub network_additional : Additional ContainerNetwork
network_additional = record {
  properties = λ a. a.additional_properties;
  with_properties = λ m a. record a { additional_properties = m };
  properties-with_properties = λ m a. refl;
}

-- The zero values of the types.
abbrev pub zero_port : ContainerPort
zero_port = record { container_port = pos 0; visibility = ""; additional_properties = none }

abbrev pub zero_network : ContainerNetwork
zero_network = record { ip = none; ports = none; additional_properties = none }

module _ (lib : JsonLib) where
  unfoldable pub unmarshal_port : ContainerPort → String → Result String ContainerPort
  unfolding read_field read_additional
  unmarshal_port a b = do
    object ← lib.unmarshal_object b
    (port, without_port) ←
        read_field "container_port" (lib.unmarshal_int a.container_port) a.container_port object
    (visibility, rest) ←
        read_field "visibility" (lib.unmarshal_string a.visibility) a.visibility without_port
    additional ← read_additional lib a.additional_properties rest
    ok (record {
      container_port = port;
      visibility = visibility;
      additional_properties = additional;
    })

  unfoldable pub marshal_port : ContainerPort → Result String String
  unfolding write_additional
  marshal_port a = do
    with_port ← put lib "container_port" (lib.marshal_int a.container_port) []
    object ← put lib "visibility" (lib.marshal_string a.visibility) with_port
    all ← write_additional lib a.additional_properties object
    lib.marshal_object all

  unfoldable pub unmarshal_network : ContainerNetwork → String → Result String ContainerNetwork
  unfolding read_field read_additional unmarshal_port
  unmarshal_network a b = do
    object ← lib.unmarshal_object b
    (ip, without_ip) ← read_field "ip" lib.unmarshal_string_pointer a.ip object
    (ports, rest) ←
        read_field "ports" (unmarshal_list lib (unmarshal_port zero_port)) a.ports without_ip
    additional ← read_additional lib a.additional_properties rest
    ok (record { ip = ip; ports = ports; additional_properties = additional })

  unfoldable pub marshal_network : ContainerNetwork → Result String String
  unfolding write_additional marshal_port
  marshal_network a = do
    with_ip ← put_some lib "ip" lib.marshal_string a.ip []
    object ← put_some lib "ports" (marshal_list lib marshal_port) a.ports with_ip
    all ← write_additional lib a.additional_properties object
    lib.marshal_object all
