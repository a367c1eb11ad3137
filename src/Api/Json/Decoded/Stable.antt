-- ===== src/Api/Json/Decoded/Stable.antt =====
-- Images and processes, and what becomes of a decoded specification.
use mathlib.Core.Path.{subst}
use k8s_container_service_pr.Base.{String, none, [], ◌∷◌, ◌≡◌, ok}
use k8s_container_service_pr.Api.{
  ContainerImage, ContainerNetwork, ContainerProcess, ContainerResources,
}
use k8s_container_service_pr.Api.Json.{JsonLib, read_field, read_additional, unmarshal_list}
use k8s_container_service_pr.Api.Json.Resources.{
  unmarshal_resources, marshal_resources, zero_resources,
}
use k8s_container_service_pr.Api.Json.Network.{unmarshal_network, marshal_network, zero_network}
use k8s_container_service_pr.Api.Json.Process.{
  unmarshal_image, marshal_image, unmarshal_env_var, unmarshal_process, marshal_process, zero_image,
  zero_env_var, zero_process,
}
use k8s_container_service_pr.Api.Json.Laws.{JsonLaws, Comes}
use k8s_container_service_pr.Api.Json.RoundTrip.Members.{AllSome, EnvVar, Image}
use k8s_container_service_pr.Api.Json.RoundTrip.Process.{ProcessParts, json_round_trip}
use k8s_container_service_pr.Api.Json.Decoded.{
  ok_inj, bind-ok, unmarshal_object-Left, read_field-Left, read_additional-IsClean,
}
use k8s_container_service_pr.Api.Json.Decoded.Parts.{
  unmarshal_resources-Resources, unmarshal_network-Network, unmarshal_env_var-EnvVar,
  unmarshal_list-AllSome, read-Holds,
}

module _ (lib : JsonLib) (laws : JsonLaws lib) where
  unmarshal_image-Image :
      (text : String) (a : ContainerImage)
      → unmarshal_image lib zero_image text ≡ ok a
      → Image lib laws a
  unfolding unmarshal_image
  unmarshal_image-Image text a h =
      let (object, got, h1) = bind-ok (lib.unmarshal_object text) _ a h in
      let (x, reference, h2) =
        bind-ok (read_field "reference" (lib.unmarshal_string "") "" object) _ a h1 in
      let (p, more, h3) = bind-ok (read_additional lib none x.1) _ a h2 in
      let (is_x, left) =
        read_field-Left lib laws [] "reference" (lib.unmarshal_string "") "" object x
          (unmarshal_object-Left lib laws text object got) reference in
      subst (Image lib laws) (ok_inj h3)
        (read_additional-IsClean lib laws ("reference" ∷ []) x.1 p more left)

  unmarshal_process-ProcessParts :
      (text : String) (a : ContainerProcess)
      → unmarshal_process lib zero_process text ≡ ok a
      → ProcessParts lib laws a
  unfolding unmarshal_process
  unmarshal_process-ProcessParts text a h =
      let strings = lib.unmarshal_strings in
      let decode = unmarshal_list lib (unmarshal_env_var lib zero_env_var) in
      let (object, got, h1) = bind-ok (lib.unmarshal_object text) _ a h in
      let (x, args, h2) = bind-ok (read_field "args" strings none object) _ a h1 in
      let (y, command, h3) = bind-ok (read_field "command" strings none x.1) _ a h2 in
      let (z, env, h4) = bind-ok (read_field "env" decode none y.1) _ a h3 in
      let (p, more, h5) = bind-ok (read_additional lib none z.1) _ a h4 in
      let (is_args, left_args) =
        read_field-Left lib laws [] "args" strings none object x
          (unmarshal_object-Left lib laws text object got) args in
      let (is_command, left_command) =
        read_field-Left lib laws ("args" ∷ []) "command" strings none x.1 y left_args command in
      let (is_env, (nodup, (free_env, (free_command, (free_args, t))))) =
        read_field-Left lib laws ("command" ∷ "args" ∷ []) "env" decode none y.1 z left_command
          env in
      subst (ProcessParts lib laws) (ok_inj h5) (
        read-Holds lib laws (AllSome (EnvVar lib laws)) decode none z.0 tt
            (unmarshal_list-AllSome lib laws (EnvVar lib laws) (unmarshal_env_var lib zero_env_var)
              (unmarshal_env_var-EnvVar lib laws))
            is_env,
        read_additional-IsClean lib laws ("args" ∷ "command" ∷ "env" ∷ []) z.1 p more
            (nodup, (free_args, (free_command, (free_env, t)))),
      )

  -- Where UnmarshalJSON reads the image, the resources, the network and the process of a
  -- specification from any texts into zero values, MarshalJSON writes each of them without an error,
  -- and UnmarshalJSON reads back what it read at first.
  pub json_stable :
      (image_text resources_text network_text process_text : String) (image : ContainerImage)
      (resources : ContainerResources) (network : ContainerNetwork) (process : ContainerProcess)
      → unmarshal_image lib zero_image image_text ≡ ok image
      → unmarshal_resources lib zero_resources resources_text ≡ ok resources
      → unmarshal_network lib zero_network network_text ≡ ok network
      → unmarshal_process lib zero_process process_text ≡ ok process
      → Comes laws.IsText (marshal_image lib) (unmarshal_image lib zero_image) image image
        × Comes laws.IsText
            (marshal_resources lib)
            (unmarshal_resources lib zero_resources)
            resources
            resources
        × Comes laws.IsText
            (marshal_network lib)
            (unmarshal_network lib zero_network)
            network
            network
        × Comes laws.IsText
            (marshal_process lib)
            (unmarshal_process lib zero_process)
            process
            process
  json_stable image_text resources_text network_text process_text image resources network process i
        r n p =
      json_round_trip lib laws image resources network process
        (unmarshal_image-Image image_text image i)
        (unmarshal_resources-Resources lib laws resources_text resources r)
        (unmarshal_network-Network lib laws network_text network n)
        (unmarshal_process-ProcessParts process_text process p)
