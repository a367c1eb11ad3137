-- ===== src/Api/Json/Process.antt =====
-- The JSON methods of ContainerImage, ContainerEnvVar and ContainerProcess.
use k8s_container_service_pr.Base.{String, refl, none, [], Result, ok}
use k8s_container_service_pr.Api.{ContainerImage, ContainerEnvVar, ContainerProcess}
use k8s_container_service_pr.Api.Json.{
  JsonLib, Additional, ◌>>=◌, read_field, read_additional, put, put_some, write_additional,
  unmarshal_list, marshal_list,
}

-- Each instance gives its type the methods Get and Set.
instance abbrev pub image_additional : Additional ContainerImage
image_additional = record {
  properties = λ a. a.additional_properties;
  with_properties = λ m a. record a { additional_properties = m };
  properties-with_properties = λ m a. refl;
}

instance abbrev pub env_var_additional : Additional ContainerEnvVar
env_var_additional = record {
  properties = λ a. a.additional_properties;
  with_properties = λ m a. record a { additional_properties = m };
  properties-with_properties = λ m a. refl;
}

instance abbrev pub process_additional : Additional ContainerProcess
process_additional = record {
  properties = λ a. a.additional_properties;
  with_properties = λ m a. record a { additional_properties = m };
  properties-with_properties = λ m a. refl;
}

-- The zero values of the types.
abbrev pub zero_env_var : ContainerEnvVar
zero_env_var = record { name = ""; value = ""; additional_properties = none }

abbrev pub zero_image : ContainerImage
zero_image = record { reference = ""; additional_properties = none }

abbrev pub zero_process : ContainerProcess
zero_process = record { args = none; command = none; env = none; additional_properties = none }

module _ (lib : JsonLib) where
  unfoldable pub unmarshal_image : ContainerImage → String → Result String ContainerImage
  unfolding read_field read_additional
  unmarshal_image a b = do
    object ← lib.unmarshal_object b
    (reference, rest) ← read_field "reference" (lib.unmarshal_string a.reference) a.reference object
    additional ← read_additional lib a.additional_properties rest
    ok (record { reference = reference; additional_properties = additional })

  unfoldable pub marshal_image : ContainerImage → Result String String
  unfolding write_additional
  marshal_image a = do
    object ← put lib "reference" (lib.marshal_string a.reference) []
    all ← write_additional lib a.additional_properties object
    lib.marshal_object all

  unfoldable pub unmarshal_env_var : ContainerEnvVar → String → Result String ContainerEnvVar
  unfolding read_field read_additional
  unmarshal_env_var a b = do
    object ← lib.unmarshal_object b
    (name, without_name) ← read_field "name" (lib.unmarshal_string a.name) a.name object
    (value, rest) ← read_field "value" (lib.unmarshal_string a.value) a.value without_name
    additional ← read_additional lib a.additional_properties rest
    ok (record { name = name; value = value; additional_properties = additional })

  unfoldable pub marshal_env_var : ContainerEnvVar → Result String String
  unfolding write_additional
  marshal_env_var a = do
    with_name ← put lib "name" (lib.marshal_string a.name) []
    object ← put lib "value" (lib.marshal_string a.value) with_name
    all ← write_additional lib a.additional_properties object
    lib.marshal_object all

  unfoldable pub unmarshal_process : ContainerProcess → String → Result String ContainerProcess
  unfolding read_field read_additional unmarshal_env_var
  unmarshal_process a b = do
    object ← lib.unmarshal_object b
    (args, without_args) ← read_field "args" lib.unmarshal_strings a.args object
    (command, without_command) ← read_field "command" lib.unmarshal_strings a.command without_args
    (env, rest) ←
        read_field "env" (unmarshal_list lib (unmarshal_env_var zero_env_var)) a.env without_command
    additional ← read_additional lib a.additional_properties rest
    ok (record { args = args; command = command; env = env; additional_properties = additional })

  unfoldable pub marshal_process : ContainerProcess → Result String String
  unfolding write_additional marshal_env_var
  marshal_process a = do
    with_args ← put_some lib "args" lib.marshal_strings a.args []
    with_command ← put_some lib "command" lib.marshal_strings a.command with_args
    object ← put_some lib "env" (marshal_list lib marshal_env_var) a.env with_command
    all ← write_additional lib a.additional_properties object
    lib.marshal_object all
